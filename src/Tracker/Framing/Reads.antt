-- ===== src/Tracker/Framing/Reads.antt =====
-- The loop cuts what is in the buffer as it is to be cut.
use tm.Base.{ℕ, zero, suc, ◌+◌, ◌*◌, ◌≤◌, ◌<◌, ◌≡◌, refl, sym, ap, ◌∙◌, Bool, true, ◌||◌}
use tm.Base.{arith, ok, List, [], ◌∷◌, ◌++◌, length, length-append, length-slice, take, drop}
use tm.Base.{take-append, drop-append, ne→==, le→leb, lt→leb}
use tm.Clib.Arena.{Arena, M, ◌>>=◌, load}
use tm.Clib.Buffer
use tm.Clib.Buffer.{Buffer}
use tm.Clib.Buffer.Contents.{load_front, contents, Owns}
use tm.Clib.Buffer.Shift.{shift_lem}
use tm.Cnet.HostAddr.{htons}
use tm.Tracker.Framing.{Reading, native_u16, read_loop, Handler}
use tm.Tracker.Framing.Splits.{Splits, no_length, closing, header, no_body, body}

htons_native :
    (x y : ℕ) (xs : List ℕ) → x < 256 → y < 256 → htons (native_u16 (x ∷ y ∷ xs)) ≡ x * 256 + y
unfolding htons
htons_native x y xs h k = omega arith

module _ {S : Type 0} (handler : Handler S) where
  -- `HandlesAll msgs s t`: the messages are handled one after the other, from the state `s` to `t`.
  abbrev pub HandlesAll : List (List ℕ) → S → S → Type 0
  HandlesAll [] s t = s ≡ t
  HandlesAll (msg ∷ msgs) s t = (u : S) × handler.Handles msg s u × HandlesAll msgs u t

  -- A run of the loop.
  abbrev pub Runs : Arena → ℕ → Buffer → ℕ → Bool → S → ℕ → List ℕ → Bool → S → Type 0
  Runs a fuel buf n eof s m rest closed t =
      (b : Arena) × (buf' : Buffer) × (read_loop handler.handle fuel
          (record { readbuf = buf; msglen = n; read_eof = eof }) s a
        ≡ ok ((record { readbuf = buf'; msglen = m; read_eof = closed || eof }, t), b))
      × Owns b buf'
      × (contents b buf' ≡ rest)

  len_contents : (a : Arena) (buf : Buffer) → Owns a buf → length (contents a buf) ≡ buf.len
  len_contents a buf o = length-slice buf.bs buf.len a.bs (omega arith)

  -- The rounds of the loop, each from what its calls come to.
  module _ (fuel : ℕ) (buf buf' : Buffer) (eof : Bool) (s : S) (a b : Arena) where
    abbrev loop : ℕ → ℕ → Buffer → S → M (Reading × S)
    loop fuel n buf s =
        read_loop handler.handle fuel (record { readbuf = buf; msglen = n; read_eof = eof }) s

    length_short :
        buf.len < 2
        → loop (suc fuel) 0 buf s a
          ≡ ok ((record { readbuf = buf; msglen = 0; read_eof = eof }, s), a)
    unfolding read_loop
    length_short l = rw (read_loop, lt→leb 2 buf.len l)

    body_short :
        (n : ℕ)
        → buf.len < n
        → loop (suc fuel) n buf s a
          ≡ ok ((record { readbuf = buf; msglen = n; read_eof = eof }, s), a)
    unfolding read_loop
    body_short n l = rw (read_loop, ne→== n 0 (omega arith), lt→leb n buf.len l)

    length_zero :
        2 ≤ buf.len
        → load buf.bs 2 a ≡ ok (0 ∷ 0 ∷ [], a)
        → loop (suc fuel) 0 buf s a
          ≡ ok ((record { readbuf = buf; msglen = 0; read_eof = true }, s), a)
    unfolding read_loop
    length_zero l loaded =
        rw (read_loop, le→leb 2 buf.len l)
          (rw (loaded, ◌>>=◌) (rw (htons_native 0 0 [] (omega arith) (omega arith))))

    length_read :
        (x y : ℕ)
        → x < 256
        → y < 256
        → 0 < x * 256 + y
        → 2 ≤ buf.len
        → load buf.bs 2 a ≡ ok (x ∷ y ∷ [], a)
        → Buffer.shift buf 2 a ≡ ok (buf', b)
        → loop (suc fuel) 0 buf s a ≡ loop fuel (x * 256 + y) buf' s b
    unfolding read_loop
    length_read x y hx hy p l loaded shifted =
        rw (read_loop, le→leb 2 buf.len l)
          (rw (loaded, ◌>>=◌)
            (rw (htons_native x y [] hx hy, ne→== (x * 256 + y) 0 (omega arith))
              (rw (shifted, ◌>>=◌) (ap (λ k. loop fuel k buf' s b) (htons_native x y [] hx hy)))))

    body_read :
        (n : ℕ) (u : S) (c : Arena)
        → 0 < n
        → n ≤ buf.len
        → handler.handle buf.bs n s a ≡ ok (u, c)
        → Buffer.shift buf n c ≡ ok (buf', b)
        → loop (suc fuel) n buf s a ≡ loop fuel 0 buf' u b
    unfolding read_loop
    body_read n u c p l handled shifted =
        rw (read_loop, ne→== n 0 (omega arith), le→leb n buf.len l)
          (rw (handled, ◌>>=◌) (rw (shifted, ◌>>=◌)))

  -- The loop that cuts messages, with one round of fuel more than bytes, and with a handler that
  -- works on the messages that are in the buffer and leaves the buffer alone: it gives the
  -- handler exactly the messages that the bytes are to be cut into, in order, keeps the rest of
  -- the bytes and the number of bytes that it waits for, and asks for the connection to be
  -- closed at a length of 0 and if it was asked before.
  pub read_loop_lem :
      (fuel : ℕ) {n m : ℕ} {xs rest : List ℕ} {msgs : List (List ℕ)} {closed : Bool}
      → Splits n xs msgs m rest closed
      → (buf : Buffer) (eof : Bool) (s t : S) (a : Arena) → Owns a buf
      → contents a buf ≡ xs
      → length xs < fuel
      → HandlesAll msgs s t
      → Runs a fuel buf n eof s m rest closed t
  read_loop_lem zero sp buf eof s t a o e f h = absurd (omega arith)
  read_loop_lem (suc fuel) (no_length xs l) buf eof s t a o e f h =
      let k : buf.len ≡ length xs = sym (len_contents a buf o) ∙ ap length e in
      (a, buf, rw (← h) (length_short fuel buf buf eof s a a (omega (arith, k))), o, e)
  read_loop_lem (suc fuel) (closing xs) buf eof s t a o e f h =
      let k : buf.len ≡ suc (suc (length xs)) = sym (len_contents a buf o) ∙ ap length e in
      let loaded : load buf.bs 2 a ≡ ok (0 ∷ 0 ∷ [], a) =
        load_front a buf 2 o (omega (arith, k)) ∙ ap (λ l. ok (take 2 l, a)) e in
      (a, buf, rw (← h) (length_zero fuel buf buf eof s a a (omega (arith, k)) loaded), o, e)
  read_loop_lem (suc fuel) (header x y {xs = xs} hx hy p sp) buf eof s t a o e f h =
      let k : buf.len ≡ suc (suc (length xs)) = sym (len_contents a buf o) ∙ ap length e in
      let loaded : load buf.bs 2 a ≡ ok (x ∷ y ∷ [], a) =
        load_front a buf 2 o (omega (arith, k)) ∙ ap (λ l. ok (take 2 l, a)) e in
      let (b, z, shifted, own, left, len, pos, sp') = shift_lem buf 2 a o in
      let (c, w, runs, r, cont) =
        read_loop_lem fuel sp z eof s t b own (left ∙ ap (drop 2) e) (omega arith) h in
      (
        c,
        w,
        length_read fuel buf z eof s a b x y hx hy p (omega (arith, k)) loaded shifted ∙ runs,
        r,
        cont,
      )
  read_loop_lem (suc fuel) (no_body n xs l) buf eof s t a o e f h =
      let k : buf.len ≡ length xs = sym (len_contents a buf o) ∙ ap length e in
      (a, buf, rw (← h) (body_short fuel buf buf eof s a a n (omega (arith, k))), o, e)
  read_loop_lem (suc fuel) (body msg {xs = xs} p sp) buf eof s t a o e f (u, hu, h) =
      let n : ℕ = length msg in
      let len_all : length (msg ++ xs) ≡ n + length xs = length-append msg xs in
      let k : buf.len ≡ n + length xs = sym (len_contents a buf o) ∙ ap length e ∙ len_all in
      let front : take n (contents a buf) ≡ msg = ap (take n) e ∙ take-append n msg xs refl in
      let (b, handled, own, same) =
        handler.keeps buf n s u a o p (omega (arith, k)) (rw front hu) in
      let (c, z, shifted, own', left, len, pos, sp') = shift_lem buf n b own in
      let (d, w, runs, r, cont) =
        read_loop_lem fuel sp z eof u t c own'
          (left ∙ ap (drop n) (same ∙ e) ∙ drop-append n msg xs refl) (omega (arith, len_all)) h in
      (
        d,
        w,
        body_read fuel buf z eof s a c n u b p (omega (arith, k)) handled shifted ∙ runs,
        r,
        cont,
      )
