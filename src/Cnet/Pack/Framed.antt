-- ===== src/Cnet/Pack/Framed.antt =====
-- `NetPackLenV`: a message with its length in front.
use tm.Base.{
  ℕ, ◌+◌, ◌-◌, ◌/◌, ◌%◌, ◌^◌, ◌<◌, ◌≤◌, ◌≡◌, refl, sym, ap, ap₂, ◌∙◌, append_assoc, arith,
}
use tm.Base.{
  List, [], ◌∷◌, ◌++◌, length, length-append, length-write, length-slice, ok, write, slice,
}
use tm.Base.{slice-write_inside}
use tm.Clib.Arena.{Arena, ◌>>=◌}
use tm.Clib.Arena.Blocks.{store_inside}
use tm.Clib.Buffer
use tm.Clib.Buffer.{Buffer}
use tm.Clib.Buffer.Contents.{contents, Owns, HasRoom, Spares-trans}
use tm.Clib.Buffer.Append.{Appended, append_lem, Appended-append}
use tm.Clib.Buffer.Shift.{write-Spares}
use tm.Cnet.HostAddr.{htons}
use tm.Cnet.Pack.{Arg, pack, pack_len}
use tm.Cnet.Pack.Bytes.{big_endian, Encodes}
use tm.Cnet.Pack.Appends.{pack_lem}

-- A message as it goes over the wire.
abbrev pub framed : List ℕ → List ℕ
framed bs = big_endian 2 (length bs) ++ bs

-- Overwriting bytes that a buffer holds, `n` before its end.
module _ (a b : Arena) (x y : Buffer) (old new bs : List ℕ) (o : Owns a x)
    (s : Appended a x (old ++ bs) b y) (e : length new ≡ length old) where
  abbrev spot : ℕ
  spot = y.bs + y.len - length bs - length old

  abbrev patched : Arena
  patched = record b { bs = write spot new b.bs }

  spot_eq : spot ≡ y.bs + length (contents a x)
  spot_eq =
      let len_x : length (contents a x) ≡ x.len = length-slice x.bs x.len a.bs (omega arith) in
      omega (arith, len_x, s, length-append old bs)

  grown_patched : contents patched y ≡ contents a x ++ (new ++ bs)
  grown_patched =
      let c : List ℕ = contents a x in
      let len_x : length c ≡ x.len = length-slice x.bs x.len a.bs (omega arith) in
      let len_y : y.len ≡ length c + length old + length bs =
        omega (arith, len_x, s, length-append old bs) in
      let held : slice y.bs (length c + length old + length bs) b.bs ≡ c ++ old ++ bs =
        ap (λ t. slice y.bs t b.bs) (sym len_y) ∙ s.grown ∙ sym (append_assoc c old bs) in
      ap₂ (λ t u. slice y.bs t (write u new b.bs)) len_y spot_eq
      ∙ slice-write_inside y.bs c old new bs b.bs e (omega (arith, s, len_y)) held
      ∙ append_assoc c new bs

  patched-Appended : Appended a x (new ++ bs) patched y
  patched-Appended =
      let len_x : length (contents a x) ≡ x.len = length-slice x.bs x.len a.bs (omega arith) in
      let len_y : y.len ≡ length (contents a x) + length old + length bs =
        omega (arith, len_x, s, length-append old bs) in
      record {
        owns = omega (arith, s, length-write spot new b.bs);
        grown = grown_patched;
        longer = omega (arith, s, length-append old bs, length-append new bs);
        spares = Spares-trans o s.spares (
            write-Spares b y y spot new (omega (arith, spot_eq)) (omega (arith, s, spot_eq, len_y))
              refl refl);
      }

-- The two bytes of a `u16` in network order, stored by a little-endian machine.
htons_bytes : (n : ℕ) → n < 2 ^ 16 → htons n % 256 ∷ htons n / 256 ∷ [] ≡ big_endian 2 n
unfolding htons
htons_bytes n h = ground arith

pack_len_runs :
    (buf : Buffer) (fmt : List ℕ) (args : List Arg) (n : ℕ) (a b c : Arena) (x y : Buffer)
    → Buffer.append buf (0 ∷ 0 ∷ []) a ≡ ok (x, b)
    → pack x fmt args b ≡ ok ((y, n), c)
    → n < 2 ^ 16
    → y.bs + y.len ≤ length c.bs
    → n + 2 ≤ y.len
    → pack_len buf fmt args a
      ≡ ok ((y, n + 2), record c { bs = write (y.bs + y.len - n - 2) (big_endian 2 n) c.bs })
unfolding pack_len
pack_len_runs buf fmt args n a b c x y e f small fits long =
    let cut : n % 2 ^ 16 ≡ n = omega arith in
    rw (e, ◌>>=◌)
      (rw (f, ◌>>=◌)
        (rw (cut, htons_bytes n small)
          (rw (store_inside (y.bs + y.len - n - 2) (big_endian 2 n) c (omega arith), ◌>>=◌))))

-- `NetPackLen`: given room, a message shorter than 2 ^ 16 is appended with its length in front,
-- nothing else is touched, and the result counts the two bytes of the length as well.
pub pack_len_lem :
    {fmt : List ℕ} {args : List Arg} {bs : List ℕ}
    → Encodes fmt args bs
    → length bs < 2 ^ 16
    → (buf : Buffer) (n : ℕ) (a : Arena) → Owns a buf
    → HasRoom a buf (2 + length bs + n)
    → (b : Arena) × (buf' : Buffer) × (pack_len buf fmt args a ≡ ok ((buf', length bs + 2), b))
      × Appended a buf (framed bs) b buf'
      × HasRoom b buf' n
pack_len_lem {bs = bs} e small buf n a o r =
    let (b₁, x, e₁, s₁, r₁) = append_lem buf (0 ∷ 0 ∷ []) (length bs + n) a o (omega arith) in
    let (b₂, y, e₂, s₂, r₂) = pack_lem e x n b₁ s₁.owns r₁ in
    let s : Appended a buf (0 ∷ 0 ∷ bs) b₂ y = Appended-append (0 ∷ 0 ∷ []) bs o s₁ s₂ in
    (
      patched a b₂ buf y (0 ∷ 0 ∷ []) (big_endian 2 (length bs)) bs o s refl,
      y,
      pack_len_runs buf _ _ (length bs) a b₁ b₂ x y e₁ e₂ small (omega (arith, s))
          (omega (arith, s)),
      patched-Appended a b₂ buf y (0 ∷ 0 ∷ []) (big_endian 2 (length bs)) bs o s refl,
      omega arith,
    )
