-- ===== src/Clib/Buffer/Append.antt =====
-- `BufferAppend`: what it appends, and that the room for it is enough.
use tm.Base.{[], ◌∷◌, sym, ◌%◌, append-nil, append_assoc, length-append}
use tm.Base.{ℕ, ◌+◌, ◌^◌, ◌≤◌, ◌<◌, ◌≡◌, refl, ap, ◌∙◌, inl, inr}
use tm.Base.{arith, List, ◌++◌, length, slice, write, ok, ltb, Bool-cases, ltb→lt}
use tm.Base.{slice-slice}
use tm.Base.{length-slice}
use tm.Clib.Arena.{Arena, ◌>>=◌}
use tm.Clib.Arena.Blocks.{IsValid, placed, placed-IsValid, placed-Extends, realloc_fits}
use tm.Clib.Arena.Blocks.{Extends, Extends-slice, placed-part}
use native.Mathlib.Nat.{add-zero}
use tm.Clib.Buffer.{append_char, Buffer, new_cap, enlarge, append}
use tm.Clib.Buffer.Grow.{Grown, grow_total}
use tm.Clib.Buffer.Contents.{
  contents, Owns, HasRoom, Spares, Spares-refl, Spares-trans, store_behind,
}

-- `BufferAppend`, given room: it succeeds, the buffer's bytes are followed by `xs`, nothing else that
-- is handed out changes, and what is left of the room is still there.
pub record Appended (a : Arena) (buf : Buffer) (xs : List ℕ) (b : Arena) (buf' : Buffer)
    : Type 0 where
  pub owns : Owns b buf'
  pub grown : contents b buf' ≡ contents a buf ++ xs
  pub longer : buf'.len ≡ buf.len + length xs
  pub spares : Spares a buf b buf'

new_cap_lem :
    (buf : Buffer) (n : ℕ) (a : Arena)
    → Owns a buf
    → buf.len + n < 2 ^ 62
    → (c : ℕ) × (new_cap buf n a ≡ ok (c, a)) × Grown n buf.len buf.cap c
unfolding new_cap
new_cap_lem buf n a o h =
    let (c, e, g) = grow_total n buf.len buf.cap (omega arith) (omega arith) (omega arith) h in
    (c, rw (e, new_cap), g)

-- The outcome of the step that makes room: the same bytes, in a block of `c` bytes.
record Enlarged (a : Arena) (buf : Buffer) (c n : ℕ) (b : Arena) (buf' : Buffer) : Type 0 where
  owns : Owns b buf'
  room : HasRoom b buf' n
  len_eq : buf'.len ≡ buf.len
  cap_eq : buf'.cap ≡ c
  same : contents b buf' ≡ contents a buf
  spares : Spares a buf b buf'

module _ (buf : Buffer) (n m c : ℕ) (a : Arena) (o : Owns a buf) (r : HasRoom a buf n) (h : m ≤ n)
    (g : Grown m buf.len buf.cap c) where
  abbrev moved : Arena
  moved = placed a c (slice buf.bs buf.cap a.bs)

  abbrev moved_buf : Buffer
  moved_buf = record buf { bs = a.pos; cap = c }

  moved-Enlarged : buf.cap < c → Enlarged a buf c n moved moved_buf
  moved-Enlarged l =
      let len_xs : length (slice buf.bs buf.cap a.bs) ≡ buf.cap =
        length-slice buf.bs buf.cap a.bs (omega arith) in
      let fits : a.pos + c ≤ a.cap = omega arith in
      let ext : Extends a moved = placed-Extends a o.valid c _ fits in
      let v : IsValid moved = placed-IsValid a o.valid c _ fits in
      record {
        owns = omega arith;
        room = omega arith;
        len_eq = refl;
        cap_eq = refl;
        same =
            rw (add-zero a.pos, add-zero buf.bs) at
              (placed-part a o.valid c _ fits 0 buf.len (omega arith) (omega arith)
                ∙ slice-slice 0 buf.len buf.bs buf.cap a.bs (omega arith));
        spares = record {
          grows = omega arith;
          same_cap = refl;
          place = inr (omega arith);
          before = λ p k q. Extends-slice p k ext (omega arith);
          after = λ p k q s. Extends-slice p k ext s;
        };
      }

  enlarge_lem :
      (b : Arena) × (buf' : Buffer) × (enlarge buf c a ≡ ok (buf', b)) × Enlarged a buf c n b buf'
  unfolding enlarge
  enlarge_lem = elim (Bool-cases (ltb buf.cap c)) [
    | inl l ↦ (
      moved,
      moved_buf,
      rw l (
          rw (
            realloc_fits buf.bs buf.cap c a o.valid (omega arith) (omega arith)
                (omega (arith, ltb→lt _ _ l)),
            ◌>>=◌,
          )),
      moved-Enlarged (ltb→lt _ _ l),
    )
    | inr l ↦ (
      a,
      buf,
      rw l,
      record {
        owns = o;
        room = r;
        len_eq = refl;
        cap_eq = ground arith;
        same = refl;
        spares = Spares-refl a buf;
      },
    )
  ]

-- `BufferAppend`, given room: it succeeds, the buffer's bytes are followed by `xs`, nothing else
-- that is handed out changes, and what is left of the room is still there.
pub append_lem :
    (buf : Buffer) (xs : List ℕ) (n : ℕ) (a : Arena)
    → Owns a buf
    → HasRoom a buf (length xs + n)
    → (b : Arena) × (buf' : Buffer) × (append buf xs a ≡ ok (buf', b))
      × Appended a buf xs b buf'
      × HasRoom b buf' n
unfolding append
append_lem buf xs n a o r =
    let (c, ce, g) = new_cap_lem buf (length xs) a o (omega arith) in
    let (b, buf', ee, e) = enlarge_lem buf (length xs + n) (length xs) c a o r (omega arith) g in
    let (se, so, sc, ss) = store_behind b buf' xs e.owns (omega (arith, e, g)) in
    (
      record b { bs = write (buf'.bs + buf'.len) xs b.bs },
      record buf' { len = buf'.len + length xs },
      ground (arith, ce, ee, se),
      record {
        owns = so;
        grown = sc ∙ ap (λ t. t ++ xs) e.same;
        longer = omega (arith, e.len_eq);
        spares = Spares-trans o e.spares ss;
      },
      omega (arith, e),
    )

pub Appended-nil : (a : Arena) (buf : Buffer) → Owns a buf → Appended a buf [] a buf
Appended-nil a buf o = record {
  owns = o;
  grown = sym (append-nil (contents a buf));
  longer = omega arith;
  spares = Spares-refl a buf;
}

-- Appending twice is appending once.
pub Appended-append :
    {a b c : Arena} {x y z : Buffer} (xs ys : List ℕ)
    → Owns a x
    → Appended a x xs b y
    → Appended b y ys c z
    → Appended a x (xs ++ ys) c z
Appended-append {a} {b} {c} {x} {y} {z} xs ys o s t = record {
  owns = t.owns;
  grown = t.grown ∙ ap (λ l. l ++ ys) s.grown ∙ append_assoc (contents a x) xs ys;
  longer = omega (arith, s, t, length-append xs ys);
  spares = Spares-trans o s.spares t.spares;
}

-- `BufferAppendChar` appends the low 8 bits.
pub append_char_lem :
    (buf : Buffer) (c n : ℕ) (a : Arena)
    → Owns a buf
    → HasRoom a buf (1 + n)
    → (b : Arena) × (buf' : Buffer) × (append_char buf c a ≡ ok (buf', b))
      × Appended a buf ((c % 256) ∷ []) b buf'
      × HasRoom b buf' n
unfolding append_char
append_char_lem buf c n a o r = append_lem buf ((c % 256) ∷ []) n a o r
