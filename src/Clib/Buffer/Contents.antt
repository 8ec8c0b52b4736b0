-- ===== src/Clib/Buffer/Contents.antt =====
-- The bytes of a buffer, and what `BufferAppend`, `BufferShift` and `BufferClear` make of them.
use tm.Base.{ℕ, ◌+◌, ◌*◌, ◌^◌, ◌≤◌, ◌<◌, ◌≡◌, refl, ◌∙◌, ◌⊎◌, inl, inr}
use tm.Base.{arith, List, ◌++◌, length, slice, write, ok}
use tm.Base.{take, drop, take-take, sym, ap}
use tm.Base.{slice-write_same, slice-write_before, slice-write_after, slice-split, length-write}
use tm.Clib.Arena.{Arena, load, store}
use tm.Clib.Arena.Blocks.{IsValid}
use tm.Clib.Arena.Blocks.{store_inside, load_inside}
use tm.Clib.Buffer.{Buffer}

abbrev pub contents : Arena → Buffer → List ℕ
contents a buf = slice buf.bs buf.len a.bs

-- The buffer's block is handed out in the arena.
pub record Owns (a : Arena) (buf : Buffer) : Type 0 where
  pub valid : IsValid a
  pub inside : buf.bs + buf.cap ≤ a.pos
  pub used : buf.len ≤ buf.cap
  pub some_cap : 0 < buf.cap

-- Room for `n` more bytes, however they are split over calls of `BufferAppend`: in the buffer's
-- block, or for all the larger blocks that doubling may take.
abbrev pub HasRoom : Arena → Buffer → ℕ → Type 0
HasRoom a buf n =
    (buf.len + n < 2 ^ 62)
    × ((buf.len + n ≤ buf.cap) ⊎ (a.pos + 4 * (buf.len + n) ≤ a.cap + 2 * buf.cap))

-- What is handed out in `a` outside the block of `buf` is in `b` as it was, and the block of `buf'`
-- is that of `buf` or lies behind all that was handed out in `a`.
pub record Spares (a : Arena) (buf : Buffer) (b : Arena) (buf' : Buffer) : Type 0 where
  pub grows : a.pos ≤ b.pos
  pub same_cap : b.cap ≡ a.cap
  pub place : ((buf'.bs ≡ buf.bs) × (buf'.cap ≡ buf.cap)) ⊎ (a.pos ≤ buf'.bs)
  pub before : (p n : ℕ) → p + n ≤ buf.bs → slice p n b.bs ≡ slice p n a.bs
  pub after : (p n : ℕ) → buf.bs + buf.cap ≤ p → p + n ≤ a.pos → slice p n b.bs ≡ slice p n a.bs

pub Spares-refl : (a : Arena) (buf : Buffer) → Spares a buf a buf
Spares-refl a buf = record {
  grows = omega arith;
  same_cap = refl;
  place = inl (refl, refl);
  before = λ p n h. refl;
  after = λ p n h k. refl;
}

pub Spares-trans :
    {a b c : Arena} {x y z : Buffer} → Owns a x → Spares a x b y → Spares b y c z → Spares a x c z
Spares-trans o s t = record {
  grows = omega arith;
  same_cap = t.same_cap ∙ s.same_cap;
  place = omega arith;
  before = λ p n h. t.before p n (omega arith) ∙ s.before p n h;
  after = λ p n h k. elim s.place [
    | inl e ↦ t.after p n (omega arith) (omega arith) ∙ s.after p n h k
    | inr e ↦ t.before p n (omega arith) ∙ s.after p n h k
  ];
}

-- Storing `xs` behind the bytes of a buffer whose block has room for them.
pub store_behind :
    (a : Arena) (buf : Buffer) (xs : List ℕ)
    → Owns a buf
    → buf.len + length xs ≤ buf.cap
    → let b = record a { bs = write (buf.bs + buf.len) xs a.bs } in
      let buf' = record buf { len = buf.len + length xs } in
      (store (buf.bs + buf.len) xs a ≡ ok (tt, b))
      × Owns b buf'
      × (contents b buf' ≡ contents a buf ++ xs)
      × Spares a buf b buf'
store_behind a buf xs o h = (
  store_inside (buf.bs + buf.len) xs a (omega arith),
  omega (arith, length-write (buf.bs + buf.len) xs a.bs),
  rw slice-split (
      rw (
        slice-write_before buf.bs buf.len (buf.bs + buf.len) xs a.bs (omega arith),
        slice-write_same (buf.bs + buf.len) xs a.bs (omega arith),
      )),
  record {
    grows = omega arith;
    same_cap = refl;
    place = inl (refl, refl);
    before = λ p n k. slice-write_before p n _ xs a.bs (omega arith);
    after = λ p n k l. slice-write_after p n _ xs a.bs (omega arith);
  },
)

-- Reading bytes at the front of a buffer.
pub load_front :
    (a : Arena) (buf : Buffer) (z : ℕ)
    → Owns a buf
    → z ≤ buf.len
    → load buf.bs z a ≡ ok (take z (contents a buf), a)
load_front a buf z o h =
    load_inside buf.bs z a (omega arith)
    ∙ ap (λ t. ok (t, a)) (sym (take-take z buf.len (drop buf.bs a.bs) h))
