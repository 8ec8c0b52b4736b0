-- ===== src/Clib/Arena/Blocks.antt =====
-- The arena's invariant, and what `ArenaAlloc` and its kin promise of the blocks they hand out.
use tm.Base.{Fault, ℕ, ◌+◌, ◌^◌, ◌≤◌, ◌<◌, ◌≡◌, refl, sym, ◌∙◌, ap, arith}
use tm.Base.{ne→==, List, [], none, length, length-write, length-replicate, some}
use tm.Base.{fault-ok, Outcome, ok, fault, aborted, slice, write, le→leb, take, take-all}
use tm.Base.{write-nil, slice-write_same, slice-write_before, slice-slice, length-slice}
use tm.Clib.Arena.{Arena, load, store, load_from, new, alloc, realloc}
use tm.Clib.Arena.{push_bytes, source, M, in_copy, on_arena, ◌>>=◌}

-- An arena whose block is `cap` bytes long and handed out up to `pos`. No block has 2^63 bytes.
pub record IsValid (a : Arena) : Type 0 where
  pub filled : length a.bs ≡ a.cap
  pub inside : a.pos ≤ a.cap
  pub small : a.cap < 2 ^ 63

-- `b` is `a` with more handed out: what was handed out before is as it was.
pub record Extends (a b : Arena) : Type 0 where
  pub grows : a.pos ≤ b.pos
  pub same_cap : b.cap ≡ a.cap
  pub kept : slice 0 a.pos b.bs ≡ slice 0 a.pos a.bs

pub Extends-refl : (a : Arena) → Extends a a
Extends-refl a = record { grows = omega arith; same_cap = refl; kept = refl }

pub Extends-slice :
    {a b : Arena} (p n : ℕ) → Extends a b → p + n ≤ a.pos → slice p n b.bs ≡ slice p n a.bs
Extends-slice {a} {b} p n e h =
    let z : 0 + p ≡ p = omega arith in
    rw z at (
      sym (slice-slice p n 0 a.pos b.bs h) ∙ ap (slice p n) e.kept ∙ slice-slice p n 0 a.pos a.bs h)

pub Extends-trans : {a b c : Arena} → Extends a b → Extends b c → Extends a c
Extends-trans {a} {b} {c} d e = record {
  grows = omega arith;
  same_cap = e.same_cap ∙ d.same_cap;
  kept = Extends-slice 0 a.pos e (omega arith) ∙ d.kept;
}

pub new-IsValid : (cap : ℕ) → cap < 2 ^ 63 → IsValid (new cap)
unfolding new
new-IsValid cap h = ground (arith, length-replicate {A = ℕ} cap 0, length-replicate {A = ℕ} 1024 0)

pub new_lem : (cap : ℕ) → 0 < cap → ((new cap).pos ≡ 0) × ((new cap).cap ≡ cap)
unfolding new
new_lem cap h = rw (ne→== cap 0 (omega arith)) (refl, refl)

-- Where the sum does not wrap, `ArenaAlloc` returns the block from `pos` on, which no one has, if it
-- fits, and stops the program if it does not.
pub alloc_fits :
    (size : ℕ) (a : Arena)
    → IsValid a
    → a.pos + size ≤ a.cap
    → alloc size a ≡ ok (a.pos, record a { pos = a.pos + size })
unfolding alloc
alloc_fits size a v h = ground arith

pub alloc_full :
    (size : ℕ) (a : Arena)
    → IsValid a
    → size < 2 ^ 63
    → a.cap < a.pos + size
    → alloc size a ≡ fault aborted
unfolding alloc
alloc_full size a v hs h = ground arith

pub store_inside :
    (p : ℕ) (xs : List ℕ) (a : Arena)
    → p + length xs ≤ length a.bs
    → store p xs a ≡ ok (tt, record a { bs = write p xs a.bs })
unfolding store
store_inside p xs a h = ground arith

pub load_inside : (p n : ℕ) (a : Arena) → p + n ≤ length a.bs → load p n a ≡ ok (slice p n a.bs, a)
unfolding load
load_inside p n a h = ground arith

pub load_from_inside :
    (p n : ℕ) (a : Arena) → p + n ≤ length a.bs → load_from (some p) n a ≡ ok (slice p n a.bs, a)
unfolding load_from
load_from_inside p n a h = load_inside p n a h

pub load_from_null : (a : Arena) → load_from none 0 a ≡ ok ([], a)
unfolding load_from
load_from_null a = refl

-- The arena after `size` bytes are handed out and `xs` is copied to their front.
abbrev pub placed : Arena → ℕ → List ℕ → Arena
placed a size xs = record a { bs = write a.pos xs a.bs; pos = a.pos + size }

module _ (a : Arena) (v : IsValid a) (size : ℕ) (xs : List ℕ) (fits : a.pos + size ≤ a.cap) where
  pub placed-IsValid : IsValid (placed a size xs)
  placed-IsValid = omega (arith, length-write a.pos xs a.bs)

  pub placed-Extends : Extends a (placed a size xs)
  placed-Extends = record {
    grows = omega arith;
    same_cap = refl;
    kept = slice-write_before 0 a.pos a.pos xs a.bs (omega arith);
  }

  pub placed-slice : length xs ≤ size → slice a.pos (length xs) (placed a size xs).bs ≡ xs
  placed-slice h = slice-write_same a.pos xs a.bs (omega arith)

  -- The same for a part of `xs`.
  pub placed-part :
      (i n : ℕ)
      → length xs ≤ size
      → i + n ≤ length xs
      → slice (a.pos + i) n (placed a size xs).bs ≡ slice i n xs
  placed-part i n h k =
      sym (slice-slice i n a.pos (length xs) (placed a size xs).bs k)
      ∙ ap (slice i n) (placed-slice h)

pub source_fits :
    (src : List ℕ) (n : ℕ) (a : Arena) → n ≤ length src → source src n a ≡ ok (take n src, a)
unfolding source
source_fits src n a h = rw (le→leb n (length src) h)

pub source_all : (src : List ℕ) (a : Arena) → source src (length src) a ≡ ok (src, a)
source_all src a =
    source_fits src (length src) a (omega arith)
    ∙ ap (λ t. ok (t, a)) (take-all (length src) src (omega arith))

-- `ArenaPushBytes` copies the bytes to a block of their own.
pub push_bytes_fits :
    (src : List ℕ) (a : Arena)
    → IsValid a
    → a.pos + length src ≤ a.cap
    → push_bytes src (length src) a ≡ ok (a.pos, placed a (length src) src)
unfolding push_bytes
push_bytes_fits src a v h = ground (
  arith,
  source_all src (record a { pos = a.pos + length src }),
  alloc_fits (length src) a v h,
  store_inside a.pos src (record a { pos = a.pos + length src }),
)

-- `ArenaRealloc`, from a block that is handed out to a larger one that fits, copies the old
-- bytes to a new block.
pub realloc_fits :
    (p oldsize newsize : ℕ) (a : Arena)
    → IsValid a
    → p + oldsize ≤ a.pos
    → oldsize ≤ newsize
    → a.pos + newsize ≤ a.cap
    → realloc (some p) oldsize newsize a ≡ ok (a.pos, placed a newsize (slice p oldsize a.bs))
unfolding realloc load_from
realloc_fits p oldsize newsize a v h g fits =
    let a' : Arena = record a { pos = a.pos + newsize } in
    ground (
      arith,
      alloc_fits newsize a v fits,
      load_inside p oldsize a',
      length-slice p oldsize a.bs,
      store_inside a.pos (slice p oldsize a.bs) a',
    )

-- Without an old block, it takes a new one.
pub realloc-none :
    (newsize : ℕ) (a : Arena)
    → IsValid a
    → a.pos + newsize ≤ a.cap
    → realloc none 0 newsize a ≡ ok (a.pos, record a { pos = a.pos + newsize })
unfolding realloc load_from
realloc-none newsize a v fits =
    let a' : Arena = record a { pos = a.pos + newsize } in
    ground (arith, alloc_fits newsize a v fits, store_inside a.pos [] a', write-nil a.pos a.bs)

-- A call on a copy of the arena gives what the call gives, and nothing stays handed out.
pub in_copy_lem :
    {A : Type 0} (m : M A) (x : A) (a b : Arena)
    → m a ≡ ok (x, b)
    → in_copy m a ≡ ok (x, record b { pos = a.pos })
unfolding in_copy
in_copy_lem m x a b e = rw (in_copy, e)

pub on_arena_lem :
    {A : Type 0} (s s' : Arena) (m : M A) (x : A) (a : Arena)
    → m s ≡ ok (x, s')
    → on_arena s m a ≡ ok ((x, s'), a)
unfolding on_arena
on_arena_lem s s' m x a e = rw (on_arena, e)

-- Two calls behind the same first one that do the same are the same.
bind_outcome :
    {A B : Type 0} (o : Outcome (A × Arena)) (f g : A → M B)
    → ((x : A) (b : Arena) → f x b ≡ g x b)
    → elim o as (λ z. Outcome (B × Arena)) [ ok (x, b) ↦ f x b | fault e ↦ fault e ]
      ≡ elim o as (λ z. Outcome (B × Arena)) [ ok (x, b) ↦ g x b | fault e ↦ fault e ]
bind_outcome (ok (x, b)) f g h = h x b
bind_outcome (fault e) f g h = refl

pub bind_ext :
    {A B : Type 0} (m n : M A) (f g : A → M B) (a : Arena)
    → m a ≡ n a
    → ((x : A) (b : Arena) → f x b ≡ g x b)
    → (m >>= f) a ≡ (n >>= g) a
bind_ext {B = B} m n f g a e h =
    bind_outcome (m a) f g h
    ∙ ap (λ o. elim o as (λ z. Outcome (B × Arena)) [ ok (x, b) ↦ g x b | fault e ↦ fault e ]) e

-- A call that returns has parts that return.
bind_cases :
    {A B : Type 0} (o o' : Outcome (A × Arena)) (f : A → M B) (y : B) (c : Arena)
    → o ≡ o'
    → elim o' as (λ z. Outcome (B × Arena)) [ ok (x, b) ↦ f x b | fault e ↦ fault e ] ≡ ok (y, c)
    → (x : A) × (b : Arena) × (o ≡ ok (x, b)) × (f x b ≡ ok (y, c))
bind_cases o (ok (x, b)) f y c e h = (x, b, e, h)
bind_cases o (fault z) f y c e h = absurd (fault-ok h)

pub bind_returns :
    {A B : Type 0} (m : M A) (f : A → M B) (a c : Arena) (y : B)
    → (m >>= f) a ≡ ok (y, c)
    → (x : A) × (b : Arena) × (m a ≡ ok (x, b)) × (f x b ≡ ok (y, c))
bind_returns m f a c y h = bind_cases (m a) (m a) f y c refl h

-- A call that returns, and one that does not.
pub bind_ok :
    {A B : Type 0} (m : M A) (f : A → M B) (a b : Arena) (x : A)
    → m a ≡ ok (x, b)
    → (m >>= f) a ≡ f x b
bind_ok m f a b x e = rw (e, ◌>>=◌) refl

pub bind_fault :
    {A B : Type 0} (m : M A) (f : A → M B) (a : Arena) (z : Fault)
    → m a ≡ fault z
    → (m >>= f) a ≡ fault z
bind_fault m f a z e = rw (e, ◌>>=◌) refl
