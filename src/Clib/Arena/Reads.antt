-- ===== src/Clib/Arena/Reads.antt =====
-- `ArenaGet` reads back what `ArenaPushBytes` stored, and nothing that is not handed out.
use tm.Base.{
  ℕ, ◌+◌, ◌%◌, ◌^◌, ◌≤◌, ◌<◌, ◌≡◌, ap, ◌∙◌, arith, List, length, length-write, ok, le→ltb, lt→ltb,
  replicate,
}
use tm.Clib.Arena.{Arena, push_bytes, get, load, u32_mod}
use tm.Clib.Arena.Blocks.{IsValid, push_bytes_fits, placed, placed-slice, load_inside}

get_inside : (p n : ℕ) (a : Arena) → p + n < 2 ^ 64 → p + n ≤ a.pos → get p n a ≡ load p n a
unfolding get
get_inside p n a h k =
    let e : (p + n) % u32_mod ≡ p + n = omega arith in rw e (rw (le→ltb a.pos (p + n) k))

-- Behind what is handed out there are zeros to read.
pub get_behind :
    (p n : ℕ) (a : Arena) → p + n < 2 ^ 64 → a.pos < p + n → get p n a ≡ ok (replicate n 0, a)
unfolding get
get_behind p n a h k =
    let e : (p + n) % u32_mod ≡ p + n = omega arith in rw e (rw (lt→ltb a.pos (p + n) k))

-- `ArenaGet` reads back what `ArenaPushBytes` stored, if it fits.
pub get-push_bytes :
    (src : List ℕ) (a : Arena)
    → IsValid a
    → a.pos + length src ≤ a.cap
    → (b : Arena) × (push_bytes src (length src) a ≡ ok (a.pos, b))
      × (get a.pos (length src) b ≡ ok (src, b))
get-push_bytes src a v h =
    let b : Arena = placed a (length src) src in
    (
      b,
      push_bytes_fits src a v h,
      get_inside a.pos (length src) b (omega arith) (omega arith)
          ∙ load_inside a.pos (length src) b (omega (arith, length-write a.pos src a.bs))
          ∙ ap (λ t. ok (t, b)) (placed-slice a v (length src) src h (omega arith)),
    )
