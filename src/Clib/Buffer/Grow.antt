-- ===== src/Clib/Buffer/Grow.antt =====
-- The doubling loop of `BufferAppend`.
use tm.Base.{ℕ, zero, suc, ◌+◌, ◌-◌, ◌*◌, ◌%◌, ◌^◌, ◌≤◌, ◌<◌, ◌≡◌, ◌⊎◌, inl, inr, arith}
use tm.Base.{some, ltb, Bool-cases}
use tm.Clib.Arena.{u32_mod}
use tm.Clib.Buffer.{grow, grow_fuel}
use native.Mathlib.Nat.{pow-suc}

-- What the loop makes of a capacity: it is enough, and it is the old one or less than twice the need.
pub record Grown (bslen len newcap c : ℕ) : Type 0 where
  pub enough : len + bslen ≤ c
  pub tight : (c ≡ newcap) ⊎ ((2 * newcap ≤ c) × (c < 2 * (len + bslen)))

-- With `fuel` rounds the loop is done if `fuel` doublings would be enough.
grow-Grown :
    (fuel bslen len newcap : ℕ)
    → len ≤ newcap
    → 0 < newcap
    → newcap < 2 ^ 63
    → len + bslen < 2 ^ 62
    → len + bslen ≤ newcap * 2 ^ fuel
    → (c : ℕ) × (grow (suc fuel) bslen len newcap ≡ some c) × Grown bslen len newcap c
unfolding grow
grow-Grown zero bslen len newcap hl hp hs hb hf = (newcap, ground arith, ground arith)
grow-Grown (suc fuel) bslen len newcap hl hp hs hb hf =
    elim (Bool-cases (ltb ((newcap + u32_mod - len) % u32_mod) bslen)) [
      | inr done ↦ (newcap, rw done, ground arith)
      | inl more ↦
          let less : newcap < len + bslen = ground arith in
          let two : newcap * 2 ^ suc fuel ≡ 2 * newcap * 2 ^ fuel = simp pow-suc (omega arith) in
          let small : newcap * 2 % u32_mod ≡ 2 * newcap = omega arith in
          let (c, e, g) =
            grow-Grown fuel bslen len (newcap * 2 % u32_mod) (omega arith) (omega arith)
              (omega arith) hb (rw small (omega arith)) in
          (c, rw more e, omega (arith, g))
    ]

-- The doubling loop of `BufferAppend` ends within its 64 rounds of fuel, from a capacity between
-- the length and 2 ^ 63 that is not 0 and for a need below 2 ^ 62, with room for the bytes in a
-- capacity that is the old one, or at least twice that and less than twice the need.
pub grow_total :
    (bslen len newcap : ℕ)
    → len ≤ newcap
    → 0 < newcap
    → newcap < 2 ^ 63
    → len + bslen < 2 ^ 62
    → (c : ℕ) × (grow grow_fuel bslen len newcap ≡ some c) × Grown bslen len newcap c
grow_total bslen len newcap hl hp hs hb = grow-Grown 63 bslen len newcap hl hp hs hb (omega arith)
