-- ===== src/Base/Memory.antt =====
-- Flat memory: a list of cells that C reads and writes by ranges (`memcpy`, `memset`, `memmove`).
use Prim.Native.Nat.{ℕ, zero, suc, ◌+◌, ◌-◌, ◌≤◌}
use mathlib.Core.Path.{◌≡◌, refl, sym, ap, ap₂, ◌∙◌}
use mathlib.Core.List.{List, [], ◌∷◌, ◌++◌}
use native.Mathlib.Omega.{arith}
use tm.Base.Lists.{length, take, drop, length-take, length-drop, length-append}

module _ {ℓ} {A : Type ℓ} where
  -- The `n` cells from `off` on.
  abbrev pub slice : ℕ → ℕ → List A → List A
  slice off n mem = take n (drop off mem)

  -- The cells from `off` on are overwritten by `xs`; what would fall behind the end is dropped.
  abbrev pub write : ℕ → List A → List A → List A
  write off xs [] = []
  write zero [] (m ∷ ms) = m ∷ ms
  write zero (x ∷ xs) (m ∷ ms) = x ∷ write zero xs ms
  write (suc off) xs (m ∷ ms) = m ∷ write off xs ms

  pub length-write : (off : ℕ) (xs mem : List A) → length (write off xs mem) ≡ length mem
  length-write off xs [] = refl
  length-write zero [] (m ∷ ms) = refl
  length-write zero (x ∷ xs) (m ∷ ms) = ap suc (length-write zero xs ms)
  length-write (suc off) xs (m ∷ ms) = ap suc (length-write off xs ms)

  pub write-nil : (off : ℕ) (mem : List A) → write off [] mem ≡ mem
  write-nil off [] = refl
  write-nil zero (m ∷ ms) = refl
  write-nil (suc off) (m ∷ ms) = ap (λ t. m ∷ t) (write-nil off ms)

  pub length-slice :
      (off n : ℕ) (mem : List A) → off + n ≤ length mem → length (slice off n mem) ≡ n
  length-slice off n mem h = omega (arith, length-take n (drop off mem), length-drop off mem)

  pub take-all : (n : ℕ) (xs : List A) → length xs ≤ n → take n xs ≡ xs
  take-all zero [] h = refl
  take-all zero (x ∷ xs) h = absurd (omega arith)
  take-all (suc n) [] h = refl
  take-all (suc n) (x ∷ xs) h = ap (λ t. x ∷ t) (take-all n xs (omega arith))

  pub take-nil : (n : ℕ) → take {A = A} n [] ≡ []
  take-nil zero = refl
  take-nil (suc n) = refl

  pub take-append : (n : ℕ) (xs ys : List A) → n ≡ length xs → take n (xs ++ ys) ≡ xs
  take-append zero [] ys h = refl
  take-append zero (x ∷ xs) ys h = absurd (omega arith)
  take-append (suc n) [] ys h = absurd (omega arith)
  take-append (suc n) (x ∷ xs) ys h = ap (λ t. x ∷ t) (take-append n xs ys (omega arith))

  pub drop-append : (n : ℕ) (xs ys : List A) → n ≡ length xs → drop n (xs ++ ys) ≡ ys
  drop-append zero [] ys h = refl
  drop-append zero (x ∷ xs) ys h = absurd (omega arith)
  drop-append (suc n) [] ys h = absurd (omega arith)
  drop-append (suc n) (x ∷ xs) ys h = drop-append n xs ys (omega arith)

  pub drop-nil : (n : ℕ) (xs : List A) → length xs ≤ n → drop n xs ≡ []
  drop-nil zero [] h = refl
  drop-nil zero (x ∷ xs) h = absurd (omega arith)
  drop-nil (suc n) [] h = refl
  drop-nil (suc n) (x ∷ xs) h = drop-nil n xs (omega arith)

  pub drop-drop : (n m : ℕ) (xs : List A) → drop n (drop m xs) ≡ drop (m + n) xs
  drop-drop n zero xs = ap (λ k. drop k xs) (omega arith)
  drop-drop n (suc m) [] = drop-nil n [] (omega arith) ∙ sym (drop-nil (suc m + n) [] (omega arith))
  drop-drop n (suc m) (x ∷ xs) =
      let e : suc m + n ≡ suc (m + n) = omega arith in rw e (drop-drop n m xs)

  -- Reading back what was written.
  pub slice-write_same :
      (off : ℕ) (xs mem : List A)
      → off + length xs ≤ length mem
      → slice off (length xs) (write off xs mem) ≡ xs
  slice-write_same zero [] [] h = refl
  slice-write_same (suc off) xs [] h = absurd (omega arith)
  slice-write_same zero (x ∷ xs) [] h = absurd (omega arith)
  slice-write_same zero [] (m ∷ ms) h = refl
  slice-write_same zero (x ∷ xs) (m ∷ ms) h =
      ap (λ t. x ∷ t) (slice-write_same zero xs ms (omega arith))
  slice-write_same (suc off) xs (m ∷ ms) h = slice-write_same off xs ms (omega arith)

  -- A write leaves the cells before it alone,
  pub slice-write_before :
      (i n off : ℕ) (xs mem : List A) → i + n ≤ off → slice i n (write off xs mem) ≡ slice i n mem
  slice-write_before i n off xs [] h = refl
  slice-write_before zero zero off xs (m ∷ ms) h = refl
  slice-write_before zero (suc n) zero xs (m ∷ ms) h = absurd (omega arith)
  slice-write_before zero (suc n) (suc off) xs (m ∷ ms) h =
      ap (λ t. m ∷ t) (slice-write_before zero n off xs ms (omega arith))
  slice-write_before (suc i) n zero xs (m ∷ ms) h = absurd (omega arith)
  slice-write_before (suc i) n (suc off) xs (m ∷ ms) h =
      slice-write_before i n off xs ms (omega arith)

  -- and those after it.
  pub slice-write_after :
      (i n off : ℕ) (xs mem : List A)
      → off + length xs ≤ i
      → slice i n (write off xs mem) ≡ slice i n mem
  slice-write_after i n off xs [] h = refl
  slice-write_after zero n zero [] (m ∷ ms) h = refl
  slice-write_after zero n zero (x ∷ xs) (m ∷ ms) h = absurd (omega arith)
  slice-write_after (suc i) n zero [] (m ∷ ms) h = refl
  slice-write_after (suc i) n zero (x ∷ xs) (m ∷ ms) h =
      slice-write_after i n zero xs ms (omega arith)
  slice-write_after zero n (suc off) xs (m ∷ ms) h = absurd (omega arith)
  slice-write_after (suc i) n (suc off) xs (m ∷ ms) h =
      slice-write_after i n off xs ms (omega arith)

  -- A range of two parts.
  pub take-add : (m n : ℕ) (xs : List A) → take (m + n) xs ≡ take m xs ++ take n (drop m xs)
  take-add zero n xs = ap (λ k. take k xs) (omega arith)
  take-add (suc m) n [] = take-nil (suc m + n) ∙ sym (take-nil n)
  take-add (suc m) n (x ∷ xs) =
      let e : suc m + n ≡ suc (m + n) = omega arith in rw e (ap (λ t. x ∷ t) (take-add m n xs))

  pub slice-split :
      (off m n : ℕ) (mem : List A)
      → slice off (m + n) mem ≡ slice off m mem ++ slice (off + m) n mem
  slice-split off m n mem =
      take-add m n (drop off mem) ∙ ap (λ t. slice off m mem ++ take n t) (drop-drop m off mem)

  -- A range of a range.
  pub take-take : (m n : ℕ) (xs : List A) → m ≤ n → take m (take n xs) ≡ take m xs
  take-take zero n xs h = refl
  take-take (suc m) zero xs h = absurd (omega arith)
  take-take (suc m) (suc n) [] h = refl
  take-take (suc m) (suc n) (x ∷ xs) h = ap (λ t. x ∷ t) (take-take m n xs (omega arith))

  pub drop-take : (m n : ℕ) (xs : List A) → drop m (take (m + n) xs) ≡ take n (drop m xs)
  drop-take zero n xs = ap (λ k. take k xs) (omega arith)
  drop-take (suc m) n [] = ap (drop (suc m)) (take-nil (suc m + n)) ∙ sym (take-nil n)
  drop-take (suc m) n (x ∷ xs) =
      let e : suc m + n ≡ suc (m + n) = omega arith in rw e (drop-take m n xs)

  pub slice-slice :
      (i k off n : ℕ) (mem : List A)
      → i + k ≤ n
      → slice i k (slice off n mem) ≡ slice (off + i) k mem
  slice-slice i k off n mem h =
      ap (λ t. take k (drop i (take t (drop off mem)))) (omega arith)
      ∙ ap (take k) (drop-take i (n - i) (drop off mem))
      ∙ take-take k (n - i) (drop i (drop off mem)) (omega arith)
      ∙ ap (take k) (drop-drop i off mem)

  -- What is left of a range behind its first cells.
  pub drop-slice :
      (k off n : ℕ) (mem : List A) → k ≤ n → drop k (slice off n mem) ≡ slice (off + k) (n - k) mem
  drop-slice k off n mem h =
      ap (λ t. drop k (take t (drop off mem))) (omega arith)
      ∙ drop-take k (n - k) (drop off mem)
      ∙ ap (take (n - k)) (drop-drop k off mem)

  drop-slice_at :
      (k off n : ℕ) (mem : List A) → drop k (slice off (k + n) mem) ≡ slice (off + k) n mem
  drop-slice_at k off n mem = drop-take k n (drop off mem) ∙ ap (take n) (drop-drop k off mem)

  -- Two writes, one behind the other, are one.
  pub write-append :
      (off : ℕ) (xs ys mem : List A)
      → write (off + length xs) ys (write off xs mem) ≡ write off (xs ++ ys) mem
  write-append off xs ys [] = refl
  write-append zero [] ys (m ∷ ms) = refl
  write-append zero (x ∷ xs) ys (m ∷ ms) =
      let e : 0 + suc (length xs) ≡ suc (0 + length xs) = omega arith in
      rw e (ap (λ t. x ∷ t) (write-append zero xs ys ms))
  write-append (suc off) xs ys (m ∷ ms) =
      let e : suc off + length xs ≡ suc (off + length xs) = omega arith in
      rw e (ap (λ t. m ∷ t) (write-append off xs ys ms))

  -- Part of a range is overwritten.
  pub slice-write_inside :
      (off : ℕ) (xs ys ys' zs mem : List A)
      → length ys' ≡ length ys
      → off + (length xs + length ys + length zs) ≤ length mem
      → slice off (length xs + length ys + length zs) mem ≡ xs ++ ys ++ zs
      → slice off (length xs + length ys + length zs) (write (off + length xs) ys' mem)
        ≡ xs ++ ys' ++ zs
  slice-write_inside off xs ys ys' zs mem e fits h =
      let m : ℕ = length xs + length ys in
      let front : slice off m mem ≡ xs ++ ys =
        sym (take-take m (m + length zs) (drop off mem) (omega arith))
        ∙ ap (take m) h
        ∙ take-append m (xs ++ ys) zs (omega (arith, length-append xs ys)) in
      let first : slice off (length xs) mem ≡ xs =
        sym (take-take (length xs) m (drop off mem) (omega arith))
        ∙ ap (take (length xs)) front
        ∙ take-append (length xs) xs ys refl in
      let last : slice (off + m) (length zs) mem ≡ zs =
        sym (drop-slice_at m off (length zs) mem)
        ∙ ap (drop m) h
        ∙ drop-append m (xs ++ ys) zs (omega (arith, length-append xs ys)) in
      slice-split off m (length zs) _
      ∙ ap₂ ◌++◌
          (slice-split off (length xs) (length ys) _
            ∙ ap₂ ◌++◌
                (slice-write_before off (length xs) (off + length xs) ys' mem (omega arith) ∙ first)
                (rw (← e) (slice-write_same (off + length xs) ys' mem (omega arith))))
          (slice-write_after (off + m) (length zs) (off + length xs) ys' mem (omega arith) ∙ last)
