-- ===== src/Clib/Static.antt =====
-- clib.c, `hash16` and `staticstr_copy`, which copies a C string to a `char` array of fixed size.
use tm.Base.{ℕ, zero, suc, ◌+◌, ◌-◌, ◌*◌, ◌%◌, ◌^◌, ◌≤◌, ◌<◌, ◌≢◌, ◌≡◌, refl, sym, ap, ◌∙◌, arith}
use tm.Base.{Bool, true, false, ◌&&◌, ◌↔◌}
use tm.Base.{List, [], ◌∷◌, ◌++◌, length, take, drop, write, ltb, ◌==◌, if◌then◌else◌}
use native.Mathlib.Decide.{dec_lt, ℕ_discrete}
use tm.Base.{
  length-write, append_assoc, take-all, lt→ltb, le→ltb, write-append, length-take, length-append,
  ne→==, ==_iff,
}

-- The C string that stands at the front of some bytes: what comes before the first zero.
abbrev pub c_str : List ℕ → List ℕ
c_str [] = []
c_str (c ∷ cs) = if c == 0 then [] else c ∷ c_str cs

-- `CSTR_EQUALS`: `strcmp` gives 0.
unfoldable pub cstr_equals : List ℕ → List ℕ → Bool
cstr_equals [] [] = true
cstr_equals [] (d ∷ ds) = false
cstr_equals (c ∷ cs) [] = false
cstr_equals (c ∷ cs) (d ∷ ds) = (c == d) && cstr_equals cs ds

-- `staticstr_copy`: what it leaves in `dest`. It writes no other byte.
pub staticstr_copy : List ℕ → ℕ → List ℕ → List ℕ
staticstr_copy dest dest_size src =
    if dest_size == 0
    then dest
    else (let n = if ltb (dest_size - 1) (length src) then dest_size - 1 else length src in
        write n (0 ∷ []) (write 0 (take n src) dest))

-- The loop of `hash16`, at the `size` that it uses. A `char` is signed: its low bits stand for
-- themselves below 128, and the remainder of a negative sum is negative before it is cut to 16 bits.
pub hash_loop : List ℕ → ℕ → ℕ → ℕ
hash_loop [] size hash = hash
hash_loop (ch ∷ k) size hash = hash_loop k size ((hash * 31 + ch) % size % 2 ^ 16)

-- A size of 0 asks for all of the 16 bits.
abbrev pub initial_size : ℕ → ℕ
initial_size size = if size == 0 then 65535 + 1 else size

-- `hash16` of a text of 7-bit characters.
pub hash16 : List ℕ → ℕ → ℕ
hash16 k size = hash_loop k (initial_size size) 0

-- No byte is zero, as in every C string.
abbrev pub NoZero : List ℕ → Type 0
NoZero [] = Unit
NoZero (c ∷ cs) = (c ≢ 0) × NoZero cs

pub c_str-NoZero : (cs ms : List ℕ) → NoZero cs → c_str (cs ++ (0 ∷ ms)) ≡ cs
c_str-NoZero [] ms h = refl
c_str-NoZero (c ∷ cs) ms (h, k) = rw (ne→== c 0 h) (ap (λ t. c ∷ t) (c_str-NoZero cs ms k))

pub take-NoZero : (n : ℕ) (cs : List ℕ) → NoZero cs → NoZero (take n cs)
take-NoZero zero cs h = tt
take-NoZero (suc n) [] h = tt
take-NoZero (suc n) (c ∷ cs) (h, k) = (h, take-NoZero n cs k)

write-front :
    (xs mem : List ℕ) → length xs ≤ length mem → write 0 xs mem ≡ xs ++ drop (length xs) mem
write-front [] [] h = refl
write-front [] (m ∷ ms) h = refl
write-front (x ∷ xs) [] h = absurd (omega arith)
write-front (x ∷ xs) (m ∷ ms) h = ap (λ t. x ∷ t) (write-front xs ms (omega arith))

copied :
    (n : ℕ) (src dest : List ℕ)
    → n ≤ length src
    → suc n ≤ length dest
    → write n (0 ∷ []) (write 0 (take n src) dest) ≡ take n src ++ (0 ∷ drop (suc n) dest)
copied n src dest h k =
    let xs : List ℕ = take n src in
    let len : length xs ≡ n = omega (arith, length-take n src) in
    let len_all : length (xs ++ (0 ∷ [])) ≡ n + 1 = omega (arith, length-append xs (0 ∷ []), len) in
    let at_end : 0 + length xs ≡ n = omega (arith, len) in
    let more : n + 1 ≡ suc n = omega arith in
    ap (λ t. write t (0 ∷ []) (write 0 xs dest)) (sym at_end)
    ∙ write-append 0 xs (0 ∷ []) dest
    ∙ write-front (xs ++ (0 ∷ [])) dest (omega (arith, len_all))
    ∙ ap (λ t. xs ++ (0 ∷ []) ++ drop t dest) (len_all ∙ more)
    ∙ append_assoc xs (0 ∷ []) (drop (suc n) dest)

-- `staticstr_copy` to an array of the size it is told leaves the source there as a C string, cut
-- to what the array has room for with the zero byte.
pub staticstr_copy_lem :
    (dest : List ℕ) (size : ℕ) (src : List ℕ)
    → 0 < size
    → size ≤ length dest
    → NoZero src
    → c_str (staticstr_copy dest size src) ≡ take (size - 1) src
unfolding staticstr_copy
staticstr_copy_lem dest size src p h z =
    rw (ne→== size 0 (omega arith)) (elim (dec_lt (size - 1) (length src)) [
      | yes l ↦ rw (lt→ltb (size - 1) (length src) l) (
          ap c_str (copied (size - 1) src dest (omega arith) (omega arith))
          ∙ c_str-NoZero (take (size - 1) src) _ (take-NoZero (size - 1) src z))
      | no l ↦ rw (le→ltb (size - 1) (length src) (omega arith)) (
          ap c_str (copied (length src) src dest (omega arith) (omega arith))
          ∙ c_str-NoZero (take (length src) src) _ (take-NoZero (length src) src z)
          ∙ take-all (length src) src (omega arith)
          ∙ sym (take-all (size - 1) src (omega arith)))
    ])

-- The array stays as long as it is.
pub length-staticstr_copy :
    (dest : List ℕ) (size : ℕ) (src : List ℕ) → length (staticstr_copy dest size src) ≡ length dest
unfolding staticstr_copy
length-staticstr_copy dest size src = elim (ℕ_discrete size 0) [
  | yes e ↦ rw ((==_iff size 0).1 e)
  | no n ↦ rw (ne→== size 0 n) (length-write _ (0 ∷ []) _ ∙ length-write 0 _ dest)
]

hash_loop-lt : (k : List ℕ) (size hash : ℕ) → hash < size → hash_loop k size hash < size
unfolding hash_loop
hash_loop-lt [] size hash h = h
hash_loop-lt (c ∷ k) size hash h = hash_loop-lt k size _ (omega arith)

-- A hash is below the size that `hash16` is given, or below 2 ^ 16 for a size of 0.
pub hash16-lt : (k : List ℕ) (size : ℕ) → hash16 k size < initial_size size
unfolding hash16
hash16-lt k size = hash_loop-lt k (initial_size size) 0 (ground arith)

-- `CSTR_EQUALS` decides equality.
pub cstr_equals_iff : (cs ds : List ℕ) → (cstr_equals cs ds ≡ true) ↔ (cs ≡ ds)
unfolding cstr_equals
cstr_equals_iff [] [] = (λ h. refl, λ h. refl)
cstr_equals_iff [] (d ∷ ds) = (λ h. cc, λ h. cc)
cstr_equals_iff (c ∷ cs) [] = (λ h. cc, λ h. cc)
cstr_equals_iff (c ∷ cs) (d ∷ ds) = ground (arith, cstr_equals_iff cs ds)
