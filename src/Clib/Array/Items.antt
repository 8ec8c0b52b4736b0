-- ===== src/Clib/Array/Items.antt =====
-- What `ArrayAppend`, `ArrayRemove` and `ArrayReplace` make of an array's items.
use tm.Base.{ℕ, zero, suc, ◌+◌, ◌*◌, ◌%◌, ◌^◌, ◌≤◌, ◌<◌, ◌≡◌, refl, ◌⊎◌, arith}
use tm.Base.{
  ap, set, some, List, [], ◌∷◌, ◌++◌, length, length-append, get_elem?, ok, fault, assertion,
}
use tm.Base.{
  if◌then◌else◌, Bool-cases, Option-cases, ltb, leb, ◌==◌, ok-value, fault-ok, ◌∙◌, sym, inl, inr,
  le→leb, lt→ltb, le→ltb, ne→==, ==_iff,
}
use native.Mathlib.Decide.{dec_lt}
use tm.Clib.Arena
use tm.Clib.Arena.{Arena, ◌>>=◌, ◌>>◌, return, assert}
use tm.Clib.Arena.Blocks.{IsValid, bind_returns, alloc_fits, Extends, Extends-refl}
use tm.Clib.Array
use tm.Clib.Array.{Array, enlarge, append, remove, remove_at, replace, item, u16_mod}

-- The items are within the capacity, and a larger block can be had if it is reached.
pub record HasSpace {A : Type 0} (a : Arena) (arr : Array A) : Type 0 where
  pub valid : IsValid a
  pub within : length arr.items ≤ arr.cap
  pub some_cap : 0 < arr.cap
  pub space :
      (length arr.items < arr.cap)
      ⊎ ((arr.cap * 2 < 2 ^ 16) × (a.pos + arr.itemsize * arr.cap * 2 ≤ a.cap))

-- `ArrayAppend`, outcome.
pub record Grows {A : Type 0} (a : Arena) (arr : Array A) (x : A) (b : Arena) (arr' : Array A)
    : Type 0 where
  pub valid : IsValid b
  pub extends : Extends a b
  pub items_eq : arr'.items ≡ arr.items ++ (x ∷ [])
  pub within : length arr'.items ≤ arr'.cap
  pub same_size : arr'.itemsize ≡ arr.itemsize

pub append_room :
    {A : Type 0} (arr : Array A) (x : A) (a : Arena)
    → length arr.items < arr.cap
    → append arr x a ≡ ok (record arr { items = arr.items ++ (x ∷ []) }, a)
unfolding append enlarge
append_room arr x a h =
    rw (le→leb (length arr.items) arr.cap (omega arith)) (
      rw (ne→== (length arr.items) arr.cap (omega arith))
        (rw (lt→ltb (length arr.items) arr.cap h)))

append_doubles :
    {A : Type 0} (arr : Array A) (x : A) (a : Arena)
    → IsValid a
    → length arr.items ≡ arr.cap
    → 0 < arr.cap
    → arr.cap * 2 < 2 ^ 16
    → a.pos + arr.itemsize * arr.cap * 2 ≤ a.cap
    → append arr x a
      ≡ ok (
        record arr { items = arr.items ++ (x ∷ []); cap = arr.cap * 2 },
        record a { pos = a.pos + arr.itemsize * arr.cap * 2 },
      )
unfolding append enlarge
append_doubles arr x a v e p h fits =
    let small : arr.cap * 2 % u16_mod ≡ arr.cap * 2 = omega arith in
    rw (le→leb (length arr.items) arr.cap (omega arith)) (
      rw ((==_iff (length arr.items) arr.cap).1 e) (
        rw (alloc_fits (arr.itemsize * arr.cap * 2) a v fits, ◌>>=◌)
          (rw (small) (rw (lt→ltb (length arr.items) (arr.cap * 2) (omega arith))))))

-- `ArrayAppend`, with room in the array, or in the arena for twice its size, and a capacity
-- whose double fits 16 bits: the item is behind the others, nothing that was handed out before
-- changes, and the items are within the capacity.
pub array_append_lem :
    {A : Type 0} (arr : Array A) (x : A) (a : Arena)
    → HasSpace a arr
    → (b : Arena) × (arr' : Array A) × (append arr x a ≡ ok (arr', b)) × Grows a arr x b arr'
array_append_lem arr x a s =
    let longer : length (arr.items ++ (x ∷ [])) ≡ length arr.items + 1 =
      length-append arr.items (x ∷ []) in
    elim (dec_lt (length arr.items) arr.cap) [
      | yes l ↦ (
        a,
        record arr { items = arr.items ++ (x ∷ []) },
        append_room arr x a l,
        record {
          valid = s.valid;
          extends = Extends-refl a;
          items_eq = refl;
          within = omega (arith, longer);
          same_size = refl;
        },
      )
      | no l ↦ (
        record a { pos = a.pos + arr.itemsize * arr.cap * 2 },
        record arr { items = arr.items ++ (x ∷ []); cap = arr.cap * 2 },
        append_doubles arr x a s.valid (omega arith) s.some_cap (omega arith) (omega arith),
        record {
          valid = omega arith;
          extends = record { grows = omega arith; same_cap = refl; kept = refl };
          items_eq = refl;
          within = omega (arith, longer);
          same_size = refl;
        },
      )
    ]

-- At 2 ^ 15 items the doubled capacity is 0 in 16 bits, and the program stops at an `assert`, even
-- where the arena has the room.
pub array_append_wraps :
    {A : Type 0} (arr : Array A) (x : A) (a : Arena)
    → IsValid a
    → length arr.items ≡ 2 ^ 15
    → arr.cap ≡ 2 ^ 15
    → a.pos + arr.itemsize * 2 ^ 16 ≤ a.cap
    → append arr x a ≡ fault assertion
unfolding append enlarge
array_append_wraps arr x a v e f fits =
    rw (f, e)
      (rw (alloc_fits (arr.itemsize * 2 ^ 15 * 2) a v (omega arith), ◌>>=◌)
        (rw (le→ltb (length arr.items) 0 (omega arith))))

remove_at-front :
    {A : Type 0} (xs : List A) (i j : ℕ) → j < i → get_elem? (remove_at xs i) j ≡ get_elem? xs j
remove_at-front [] i j h = refl
remove_at-front (x ∷ xs) zero j h = absurd (omega arith)
remove_at-front (x ∷ xs) (suc i) zero h = refl
remove_at-front (x ∷ xs) (suc i) (suc j) h = remove_at-front xs i j (omega arith)

remove_at-back :
    {A : Type 0} (xs : List A) (i j : ℕ)
    → i ≤ j
    → get_elem? (remove_at xs i) j ≡ get_elem? xs (suc j)
remove_at-back [] i j h = refl
remove_at-back (x ∷ xs) zero j h = refl
remove_at-back (x ∷ xs) (suc i) zero h = absurd (omega arith)
remove_at-back (x ∷ xs) (suc i) (suc j) h = remove_at-back xs i j (omega arith)

-- `ArrayNew` in an arena with room.
pub array_new_lem :
    {A : Type 0} (cap itemsize : ℕ) (a : Arena)
    → IsValid a
    → 0 < cap
    → a.pos + itemsize * cap ≤ a.cap
    → Array.new {A = A} cap itemsize a
      ≡ ok (
        record { items = []; itemsize = itemsize; cap = cap },
        record a { pos = a.pos + itemsize * cap },
      )
unfolding Array.new
array_new_lem cap itemsize a v p fits =
    rw (ne→== cap 0 (omega arith)) (rw (alloc_fits (itemsize * cap) a v fits, ◌>>=◌))

pub item-some :
    {A : Type 0} (arr : Array A) (i : ℕ) (x : A) (a : Arena)
    → get_elem? arr.items i ≡ some x
    → item arr i a ≡ ok (x, a)
unfolding item
item-some arr i x a e = rw (item, e)

module _ {A : Type 0} where
  pub get_last : (xs : List A) (x : A) → get_elem? (xs ++ (x ∷ [])) (length xs) ≡ some x
  get_last [] x = refl
  get_last (y ∷ xs) x = get_last xs x

  pub set_last : (xs : List A) (x z : A) → set (xs ++ (x ∷ [])) (length xs) z ≡ xs ++ (z ∷ [])
  set_last [] x z = refl
  set_last (y ∷ xs) x z = ap (λ t. y ∷ t) (set_last xs x z)

-- `ArrayRemove`, for every index.
pub remove-cases :
    {A : Type 0} (arr : Array A) (i : ℕ)
    → ((remove arr i).items ≡ arr.items) ⊎ ((remove arr i).items ≡ remove_at arr.items i)
unfolding remove
remove-cases arr i = elim (Bool-cases (leb (length arr.items) i)) [
  | inl l ↦ inl (rw (remove, l) refl)
  | inr l ↦ inr (rw (remove, l) refl)
]

enlarge-items :
    {A : Type 0} (arr arr' : Array A) (a b : Arena)
    → enlarge arr a ≡ ok (arr', b)
    → arr'.items ≡ arr.items
unfolding enlarge
enlarge-items arr arr' a b h = elim (Bool-cases (length arr.items == arr.cap)) [
  | inl e ↦
      let larger : ℕ → Array _ = λ p. record arr { cap = arr.cap * 2 % u16_mod } in
      let (p, c, f, g) =
        bind_returns (Arena.alloc (arr.itemsize * arr.cap * 2)) (λ p. return (larger p)) a b arr'
          (rw (enlarge, e) at h) in
      ap (λ t. t.items) (sym (ok-value g))
  | inr e ↦ ap (λ t. t.items) (sym (ok-value (rw (enlarge, e) at h)))
]

-- `ArrayAppend` that returns has the item behind the others.
pub append-items :
    {A : Type 0} (arr arr' : Array A) (x : A) (a b : Arena)
    → append arr x a ≡ ok (arr', b)
    → arr'.items ≡ arr.items ++ (x ∷ [])
unfolding append
append-items {A = A} arr arr' x a b h =
    let added : Array A → Array A = λ r. record r { items = r.items ++ (x ∷ []) } in
    let (u, c, e, f) =
      bind_returns (assert (leb (length arr.items) arr.cap))
        (λ u. do r ← enlarge arr; assert (ltb (length r.items) r.cap); return (added r)) a b arr'
        h in
    let (r, d, g, k) =
      bind_returns (enlarge arr) (λ r. do assert (ltb (length r.items) r.cap); return (added r)) c b
        arr' f in
    let (v, d', m, n) =
      bind_returns (assert (ltb (length r.items) r.cap)) (λ v. return (added r)) d b arr' k in
    ap (λ t. t.items) (sym (ok-value n)) ∙ ap (λ l. l ++ (x ∷ [])) (enlarge-items arr r c d g)

-- `ArrayNew` that returns has no items.
pub new-items :
    {A : Type 0} (cap itemsize : ℕ) (arr : Array A) (a b : Arena)
    → Array.new cap itemsize a ≡ ok (arr, b)
    → arr.items ≡ []
unfolding Array.new
new-items {A = A} cap itemsize arr a b h =
    let cap' : ℕ = if cap == 0 then 32 else cap in
    let (p, c, f, g) =
      bind_returns (Arena.alloc (itemsize * cap'))
        (λ p. return (record { items = []; itemsize = itemsize; cap = cap' })) a b arr h in
    ap (λ t. t.items) (sym (ok-value g))

-- `ArrayItem` that returns has answered the item at the index.
pub item-items :
    {A : Type 0} (arr : Array A) (i : ℕ) (x : A) (a b : Arena)
    → item arr i a ≡ ok (x, b)
    → get_elem? arr.items i ≡ some x
unfolding item
item-items arr i x a b h = elim (Option-cases (get_elem? arr.items i)) [
  | inl e ↦ absurd (fault-ok (rw (item, e) at h))
  | inr (y, e) ↦ e ∙ ap some (ok-value (rw (item, e) at h))
]
