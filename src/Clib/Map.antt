-- ===== src/Clib/Map.antt =====
-- clib.c, the map: an array of pointers in an arena, a key and a value in turn. The pairs are kept as
-- values here; the blocks for the array and for the keys are taken from the arena.
pub mod Pairs
pub mod Laws
pub mod Set
use tm.Base.{ℕ, zero, suc, ◌+◌, ◌*◌, ◌%◌, ◌^◌, List, [], ◌∷◌, ◌++◌, length, Option, none, some}
use tm.Base.{ltb, leb, ◌==◌, if◌then◌else◌}
use tm.Clib.Arena
use tm.Clib.Arena.{Arena, M, return, ◌>>=◌, ◌>>◌, assert}
use tm.Clib.Static.{cstr_equals}

-- `Map`. Its `len` is twice the number of the pairs.
pub record Map (V : Type 0) : Type 0 where
  pub items : List (List ℕ × V)
  pub cap : ℕ

-- `MapNew`: `cap` and the doubled `cap` are 16 bits wide, and a pointer has 8 bytes.
pub new : {V : Type 0} → ℕ → M (Map V)
new cap = do
  let cap' = (if cap == 0 then 32 else cap) * 2 % 2 ^ 16
  items ← Arena.alloc (8 * cap')
  return (record { items = []; cap = cap' })

-- `MapClear`.
pub clear : {V : Type 0} → Map V → Map V
clear m = record m { items = [] }

-- The loop of `MapSet`: the value of the first pair with the key is overwritten, if there is one.
pub overwrite : {V : Type 0} → List ℕ → V → List (List ℕ × V) → Option (List (List ℕ × V))
overwrite k v [] = none
overwrite k v (x ∷ xs) =
    let rest = overwrite k v xs in
    if cstr_equals x.0 k
    then some ((x.0, v) ∷ xs)
    else elim rest [ none ↦ none | some ys ↦ some (x ∷ ys) ]

-- `if (m->len == m->cap)`.
pub enlarge : {V : Type 0} → Map V → M (Map V)
enlarge m =
    if 2 * length m.items == m.cap
    then (do items ← Arena.alloc (8 * m.cap * 2); return (record m { cap = m.cap * 2 % 2 ^ 16 }))
    else return m

-- `MapSet`.
pub set : {V : Type 0} → Map V → List ℕ → V → M (Map V)
set m k v = assert (leb (2 * length m.items) m.cap) >> elim (overwrite k v m.items) [
  | some items ↦ return (record m { items = items })
  | none ↦ do
    m' ← enlarge m
    assert (ltb (2 * length m'.items) m'.cap)
    newk ← Arena.push_bytes (k ++ (0 ∷ [])) (length k + 1)
    return (record m' { items = m'.items ++ ((k, v) ∷ []) })
]

-- The loop of `MapGet`.
pub find : {V : Type 0} → List ℕ → List (List ℕ × V) → Option V
find k [] = none
find k (x ∷ xs) = let rest = find k xs in if cstr_equals x.0 k then some x.1 else rest

-- `MapGet`; `none` is NULL.
pub get : {V : Type 0} → Map V → List ℕ → Option V
get m k = find k m.items

-- The last of `x ∷ xs`, and the others.
abbrev pub last : {A : Type 0} → A → List A → A
last x [] = x
last x (y ∷ ys) = last y ys

abbrev pub others : {A : Type 0} → A → List A → List A
others x [] = []
others x (y ∷ ys) = x ∷ others y ys

-- The loop of `MapRemove` from some pair on: the last pair takes the place of one with the key, and
-- the loop goes on behind it.
pub remove_from : {V : Type 0} → ℕ → List ℕ → List (List ℕ × V) → List (List ℕ × V)
remove_from zero k xs = xs
remove_from (suc fuel) k [] = []
remove_from (suc fuel) k (x ∷ []) = if cstr_equals x.0 k then [] else x ∷ []
remove_from (suc fuel) k (x ∷ y ∷ ys) =
    let moved = remove_from fuel k (others y ys) in
    let rest = remove_from fuel k (y ∷ ys) in
    if cstr_equals x.0 k then last y ys ∷ moved else x ∷ rest

-- `MapRemove`. Each round leaves one pair less.
pub remove : {V : Type 0} → Map V → List ℕ → Map V
remove m k = record m { items = remove_from (length m.items) k m.items }
