-- ===== src/Clib/Array.antt =====
-- clib.c, the array that grows in an arena by doubling. Its items are kept as values of their type in
-- place of their bytes; its blocks are taken from the arena.
pub mod Items
use tm.Base.{
  ℕ, zero, suc, ◌+◌, ◌*◌, ◌%◌, ◌^◌, List, [], ◌∷◌, ◌++◌, length, set, get_elem?, some, none,
}
use tm.Base.{ok, fault, assertion, ltb, leb, ◌==◌, if◌then◌else◌}
use tm.Clib.Arena
use tm.Clib.Arena.{Arena, M, return, ◌>>=◌, ◌>>◌, assert}

abbrev pub u16_mod : ℕ
u16_mod = 2 ^ 16

-- `Array`; `len` is the number of its items.
pub record Array (A : Type 0) : Type 0 where
  pub items : List A
  pub itemsize : ℕ
  pub cap : ℕ

-- `ArrayNew`.
unfoldable pub new : {A : Type 0} → ℕ → ℕ → M (Array A)
new cap itemsize = do
  let cap' = if cap == 0 then 32 else cap
  items ← Arena.alloc (itemsize * cap')
  return (record { items = []; itemsize = itemsize; cap = cap' })

-- `ArrayClear`.
pub clear : {A : Type 0} → Array A → Array A
clear arr = record arr { items = [] }

-- `if (a->len == a->cap)`: a block of twice the size. The capacity is 16 bits wide.
unfoldable pub enlarge : {A : Type 0} → Array A → M (Array A)
enlarge arr =
    if length arr.items == arr.cap
    then (do
      items ← Arena.alloc (arr.itemsize * arr.cap * 2)
      return (record arr { cap = arr.cap * 2 % u16_mod }))
    else return arr

-- `ArrayAppend`.
unfoldable pub append : {A : Type 0} → Array A → A → M (Array A)
append arr item = do
  assert (leb (length arr.items) arr.cap)
  arr' ← enlarge arr
  assert (ltb (length arr'.items) arr'.cap)
  return (record arr' { items = arr'.items ++ (item ∷ []) })

-- The items without the one at `index`: those behind it move to the front by one.
abbrev pub remove_at : {A : Type 0} → List A → ℕ → List A
remove_at [] index = []
remove_at (x ∷ xs) zero = xs
remove_at (x ∷ xs) (suc index) = x ∷ remove_at xs index

-- `ArrayRemove`. It reads one item behind the last one, which is behind the block where the array is
-- full; it is taken to lie in the arena still, and what is read there is written over by zeros.
unfoldable pub remove : {A : Type 0} → Array A → ℕ → Array A
remove arr index =
    if leb (length arr.items) index then arr else record arr { items = remove_at arr.items index }

-- `ArrayReplace`.
pub replace : {A : Type 0} → Array A → ℕ → A → Array A
replace arr index item =
    if leb (length arr.items) index then arr else record arr { items = set arr.items index item }

-- `ArrayItem`.
unfoldable pub item : {A : Type 0} → Array A → ℕ → M A
item arr index a = elim (get_elem? arr.items index) [ none ↦ fault assertion | some x ↦ ok (x, a) ]
