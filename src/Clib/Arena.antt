-- ===== src/Clib/Arena.antt =====
-- clib.c, the arena: a block of bytes that is handed out from the front, and freed as a whole.
-- A pointer into the arena is the offset from its `bs`; `u32` is `unsigned long`, 64 bits wide.
pub mod Blocks
pub mod Reads
use tm.Base.{ℕ, ◌+◌, ◌-◌, ◌%◌, ◌^◌, ◌≤◌, ◌<◌, ◌≡◌, Bool, true, false, List, [], ◌∷◌, length}
use tm.Base.{Option, none, some, Outcome, Fault, ok, fault, aborted, wild, assertion}
use tm.Base.{slice, take, write, replicate, ltb, leb, ◌==◌, if◌then◌else◌}

abbrev pub u32_mod : ℕ
u32_mod = 2 ^ 64

-- `Arena`.
pub record Arena : Type 0 where
  pub bs : List ℕ
  pub pos : ℕ
  pub cap : ℕ

-- What a call that works in an arena does: its result and the arena after it, or a fault.
abbrev pub M : Type 0 → Type 0
M A = Arena → Outcome (A × Arena)

abbrev pub return : {A : Type 0} → A → M A
return x a = ok (x, a)

infixl 5 ◌>>=◌ ◌>>◌
abbrev pub ◌>>=◌ : {A B : Type 0} → M A → (A → M B) → M B
◌>>=◌ m f a = elim (m a) [ ok (x, a') ↦ f x a' | fault e ↦ fault e ]

abbrev pub ◌>>◌ : {B : Type 0} → M (Unit {0}) → M B → M B
m >> k = m >>= λ _. k

-- A call that is given the `Arena` by value: what it takes is free again when it returns.
pub in_copy : {A : Type 0} → M A → M A
in_copy m a = elim (m a) [ ok (x, b) ↦ ok (x, record b { pos = a.pos }) | fault e ↦ fault e ]

-- A call that works in another arena, `s`.
pub on_arena : {A : Type 0} → Arena → M A → M (A × Arena)
on_arena s m a = elim (m s) [ ok (x, s') ↦ ok ((x, s'), a) | fault e ↦ fault e ]

-- `assert`.
abbrev pub assert : Bool → M (Unit {0})
assert true a = ok (tt, a)
assert false a = fault assertion

-- Reading `n` bytes at `p` and writing bytes at `p`: the two halves of `memcpy`.
pub load : ℕ → ℕ → M (List ℕ)
load p n a = if leb (p + n) (length a.bs) then ok (slice p n a.bs, a) else fault wild

pub store : ℕ → List ℕ → M (Unit {0})
store p xs a =
    if leb (p + length xs) (length a.bs)
    then ok (tt, record a { bs = write p xs a.bs })
    else fault wild

-- Reading the first `n` of the bytes at a pointer that does not lead into the arena.
pub source : List ℕ → ℕ → M (List ℕ)
source src n a = if leb n (length src) then ok (take n src, a) else fault wild

-- A pointer that may be NULL. No byte can be read through NULL.
pub load_from : Option ℕ → ℕ → M (List ℕ)
load_from none n a = if n == 0 then ok ([], a) else fault wild
load_from (some p) n a = load p n a

-- `malloc0`, where `malloc` finds the memory.
abbrev pub malloc0 : ℕ → List ℕ
malloc0 size = replicate size 0

-- `ArenaNew`.
unfoldable pub new : ℕ → Arena
new cap =
    let cap' = if cap == 0 then 1024 else cap in record { bs = malloc0 cap'; pos = 0; cap = cap' }

-- `ArenaNewAuto`.
unfoldable pub new_auto : List ℕ → ℕ → Arena
new_auto bytes bytes_size = record { bs = bytes; pos = 0; cap = bytes_size }

-- `ArenaFree`.
unfoldable pub free : Arena → Arena
free a = record { bs = []; pos = 0; cap = 0 }

-- `ArenaReset`.
unfoldable pub reset : Arena → Arena
reset a = record a { pos = 0 }

-- `ArenaAlloc`.
unfoldable pub alloc : ℕ → M ℕ
alloc size a =
    if ltb a.cap ((a.pos + size) % u32_mod)
    then fault aborted
    else ok (a.pos, record a { pos = (a.pos + size) % u32_mod })

-- `ArenaRealloc`.
pub realloc : Option ℕ → ℕ → ℕ → M ℕ
realloc oldbs oldsize newsize = do
  newbs ← alloc newsize
  xs ← load_from oldbs oldsize
  store newbs xs
  return newbs

-- `ArenaPushBytes`. Bytes behind the end of `src` cannot be read.
pub push_bytes : List ℕ → ℕ → M ℕ
push_bytes src size = do p ← alloc size; xs ← source src size; store p xs; return p

-- `ArenaGet`: what it leaves in `dest`.
pub get : ℕ → ℕ → M (List ℕ)
get offset size a =
    if ltb a.pos ((offset + size) % u32_mod) then ok (malloc0 size, a) else load offset size a
