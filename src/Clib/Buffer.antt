-- ===== src/Clib/Buffer.antt =====
-- clib.c, the byte buffer that grows in an arena by doubling.
pub mod Grow
pub mod Contents
pub mod Append
pub mod Shift
use tm.Base.{ℕ, zero, suc, ◌+◌, ◌-◌, ◌*◌, ◌%◌, List, [], ◌∷◌, length, replicate}
use tm.Base.{Option, none, some, ok, fault, unfinished, ltb, leb, ◌==◌, if◌then◌else◌}
use tm.Clib.Arena
use tm.Clib.Arena.{Arena, M, return, ◌>>=◌, ◌>>◌, assert, load, store, u32_mod}

-- `Buffer`, whose `arena` is the one that its operations work in. `bs` is the offset of its block.
pub record Buffer : Type 0 where
  pub bs : ℕ
  pub len : ℕ
  pub cap : ℕ

-- A capacity of 0 asks for the default.
abbrev pub initial_cap : ℕ → ℕ
initial_cap c = if c == 0 then 1024 else c

-- `BufferNew`.
unfoldable pub new : ℕ → M Buffer
new cap = do
  p ← Arena.alloc (initial_cap cap)
  return (record { bs = p; len = 0; cap = initial_cap cap })

-- `BufferClear`.
pub clear : Buffer → M Buffer
clear buf = do store buf.bs (replicate buf.len 0); return (record buf { len = 0 })

-- `while (bslen > newcap - buf->len) newcap *= 2;`
pub grow : ℕ → ℕ → ℕ → ℕ → Option ℕ
grow zero bslen len newcap = none
grow (suc fuel) bslen len newcap =
    let rest = grow fuel bslen len (newcap * 2 % u32_mod) in
    if ltb ((newcap + u32_mod - len) % u32_mod) bslen then rest else some newcap

-- The loop doubles at most 63 times: `Grow.grow_total`.
abbrev pub grow_fuel : ℕ
grow_fuel = 64

pub new_cap : Buffer → ℕ → M ℕ
new_cap buf bslen a = elim (grow grow_fuel bslen buf.len buf.cap) [
  | none ↦ fault unfinished
  | some c ↦ ok (c, a)
]

-- The buffer in a larger block, if it is to have one.
pub enlarge : Buffer → ℕ → M Buffer
enlarge buf newcap =
    if ltb buf.cap newcap
    then (do
      p ← Arena.realloc (some buf.bs) buf.cap newcap
      return (record buf { bs = p; cap = newcap }))
    else return buf

-- `BufferAppend`.
pub append : Buffer → List ℕ → M Buffer
append buf bs = do
  assert (leb buf.len buf.cap)
  newcap ← new_cap buf (length bs)
  buf' ← enlarge buf newcap
  assert (leb (length bs) ((buf'.cap + u32_mod - buf'.len) % u32_mod))
  store (buf'.bs + buf'.len) bs
  return (record buf' { len = (buf'.len + length bs) % u32_mod })

-- `BufferAppendChar` and `BufferAppendByte`: the argument is converted to 8 bits.
pub append_char : Buffer → ℕ → M Buffer
append_char buf c = append buf ((c % 256) ∷ [])

pub append_byte : Buffer → ℕ → M Buffer
append_byte buf b = append buf ((b % 256) ∷ [])

-- `BufferShift`. The comparison with `buf->len` is unsigned, so a negative `n` would be cut like a
-- large one. C leaves open what `memcpy` does where less than half of the bytes are removed, as the
-- ranges overlap then. Here it copies from front to back, as the place is in front of the bytes.
pub shift : Buffer → ℕ → M Buffer
shift buf n = do
  assert (leb buf.len buf.cap)
  let k = if ltb buf.len n then buf.len else n
  xs ← load (buf.bs + k) (buf.len - k)
  store buf.bs xs
  store (buf.bs + (buf.len - k)) (replicate (buf.cap - (buf.len - k)) 0)
  return (record buf { len = buf.len - k })
