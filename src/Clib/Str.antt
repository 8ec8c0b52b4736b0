-- ===== src/Clib/Str.antt =====
-- clib.c, `String`: counted text that is also ended by a zero byte, in an arena.
-- A C string is the list of its bytes before the zero.
pub mod Held
pub mod AllHeld
pub mod CStr
pub mod Search
use tm.Base.{ℕ, zero, suc, ◌+◌, ◌-◌, ◌%◌, ◌^◌, Bool, true, false, not, ◌&&◌, ◌||◌}
use tm.Base.{List, [], ◌∷◌, ◌++◌, length, slice, take, drop, replicate, Option, none, some}
use tm.Base.{ltb, leb, ◌==◌, if◌then◌else◌}
use tm.Base.{ok}
use tm.Clib.Static.{c_str}
use tm.Clib.Arena
use tm.Clib.Arena.{Arena, M, return, ◌>>=◌, ◌>>◌, store, source}

abbrev pub u16_mod : ℕ
u16_mod = 2 ^ 16

-- `USHRT_MAX`.
abbrev pub ushrt_max : ℕ
ushrt_max = 65535

-- `String`: `bs` is NULL or an offset in the arena that the operations work in.
pub record Str : Type 0 where
  pub bs : Option ℕ
  pub len : ℕ

-- The bytes that a string counts.
abbrev pub text : Arena → Str → List ℕ
text a s = elim s.bs [ none ↦ [] | some p ↦ slice p s.len a.bs ]

-- `CSTR` and `CSTRP`: the bytes before the first zero.
pub cstr : Str → M (List ℕ)
cstr s a = ok (elim s.bs [ none ↦ [] | some p ↦ c_str (drop p a.bs) ], a)

-- `StringNew0`.
abbrev pub new0 : Str
new0 = record { bs = none; len = 0 }

-- `memcpy(p, xs, n); p[n] = 0;`
pub fill : ℕ → List ℕ → M (Unit {0})
fill p xs = do store p xs; store (p + length xs) (0 ∷ [])

-- `StringNew`. The count is `strlen(s)` cut to 16 bits.
pub new : List ℕ → M Str
new s = do
  let n = length s % u16_mod
  p ← Arena.alloc (n + 1)
  fill p (take n s)
  return (record { bs = some p; len = n })

-- `StringNewFromBytes`, at a `bslen` that is not negative.
pub new_from_bytes : List ℕ → ℕ → M Str
new_from_bytes bs bslen = do
  p ← Arena.alloc (bslen + 1)
  xs ← source bs bslen
  fill p xs
  return (record { bs = some p; len = bslen % u16_mod })

-- `StringDup`.
pub dup : Str → M Str
dup src = do
  p ← Arena.alloc (src.len + 1)
  xs ← Arena.load_from src.bs src.len
  fill p xs
  return (record { bs = some p; len = src.len })

-- `StringAppend`. It does nothing where the count would not fit.
pub append : Str → List ℕ → M Str
append str s = if ltb ushrt_max (str.len + length s + 1) then return str else (do
  p ← Arena.realloc str.bs str.len (str.len + length s + 1)
  fill (p + str.len) s
  return (record { bs = some p; len = (str.len + length s) % u16_mod }))

-- `StringAppendChar`: the two-byte C string is empty for the zero byte.
pub append_char : Str → ℕ → M Str
append_char str ch = append str (if ch == 0 then [] else ch ∷ [])

-- `StringAssign` and `StringAssignFromBytes`: the old bytes are left where they are.
pub assign : Str → List ℕ → M Str
assign str s = new s

pub assign_from_bytes : Str → List ℕ → ℕ → M Str
assign_from_bytes str bs bslen = new_from_bytes bs bslen

-- The inner loop of `StringSearch`: does the search string stand at the front?
unfoldable pub matches_here : List ℕ → List ℕ → Bool
matches_here [] ks = false
matches_here (c ∷ cs) [] = false
matches_here (c ∷ cs) (k ∷ []) = c == k
matches_here (c ∷ cs) (k ∷ k' ∷ ks) = (c == k) && matches_here cs (k' ∷ ks)

-- The outer loop, over the bytes from index `i` on.
unfoldable pub search_from : List ℕ → ℕ → List ℕ → Option ℕ
search_from [] i searchstr = none
search_from (c ∷ cs) i searchstr =
    let rest = search_from cs (i + 1) searchstr in
    if matches_here (c ∷ cs) searchstr then some i else rest

-- `StringSearch` on the string's bytes; `none` is -1.
pub search : List ℕ → ℕ → List ℕ → Option ℕ
unfolding search_from matches_here
search str startpos searchstr = search_from (drop startpos str) startpos searchstr

-- The comparing loop of `StringEquals`, for two of the same length.
unfoldable pub same_bytes : List ℕ → List ℕ → Bool
same_bytes [] s = true
same_bytes (c ∷ cs) [] = false
same_bytes (c ∷ cs) (d ∷ ds) = (c == d) && same_bytes cs ds

-- `StringEquals` on the string's bytes.
unfoldable pub equals : List ℕ → List ℕ → Bool
unfolding same_bytes
equals str s = if length str == length s then same_bytes str s else false
