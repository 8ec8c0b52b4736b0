-- ===== src/Client/Join.antt =====
-- tm.c, `array_join_strings`.
pub mod Joined
use tm.Base.{ℕ, suc, ◌-◌, List, [], ◌∷◌, take, drop}
use tm.Clib.Arena.{M, return, ◌>>=◌}
use tm.Clib.Array.{Array}
use tm.Clib.Str
use tm.Clib.Str.{Str}

-- The loop over the strings: a space behind each but the last.
pub join_loop : List Str → Str → M Str
join_loop [] outstr = return outstr
join_loop (s ∷ []) outstr = do cs ← Str.cstr s; Str.append outstr cs
join_loop (s ∷ s' ∷ strs) outstr = do
  cs ← Str.cstr s
  out₁ ← Str.append outstr cs
  out₂ ← Str.append out₁ (b' ' ∷ [])
  join_loop (s' ∷ strs) out₂

-- `array_join_strings`: the strings from index `istart` to `iend`, or to the last one.
pub array_join_strings : Array Str → ℕ → ℕ → Str → M Str
array_join_strings strs istart iend outstr = do
  out ← Str.assign outstr []
  join_loop (take (suc iend - istart) (drop istart strs.items)) out
