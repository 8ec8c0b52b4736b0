-- ===== src/Cnet/Unpack/Texts.antt =====
-- A string that `NetUnpack` read, as a C string.
use tm.Base.{ℕ, ◌≡◌, List, ok, inl, inr}
use tm.Clib.Arena.{Arena}
use tm.Clib.Static.{NoZero}
use tm.Clib.Str
use tm.Clib.Str.{Str}
use tm.Clib.Str.CStr.{cstr-Holds, cstr-new0}
use tm.Cnet.Unpack.Spec.{ReadsAs}

pub cstr-ReadsAs :
    (s : Str) (xs : List ℕ) (a : Arena) → ReadsAs a s xs → NoZero xs → Str.cstr s a ≡ ok (xs, a)
cstr-ReadsAs s xs a (inl h) nz = cstr-Holds s xs a h nz
cstr-ReadsAs s xs a (inr (e, f)) nz = rw (e, f) (cstr-new0 a)
