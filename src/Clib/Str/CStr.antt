-- ===== src/Clib/Str/CStr.antt =====
-- A string that is read as a C string.
use tm.Base.{
  refl, ℕ, ◌+◌, ◌≡◌, sym, ap, ◌∙◌, List, [], ◌∷◌, ◌++◌, length, drop, take-append-drop, ok,
}
use tm.Base.{append_assoc}
use tm.Clib.Arena.{Arena}
use tm.Clib.Static.{c_str, NoZero, c_str-NoZero}
use tm.Clib.Str.{Str, cstr, new0}
use tm.Clib.Str.Held.{Holds}

front :
    {s : Str} {xs : List ℕ} {a : Arena} (h : Holds a s xs)
    → NoZero xs
    → c_str (drop h.at_ a.bs) ≡ xs
front {s} {xs} {a} h nz =
    let mem : List ℕ = drop h.at_ a.bs in
    let rest : List ℕ = drop (length xs + 1) mem in
    ap c_str (
      sym (take-append-drop (length xs + 1) mem)
      ∙ ap (λ t. t ++ rest) h.ended
      ∙ append_assoc xs (0 ∷ []) rest)
    ∙ c_str-NoZero xs rest nz

-- The C string of a string that is held is its text, if that has no zero byte.
pub cstr-Holds :
    (s : Str) (xs : List ℕ) (a : Arena) → Holds a s xs → NoZero xs → cstr s a ≡ ok (xs, a)
unfolding cstr
cstr-Holds s xs a h nz = rw h.bs_eq (ap (λ t. ok (t, a)) (front h nz))

pub cstr-new0 : (a : Arena) → cstr new0 a ≡ ok ([], a)
unfolding cstr
cstr-new0 a = refl
