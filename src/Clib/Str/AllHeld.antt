-- ===== src/Clib/Str/AllHeld.antt =====
-- Strings that are held side by side.
use tm.Base.{◌≡◌, refl, ap, suc, ℕ, List, [], ◌∷◌, ◌++◌, length}
use tm.Clib.Arena.{Arena}
use tm.Clib.Arena.Blocks.{Extends}
use tm.Clib.Str.{Str}
use tm.Clib.Str.Held.{Holds, Holds-Extends}

-- The strings hold these texts, one each.
pub data AllHold (a : Arena) : List Str → List (List ℕ) → Type 0 where
  none_held : AllHold a [] []
  one_held :
      {s : Str} {w : List ℕ} {strs : List Str} {ws : List (List ℕ)}
      → Holds a s w
      → AllHold a strs ws
      → AllHold a (s ∷ strs) (w ∷ ws)

pub AllHold-Extends :
    {a b : Arena} {strs : List Str} {ws : List (List ℕ)}
    → Extends a b
    → AllHold a strs ws
    → AllHold b strs ws
AllHold-Extends e none_held = none_held
AllHold-Extends e (one_held h hs) = one_held (Holds-Extends e h) (AllHold-Extends e hs)

pub AllHold-append :
    {a : Arena} {strs : List Str} {ws : List (List ℕ)} {s : Str} {w : List ℕ}
    → AllHold a strs ws
    → Holds a s w
    → AllHold a (strs ++ (s ∷ [])) (ws ++ (w ∷ []))
AllHold-append none_held h = one_held h none_held
AllHold-append (one_held g hs) h = one_held g (AllHold-append hs h)

pub AllHold-length :
    {a : Arena} {strs : List Str} {ws : List (List ℕ)} → AllHold a strs ws → length strs ≡ length ws
AllHold-length none_held = refl
AllHold-length (one_held h hs) = ap suc (AllHold-length hs)
