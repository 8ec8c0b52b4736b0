-- ===== src/Tracker/Args.antt =====
-- tmtracker.c, `parse_args`.
use tm.Base.{ℕ, List, [], ◌∷◌, if◌then◌else◌}
use tm.Clib.Ctype.{atoi_u16}
use tm.Clib.Static.{cstr_equals}

-- `enum ParseArgs`.
pub data ParseArgs : Type 0 where
  sw_none sw_trackerport : ParseArgs

-- `-trackerport`.
abbrev pub trackerport_switch : List ℕ
trackerport_switch =
    b'-' ∷ b't' ∷ b'r' ∷ b'a' ∷ b'c' ∷ b'k' ∷ b'e' ∷ b'r' ∷ b'p' ∷ b'o' ∷ b'r' ∷ b't' ∷ []

-- The loop over the arguments, with `GTrackerPort`.
pub parse_loop : List (List ℕ) → ParseArgs → ℕ → ℕ
parse_loop [] state port = port
parse_loop (arg ∷ args) sw_none port =
    parse_loop args (if cstr_equals arg trackerport_switch then sw_trackerport else sw_none) port
parse_loop (arg ∷ args) sw_trackerport port = parse_loop args sw_none (atoi_u16 arg)

-- `parse_args`.
pub parse_args : List (List ℕ) → ℕ → ℕ
parse_args args port = parse_loop args sw_none port
