-- ===== src/Client/Args.antt =====
-- tm.c, `parse_args`: the switches of the command line. The texts are made in the arena of the
-- globals.
pub mod Settings
use tm.Base.{ℕ, List, [], ◌∷◌, if◌then◌else◌}
use tm.Clib.Arena.{M, return, ◌>>=◌}
use tm.Clib.Ctype.{atoi_u16}
use tm.Clib.Static.{cstr_equals}
use tm.Clib.Str
use tm.Clib.Str.{Str}

-- `GTrackerHost`, `GTrackerPort`, `GSendPort`, `GListenPort`, `GAlias` and `GHostname`.
pub record Globals : Type 0 where
  pub tracker_host : Str
  pub tracker_port : ℕ
  pub send_port : ℕ
  pub listen_port : ℕ
  pub alias : Str
  pub hostname : Str

-- `enum ParseArgs`.
pub data ParseArgs : Type 0 where
  sw_none sw_listenport sw_sendport sw_trackerhost sw_trackerport sw_alias sw_hostname : ParseArgs

-- The state behind an argument that is read in `SW_NONE`.
pub switch : List ℕ → ParseArgs
switch arg =
    if cstr_equals arg
      (b'-' ∷ b'l' ∷ b'i' ∷ b's' ∷ b't' ∷ b'e' ∷ b'n' ∷ b'p' ∷ b'o' ∷ b'r' ∷ b't' ∷ [])
    then sw_listenport
    else if cstr_equals arg (b'-' ∷ b's' ∷ b'e' ∷ b'n' ∷ b'd' ∷ b'p' ∷ b'o' ∷ b'r' ∷ b't' ∷ [])
    then sw_sendport
    else if cstr_equals arg
        (b'-' ∷ b't' ∷ b'r' ∷ b'a' ∷ b'c' ∷ b'k' ∷ b'e' ∷ b'r' ∷ b'h' ∷ b'o' ∷ b's' ∷ b't' ∷ [])
    then sw_trackerhost
    else if cstr_equals arg
        (b'-' ∷ b't' ∷ b'r' ∷ b'a' ∷ b'c' ∷ b'k' ∷ b'e' ∷ b'r' ∷ b'p' ∷ b'o' ∷ b'r' ∷ b't' ∷ [])
    then sw_trackerport
    else if cstr_equals arg (b'-' ∷ b'a' ∷ b'l' ∷ b'i' ∷ b'a' ∷ b's' ∷ [])
    then sw_alias
    else if cstr_equals arg (b'-' ∷ b'h' ∷ b'o' ∷ b's' ∷ b't' ∷ b'n' ∷ b'a' ∷ b'm' ∷ b'e' ∷ [])
    then sw_hostname
    else sw_none

-- What is done with the argument behind a switch.
pub assign_arg : ParseArgs → List ℕ → Globals → M Globals
assign_arg sw_none arg g = return g
assign_arg sw_listenport arg g = return (record g { listen_port = atoi_u16 arg })
assign_arg sw_sendport arg g = return (record g { send_port = atoi_u16 arg })
assign_arg sw_trackerport arg g = return (record g { tracker_port = atoi_u16 arg })
assign_arg sw_trackerhost arg g = do
  s ← Str.assign g.tracker_host arg
  return (record g { tracker_host = s })
assign_arg sw_alias arg g = do s ← Str.assign g.alias arg; return (record g { alias = s })
assign_arg sw_hostname arg g = do s ← Str.assign g.hostname arg; return (record g { hostname = s })

-- The loop over the arguments.
pub parse_loop : List (List ℕ) → ParseArgs → Globals → M Globals
parse_loop [] state g = return g
parse_loop (arg ∷ args) sw_none g = parse_loop args (switch arg) g
parse_loop (arg ∷ args) state g = do g' ← assign_arg state arg g; parse_loop args sw_none g'

-- `parse_args`.
pub parse_args : List (List ℕ) → Globals → M Globals
parse_args args g = parse_loop args sw_none g
