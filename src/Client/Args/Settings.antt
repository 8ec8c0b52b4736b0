-- ===== src/Client/Args/Settings.antt =====
-- What `parse_args` makes of a command line.
use tm.Base.{
  ℕ, ◌+◌, ◌≤◌, ◌<◌, ◌≡◌, refl, ap, ◌≢◌, ◌⊎◌, inl, inr, ◌∙◌, arith, List, [], ◌∷◌, length, ok,
}
use tm.Base.{same_word, same_word_iff, same_test, look_up}
use tm.Clib.Static.{cstr_equals, cstr_equals_iff}
use tm.Clib.Arena.{Arena, ◌>>=◌}
use tm.Clib.Arena.Blocks.{IsValid, Extends, Extends-refl, Extends-trans}
use tm.Clib.Ctype.{atoi_u16}
use tm.Clib.Str.Held.{Holds, Holds-Extends, assign_lem}
use tm.Client.Args.{
  Globals, ParseArgs, sw_none, sw_listenport, sw_sendport, sw_trackerhost, sw_trackerport, sw_alias,
  sw_hostname, switch, assign_arg, parse_loop, parse_args,
}

-- The switches.
abbrev pub switches : List (List ℕ × ParseArgs)
switches =
    (b'-' ∷ b'l' ∷ b'i' ∷ b's' ∷ b't' ∷ b'e' ∷ b'n' ∷ b'p' ∷ b'o' ∷ b'r' ∷ b't' ∷ [], sw_listenport)
    ∷ (b'-' ∷ b's' ∷ b'e' ∷ b'n' ∷ b'd' ∷ b'p' ∷ b'o' ∷ b'r' ∷ b't' ∷ [], sw_sendport)
    ∷ (
      b'-' ∷ b't' ∷ b'r' ∷ b'a' ∷ b'c' ∷ b'k' ∷ b'e' ∷ b'r' ∷ b'h' ∷ b'o' ∷ b's' ∷ b't' ∷ [],
      sw_trackerhost,
    )
    ∷ (
      b'-' ∷ b't' ∷ b'r' ∷ b'a' ∷ b'c' ∷ b'k' ∷ b'e' ∷ b'r' ∷ b'p' ∷ b'o' ∷ b'r' ∷ b't' ∷ [],
      sw_trackerport,
    )
    ∷ (b'-' ∷ b'a' ∷ b'l' ∷ b'i' ∷ b'a' ∷ b's' ∷ [], sw_alias)
    ∷ (b'-' ∷ b'h' ∷ b'o' ∷ b's' ∷ b't' ∷ b'n' ∷ b'a' ∷ b'm' ∷ b'e' ∷ [], sw_hostname)
    ∷ []

abbrev pub named : List ℕ → ParseArgs
named = look_up sw_none switches

cstr-same : (arg w : List ℕ) → cstr_equals arg w ≡ same_word arg w
cstr-same arg w =
    same_test (cstr_equals arg w) (same_word arg w) (cstr_equals_iff arg w) (same_word_iff arg w)

-- The tests of `parse_args` know these switches, and no others.
switch_lem : (arg : List ℕ) → switch arg ≡ named arg
unfolding switch
switch_lem arg =
    rw
      (
        cstr-same arg
            (b'-' ∷ b'l' ∷ b'i' ∷ b's' ∷ b't' ∷ b'e' ∷ b'n' ∷ b'p' ∷ b'o' ∷ b'r' ∷ b't' ∷ []),
        cstr-same arg (b'-' ∷ b's' ∷ b'e' ∷ b'n' ∷ b'd' ∷ b'p' ∷ b'o' ∷ b'r' ∷ b't' ∷ []),
        cstr-same arg (
            b'-' ∷ b't' ∷ b'r' ∷ b'a' ∷ b'c' ∷ b'k' ∷ b'e' ∷ b'r' ∷ b'h' ∷ b'o' ∷ b's' ∷ b't' ∷ []),
        cstr-same arg (
            b'-' ∷ b't' ∷ b'r' ∷ b'a' ∷ b'c' ∷ b'k' ∷ b'e' ∷ b'r' ∷ b'p' ∷ b'o' ∷ b'r' ∷ b't' ∷ []),
        cstr-same arg (b'-' ∷ b'a' ∷ b'l' ∷ b'i' ∷ b'a' ∷ b's' ∷ []),
        cstr-same arg (b'-' ∷ b'h' ∷ b'o' ∷ b's' ∷ b't' ∷ b'n' ∷ b'a' ∷ b'm' ∷ b'e' ∷ []),
      )
      refl

-- A switch with the argument behind it.
pub record Setting : Type 0 where
  pub name : ParseArgs
  pub value : List ℕ

abbrev pub pick : ParseArgs → List ℕ → List Setting → List Setting → List Setting
pick sw_none value skipped taken = skipped
pick state value skipped taken = record { name = state; value = value } ∷ taken

-- The settings of a command line: a switch takes the argument behind it, whatever that is; other
-- arguments, and a switch at the end, say nothing.
abbrev pub settings_of : List (List ℕ) → List Setting
settings_of [] = []
settings_of (arg ∷ []) = []
settings_of (arg ∷ value ∷ args) =
    pick (named arg) value (settings_of (value ∷ args)) (settings_of args)

-- The globals with their texts as values.
pub record Config : Type 0 where
  pub tracker_host : List ℕ
  pub tracker_port : ℕ
  pub send_port : ℕ
  pub listen_port : ℕ
  pub alias : List ℕ
  pub hostname : List ℕ

abbrev pub configure : Setting → Config → Config
configure s c = elim s.name [
  | sw_none ↦ c
  | sw_listenport ↦ record c { listen_port = atoi_u16 s.value }
  | sw_sendport ↦ record c { send_port = atoi_u16 s.value }
  | sw_trackerhost ↦ record c { tracker_host = s.value }
  | sw_trackerport ↦ record c { tracker_port = atoi_u16 s.value }
  | sw_alias ↦ record c { alias = s.value }
  | sw_hostname ↦ record c { hostname = s.value }
]

-- One after the other, so that of two for the same global the last one counts.
abbrev pub configure_all : List Setting → Config → Config
configure_all [] c = c
configure_all (s ∷ ss) c = configure_all ss (configure s c)

-- The globals are those of `c`, and their texts are in the arena.
pub record Shows (a : Arena) (g : Globals) (c : Config) : Type 0 where
  pub tracker_host : Holds a g.tracker_host c.tracker_host
  pub tracker_port : g.tracker_port ≡ c.tracker_port
  pub send_port : g.send_port ≡ c.send_port
  pub listen_port : g.listen_port ≡ c.listen_port
  pub alias : Holds a g.alias c.alias
  pub hostname : Holds a g.hostname c.hostname

-- The bytes of all arguments, with a zero byte each.
abbrev pub args_size : List (List ℕ) → ℕ
args_size [] = 0
args_size (arg ∷ args) = length arg + 1 + args_size args

Shows-Extends : {a b : Arena} {g : Globals} {c : Config} → Extends a b → Shows a g c → Shows b g c
Shows-Extends e s = record {
  tracker_host = Holds-Extends e s.tracker_host;
  tracker_port = s.tracker_port;
  send_port = s.send_port;
  listen_port = s.listen_port;
  alias = Holds-Extends e s.alias;
  hostname = Holds-Extends e s.hostname;
}

shown :
    {a : Arena} {g : Globals} {c : Config}
    → Holds a g.tracker_host c.tracker_host
    → g.tracker_port ≡ c.tracker_port
    → g.send_port ≡ c.send_port
    → g.listen_port ≡ c.listen_port
    → Holds a g.alias c.alias
    → Holds a g.hostname c.hostname
    → Shows a g c
shown t p q r u h = record {
  tracker_host = t;
  tracker_port = p;
  send_port = q;
  listen_port = r;
  alias = u;
  hostname = h;
}

assign_arg_lem :
    (state : ParseArgs) (arg : List ℕ) (g : Globals) (c : Config) (a : Arena)
    → IsValid a
    → Shows a g c
    → length arg < 65536
    → a.pos + (length arg + 1) ≤ a.cap
    → (b : Arena) × (g' : Globals) × (assign_arg state arg g a ≡ ok (g', b))
      × Shows b g' (configure (record { name = state; value = arg }) c)
      × IsValid b
      × Extends a b
      × (b.pos ≤ a.pos + (length arg + 1))
unfolding assign_arg
assign_arg_lem sw_none arg g c a v s short fits = (a, g, refl, s, v, Extends-refl a, omega arith)
assign_arg_lem sw_listenport arg g c a v s short fits = (
  a,
  record g { listen_port = atoi_u16 arg },
  refl,
  shown s.tracker_host s.tracker_port s.send_port refl s.alias s.hostname,
  v,
  Extends-refl a,
  omega arith,
)
assign_arg_lem sw_sendport arg g c a v s short fits = (
  a,
  record g { send_port = atoi_u16 arg },
  refl,
  shown s.tracker_host s.tracker_port refl s.listen_port s.alias s.hostname,
  v,
  Extends-refl a,
  omega arith,
)
assign_arg_lem sw_trackerport arg g c a v s short fits = (
  a,
  record g { tracker_port = atoi_u16 arg },
  refl,
  shown s.tracker_host refl s.send_port s.listen_port s.alias s.hostname,
  v,
  Extends-refl a,
  omega arith,
)
assign_arg_lem sw_trackerhost arg g c a v s short fits =
    let (b, str, e, m) = assign_lem g.tracker_host arg a v short fits in
    (
      b,
      record g { tracker_host = str },
      rw (e, ◌>>=◌),
      (let s' = Shows-Extends m.extends s in
          shown m.holds s'.tracker_port s'.send_port s'.listen_port s'.alias s'.hostname),
      m.valid,
      m.extends,
      omega (arith, m.taken),
    )
assign_arg_lem sw_alias arg g c a v s short fits =
    let (b, str, e, m) = assign_lem g.alias arg a v short fits in
    (
      b,
      record g { alias = str },
      rw (e, ◌>>=◌),
      (let s' = Shows-Extends m.extends s in
          shown s'.tracker_host s'.tracker_port s'.send_port s'.listen_port m.holds s'.hostname),
      m.valid,
      m.extends,
      omega (arith, m.taken),
    )
assign_arg_lem sw_hostname arg g c a v s short fits =
    let (b, str, e, m) = assign_lem g.hostname arg a v short fits in
    (
      b,
      record g { hostname = str },
      rw (e, ◌>>=◌),
      (let s' = Shows-Extends m.extends s in
          shown s'.tracker_host s'.tracker_port s'.send_port s'.listen_port s'.alias m.holds),
      m.valid,
      m.extends,
      omega (arith, m.taken),
    )

-- A switch and the argument behind it.
with_value :
    (arg value : List ℕ) (args : List (List ℕ)) (g g' : Globals) (state : ParseArgs) (a b : Arena)
    → switch arg ≡ state
    → state ≢ sw_none
    → assign_arg state value g a ≡ ok (g', b)
    → parse_loop (arg ∷ value ∷ args) sw_none g a ≡ parse_loop args sw_none g' b
unfolding parse_loop
with_value arg value args g g' sw_none a b e n f = absurd (n refl)
with_value arg value args g g' sw_listenport a b e n f =
    ap (λ t. parse_loop (value ∷ args) t g a) e ∙ rw (f, ◌>>=◌)
with_value arg value args g g' sw_sendport a b e n f =
    ap (λ t. parse_loop (value ∷ args) t g a) e ∙ rw (f, ◌>>=◌)
with_value arg value args g g' sw_trackerhost a b e n f =
    ap (λ t. parse_loop (value ∷ args) t g a) e ∙ rw (f, ◌>>=◌)
with_value arg value args g g' sw_trackerport a b e n f =
    ap (λ t. parse_loop (value ∷ args) t g a) e ∙ rw (f, ◌>>=◌)
with_value arg value args g g' sw_alias a b e n f =
    ap (λ t. parse_loop (value ∷ args) t g a) e ∙ rw (f, ◌>>=◌)
with_value arg value args g g' sw_hostname a b e n f =
    ap (λ t. parse_loop (value ∷ args) t g a) e ∙ rw (f, ◌>>=◌)

taken_pick :
    (state : ParseArgs) (value : List ℕ) (skipped taken : List Setting)
    → state ≢ sw_none
    → pick state value skipped taken ≡ record { name = state; value = value } ∷ taken
taken_pick sw_none value skipped taken n = absurd (n refl)
taken_pick sw_listenport value skipped taken n = refl
taken_pick sw_sendport value skipped taken n = refl
taken_pick sw_trackerhost value skipped taken n = refl
taken_pick sw_trackerport value skipped taken n = refl
taken_pick sw_alias value skipped taken n = refl
taken_pick sw_hostname value skipped taken n = refl

last_arg : (state : ParseArgs) (g : Globals) (a : Arena) → parse_loop [] state g a ≡ ok (g, a)
unfolding parse_loop
last_arg state g a = refl

none_cases : (state : ParseArgs) → (state ≡ sw_none) ⊎ (state ≢ sw_none)
none_cases sw_none = inl refl
none_cases sw_listenport = inr (λ e. cc)
none_cases sw_sendport = inr (λ e. cc)
none_cases sw_trackerhost = inr (λ e. cc)
none_cases sw_trackerport = inr (λ e. cc)
none_cases sw_alias = inr (λ e. cc)
none_cases sw_hostname = inr (λ e. cc)

-- `parse_args`, for arguments that are together, with a zero byte each, shorter than 2 ^ 16 and
-- have room in the arena: the globals are what the settings of the command line make of them,
-- one after the other, and nothing that was handed out before changes.
pub parse_args_lem :
    (args : List (List ℕ)) (g : Globals) (c : Config) (a : Arena)
    → IsValid a
    → Shows a g c
    → args_size args < 65536
    → a.pos + args_size args ≤ a.cap
    → (b : Arena) × (g' : Globals) × (parse_args args g a ≡ ok (g', b))
      × Shows b g' (configure_all (settings_of args) c)
      × Extends a b
unfolding parse_args parse_loop
parse_args_lem [] g c a v s short fits = (a, g, refl, s, Extends-refl a)
parse_args_lem (arg ∷ []) g c a v s short fits =
    (a, g, last_arg (switch arg) g a, s, Extends-refl a)
parse_args_lem (arg ∷ value ∷ args) g c a v s short fits = elim (none_cases (named arg)) [
  | inl e ↦
      let (b, g', f, s', x) = parse_args_lem (value ∷ args) g c a v s (omega arith) (omega arith) in
      (b, g', ap (λ t. parse_loop (value ∷ args) t g a) (switch_lem arg ∙ e) ∙ f, rw e s', x)
  | inr n ↦
      let (b, g₁, f, s₁, v₁, x₁, used) =
        assign_arg_lem (named arg) value g c a v s (omega arith) (omega arith) in
      let (d, g', h, s', x) =
        parse_args_lem args g₁ (configure (record { name = named arg; value = value }) c) b v₁ s₁
          (omega arith) (omega arith) in
      (
        d,
        g',
        with_value arg value args g g₁ (named arg) a b (switch_lem arg) n f ∙ h,
        rw (taken_pick (named arg) value (settings_of (value ∷ args)) (settings_of args) n) s',
        Extends-trans x₁ x,
      )
]
