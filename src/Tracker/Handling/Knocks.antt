-- ===== src/Tracker/Handling/Knocks.antt =====
-- A `KNOCK`: all active peers are told of the new one, and it of them.
use tm.Base.{ℕ, ◌≤◌, ◌≡◌, refl, sym, ap, ◌∙◌, arith, Bool, true, false, Bool-cases, inl, inr}
use tm.Base.{List, [], ◌∷◌, length, ok}
use native.Mathlib.Decide.{ℕ_discrete}
use tm.Base.{==_iff, ne→==}
use tm.Clib.Arena.{Arena, M, return, ◌>>=◌}
use tm.Clib.Arena.Blocks.{on_arena_lem, bind_ext}
use tm.Clib.Buffer.{Buffer}
use tm.Clib.Static.{c_str}
use tm.Cnet.Pack.Framed.{framed}
use tm.Tmcommon.Messages.Formats.{online_bytes}
use tm.Tmcommon.Peers.{Peer}
use tm.Tmcommon.Peers.Table.{Sized}
use tm.Tmcommon.Sending.{World, send_msg_to_hostaddr}
use tm.Tracker.Handling.{tell_of_peers, next_message}
use tm.Tracker.Handling.Told.{Roomy, next_message_lem}

-- Messages to one address, one after the other, each with the scratch arena it is sent with.
abbrev pub send_each : ℕ → List (Arena × List ℕ) → World → M World
send_each toaddr [] w = return w
send_each toaddr ((scratch, m) ∷ ms) w = do
  (w', z) ← send_msg_to_hostaddr scratch m toaddr w
  send_each toaddr ms w'

-- What the new peer is to be told: each active peer of the table, in its order.
abbrev pub online_of : Peer → List ℕ
online_of p = framed (online_bytes (c_str p.alias) (c_str p.hostname) p.fromaddr p.toaddr)

abbrev pub put_if : Bool → List ℕ → List (List ℕ) → List (List ℕ)
put_if true m ms = m ∷ ms
put_if false m ms = ms

abbrev pub news : List Peer → List (List ℕ)
news [] = []
news (p ∷ ps) = put_if p.active (online_of p) (news ps)

abbrev pub bodies : List (Arena × List ℕ) → List (List ℕ)
bodies [] = []
bodies ((scratch, m) ∷ ms) = m ∷ bodies ms

length-c_str : (cs : List ℕ) → length (c_str cs) ≤ length cs
length-c_str [] = omega arith
length-c_str (c ∷ cs) = elim (ℕ_discrete c 0) [
  | yes e ↦ rw ((==_iff c 0).1 e) (omega arith)
  | no n ↦ rw (ne→== c 0 n) (omega (arith, length-c_str cs))
]

tells_next :
    (s s' : Arena) (buf buf' : Buffer) (toaddr : ℕ) (p : Peer) (ps : List Peer) (m : List ℕ)
    (ms : List (Arena × List ℕ)) (w : World) (a : Arena)
    → p.active ≡ true
    → next_message buf p s ≡ ok ((buf', m), s')
    → ((w' : World) (b : Arena) → tell_of_peers s' buf' toaddr ps w' b ≡ send_each toaddr ms w' b)
    → tell_of_peers s buf toaddr (p ∷ ps) w a ≡ send_each toaddr ((s', m) ∷ ms) w a
unfolding tell_of_peers
tells_next s s' buf buf' toaddr p ps m ms w a e f h = rw e (
    rw (on_arena_lem s s' (next_message buf p) (buf', m) a f, ◌>>=◌)
      (bind_ext (send_msg_to_hostaddr s' m toaddr w) (send_msg_to_hostaddr s' m toaddr w) _ _ a refl
        (λ x b. h x.0 b)))

skips_next :
    (s : Arena) (buf : Buffer) (toaddr : ℕ) (p : Peer) (ps : List Peer) (w : World) (a : Arena)
    → p.active ≡ false
    → tell_of_peers s buf toaddr (p ∷ ps) w a ≡ tell_of_peers s buf toaddr ps w a
unfolding tell_of_peers
skips_next s buf toaddr p ps w a e = rw e

-- The loop sends the news of all active peers.
pub tell_of_peers_lem :
    (ps : List Peer) (toaddr : ℕ) (s : Arena) (buf : Buffer)
    → Sized ps
    → Roomy s buf
    → (ms : List (Arena × List ℕ)) × ((w : World) (a : Arena)
        → tell_of_peers s buf toaddr ps w a ≡ send_each toaddr ms w a)
      × (bodies ms ≡ news ps)
unfolding tell_of_peers
tell_of_peers_lem [] toaddr s buf z r = ([], λ w a. refl, refl)
tell_of_peers_lem (p ∷ ps) toaddr s buf (h, k, z) r = elim (Bool-cases p.active) [
  | inl e ↦
      let (s', buf', f, r') =
        next_message_lem buf p s r (omega (arith, h, length-c_str p.alias))
          (omega (arith, k, length-c_str p.hostname)) in
      let (ms, g, all) = tell_of_peers_lem ps toaddr s' buf' z r' in
      (
        (s', online_of p) ∷ ms,
        λ w a. tells_next s s' buf buf' toaddr p ps (online_of p) ms w a e f g,
        ap (λ t. online_of p ∷ t) all ∙ ap (λ t. put_if t (online_of p) (news ps)) (sym e),
      )
  | inr e ↦
      let (ms, g, all) = tell_of_peers_lem ps toaddr s buf z r in
      (
        ms,
        λ w a. skips_next s buf toaddr p ps w a e ∙ g w a,
        all ∙ ap (λ t. put_if t (online_of p) (news ps)) (sym e),
      )
]
