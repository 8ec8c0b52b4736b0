-- ===== src/Tmcommon/Sending/Broadcast.antt =====
-- `send_msg_to_peers`, by the addresses that a message goes to.
use tm.Base.{ℕ, ◌≡◌, refl, true, false, Bool, Bool-cases, inl, inr, List, [], ◌∷◌}
use tm.Clib.Arena.{Arena, M, return, ◌>>=◌}
use tm.Clib.Arena.Blocks.{bind_ext}
use tm.Tmcommon.Peers.{Peer}
use tm.Tmcommon.Sending.{World, send_msg_to_hostaddr, send_msg_to_peers}

-- One message to each of some addresses, one after the other, whatever becomes of it.
abbrev pub send_all : Arena → List ℕ → List ℕ → World → M World
send_all scratch m [] w = return w
send_all scratch m (toaddr ∷ rest) w = do
  (w', z) ← send_msg_to_hostaddr scratch m toaddr w
  send_all scratch m rest w'

abbrev pub addr_if : Bool → ℕ → List ℕ → List ℕ
addr_if true toaddr rest = toaddr ∷ rest
addr_if false toaddr rest = rest

-- The addresses for messages of the peers that are active, in the order of the table.
abbrev pub active_addrs : List Peer → List ℕ
active_addrs [] = []
active_addrs (p ∷ ps) = addr_if p.active p.toaddr (active_addrs ps)

pub send_msg_to_peers_lem :
    (scratch : Arena) (m : List ℕ) (ps : List Peer) (w : World) (a : Arena)
    → send_msg_to_peers scratch m ps w a ≡ send_all scratch m (active_addrs ps) w a
unfolding send_msg_to_peers
send_msg_to_peers_lem scratch m [] w a = refl
send_msg_to_peers_lem scratch m (p ∷ ps) w a = elim (Bool-cases p.active) [
  | inr e ↦ rw (e) (send_msg_to_peers_lem scratch m ps w a)
  | inl e ↦ rw (e) (
      bind_ext (send_msg_to_hostaddr scratch m p.toaddr w)
        (send_msg_to_hostaddr scratch m p.toaddr w) (λ r. send_msg_to_peers scratch m ps r.0)
        (λ r. send_all scratch m (active_addrs ps) r.0) a refl
        (λ r b. send_msg_to_peers_lem scratch m ps r.0 b))
]
