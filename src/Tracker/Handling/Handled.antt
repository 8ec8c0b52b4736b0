-- ===== src/Tracker/Handling/Handled.antt =====
-- `handle_msg` of a `KNOCK`.
use tm.Base.{ℕ, ◌≡◌, ap, ◌∙◌, arith}
use tm.Base.{List, [], ◌∷◌, length, length-drop, take, drop, ok}
use tm.Clib.Arena.{Arena, M, return, ◌>>=◌, load}
use tm.Clib.Arena.Blocks.{load_inside}
use tm.Clib.Buffer.{Buffer}
use tm.Tmcommon.Peers.{Peers}
use tm.Tmcommon.Sending.Broadcast.{send_all, active_addrs}
use tm.Tracker.Handling.{Tracking, msgno}
use tm.Tracker.Handling.Knocks.{send_each}

-- The number of a message that stands at `p`.
pub msgno_lem : (p n : ℕ) (bs : List ℕ) (a : Arena) → drop p a.bs ≡ n ∷ bs → msgno p a ≡ ok (n, a)
unfolding msgno
msgno_lem p n bs a e =
    let one : load p 1 a ≡ ok (n ∷ [], a) =
      load_inside p 1 a (omega (arith, length-drop p a.bs, ap length e))
      ∙ ap (λ l. ok (take 1 l, a)) e in
    rw (one, ◌>>=◌)

-- What the tracker does about a new peer: `m` goes to the address of each active peer, then each of
-- `ms` goes to the new one, and the table is `peers`.
abbrev pub informs :
    Arena → List ℕ → ℕ → List (Arena × List ℕ) → Tracking → Peers → Arena → M Tracking
informs scratch m toaddr ms t peers peers_arena = do
  w₁ ← send_all scratch m (active_addrs t.peers.array.items) t.world
  w₂ ← send_each toaddr ms w₁
  return (record { peers = peers; peers_arena = peers_arena; world = w₂ })
