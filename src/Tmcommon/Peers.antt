-- ===== src/Tmcommon/Peers.antt =====
-- tmcommon.c, the table of peers. It works in an arena of its own, `GPeersArena`.
pub mod Table
pub mod Added
pub mod Create
pub mod First
pub mod Destroy
use tm.Base.{
  ℕ, zero, suc, ◌+◌, ◌*◌, Bool, true, false, not, List, [], ◌∷◌, ◌++◌, Option, none, some,
}
use tm.Base.{replicate, ◌==◌, ltb, leb, if◌then◌else◌, ok}
use tm.Clib.Arena
use tm.Clib.Arena.{Arena, M, return, ◌>>=◌, ◌>>◌, assert}
use tm.Clib.Array
use tm.Clib.Array.{Array}
use tm.Clib.Static.{c_str, cstr_equals, staticstr_copy}

-- `Peer`; `alias` and `hostname` are arrays of 17 bytes.
pub record Peer : Type 0 where
  pub hpeer : ℕ
  pub alias : List ℕ
  pub hostname : List ℕ
  pub fromaddr : ℕ
  pub toaddr : ℕ
  pub active : Bool

abbrev pub alias_size : ℕ
alias_size = 16

abbrev pub hostname_size : ℕ
hostname_size = 16

-- `sizeof(Peer)` where pointers and `u64` have 8 bytes.
abbrev pub sizeof_peer : ℕ
sizeof_peer = 64

-- `GPeers` and `GNextPeerHandle`.
pub record Peers : Type 0 where
  pub array : Array Peer
  pub next : ℕ

-- `Peer_replace`.
pub peer_replace : Peer → List ℕ → List ℕ → ℕ → ℕ → Peer
peer_replace peer alias hostname fromaddr toaddr = record peer {
  alias = staticstr_copy peer.alias (alias_size + 1) alias;
  hostname = staticstr_copy peer.hostname (hostname_size + 1) hostname;
  fromaddr = fromaddr;
  toaddr = toaddr;
  active = true;
}

-- `Peer_new`, for the handle that it takes from the counter. What stands in the two arrays behind the
-- text is not determined in C, and is zero here.
pub peer_new : ℕ → List ℕ → List ℕ → ℕ → ℕ → Peer
peer_new hpeer alias hostname fromaddr toaddr = record {
  hpeer = hpeer;
  alias = staticstr_copy (replicate (alias_size + 1) 0) (alias_size + 1) alias;
  hostname = staticstr_copy (replicate (hostname_size + 1) 0) (hostname_size + 1) hostname;
  fromaddr = fromaddr;
  toaddr = toaddr;
  active = true;
}

-- The loop of `create_peer`: the first peer with the address is replaced by `f` of it.
pub update_from : ℕ → (Peer → Peer) → List Peer → Option (ℕ × List Peer)
update_from from f [] = none
update_from from f (p ∷ ps) =
    let rest = update_from from f ps in
    if p.fromaddr == from
    then some (p.hpeer, f p ∷ ps)
    else elim rest [ none ↦ none | some (h, qs) ↦ some (h, p ∷ qs) ]

-- `if (GPeers.cap == 0)`: the first call makes the arena and the array.
pub start : Peers → M Peers
start peers =
    if peers.array.cap == 0
    then (λ a.
        (assert (a.cap == 0) >> (λ b.
            (Array.new 64 sizeof_peer >>= λ array. return (record peers { array = array }))
              (Arena.new (64 * 1024))))
          a)
    else return peers

-- `create_peer`, the part behind that.
pub add_or_replace : Peers → List ℕ → List ℕ → ℕ → ℕ → M (Peers × ℕ)
add_or_replace peers alias hostname fromaddr toaddr =
    elim (update_from fromaddr (λ p. peer_replace p alias hostname fromaddr toaddr)
      peers.array.items) [
        | some (hpeer, items) ↦
            return (record peers { array = record peers.array { items = items } }, hpeer)
        | none ↦ do
          array ← Array.append peers.array (peer_new peers.next alias hostname fromaddr toaddr)
          return (record { array = array; next = peers.next + 1 }, peers.next)
      ]

-- `create_peer`.
pub create_peer : Peers → List ℕ → List ℕ → ℕ → ℕ → M (Peers × ℕ)
create_peer peers alias hostname fromaddr toaddr = do
  peers' ← start peers
  add_or_replace peers' alias hostname fromaddr toaddr

-- `destroy_peer`: the peer stays in the table, and is not active any more.
pub deactivate : ℕ → List Peer → List Peer
deactivate hpeer [] = []
deactivate hpeer (p ∷ ps) =
    let rest = deactivate hpeer ps in
    if p.hpeer == hpeer then record p { active = false } ∷ ps else p ∷ rest

pub destroy_peer : ℕ → Peers → Peers
destroy_peer hpeer peers = record peers {
  array = record peers.array { items = deactivate hpeer peers.array.items };
}

-- `print_peers`: the check in front of what it prints.
pub print_peers : Peers → M (Unit {0})
print_peers peers = assert (not (peers.array.cap == 0))

-- `find_peer_fromaddr`; `none` is -1.
pub find_peer_fromaddr : ℕ → List Peer → Option ℕ
find_peer_fromaddr fromaddr [] = none
find_peer_fromaddr fromaddr (p ∷ ps) =
    let rest = find_peer_fromaddr fromaddr ps in
    if p.fromaddr == fromaddr then some p.hpeer else rest

-- `find_peer_alias`.
unfoldable pub find_peer_alias : List ℕ → List Peer → Option ℕ
find_peer_alias alias [] = none
find_peer_alias alias (p ∷ ps) =
    let rest = find_peer_alias alias ps in
    if cstr_equals (c_str p.alias) alias then some p.hpeer else rest

-- `get_peer_data`, with all four pointers given: what it leaves in the arrays `alias` and `hostname`,
-- and the addresses.
pub get_peer_data : ℕ → List ℕ → List ℕ → List Peer → Option (List ℕ × List ℕ × ℕ × ℕ)
get_peer_data hpeer alias hostname [] = none
get_peer_data hpeer alias hostname (p ∷ ps) =
    let rest = get_peer_data hpeer alias hostname ps in
    if p.hpeer == hpeer
    then some (
      staticstr_copy alias (alias_size + 1) (c_str p.alias),
      staticstr_copy hostname (hostname_size + 1) (c_str p.hostname),
      p.fromaddr,
      p.toaddr,
    )
    else rest
