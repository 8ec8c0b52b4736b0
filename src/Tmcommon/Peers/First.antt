-- ===== src/Tmcommon/Peers/First.antt =====
-- The first call of `create_peer`.
use tm.Base.{ℕ, ◌+◌, ◌*◌, ◌≡◌, refl, arith}
use tm.Base.{◌<◌, ne→==, ==_iff, fault, assertion, subst, List, [], ok}
use tm.Clib.Arena.{new, Arena, ◌>>=◌}
use tm.Clib.Arena.Blocks.{new_lem, new-IsValid, IsValid}
use tm.Clib.Array.{Array}
use tm.Clib.Array.Items.{HasSpace, array_new_lem}
use tm.Clib.Static.{NoZero}
use tm.Tmcommon.Peers.{Peer, Peers, start, create_peer, print_peers}
use tm.Tmcommon.Peers.Table.{IsTable}
use tm.Tmcommon.Peers.Added.{}
use tm.Tmcommon.Peers.Create.{Created, add_or_replace_lem}

start_first :
    (peers : Peers) (a : Arena)
    → peers.array.cap ≡ 0
    → a.cap ≡ 0
    → (b : Arena) × (array : Array Peer) × (start peers a ≡ ok (record peers { array = array }, b))
      × (array.items ≡ [])
      × HasSpace b array
unfolding start
start_first peers a e f =
    let fresh : Arena = new (64 * 1024) in
    let v : IsValid fresh = new-IsValid 65536 (omega arith) in
    let (p, c) = new_lem 65536 (omega arith) in
    (
      record fresh { pos = fresh.pos + 64 * 64 },
      record { items = []; itemsize = 64; cap = 64 },
      rw e (
          rw f (
            rw
              (array_new_lem {A = Peer} 64 64 fresh v (omega arith) (omega (arith, p, c)), ◌>>=◌))),
      refl,
      omega (arith, v, p, c),
    )

-- The first call of `create_peer`, where neither the arena nor the array is made yet: it makes
-- them, and a table of the one peer, which is found by its address.
pub create_peer-first :
    (peers : Peers) (alias hostname : List ℕ) (fromaddr toaddr : ℕ) (a : Arena)
    → NoZero alias
    → NoZero hostname
    → peers.array.cap ≡ 0
    → a.cap ≡ 0
    → (b : Arena) × (peers' : Peers) × (h : ℕ) × (create_peer peers alias hostname fromaddr toaddr a
        ≡ ok ((peers', h), b))
      × Created [] alias hostname fromaddr toaddr peers' h
      × IsValid b
unfolding create_peer
create_peer-first peers alias hostname fromaddr toaddr a za zh e f =
    let (b, array, s, none_yet, sp) = start_first peers a e f in
    let empty : IsTable peers.next array.items =
      rw none_yet (record { below = tt; distinct = tt; sized = tt }) in
    let (c, p, h, g, cr, v, x) =
      add_or_replace_lem (record peers { array = array }) alias hostname fromaddr toaddr za zh empty
        b sp in
    (
      c,
      p,
      h,
      rw (s, ◌>>=◌) g,
      subst (λ t. Created t alias hostname fromaddr toaddr p h) none_yet cr,
      v,
    )

-- `print_peers` stops the program until the first call of `create_peer`.
pub print_peers_lem :
    (peers : Peers) (a : Arena) → 0 < peers.array.cap → print_peers peers a ≡ ok (tt, a)
unfolding print_peers
print_peers_lem peers a h = rw (ne→== peers.array.cap 0 (omega arith)) refl

pub print_peers-none :
    (peers : Peers) (a : Arena) → peers.array.cap ≡ 0 → print_peers peers a ≡ fault assertion
unfolding print_peers
print_peers-none peers a h = rw ((==_iff peers.array.cap 0).1 h) refl
