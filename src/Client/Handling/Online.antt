-- ===== src/Client/Handling/Online.antt =====
-- A `PEER_ONLINE` from the tracker.
use tm.Base.{ℕ, ◌+◌, ◌%◌, ◌^◌, ◌≤◌, ◌<◌, ◌≡◌, refl, ap, ap₂, ◌∙◌, arith, true, false}
use tm.Base.{List, [], ◌∷◌, ◌++◌, length, length-drop, take, drop, ok}
use tm.Clib.Arena.{Arena, ◌>>=◌, load}
use tm.Clib.Arena.Blocks.{IsValid, load_inside, in_copy_lem, on_arena_lem}
use tm.Clib.Array.Items.{HasSpace}
use tm.Clib.Static.{NoZero}
use tm.Clib.Str
use tm.Clib.Str.{Str}
use tm.Cnet.HostAddr.{ipaddr_equals}
use tm.Cnet.Unpack.{Slot, unpack}
use tm.Cnet.Unpack.RoundTrip.{unpack_uses}
use tm.Cnet.Unpack.Texts.{cstr-ReadsAs}
use tm.Tmcommon.Messages.{peer_online, peer_online_fmt}
use tm.Tmcommon.Messages.Formats.{online_bytes, online-Encodes}
use tm.Tmcommon.Peers.{Peers, create_peer}
use tm.Tmcommon.Peers.First.{print_peers_lem}
use tm.Tmcommon.Peers.Table.{IsTable}
use tm.Tmcommon.Peers.Create.{Created, create_peer_lem}
use tm.Client.Handling.{
  Client, Locals, idle_peer_online, online_values, read_online, handle_online, on_msgno, msgno,
  handle_msg,
}

online_runs :
    (mem : List ℕ) (n v from to : ℕ) (l : Locals) (s t : Str) (alias hostname : List ℕ)
    (a b : Arena)
    → unpack mem n peer_online_fmt
        (Slot.u8 peer_online
          ∷ Slot.string Str.new0
          ∷ Slot.string Str.new0
          ∷ Slot.u64 l.fromaddr
          ∷ Slot.u64 l.toaddr
          ∷ [])
        a
      ≡ ok (Slot.u8 v ∷ Slot.string s ∷ Slot.string t ∷ Slot.u64 from ∷ Slot.u64 to ∷ [], b)
    → Str.cstr s b ≡ ok (alias, b)
    → Str.cstr t b ≡ ok (hostname, b)
    → read_online mem n l a ≡ ok ((alias, hostname, from, to), b)
unfolding read_online online_values
online_runs mem n v from to l s t alias hostname a b e f g =
    rw (e, ◌>>=◌) (rw (f, ◌>>=◌) (rw (g, ◌>>=◌)))

read_online_lem :
    (alias hostname more : List ℕ) (from to : ℕ) (l : Locals) (a : Arena)
    → NoZero alias
    → NoZero hostname
    → length alias < 2 ^ 16
    → length hostname < 2 ^ 16
    → from < 2 ^ 64
    → to < 2 ^ 64
    → IsValid a
    → a.pos + length (online_bytes alias hostname from to) ≤ a.cap
    → (b : Arena) × (read_online
          (online_bytes alias hostname from to ++ more)
          (length (online_bytes alias hostname from to))
          l
          a
        ≡ ok ((alias, hostname, from, to), b))
unfolding online-Encodes
read_online_lem alias hostname more from to l a za zh h k hf ht v fits =
    let slots : List Slot =
      Slot.u8 peer_online
      ∷ Slot.string Str.new0
      ∷ Slot.string Str.new0
      ∷ Slot.u64 l.fromaddr
      ∷ Slot.u64 l.toaddr
      ∷ [] in
    let u =
      unpack_uses (online-Encodes alias hostname from to h k) slots more a
        (
          peer_online,
          _,
          refl,
          (_, refl, (_, refl, (l.fromaddr, _, refl, (l.toaddr, [], refl, refl)))),
        )
        v fits in
    let (r₁, e₁, (s, r₂, e₂, hs, (t, r₃, e₃, hn, (r₄, e₄, (r₅, e₅, e₆))))) = u.reads in
    let f : from % 2 ^ 64 ≡ from = omega arith in
    let g : to % 2 ^ 64 ≡ to = omega arith in
    let all =
      e₁
      ∙ ap (λ x. Slot.u8 (peer_online % 2 ^ 8) ∷ x)
          (e₂
            ∙ ap (λ x. Slot.string s ∷ x)
                (e₃
                  ∙ ap (λ x. Slot.string t ∷ x)
                      (e₄
                        ∙ ap₂ (λ x y. Slot.u64 x ∷ y) f
                            (e₅ ∙ ap₂ (λ x y. Slot.u64 x ∷ y) g e₆)))) in
    (
      u.arena,
      online_runs _ _ (peer_online % 2 ^ 8) from to l s t alias hostname a u.arena
          (u.runs ∙ ap (λ x. ok (x, u.arena)) all) (cstr-ReadsAs s alias u.arena hs za)
          (cstr-ReadsAs t hostname u.arena hn zh),
    )

msgno_lem : (p n : ℕ) (bs : List ℕ) (a : Arena) → drop p a.bs ≡ n ∷ bs → msgno p a ≡ ok (n, a)
unfolding msgno
msgno_lem p n bs a e =
    let one : load p 1 a ≡ ok (n ∷ [], a) =
      load_inside p 1 a (omega (arith, length-drop p a.bs, ap length e))
      ∙ ap (λ l. ok (take 1 l, a)) e in
    rw (one, ◌>>=◌)

is_online :
    (tracker_addr now fromaddr p n : ℕ) (l : Locals) (c : Client) (bs : List ℕ) (a : Arena)
    → drop p a.bs ≡ 1 ∷ bs
    → ipaddr_equals fromaddr tracker_addr ≡ true
    → handle_msg tracker_addr now l fromaddr p n c a ≡ handle_online (1 ∷ bs) n l c a
unfolding handle_msg on_msgno
is_online tracker_addr now fromaddr p n l c bs a e f =
    rw (msgno_lem p 1 bs a e, ◌>>=◌) (rw f (ap (λ x. handle_online x n l c a) e))

pub foreign_online :
    (tracker_addr now fromaddr p n : ℕ) (l : Locals) (c : Client) (bs : List ℕ) (a : Arena)
    → drop p a.bs ≡ 1 ∷ bs
    → ipaddr_equals fromaddr tracker_addr ≡ false
    → handle_msg tracker_addr now l fromaddr p n c a ≡ ok (c, a)
unfolding handle_msg on_msgno
foreign_online tracker_addr now fromaddr p n l c bs a e f =
    rw (msgno_lem p 1 bs a e, ◌>>=◌) (rw f refl)

online_steps :
    (mem alias hostname : List ℕ) (n from to h : ℕ) (l : Locals) (c : Client) (peers : Peers)
    (a b pa : Arena)
    → read_online mem n l a ≡ ok ((alias, hostname, from, to), b)
    → create_peer c.peers alias hostname from to c.peers_arena ≡ ok ((peers, h), pa)
    → 0 < peers.array.cap
    → handle_online mem n l c a
      ≡ ok (
        record c { peers = peers; peers_arena = pa; idle = c.idle ++ (idle_peer_online h ∷ []) },
        record b { pos = a.pos },
      )
unfolding handle_online
online_steps mem alias hostname n from to h l c peers a b pa e f sc =
    rw (in_copy_lem _ (alias, hostname, from, to) a b e, ◌>>=◌)
      (rw (on_arena_lem c.peers_arena pa _ (peers, h) _ f, ◌>>=◌)
        (rw (print_peers_lem peers _ sc, ◌>>=◌)))

-- `handle_msg` of a `PEER_ONLINE` from the tracker's IP address that stands at `p`, with room
-- for its texts and in the table of peers: the peer of the message is in the table under its
-- address, active and with its data, every other handle gives the peer that it gave before, and
-- the thread of the windows is told of it.
pub handle_online_lem :
    (tracker_addr now fromaddr p from to : ℕ) (l : Locals) (alias hostname more : List ℕ)
    (c : Client) (a : Arena)
    → drop p a.bs ≡ online_bytes alias hostname from to ++ more
    → ipaddr_equals fromaddr tracker_addr ≡ true
    → NoZero alias
    → NoZero hostname
    → length alias < 2 ^ 16
    → length hostname < 2 ^ 16
    → from < 2 ^ 64
    → to < 2 ^ 64
    → IsValid a
    → a.pos + length (online_bytes alias hostname from to) ≤ a.cap
    → IsTable c.peers.next c.peers.array.items
    → HasSpace c.peers_arena c.peers.array
    → (b : Arena) × (peers : Peers) × (pa : Arena) × (h : ℕ) × (handle_msg tracker_addr now l
          fromaddr p
          (length (online_bytes alias hostname from to))
          c
          a
        ≡ ok (
          record c { peers = peers; peers_arena = pa; idle = c.idle ++ (idle_peer_online h ∷ []) },
          b,
        ))
      × Created c.peers.array.items alias hostname from to peers h
      × (b.pos ≡ a.pos)
handle_online_lem tracker_addr now fromaddr p from to l alias hostname more c a e own za zh h k hf
      ht v fits table space =
    let (b, f) = read_online_lem alias hostname more from to l a za zh h k hf ht v fits in
    let (pa, peers, hpeer, g, made, vp, x) =
      create_peer_lem c.peers alias hostname from to c.peers_arena za zh table space in
    let n : ℕ = length (online_bytes alias hostname from to) in
    (
      record b { pos = a.pos },
      peers,
      pa,
      hpeer,
      is_online tracker_addr now fromaddr p n l c _ a e own
          ∙ online_steps (online_bytes alias hostname from to ++ more) alias hostname n from to
              hpeer l c peers a b pa f g made.some_cap,
      made,
      refl,
    )
