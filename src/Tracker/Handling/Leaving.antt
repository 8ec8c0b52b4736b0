-- ===== src/Tracker/Handling/Leaving.antt =====
-- `handle_msg` of a `BYE`.
use tm.Base.{
  ℕ, ◌+◌, ◌≤◌, ◌≡◌, ◌≢◌, refl, sym, ap, ◌∙◌, subst, arith, Option-cases, some-inj, none-some, inl,
  inr,
}
use tm.Base.{List, [], ◌∷◌, drop, ok, some, none, false, fault, assertion, ◌<◌}
use tm.Clib.Arena.{Arena, M, return, ◌>>=◌}
use tm.Clib.Arena.Blocks.{IsValid, on_arena_lem, bind_ext}
use tm.Clib.Buffer.{Buffer}
use tm.Cnet.Pack.{int, longlong}
use tm.Cnet.Pack.Framed.{framed}
use tm.Tmcommon.Messages.{peer_offline_fmt, peer_offline}
use tm.Tmcommon.Messages.Formats.{offline_bytes, offline-Encodes}
use tm.Tmcommon.Peers.{Peer, Peers, destroy_peer, find_peer_fromaddr}
use tm.Tmcommon.Peers.Table.{IsTable, peer_at}
use tm.Tmcommon.Peers.Destroy.{
  is_active, destroy_peer_lem, destroy_peer-at, destroy_peer-at_other, destroy_peer-cap,
}
use tm.Tmcommon.Sending.{World, send_msg_to_peers}
use tm.Tmcommon.Sending.Broadcast.{send_all, active_addrs, send_msg_to_peers_lem}
use tm.Tmcommon.Peers.First.{print_peers_lem, print_peers-none}
use tm.Tracker.Handling.{Tracking, first_message, handle_bye, without_peer, handle_msg}
use tm.Tracker.Handling.Told.{first_message_lem}
use tm.Tracker.Handling.Handled.{msgno_lem}

is_bye :
    (scratch : Arena) (fromaddr stale p n : ℕ) (t : Tracking) (bs : List ℕ) (a : Arena)
    → drop p a.bs ≡ 4 ∷ bs
    → handle_msg scratch fromaddr stale p n t a ≡ handle_bye scratch fromaddr t a
unfolding handle_msg
is_bye scratch fromaddr stale p n t bs a e = rw (msgno_lem p 4 bs a e, ◌>>=◌) refl

-- The table without the peer of the address.
pub record Left (fromaddr : ℕ) (peers peers' : Peers) : Type 0 where
  pub table : IsTable peers'.next peers'.array.items
  pub silent :
      (h : ℕ)
      → find_peer_fromaddr fromaddr peers.array.items ≡ some h
      → is_active h peers'.array.items ≡ false
  pub stays :
      (h : ℕ) (p : Peer)
      → find_peer_fromaddr fromaddr peers.array.items ≡ some h
      → peer_at h peers.array.items ≡ some p
      → peer_at h peers'.array.items ≡ some (record p { active = false })
  pub others :
      (k : ℕ)
      → find_peer_fromaddr fromaddr peers.array.items ≢ some k
      → peer_at k peers'.array.items ≡ peer_at k peers.array.items

without_none :
    (fromaddr : ℕ) (peers : Peers)
    → find_peer_fromaddr fromaddr peers.array.items ≡ none
    → without_peer fromaddr peers ≡ peers
unfolding without_peer
without_none fromaddr peers e = rw (without_peer, e) refl

without_some :
    (fromaddr h : ℕ) (peers : Peers)
    → find_peer_fromaddr fromaddr peers.array.items ≡ some h
    → without_peer fromaddr peers ≡ destroy_peer h peers
unfolding without_peer
without_some fromaddr h peers e = rw (without_peer, e) refl

without-cap :
    (fromaddr : ℕ) (peers : Peers) → (without_peer fromaddr peers).array.cap ≡ peers.array.cap
without-cap fromaddr peers = elim (Option-cases (find_peer_fromaddr fromaddr peers.array.items)) [
  | inl e ↦ ap (λ q. q.array.cap) (without_none fromaddr peers e)
  | inr (h, e) ↦ ap (λ q. q.array.cap) (without_some fromaddr h peers e) ∙ destroy_peer-cap h peers
]

destroyed :
    (fromaddr h : ℕ) (peers : Peers)
    → IsTable peers.next peers.array.items
    → find_peer_fromaddr fromaddr peers.array.items ≡ some h
    → Left fromaddr peers (destroy_peer h peers)
destroyed fromaddr h peers t e =
    let (t', quiet, same, found, kept) = destroy_peer_lem h peers t in
    record {
      table = t';
      silent = λ k f.
          subst (λ i. is_active i (destroy_peer h peers).array.items ≡ false) (some-inj (sym e ∙ f))
            quiet;
      stays = λ k p f g.
          subst
            (λ i. peer_at i (destroy_peer h peers).array.items ≡ some (record p { active = false }))
            (some-inj (sym e ∙ f))
            (destroy_peer-at h peers p
              (subst (λ i. peer_at i peers.array.items ≡ some p) (some-inj (sym f ∙ e)) g));
      others = λ k f. destroy_peer-at_other h peers k (λ i. f (e ∙ ap some (sym i)));
    }

without_peer_lem :
    (fromaddr : ℕ) (peers : Peers)
    → IsTable peers.next peers.array.items
    → Left fromaddr peers (without_peer fromaddr peers)
without_peer_lem fromaddr peers t =
    elim (Option-cases (find_peer_fromaddr fromaddr peers.array.items)) [
      | inl e ↦ subst (Left fromaddr peers) (sym (without_none fromaddr peers e)) (record {
        table = t;
        silent = λ h f. absurd (none-some (sym e ∙ f));
        stays = λ h p f g. absurd (none-some (sym e ∙ f));
        others = λ k f. refl;
      })
      | inr (h, e) ↦
          subst (Left fromaddr peers) (sym (without_some fromaddr h peers e))
            (destroyed fromaddr h peers t e)
    ]

bye_steps :
    (scratch s : Arena) (fromaddr : ℕ) (m : List ℕ) (buf : Buffer) (t : Tracking) (a : Arena)
    → first_message peer_offline_fmt (int peer_offline ∷ longlong fromaddr ∷ []) scratch
      ≡ ok ((buf, m), s)
    → 0 < t.peers.array.cap
    → let peers = without_peer fromaddr t.peers in
      handle_bye scratch fromaddr t a
      ≡ (send_all s m (active_addrs peers.array.items) t.world >>= λ w.
            return (record t { peers = peers; world = w }))
          a
unfolding handle_bye
bye_steps scratch s fromaddr m buf t a e sc =
    let peers : Peers = without_peer fromaddr t.peers in
    let ps : List Peer = peers.array.items in
    let same : peers.array.cap ≡ t.peers.array.cap = without-cap fromaddr t.peers in
    let last : World → M Tracking = λ w. return (record t { peers = peers; world = w }) in
    rw (print_peers_lem peers a (omega (arith, same, sc)), ◌>>=◌)
      (rw (on_arena_lem scratch s _ (buf, m) a e, ◌>>=◌)
        (bind_ext (send_msg_to_peers s m ps t.world) (send_all s m (active_addrs ps) t.world) last
          last a (send_msg_to_peers_lem s m ps t.world a) (λ w b. refl)))

-- `handle_msg` of a `BYE` that stands at `p`, before the first `create_peer` made the table of
-- peers: an assertion fails, and nothing is sent.
pub bye_aborts :
    (scratch : Arena) (fromaddr stale p n : ℕ) (more : List ℕ) (t : Tracking) (a : Arena)
    → drop p a.bs ≡ 4 ∷ more
    → t.peers.array.cap ≡ 0
    → handle_msg scratch fromaddr stale p n t a ≡ fault assertion
unfolding handle_bye
bye_aborts scratch fromaddr stale p n more t a e f =
    is_bye scratch fromaddr stale p n t more a e
    ∙ rw
        (
          print_peers-none (without_peer fromaddr t.peers) a (without-cap fromaddr t.peers ∙ f),
          ◌>>=◌,
        )
        refl

-- `handle_msg` of a `BYE` that stands at `p`, with room in the scratch arena and a table of
-- peers that was made: the peer of the address it came from, if there is one, is not active any
-- more and has its other data still, every other handle gives the peer that it gave before, and
-- the address goes to the address for messages of every peer that is still active, in the order
-- of the table.
pub handle_bye_lem :
    (scratch : Arena) (fromaddr stale p n : ℕ) (more : List ℕ) (t : Tracking) (a : Arena)
    → drop p a.bs ≡ 4 ∷ more
    → IsValid scratch
    → scratch.pos + 1400 ≤ scratch.cap
    → IsTable t.peers.next t.peers.array.items
    → 0 < t.peers.array.cap
    → (scratch' : Arena) × (peers : Peers) × (handle_msg scratch fromaddr stale p n t a
        ≡ (send_all scratch'
                (framed (offline_bytes fromaddr))
                (active_addrs peers.array.items)
                t.world
              >>= λ w. return (record t { peers = peers; world = w }))
            a)
      × Left fromaddr t.peers peers
handle_bye_lem scratch fromaddr stale p n more t a e v fits table sc =
    let (s, buf, f, r) =
      first_message_lem (offline-Encodes fromaddr) scratch
        (v, omega arith, omega arith, omega arith) (omega arith) in
    (
      s,
      without_peer fromaddr t.peers,
      is_bye scratch fromaddr stale p n t more a e
          ∙ bye_steps scratch s fromaddr (framed (offline_bytes fromaddr)) buf t a f sc,
      without_peer_lem fromaddr t.peers table,
    )
