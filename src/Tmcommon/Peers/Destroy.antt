-- ===== src/Tmcommon/Peers/Destroy.antt =====
-- `destroy_peer` on the table.
use tm.Base.{ℕ, ◌≢◌, ◌≡◌, refl, sym, ◌∙◌, Bool, false, List, [], ◌∷◌}
use tm.Base.{some, none-some, some-inj, ap, ◌==◌, ne→==, ==_iff, if◌then◌else◌}
use native.Mathlib.Decide.{ℕ_discrete}
use tm.Tmcommon.Peers.{Peer, Peers, deactivate, destroy_peer, find_peer_fromaddr, get_peer_data}
use tm.Tmcommon.Peers.Table.{NoAddress, NoHandle, Below, Distinct, Sized, IsTable, peer_at}

-- Is the peer with the handle there, and active?
abbrev pub is_active : ℕ → List Peer → Bool
is_active h [] = false
is_active h (p ∷ ps) = if p.hpeer == h then p.active else is_active h ps

module _ (h : ℕ) where
  -- All but `active` is as it was.
  deactivate-find :
      (ps : List Peer) (k : ℕ) → find_peer_fromaddr k (deactivate h ps) ≡ find_peer_fromaddr k ps
  unfolding deactivate find_peer_fromaddr
  deactivate-find [] k = refl
  deactivate-find (p ∷ ps) k = elim (ℕ_discrete p.hpeer h) [
    | yes e ↦ rw ((==_iff p.hpeer h).1 e)
    | no n ↦ rw (ne→== p.hpeer h n) (rw (deactivate-find ps k))
  ]

  deactivate-get :
      (ps : List Peer) (k : ℕ) (alias hostname : List ℕ)
      → get_peer_data k alias hostname (deactivate h ps) ≡ get_peer_data k alias hostname ps
  unfolding deactivate get_peer_data
  deactivate-get [] k alias hostname = refl
  deactivate-get (p ∷ ps) k alias hostname = elim (ℕ_discrete p.hpeer h) [
    | yes e ↦ rw ((==_iff p.hpeer h).1 e)
    | no n ↦ rw (ne→== p.hpeer h n) (rw (deactivate-get ps k alias hostname))
  ]

  deactivate-NoHandle : (ps : List Peer) (k : ℕ) → NoHandle k ps → NoHandle k (deactivate h ps)
  unfolding deactivate
  deactivate-NoHandle [] k a = tt
  deactivate-NoHandle (p ∷ ps) k (a, b) = elim (ℕ_discrete p.hpeer h) [
    | yes e ↦ rw ((==_iff p.hpeer h).1 e) (a, b)
    | no n ↦ rw (ne→== p.hpeer h n) (a, deactivate-NoHandle ps k b)
  ]

  deactivate-NoAddress : (ps : List Peer) (k : ℕ) → NoAddress k ps → NoAddress k (deactivate h ps)
  unfolding deactivate
  deactivate-NoAddress [] k a = tt
  deactivate-NoAddress (p ∷ ps) k (a, b) = elim (ℕ_discrete p.hpeer h) [
    | yes e ↦ rw ((==_iff p.hpeer h).1 e) (a, b)
    | no n ↦ rw (ne→== p.hpeer h n) (a, deactivate-NoAddress ps k b)
  ]

  deactivate-IsTable :
      (ps : List Peer) (next : ℕ)
      → Below next ps
      → Distinct ps
      → Sized ps
      → IsTable next (deactivate h ps)
  unfolding deactivate
  deactivate-IsTable [] next b d s = record { below = tt; distinct = tt; sized = tt }
  deactivate-IsTable (p ∷ ps) next (b, bs) (nh, na, d) (x, y, s) = elim (ℕ_discrete p.hpeer h) [
    | yes e ↦
        rw ((==_iff p.hpeer h).1 e)
          (record { below = (b, bs); distinct = (nh, na, d); sized = (x, y, s) })
    | no n ↦
        let t = deactivate-IsTable ps next bs d s in
        rw (ne→== p.hpeer h n) (record {
          below = (b, t.below);
          distinct = (
            deactivate-NoHandle ps p.hpeer nh,
            deactivate-NoAddress ps p.fromaddr na,
            t.distinct,
          );
          sized = (x, y, t.sized);
        })
  ]

  deactivate-active : (ps : List Peer) → is_active h (deactivate h ps) ≡ false
  unfolding deactivate
  deactivate-active [] = refl
  deactivate-active (p ∷ ps) = elim (ℕ_discrete p.hpeer h) [
    | yes e ↦ rw ((==_iff p.hpeer h).1 e) (rw ((==_iff p.hpeer h).1 e))
    | no n ↦ rw (ne→== p.hpeer h n) (rw (ne→== p.hpeer h n) (deactivate-active ps))
  ]

  deactivate-active_other :
      (ps : List Peer) (k : ℕ) → k ≢ h → is_active k (deactivate h ps) ≡ is_active k ps
  unfolding deactivate
  deactivate-active_other [] k m = refl
  deactivate-active_other (p ∷ ps) k m = elim (ℕ_discrete p.hpeer h) [
    | yes e ↦ rw ((==_iff p.hpeer h).1 e) (rw (ne→== p.hpeer k (λ q. m (sym q ∙ e))))
    | no n ↦ rw (ne→== p.hpeer h n) (rw (deactivate-active_other ps k m))
  ]

  deactivate-peer_other :
      (ps : List Peer) (k : ℕ) → k ≢ h → peer_at k (deactivate h ps) ≡ peer_at k ps
  unfolding deactivate
  deactivate-peer_other [] k m = refl
  deactivate-peer_other (p ∷ ps) k m = elim (ℕ_discrete p.hpeer h) [
    | yes e ↦ rw ((==_iff p.hpeer h).1 e) (rw (ne→== p.hpeer k (λ q. m (sym q ∙ e))) refl)
    | no n ↦ rw (ne→== p.hpeer h n) (rw (deactivate-peer_other ps k m) refl)
  ]

  deactivate-peer :
      (ps : List Peer) (p : Peer)
      → peer_at h ps ≡ some p
      → peer_at h (deactivate h ps) ≡ some (record p { active = false })
  unfolding deactivate
  deactivate-peer [] p g = absurd (none-some g)
  deactivate-peer (q ∷ ps) p g = elim (ℕ_discrete q.hpeer h) [
    | yes e ↦ rw ((==_iff q.hpeer h).1 e) (
        rw ((==_iff q.hpeer h).1 e) (
          ap {A = Peer} (λ r. some (record r { active = false }))
            (some-inj (rw ((==_iff q.hpeer h).1 e) at g))))
    | no n ↦
        rw (ne→== q.hpeer h n)
          (rw (ne→== q.hpeer h n) (deactivate-peer ps p (rw (ne→== q.hpeer h n) at g)))
  ]

-- `destroy_peer` on a table where handles and addresses occur once keeps it one, makes the peer
-- of the handle inactive and no other, and changes neither what addresses are found nor the data
-- that handles give.
pub destroy_peer_lem :
    (h : ℕ) (peers : Peers)
    → IsTable peers.next peers.array.items
    → let ps = peers.array.items in
      let qs = (destroy_peer h peers).array.items in
      IsTable (destroy_peer h peers).next qs
      × (is_active h qs ≡ false)
      × ((k : ℕ) → k ≢ h → is_active k qs ≡ is_active k ps)
      × ((k : ℕ) → find_peer_fromaddr k qs ≡ find_peer_fromaddr k ps)
      × ((k : ℕ) (alias hostname : List ℕ)
          → get_peer_data k alias hostname qs ≡ get_peer_data k alias hostname ps)
unfolding destroy_peer
destroy_peer_lem h peers t =
    let ps : List Peer = peers.array.items in
    (
      deactivate-IsTable h ps peers.next t.below t.distinct t.sized,
      deactivate-active h ps,
      deactivate-active_other h ps,
      deactivate-find h ps,
      deactivate-get h ps,
    )

-- All that the table says of the peer but whether it is active, and of the others, is kept.
pub destroy_peer-at :
    (h : ℕ) (peers : Peers) (p : Peer)
    → peer_at h peers.array.items ≡ some p
    → peer_at h (destroy_peer h peers).array.items ≡ some (record p { active = false })
unfolding destroy_peer
destroy_peer-at h peers p e = deactivate-peer h peers.array.items p e

pub destroy_peer-at_other :
    (h : ℕ) (peers : Peers) (k : ℕ)
    → k ≢ h
    → peer_at k (destroy_peer h peers).array.items ≡ peer_at k peers.array.items
unfolding destroy_peer
destroy_peer-at_other h peers k n = deactivate-peer_other h peers.array.items k n

pub destroy_peer-cap : (h : ℕ) (peers : Peers) → (destroy_peer h peers).array.cap ≡ peers.array.cap
unfolding destroy_peer
destroy_peer-cap h peers = refl
