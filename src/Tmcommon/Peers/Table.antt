-- ===== src/Tmcommon/Peers/Table.antt =====
-- What makes the table of peers a table: handles and addresses that occur once.
use tm.Base.{ℕ, ◌<◌, ◌≢◌, ◌≡◌, refl, sym, ap, ◌∙◌, ◌⊎◌, inl, inr}
use tm.Base.{
  none-some, some-inj, ◌==◌, if◌then◌else◌, Option, length, List, [], ◌∷◌, none, some, ne→==,
  ==_iff,
}
use native.Mathlib.Decide.{ℕ_discrete}
use tm.Clib.Static.{c_str, staticstr_copy}
use tm.Tmcommon.Peers.{Peer, update_from, find_peer_fromaddr, get_peer_data}

-- No peer has the address; no peer has the handle.
abbrev pub NoAddress : ℕ → List Peer → Type 0
NoAddress from [] = Unit
NoAddress from (p ∷ ps) = (p.fromaddr ≢ from) × NoAddress from ps

abbrev pub NoHandle : ℕ → List Peer → Type 0
NoHandle h [] = Unit
NoHandle h (p ∷ ps) = (p.hpeer ≢ h) × NoHandle h ps

abbrev pub Below : ℕ → List Peer → Type 0
Below next [] = Unit
Below next (p ∷ ps) = (p.hpeer < next) × Below next ps

abbrev pub Distinct : List Peer → Type 0
Distinct [] = Unit
Distinct (p ∷ ps) = NoHandle p.hpeer ps × NoAddress p.fromaddr ps × Distinct ps

-- The arrays for the texts have 17 bytes.
abbrev pub Sized : List Peer → Type 0
Sized [] = Unit
Sized (p ∷ ps) = (length p.alias ≡ 17) × (length p.hostname ≡ 17) × Sized ps

-- The invariant of the table, where `next` is the handle to come.
pub record IsTable (next : ℕ) (ps : List Peer) : Type 0 where
  pub below : Below next ps
  pub distinct : Distinct ps
  pub sized : Sized ps

-- `update_from`, which finds a peer with the address.
pub data Updates (from : ℕ) (f : Peer → Peer) : List Peer → ℕ → List Peer → Type 0 where
  here :
      (p : Peer) (ps : List Peer) → p.fromaddr ≡ from → Updates from f (p ∷ ps) p.hpeer (f p ∷ ps)
  there :
      (p : Peer) {ps qs : List Peer} {h : ℕ}
      → p.fromaddr ≢ from
      → Updates from f ps h qs
      → Updates from f (p ∷ ps) h (p ∷ qs)

pub update_from-cases :
    (from : ℕ) (f : Peer → Peer) (ps : List Peer)
    → ((update_from from f ps ≡ none) × NoAddress from ps)
      ⊎ ((h : ℕ) × (qs : List Peer) × (update_from from f ps ≡ some (h, qs))
          × Updates from f ps h qs)
unfolding update_from
update_from-cases from f [] = inl (refl, tt)
update_from-cases from f (p ∷ ps) = elim (ℕ_discrete p.fromaddr from) [
  | yes e ↦ inr (p.hpeer, f p ∷ ps, rw ((==_iff p.fromaddr from).1 e), here p ps e)
  | no n ↦ elim (update_from-cases from f ps) [
    | inl (e, k) ↦ inl (rw (ne→== p.fromaddr from n) (rw e), (n, k))
    | inr (h, qs, e, u) ↦ inr (h, p ∷ qs, rw (ne→== p.fromaddr from n) (rw e), there p n u)
  ]
]

module _ (from : ℕ) (f : Peer → Peer) (fh : (p : Peer) → (f p).hpeer ≡ p.hpeer)
    (ff : (p : Peer) → (f p).fromaddr ≡ from)
    (fa : (p : Peer) → length (f p).alias ≡ length p.alias)
    (fb : (p : Peer) → length (f p).hostname ≡ length p.hostname) where
  Updates-Below :
      {ps qs : List Peer} {h : ℕ} (next : ℕ)
      → Updates from f ps h qs
      → Below next ps
      → Below next qs
  Updates-Below next (here p ps e) (b, bs) = (rw (fh p) b, bs)
  Updates-Below next (there p n u) (b, bs) = (b, Updates-Below next u bs)

  Updates-NoHandle :
      {ps qs : List Peer} {h : ℕ} (k : ℕ) → Updates from f ps h qs → NoHandle k ps → NoHandle k qs
  Updates-NoHandle k (here p ps e) (b, bs) = (rw (fh p) b, bs)
  Updates-NoHandle k (there p n u) (b, bs) = (b, Updates-NoHandle k u bs)

  Updates-NoAddress :
      {ps qs : List Peer} {h : ℕ} (k : ℕ)
      → k ≢ from
      → Updates from f ps h qs
      → NoAddress k ps
      → NoAddress k qs
  Updates-NoAddress k m (here p ps e) (b, bs) = (rw (ff p) (λ q. m (sym q)), bs)
  Updates-NoAddress k m (there p n u) (b, bs) = (b, Updates-NoAddress k m u bs)

  Updates-Distinct :
      {ps qs : List Peer} {h : ℕ} → Updates from f ps h qs → Distinct ps → Distinct qs
  Updates-Distinct (here p ps e) (nh, na, d) = (rw (fh p) nh, rw (ff p, ← e) na, d)
  Updates-Distinct (there p n u) (nh, na, d) =
      (Updates-NoHandle p.hpeer u nh, Updates-NoAddress p.fromaddr n u na, Updates-Distinct u d)

  Updates-Sized : {ps qs : List Peer} {h : ℕ} → Updates from f ps h qs → Sized ps → Sized qs
  Updates-Sized (here p ps e) (a, b, k) = (fa p ∙ a, fb p ∙ b, k)
  Updates-Sized (there p n u) (a, b, k) = (a, b, Updates-Sized u k)

  pub Updates-IsTable :
      {ps qs : List Peer} {h : ℕ} (next : ℕ)
      → Updates from f ps h qs
      → IsTable next ps
      → IsTable next qs
  Updates-IsTable next u t = record {
    below = Updates-Below next u t.below;
    distinct = Updates-Distinct u t.distinct;
    sized = Updates-Sized u t.sized;
  }

  pub Updates-find :
      {ps qs : List Peer} {h : ℕ} → Updates from f ps h qs → find_peer_fromaddr from qs ≡ some h
  unfolding find_peer_fromaddr
  Updates-find (here p ps e) = rw ((==_iff (f p).fromaddr from).1 (ff p)) (ap some (fh p))
  Updates-find (there p n u) = rw (ne→== p.fromaddr from n) (Updates-find u)

  pub Updates-find_other :
      {ps qs : List Peer} {h : ℕ} (k : ℕ)
      → k ≢ from
      → Updates from f ps h qs
      → find_peer_fromaddr k qs ≡ find_peer_fromaddr k ps
  unfolding find_peer_fromaddr
  Updates-find_other k m (here p ps e) = rw (ff p, e) (rw (ne→== from k (λ q. m (sym q))))
  Updates-find_other k m (there p n u) = rw (Updates-find_other k m u)

-- The peer that is updated has the handle, and no other has.
Updates-handle :
    {from : ℕ} {f : Peer → Peer} {ps qs : List Peer} {h : ℕ} (k : ℕ)
    → Updates from f ps h qs
    → NoHandle k ps
    → k ≢ h
Updates-handle k (here p ps e) (n, ns) = λ q. n (sym q)
Updates-handle k (there p n u) (m, ns) = Updates-handle k u ns

-- The peer of a handle: all that the table says of it.
abbrev pub peer_at : ℕ → List Peer → Option Peer
peer_at h [] = none
peer_at h (p ∷ ps) = if p.hpeer == h then some p else peer_at h ps

pub Updates-peer :
    {from : ℕ} {f : Peer → Peer} {ps qs : List Peer} {h : ℕ}
    → ((p : Peer) → (f p).hpeer ≡ p.hpeer)
    → Updates from f ps h qs
    → Distinct ps
    → (p : Peer) × (peer_at h ps ≡ some p) × (peer_at h qs ≡ some (f p))
Updates-peer fh (here p ps e) d =
    (p, rw ((==_iff p.hpeer p.hpeer).1 refl) refl, rw ((==_iff _ p.hpeer).1 (fh p)) refl)
Updates-peer {h = h} fh (there p n u) (nh, na, d) =
    let (q, g, k) = Updates-peer fh u d in
    let m : p.hpeer ≢ h = Updates-handle p.hpeer u nh in
    (q, rw (ne→== p.hpeer h m) g, rw (ne→== p.hpeer h m) k)

pub Updates-peer_other :
    {from : ℕ} {f : Peer → Peer} {ps qs : List Peer} {h : ℕ} (k : ℕ)
    → ((p : Peer) → (f p).hpeer ≡ p.hpeer)
    → k ≢ h
    → Updates from f ps h qs
    → peer_at k qs ≡ peer_at k ps
Updates-peer_other k fh m (here p ps e) =
    rw (ne→== p.hpeer k (λ q. m (sym q))) (rw (ne→== (_) k (λ q. m (sym (sym (fh p) ∙ q)))) refl)
Updates-peer_other k fh m (there p n u) = rw (Updates-peer_other k fh m u) refl

-- What `get_peer_data` gives for a peer.
abbrev pub data_of : List ℕ → List ℕ → Peer → List ℕ × List ℕ × ℕ × ℕ
data_of alias hostname p = (
  staticstr_copy alias 17 (c_str p.alias),
  staticstr_copy hostname 17 (c_str p.hostname),
  p.fromaddr,
  p.toaddr,
)

pub Updates-get :
    {from : ℕ} {f : Peer → Peer} {ps qs : List Peer} {h : ℕ} (alias hostname : List ℕ)
    → ((p : Peer) → (f p).hpeer ≡ p.hpeer)
    → Updates from f ps h qs
    → Distinct ps
    → Sized ps
    → (p : Peer) × (length p.alias ≡ 17)
      × (length p.hostname ≡ 17)
      × (get_peer_data h alias hostname qs ≡ some (data_of alias hostname (f p)))
unfolding get_peer_data
Updates-get alias hostname fh (here p ps e) d (a, b, k) =
    (p, a, b, rw ((==_iff _ p.hpeer).1 (fh p)))
Updates-get {h = h} alias hostname fh (there p n u) (nh, na, d) (a, b, k) =
    let (q, qa, qb, g) = Updates-get alias hostname fh u d k in
    (q, qa, qb, rw (ne→== p.hpeer h (Updates-handle p.hpeer u nh)) g)

-- `get_peer_data` reads the peer of the handle.
pub get-peer_at :
    (h : ℕ) (ps : List Peer) (p : Peer) (alias hostname : List ℕ)
    → peer_at h ps ≡ some p
    → get_peer_data h alias hostname ps ≡ some (data_of alias hostname p)
unfolding get_peer_data
get-peer_at h [] p alias hostname e = absurd (none-some e)
get-peer_at h (q ∷ ps) p alias hostname e = elim (ℕ_discrete q.hpeer h) [
  | yes k ↦ rw ((==_iff q.hpeer h).1 k) (
      ap {A = Peer} (λ r. some (data_of alias hostname r))
        (some-inj (rw ((==_iff q.hpeer h).1 k) at e)))
  | no n ↦ rw (ne→== q.hpeer h n) (get-peer_at h ps p alias hostname (rw (ne→== q.hpeer h n) at e))
]
