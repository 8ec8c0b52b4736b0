-- ===== src/Tmcommon/Peers/Added.antt =====
-- Adding a peer behind the others keeps the table a table.
use tm.Base.{ℕ, ◌+◌, ◌≢◌, ◌≡◌, refl, sym, arith, length, List, [], ◌∷◌, ◌++◌, some, ne→==, ==_iff}
use tm.Tmcommon.Peers.{Peer, find_peer_fromaddr, get_peer_data}
use tm.Tmcommon.Peers.Table.{NoAddress, NoHandle, Below, Distinct, Sized, data_of, peer_at}

-- A peer that is added behind the others.
module _ (q : Peer) where
  pub find-append :
      (ps : List Peer)
      → NoAddress q.fromaddr ps
      → find_peer_fromaddr q.fromaddr (ps ++ (q ∷ [])) ≡ some q.hpeer
  unfolding find_peer_fromaddr
  find-append [] n = rw ((==_iff q.fromaddr q.fromaddr).1 refl)
  find-append (p ∷ ps) (n, ns) = rw (ne→== p.fromaddr q.fromaddr n) (find-append ps ns)

  pub find-append_other :
      (ps : List Peer) (k : ℕ)
      → k ≢ q.fromaddr
      → find_peer_fromaddr k (ps ++ (q ∷ [])) ≡ find_peer_fromaddr k ps
  unfolding find_peer_fromaddr
  find-append_other [] k n = rw (ne→== q.fromaddr k (λ e. n (sym e)))
  find-append_other (p ∷ ps) k n = rw (find-append_other ps k n)

  pub get-append :
      (ps : List Peer) (alias hostname : List ℕ)
      → NoHandle q.hpeer ps
      → get_peer_data q.hpeer alias hostname (ps ++ (q ∷ [])) ≡ some (data_of alias hostname q)
  unfolding get_peer_data
  get-append [] alias hostname n = rw ((==_iff q.hpeer q.hpeer).1 refl)
  get-append (p ∷ ps) alias hostname (n, ns) =
      rw (ne→== p.hpeer q.hpeer n) (get-append ps alias hostname ns)

  pub Below-append : (ps : List Peer) → Below q.hpeer ps → Below (q.hpeer + 1) (ps ++ (q ∷ []))
  Below-append [] b = (omega arith, tt)
  Below-append (p ∷ ps) (b, bs) = (omega arith, Below-append ps bs)

  NoHandle-append :
      (k : ℕ) (ps : List Peer) → NoHandle k ps → q.hpeer ≢ k → NoHandle k (ps ++ (q ∷ []))
  NoHandle-append k [] n m = (m, tt)
  NoHandle-append k (p ∷ ps) (n, ns) m = (n, NoHandle-append k ps ns m)

  NoAddress-append :
      (k : ℕ) (ps : List Peer) → NoAddress k ps → q.fromaddr ≢ k → NoAddress k (ps ++ (q ∷ []))
  NoAddress-append k [] n m = (m, tt)
  NoAddress-append k (p ∷ ps) (n, ns) m = (n, NoAddress-append k ps ns m)

  pub Below-NoHandle : (ps : List Peer) → Below q.hpeer ps → NoHandle q.hpeer ps
  Below-NoHandle [] b = tt
  Below-NoHandle (p ∷ ps) (b, bs) = (omega arith, Below-NoHandle ps bs)

  pub Distinct-append :
      (ps : List Peer)
      → Below q.hpeer ps
      → NoAddress q.fromaddr ps
      → Distinct ps
      → Distinct (ps ++ (q ∷ []))
  Distinct-append [] b n d = (tt, tt, tt)
  Distinct-append (p ∷ ps) (b, bs) (n, ns) (nh, na, d) = (
    NoHandle-append p.hpeer ps nh (omega arith),
    NoAddress-append p.fromaddr ps na (λ e. n (sym e)),
    Distinct-append ps bs ns d,
  )

  pub Sized-append :
      (ps : List Peer)
      → Sized ps
      → length q.alias ≡ 17
      → length q.hostname ≡ 17
      → Sized (ps ++ (q ∷ []))
  Sized-append [] s a b = (a, b, tt)
  Sized-append (p ∷ ps) (c, d, s) a b = (c, d, Sized-append ps s a b)

  pub peer-append :
      (ps : List Peer) → NoHandle q.hpeer ps → peer_at q.hpeer (ps ++ (q ∷ [])) ≡ some q
  peer-append [] n = rw ((==_iff q.hpeer q.hpeer).1 refl) refl
  peer-append (p ∷ ps) (n, ns) = rw (ne→== p.hpeer q.hpeer n) (peer-append ps ns)

  pub peer-append_other :
      (ps : List Peer) (k : ℕ) → k ≢ q.hpeer → peer_at k (ps ++ (q ∷ [])) ≡ peer_at k ps
  peer-append_other [] k n = rw (ne→== q.hpeer k (λ e. n (sym e))) refl
  peer-append_other (p ∷ ps) k n = rw (peer-append_other ps k n) refl
