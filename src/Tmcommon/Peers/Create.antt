-- ===== src/Tmcommon/Peers/Create.antt =====
-- `create_peer` and `destroy_peer` on the table.
use tm.Base.{ℕ, ◌+◌, ◌≢◌, ◌≡◌, refl, ap, ◌∙◌, inl, inr, arith}
use tm.Base.{true, ◌<◌, length-append, List, [], ◌∷◌, ◌++◌, length, take, replicate, none, some, ok}
use tm.Base.{ne→==, take-take}
use tm.Clib.Arena.{Arena, ◌>>=◌}
use tm.Clib.Arena.Blocks.{IsValid, Extends, Extends-refl}
use tm.Clib.Array.{Array, append}
use tm.Clib.Array.Items.{HasSpace, array_append_lem}
use tm.Clib.Static.{
  c_str, staticstr_copy, NoZero, take-NoZero, staticstr_copy_lem, length-staticstr_copy,
}
use tm.Tmcommon.Peers.{
  Peer, Peers, peer_new, peer_replace, start, add_or_replace, create_peer, find_peer_fromaddr,
  get_peer_data, update_from,
}
use tm.Tmcommon.Peers.Table.{
  NoAddress, IsTable, Updates, update_from-cases, Updates-IsTable, Updates-find, Updates-find_other,
  Updates-get, peer_at, Updates-peer, Updates-peer_other,
}
use tm.Tmcommon.Peers.Added.{
  peer-append, peer-append_other, find-append, find-append_other, get-append, Below-append,
  Below-NoHandle, Distinct-append, Sized-append,
}

copy_twice :
    (dest first text : List ℕ)
    → length dest ≡ 17
    → length first ≡ 17
    → NoZero text
    → c_str (staticstr_copy dest 17 (c_str (staticstr_copy first 17 text))) ≡ take 16 text
copy_twice dest first text d f z =
    let e : c_str (staticstr_copy first 17 text) ≡ take 16 text =
      staticstr_copy_lem first 17 text (omega arith) (omega arith) z in
    ap (λ t. c_str (staticstr_copy dest 17 t)) e
    ∙ staticstr_copy_lem dest 17 (take 16 text) (omega arith) (omega arith) (take-NoZero 16 text z)
    ∙ take-take 16 16 text (omega arith)

-- `get_peer_data` gives the texts, cut to 16 bytes, and the addresses.
abbrev pub Shows : ℕ → List ℕ → List ℕ → ℕ → ℕ → List Peer → Type 0
Shows hpeer alias hostname fromaddr toaddr ps =
    (dest dest' : List ℕ)
    → length dest ≡ 17
    → length dest' ≡ 17
    → (xs ys : List ℕ) × (get_peer_data hpeer dest dest' ps ≡ some (xs, ys, fromaddr, toaddr))
      × (c_str xs ≡ take 16 alias)
      × (c_str ys ≡ take 16 hostname)

-- The table after `create_peer`, which gave the handle `h`.
pub record Created (ps : List Peer) (alias hostname : List ℕ) (fromaddr toaddr : ℕ) (peers' : Peers)
    (h : ℕ) : Type 0 where
  pub table : IsTable peers'.next peers'.array.items
  pub found : find_peer_fromaddr fromaddr peers'.array.items ≡ some h
  pub shows : Shows h alias hostname fromaddr toaddr peers'.array.items
  pub others :
      (k : ℕ) → k ≢ fromaddr → find_peer_fromaddr k peers'.array.items ≡ find_peer_fromaddr k ps
  pub made :
      (p : Peer) × (peer_at h peers'.array.items ≡ some p)
      × (p.active ≡ true)
      × (p.fromaddr ≡ fromaddr)
      × (p.toaddr ≡ toaddr)
  pub kept : (k : ℕ) → k ≢ h → peer_at k peers'.array.items ≡ peer_at k ps
  pub some_cap : 0 < peers'.array.cap

module _ (peers : Peers) (alias hostname : List ℕ) (fromaddr toaddr : ℕ) (za : NoZero alias)
    (zh : NoZero hostname) (t : IsTable peers.next peers.array.items) where
  abbrev ps : List Peer
  ps = peers.array.items

  abbrev replaced : Peer → Peer
  replaced p = peer_replace p alias hostname fromaddr toaddr

  abbrev added : Peer
  added = peer_new peers.next alias hostname fromaddr toaddr

  replaced-Created :
      (h : ℕ) (qs : List Peer)
      → 0 < peers.array.cap
      → Updates fromaddr replaced ps h qs
      → Created ps alias hostname fromaddr toaddr
          (record peers { array = record peers.array { items = qs } })
          h
  unfolding peer_replace
  replaced-Created h qs sc u = record {
    table =
        Updates-IsTable fromaddr replaced (λ p. refl) (λ p. refl)
          (λ p. length-staticstr_copy p.alias 17 alias)
          (λ p. length-staticstr_copy p.hostname 17 hostname) peers.next u t;
    found =
        Updates-find fromaddr replaced (λ p. refl) (λ p. refl)
          (λ p. length-staticstr_copy p.alias 17 alias)
          (λ p. length-staticstr_copy p.hostname 17 hostname) u;
    shows = λ dest dest' d d'.
        let (p, a, b, g) = Updates-get dest dest' (λ p. refl) u t.distinct t.sized in
        (
          staticstr_copy dest 17 (c_str (staticstr_copy p.alias 17 alias)),
          staticstr_copy dest' 17 (c_str (staticstr_copy p.hostname 17 hostname)),
          g,
          copy_twice dest p.alias alias d a za,
          copy_twice dest' p.hostname hostname d' b zh,
        );
    others = λ k n.
        Updates-find_other fromaddr replaced (λ p. refl) (λ p. refl)
          (λ p. length-staticstr_copy p.alias 17 alias)
          (λ p. length-staticstr_copy p.hostname 17 hostname) k n u;
    made =
        let (p, before, after) = Updates-peer (λ p. refl) u t.distinct in
        (replaced p, after, refl, refl, refl);
    kept = λ k n. Updates-peer_other k (λ p. refl) n u;
    some_cap = sc;
  }

  added-Created :
      (array : Array Peer)
      → array.items ≡ ps ++ (added ∷ [])
      → 0 < array.cap
      → NoAddress fromaddr ps
      → Created ps alias hostname fromaddr toaddr
          (record { array = array; next = peers.next + 1 })
          peers.next
  unfolding peer_new
  added-Created array e sc n = record {
    table = record {
      below = rw e (Below-append added ps t.below);
      distinct = rw e (Distinct-append added ps t.below n t.distinct);
      sized = rw e (
          Sized-append added ps t.sized (length-staticstr_copy (replicate 17 0) 17 alias)
            (length-staticstr_copy (replicate 17 0) 17 hostname));
    };
    found = rw e (find-append added ps n);
    shows = λ dest dest' d d'. (
      staticstr_copy dest 17 (c_str (staticstr_copy (replicate 17 0) 17 alias)),
      staticstr_copy dest' 17 (c_str (staticstr_copy (replicate 17 0) 17 hostname)),
      rw e (get-append added ps dest dest' (Below-NoHandle added ps t.below)),
      copy_twice dest (replicate 17 0) alias d refl za,
      copy_twice dest' (replicate 17 0) hostname d' refl zh,
    );
    others = λ k m. rw e (find-append_other added ps k m);
    made = (added, rw e (peer-append added ps (Below-NoHandle added ps t.below)), refl, refl, refl);
    kept = λ k m. rw e (peer-append_other added ps k m);
    some_cap = sc;
  }

  when_new :
      (a b : Arena) (array : Array Peer)
      → update_from fromaddr replaced ps ≡ none
      → append peers.array added a ≡ ok (array, b)
      → add_or_replace peers alias hostname fromaddr toaddr a
        ≡ ok ((record { array = array; next = peers.next + 1 }, peers.next), b)
  unfolding add_or_replace
  when_new a b array e f = rw (add_or_replace, e) (rw (f, ◌>>=◌))

  when_known :
      (a : Arena) (h : ℕ) (qs : List Peer)
      → update_from fromaddr replaced ps ≡ some (h, qs)
      → add_or_replace peers alias hostname fromaddr toaddr a
        ≡ ok ((record peers { array = record peers.array { items = qs } }, h), a)
  unfolding add_or_replace
  when_known a h qs e = rw (add_or_replace, e)

  pub add_or_replace_lem :
      (a : Arena)
      → HasSpace a peers.array
      → (b : Arena) × (peers' : Peers) × (h : ℕ) × (add_or_replace peers alias hostname fromaddr
            toaddr a
          ≡ ok ((peers', h), b))
        × Created ps alias hostname fromaddr toaddr peers' h
        × IsValid b
        × Extends a b
  add_or_replace_lem a s = elim (update_from-cases fromaddr replaced ps) [
    | inl (e, n) ↦
        let (b, array, f, g) = array_append_lem peers.array added a s in
        (
          b,
          record { array = array; next = peers.next + 1 },
          peers.next,
          when_new a b array e f,
          added-Created array g.items_eq
              (omega (arith, g.within, ap length g.items_eq, length-append ps (added ∷ []))) n,
          g.valid,
          g.extends,
        )
    | inr (h, qs, e, u) ↦ (
      a,
      record peers { array = record peers.array { items = qs } },
      h,
      when_known a h qs e,
      replaced-Created h qs s.some_cap u,
      s.valid,
      Extends-refl a,
    )
  ]

-- `create_peer` on a table where handles and addresses occur once, with space in its array or
-- its arena: it succeeds, the table stays such a table, the address is found with the handle
-- that it answers, that handle gives the texts, cut to 16 bytes, and the two addresses, its peer
-- is active, every other address is found as before, and every other handle gives the peer that
-- it gave before.
pub create_peer_lem :
    (peers : Peers) (alias hostname : List ℕ) (fromaddr toaddr : ℕ) (a : Arena)
    → NoZero alias
    → NoZero hostname
    → IsTable peers.next peers.array.items
    → HasSpace a peers.array
    → (b : Arena) × (peers' : Peers) × (h : ℕ) × (create_peer peers alias hostname fromaddr toaddr a
        ≡ ok ((peers', h), b))
      × Created peers.array.items alias hostname fromaddr toaddr peers' h
      × IsValid b
      × Extends a b
unfolding create_peer start
create_peer_lem peers alias hostname fromaddr toaddr a za zh t s =
    let (b, p, h, e, c, v, x) =
      add_or_replace_lem peers alias hostname fromaddr toaddr za zh t a s in
    (b, p, h, rw (ne→== peers.array.cap 0 (omega arith)) e, c, v, x)
