-- ===== src/Client/Loop/Follows.antt =====
-- What a step of the loop of a client does to the descriptors that it watches.
use tm.Base.{ℕ, ◌≤◌, ◌<◌, ◌≡◌, ◌≢◌, subst, arith, inl, inr, ◌⊎◌, true, false}
use tm.Base.{
  List, [], ◌∷◌, ◌++◌, length, set, get_elem?, some, ok, ok-value, ltb, ◌==◌, if◌then◌else◌,
}
use tm.Base.{Bool-cases, ==_iff}
use tm.Clib.Arena
use tm.Clib.Arena.{Arena, M, return, ◌>>=◌}
use tm.Clib.Arena.Blocks.{bind_returns}
use tm.Clib.Array
use tm.Clib.Array.{Array}
use tm.Cnet.Stream.{fd_clr}
use tm.Tmcommon.Contexts.{SocketCtx, remove_by_fd}
use tm.Tmcommon.Contexts.Held.{HasFd, HasFd-set, HasFd-remove_by_fd}
use tm.Client.Handling.{Client}
use tm.Client.Loop.{Fixed, Inbox, close_ctx, fd_setsize, sizeof_ctx}

-- Every descriptor that is watched is the listening socket, the pipe, or a socket with a context,
-- and a round comes to it.
pub record Watched (fixed : Fixed) (s : Inbox) : Type 0 where
  pub known :
      (i : ℕ)
      → s.readfds i ≡ true
      → (i ≡ fixed.listenfd) ⊎ (i ≡ fixed.pipefd) ⊎ HasFd i s.ctxs.items
  pub reached : (i : ℕ) → s.readfds i ≡ true → i ≤ s.maxfd
  pub small : s.maxfd < fd_setsize

-- What it takes to stay so: what is watched now was watched, and its context is still there, or it
-- is a socket with a new context.
pub record Follows (s s' : Inbox) : Type 0 where
  pub known :
      (i : ℕ)
      → s'.readfds i ≡ true
      → ((s.readfds i ≡ true) × (HasFd i s.ctxs.items → HasFd i s'.ctxs.items))
        ⊎ (HasFd i s'.ctxs.items × (i ≤ s'.maxfd))
  pub larger : s.maxfd ≤ s'.maxfd
  pub small : s.maxfd < fd_setsize → s'.maxfd < fd_setsize

pub Follows-Watched :
    (fixed : Fixed) (s s' : Inbox) → Follows s s' → Watched fixed s → Watched fixed s'
Follows-Watched fixed s s' f w = record {
  known = λ i h. elim (f.known i h) [
    | inl (before, kept) ↦ elim (w.known i before) [
      | inl e ↦ inl e
      | inr (inl e) ↦ inr (inl e)
      | inr (inr c) ↦ inr (inr (kept c))
    ]
    | inr (c, l) ↦ inr (inr c)
  ];
  reached = λ i h. elim (f.known i h) [
    | inl (before, kept) ↦
        let l : i ≤ s.maxfd = w.reached i before in
        let m : s.maxfd ≤ s'.maxfd = f.larger in omega arith
    | inr (c, l) ↦ l
  ];
  small = f.small w.small;
}

pub Follows-refl : (s : Inbox) → Follows s s
Follows-refl s = record { known = λ i h. inl (h, λ c. c); larger = omega arith; small = λ h. h }

pub same-Follows : (s s' : Inbox) → s ≡ s' → Follows s s'
same-Follows s s' e = subst (λ t. Follows s t) e (Follows-refl s)

pub Follows-trans : (s t u : Inbox) → Follows s t → Follows t u → Follows s u
Follows-trans s t u f g = record {
  known = λ i h. elim (g.known i h) [
    | inl (before, kept) ↦ elim (f.known i before) [
      | inl (first, held) ↦ inl (first, λ c. kept (held c))
      | inr (c, l) ↦ let m : t.maxfd ≤ u.maxfd = g.larger in inr (kept c, omega arith)
    ]
    | inr r ↦ inr r
  ];
  larger =
      let l : s.maxfd ≤ t.maxfd = f.larger in let m : t.maxfd ≤ u.maxfd = g.larger in omega arith;
  small = λ h. g.small (f.small h);
}

-- The larger one of two descriptors.
pub larger_of :
    (m fd : ℕ) → (m ≤ (if ltb m fd then fd else m)) × (fd ≤ (if ltb m fd then fd else m))
larger_of m fd = (ground arith, ground arith)

pub larger-below : (m fd n : ℕ) → m < n → fd < n → (if ltb m fd then fd else m) < n
larger-below m fd n h k = ground arith

-- A context that is written back, and what does not touch descriptors.
pub put-Follows :
    (s : Inbox) (client : Client) (i : ℕ) (old new : SocketCtx)
    → get_elem? s.ctxs.items i ≡ some old
    → new.fd ≡ old.fd
    → Follows s
        (record s { client = client; ctxs = record s.ctxs { items = set s.ctxs.items i new } })
put-Follows s client i old new e f = record {
  known = λ j h. inl (h, HasFd-set s.ctxs.items i old new e f);
  larger = omega arith;
  small = λ h. h;
}

-- A socket that is closed.
closed_one :
    (fd : ℕ) (s : Inbox) (ctxs : Array SocketCtx)
    → ((i : ℕ) → i ≢ fd → HasFd i s.ctxs.items → HasFd i ctxs.items)
    → Follows s
        (record s { ctxs = ctxs; readfds = fd_clr fd s.readfds; closed = s.closed ++ (fd ∷ []) })
closed_one fd s ctxs kept = record {
  known = λ i h. elim (Bool-cases (i == fd)) [
    | inl e ↦ let z : false ≡ true = rw (e) at h in cc
    | inr e ↦ inl (rw (e) at h, kept i (λ q. let z : (i == fd) ≡ true = (==_iff i fd).1 q in cc))
  ];
  larger = omega arith;
  small = λ h. h;
}

no_ctx : (i : ℕ) (ctxs : List SocketCtx) → (length ctxs == 0) ≡ true → HasFd i ctxs → ⊥
no_ctx i [] h c = elim c [ ]
no_ctx i (ctx ∷ ctxs) h c =
    let z : length (ctx ∷ ctxs) ≡ 0 = (==_iff (length (ctx ∷ ctxs)) 0).0 h in omega (arith, z)

pub close-Follows :
    (fd : ℕ) (s s' : Inbox) (a b : Arena) → close_ctx fd s a ≡ ok (s', b) → Follows s s'
unfolding close_ctx
close-Follows fd s s' a b h =
    let ctxs : Array SocketCtx = remove_by_fd fd s.ctxs in
    let after : Array SocketCtx → Inbox =
      λ r. record s { ctxs = r; readfds = fd_clr fd s.readfds; closed = s.closed ++ (fd ∷ []) } in
    let kept : (i : ℕ) → i ≢ fd → HasFd i s.ctxs.items → HasFd i ctxs.items =
      λ i n c. HasFd-remove_by_fd fd i s.ctxs n c in
    elim (Bool-cases (length ctxs.items == 0)) [
      | inl e ↦
          let (fresh, a₁, e₁, h₁) =
            bind_returns (Array.new 64 sizeof_ctx) (λ r. return (after r)) (Arena.reset a) b s'
              (rw (close_ctx, e) at h) in
          subst (λ t. Follows s t) (ok-value h₁)
            (closed_one fd s fresh (λ i n c. absurd (no_ctx i ctxs.items e (kept i n c))))
      | inr e ↦
          subst (λ t. Follows s t) (ok-value (rw (close_ctx, e) at h)) (closed_one fd s ctxs kept)
    ]
