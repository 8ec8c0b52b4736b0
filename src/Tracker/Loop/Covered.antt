-- ===== src/Tracker/Loop/Covered.antt =====
-- The descriptors that the loop of the tracker watches, and what closing a socket does to them.
use tm.Base.{
  ℕ, ◌≤◌, ◌≡◌, ◌≢◌, refl, sym, ap, subst, ◌∙◌, arith, inl, inr, ◌⊎◌, true, false, Bool-cases,
  ==_iff,
}
use tm.Base.{List, [], ◌∷◌, length, get_elem?, some, ok, ok-value, ◌==◌, if◌then◌else◌}
use tm.Clib.Arena
use tm.Clib.Arena.{Arena, M, return, ◌>>=◌}
use tm.Clib.Arena.Blocks.{bind_returns}
use tm.Clib.Array
use tm.Clib.Array.{Array}
use tm.Clib.Array.Items.{new-items, item-items}
use tm.Cnet.Stream.{FdSet, fd_clr}
use tm.Tmcommon.Contexts.{SocketCtx, remove_by_fd}
use tm.Tmcommon.Contexts.Held.{HasFd, HasFd-set, HasFd-remove_by_fd}
use tm.Tmcommon.Contexts.Grown.{Shut, Grown-HasFd, Grown-Shut, Shut-set, Shut-remove_by_fd}
use tm.Tmcommon.Sending.{World, shutdown, shut_rd}
use tm.Tmcommon.Sending.Grows.{Grows}
use tm.Tracker.Loop.{
  Server, world, with_world, put_ctx, logged, sizeof_ctx, close_ctx, stop_reading,
}

-- Every descriptor that is watched for reading is the listening socket or has a context; it has none
-- that was shut down for reading; and a round comes to it.
pub record Covered (listenfd : ℕ) (readfds : FdSet) (w : World) : Type 0 where
  pub known : (i : ℕ) → readfds i ≡ true → (i ≡ listenfd) ⊎ HasFd i w.ctxs.items
  pub unshut : (i : ℕ) → readfds i ≡ true → Shut i w.ctxs.items → ⊥
  pub reached : (i : ℕ) → readfds i ≡ true → i ≤ w.watch.maxfd

pub Grows-Covered :
    (listenfd : ℕ) (readfds : FdSet) (w w' : World)
    → Grows w w'
    → Covered listenfd readfds w
    → Covered listenfd readfds w'
Grows-Covered listenfd readfds w w' g c = record {
  known = λ i h. elim (c.known i h) [
    | inl e ↦ inl e
    | inr k ↦ inr (Grown-HasFd w.ctxs.items w'.ctxs.items g.ctxs k)
  ];
  unshut = λ i h k. c.unshut i h (Grown-Shut w.ctxs.items w'.ctxs.items g.ctxs k);
  reached = λ i h.
      let l : i ≤ w.watch.maxfd = c.reached i h in
      let m : w.watch.maxfd ≤ w'.watch.maxfd = g.larger in omega arith;
}

no_ctx : (i : ℕ) (ctxs : List SocketCtx) → (length ctxs == 0) ≡ true → HasFd i ctxs → ⊥
no_ctx i [] h c = elim c [ ]
no_ctx i (ctx ∷ ctxs) h c =
    let z : length (ctx ∷ ctxs) ≡ 0 = (==_iff (length (ctx ∷ ctxs)) 0).0 h in omega (arith, z)

pub empty-Shut : {i : ℕ} (ctxs : List SocketCtx) → ctxs ≡ [] → Shut i ctxs → ⊥
empty-Shut [] e h = elim h [ ]
empty-Shut (x ∷ xs) e h = cc

-- A socket that is closed was not watched.
pub close_ctx-Covered :
    (listenfd fd : ℕ) (readfds : FdSet) (w w' : World) (a b : Arena)
    → readfds fd ≡ false
    → Covered listenfd readfds w
    → close_ctx fd w a ≡ ok (w', b)
    → Covered listenfd readfds w'
unfolding close_ctx
close_ctx-Covered listenfd fd readfds w w' a b off c h =
    let ctxs : Array SocketCtx = remove_by_fd fd w.ctxs in
    let after : Array SocketCtx → World = λ r. record (logged (shutdown fd) w) { ctxs = r } in
    let kept : (i : ℕ) → readfds i ≡ true → (i ≡ listenfd) ⊎ HasFd i ctxs.items = λ i k.
      elim (c.known i k) [
        | inl e ↦ inl e
        | inr m ↦ inr (
            HasFd-remove_by_fd fd i w.ctxs
              (λ q. let z : true ≡ false = sym k ∙ ap readfds q ∙ off in cc) m)
      ] in
    elim (Bool-cases (length ctxs.items == 0)) [
      | inl e ↦
          let (fresh, a₁, e₁, h₁) =
            bind_returns (Array.new 64 sizeof_ctx) (λ r. return (after r)) (Arena.reset a) b w'
              (rw (close_ctx, e) at h) in
          subst (λ v. Covered listenfd readfds v) (ok-value h₁)
            (record {
              known = λ i k. elim (kept i k) [
                | inl m ↦ inl m
                | inr m ↦ absurd (no_ctx i ctxs.items e m)
              ];
              unshut = λ i k m.
                  empty-Shut fresh.items (new-items 64 sizeof_ctx fresh (Arena.reset a) a₁ e₁) m;
              reached = c.reached;
            })
      | inr e ↦
          subst (λ v. Covered listenfd readfds v) (ok-value (rw (close_ctx, e) at h))
            (record {
              known = kept;
              unshut = λ i k m. c.unshut i k (Shut-remove_by_fd fd w.ctxs m);
              reached = c.reached;
            })
    ]

-- A context that is shut down for reading is not watched any more.
stopped :
    (listenfd fd i : ℕ) (readfds : FdSet) (w : World) (ctx : SocketCtx)
    → Covered listenfd readfds w
    → get_elem? w.ctxs.items i ≡ some ctx
    → ctx.fd ≡ fd
    → Covered listenfd
        (fd_clr fd readfds)
        (put_ctx i (record ctx { shut_rd = true }) (logged (shut_rd fd) w))
stopped listenfd fd i readfds w ctx c e q =
    let split : (j : ℕ) → fd_clr fd readfds j ≡ true → (j ≢ fd) × (readfds j ≡ true) = λ j h.
      elim (Bool-cases (j == fd)) [
        | inl f ↦ let z : false ≡ true = rw (f) at h in cc
        | inr f ↦ (λ r. let z : (j == fd) ≡ true = (==_iff j fd).1 r in cc, rw (f) at h)
      ] in
    record {
      known = λ j h. elim (c.known j (split j h).1) [
        | inl m ↦ inl m
        | inr m ↦ inr (HasFd-set w.ctxs.items i ctx (record ctx { shut_rd = true }) e refl m)
      ];
      unshut = λ j h m. elim (Shut-set w.ctxs.items i (record ctx { shut_rd = true }) m) [
        | inl r ↦ (split j h).0 (sym r ∙ q)
        | inr r ↦ c.unshut j (split j h).1 r
      ];
      reached = λ j h. c.reached j (split j h).1;
    }

cleared : (fd : ℕ) (readfds : FdSet) → fd_clr fd readfds fd ≡ false
cleared fd readfds = rw ((==_iff fd fd).1 refl) refl

pub stop_reading-Covered :
    (listenfd fd i : ℕ) (s s' : Server) (a b : Arena)
    → ((ctx : SocketCtx) → get_elem? (world s).ctxs.items i ≡ some ctx → ctx.fd ≡ fd)
    → Covered listenfd s.readfds (world s)
    → stop_reading fd i s a ≡ ok (s', b)
    → Covered listenfd s'.readfds (world s')
unfolding stop_reading
stop_reading-Covered listenfd fd i s s' a b own c h =
    let shut : SocketCtx → World =
      λ ctx. put_ctx i (record ctx { shut_rd = true }) (logged (shut_rd fd) (world s)) in
    let served : SocketCtx → World → Server =
      λ ctx w. with_world (record (with_world s (shut ctx)) { readfds = fd_clr fd s.readfds }) w in
    let finish : SocketCtx → M Server = λ ctx.
      if ctx.writebuf.len == 0
      then (do w' ← close_ctx fd (shut ctx); return (served ctx w'))
      else return (record (with_world s (shut ctx)) { readfds = fd_clr fd s.readfds }) in
    let (ctx, a₁, e₁, h₁) = bind_returns (Array.item (world s).ctxs i) finish a b s' h in
    let item : get_elem? (world s).ctxs.items i ≡ some ctx =
      item-items (world s).ctxs i ctx a a₁ e₁ in
    let now : Covered listenfd (fd_clr fd s.readfds) (shut ctx) =
      stopped listenfd fd i s.readfds (world s) ctx c item (own ctx item) in
    elim (Bool-cases (ctx.writebuf.len == 0)) [
      | inl e ↦
          let (w', a₂, e₂, h₂) =
            bind_returns (close_ctx fd (shut ctx)) (λ w'. return (served ctx w')) a₁ b s'
              (rw (e) at h₁) in
          subst (λ t. Covered listenfd t.readfds (world t)) (ok-value h₂)
            (close_ctx-Covered listenfd fd (fd_clr fd s.readfds) (shut ctx) w' a₁ a₂
              (cleared fd s.readfds) now e₂)
      | inr e ↦ subst (λ t. Covered listenfd t.readfds (world t)) (ok-value (rw (e) at h₁)) now
    ]
