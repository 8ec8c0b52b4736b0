-- ===== src/Tracker/Loop/Steps.antt =====
-- The steps of a round of the loop of the tracker, and the descriptors that it watches.
use tm.Base.{ℕ, ◌≤◌, ◌≡◌, refl, sym, ap, subst, ◌∙◌, arith, inl, inr, Bool, true, false}
use tm.Base.{List, get_elem?, some, ok, ok-value}
use tm.Base.{fault-ok, ltb, ◌==◌, if◌then◌else◌, Bool-cases, Option-cases, ==_iff}
use tm.Clib.Arena.{Arena, M, return, ◌>>=◌}
use tm.Clib.Arena.Blocks.{bind_returns}
use tm.Clib.Array
use tm.Clib.Array.{Array}
use tm.Clib.Array.Items.{item-items}
use tm.Cnet.HostAddr.{from_sock_addr}
use tm.Cnet.Stream.{RecvEvent, net_recv, Received, fd_set}
use tm.Tmcommon.Contexts.{SocketCtx, ctx_new, find_by_fd}
use tm.Tmcommon.Contexts.Held.{HasFd, found-item}
use tm.Tmcommon.Contexts.Grown.{
  Grown-refl, Grown-set, Grown-HasFd, Grown-fd, Grown-Shut, Shut-HasFd, ctx_new-Grown,
}
use tm.Tmcommon.Sending.{World, Effect, shutdown}
use tm.Tmcommon.Sending.Grows.{Grows, Grows-refl, Grows-trans}
use tm.Tracker.Framing.{Reading, read_loop, read_fuel}
use tm.Tracker.Framing.Keeps.{read_loop-keeps}
use tm.Tracker.Handling.{Tracking, handle_msg}
use tm.Tracker.Handling.Grows.{handle_msg-Grows}
use tm.Tracker.Loop.{
  AcceptEvent, no_peer, other_family, peer, Server, world, with_world, put_ctx, logged, accept_peer,
  stop_reading, put_reading, is_eof, receive,
}
use tm.Tracker.Loop.Covered.{Covered, Grows-Covered, stop_reading-Covered}

-- A descriptor that `accept` answers has no context yet.
abbrev pub IsFresh : AcceptEvent → List SocketCtx → Type 0
IsFresh no_peer ctxs = Unit {0}
IsFresh (other_family fd) ctxs = Unit {0}
IsFresh (peer fd sa) ctxs = HasFd fd ctxs → ⊥

abbrev pub Serves : ℕ → Server → Type 0
Serves listenfd s = Covered listenfd s.readfds (world s)

log-Grows : (e : Effect) (w : World) → Grows w (logged e w)
log-Grows e w = record { ctxs = Grown-refl w.ctxs.items; larger = omega arith }

pub accept-Serves :
    (listenfd : ℕ) (event : AcceptEvent) (s s' : Server) (go_on : Bool) (a b : Arena)
    → IsFresh event (world s).ctxs.items
    → Serves listenfd s
    → accept_peer event s a ≡ ok ((s', go_on), b)
    → Serves listenfd s'
unfolding accept_peer
accept-Serves listenfd no_peer s s' go_on a b fresh c h =
    subst (λ t. Serves listenfd t) (ap (λ t. t.0) (ok-value h)) c
accept-Serves listenfd (other_family fd) s s' go_on a b fresh c h =
    subst (λ t. Serves listenfd t) (ap (λ t. t.0) (ok-value h))
      (Grows-Covered listenfd s.readfds (world s) (logged (shutdown fd) (world s))
        (log-Grows (shutdown fd) (world s)) c)
accept-Serves listenfd (peer fd sa) s s' go_on a b fresh c h =
    let w : World = world s in
    let max : ℕ = if ltb w.watch.maxfd fd then fd else w.watch.maxfd in
    let after : Array SocketCtx → Server = λ ctxs.
      record (with_world s (record w { ctxs = ctxs; watch = record w.watch { maxfd = max } })) {
        readfds = fd_set fd s.readfds;
      } in
    let (t, a₁, e₁, h₁) =
      bind_returns (ctx_new fd w.ctxs (from_sock_addr sa) 0 64 1) (λ t. return (after t.0, true)) a
        b (s', go_on) h in
    let (grown, has) = ctx_new-Grown fd (from_sock_addr sa) 0 64 1 w.ctxs t.0 t.1 a a₁ e₁ in
    let l : w.watch.maxfd ≤ max = ground arith in
    let m : fd ≤ max = ground arith in
    subst (λ u. Serves listenfd u) (ap (λ u. u.0) (ok-value h₁))
      (record {
        known = λ i k. elim (Bool-cases (i == fd)) [
          | inl e ↦ inr (subst (λ j. HasFd j t.0.items) (sym ((==_iff i fd).0 e)) has)
          | inr e ↦ elim (c.known i (rw (e) at k)) [
            | inl q ↦ inl q
            | inr q ↦ inr (Grown-HasFd w.ctxs.items t.0.items grown q)
          ]
        ];
        unshut = λ i k shut. elim (Bool-cases (i == fd)) [
          | inl e ↦ fresh (
              subst (λ j. HasFd j w.ctxs.items) ((==_iff i fd).0 e)
                (Shut-HasFd w.ctxs.items (Grown-Shut w.ctxs.items t.0.items grown shut)))
          | inr e ↦ c.unshut i (rw (e) at k) (Grown-Shut w.ctxs.items t.0.items grown shut)
        ];
        reached = λ i k. elim (Bool-cases (i == fd)) [
          | inl e ↦ subst (λ j. j ≤ max) (sym ((==_iff i fd).0 e)) m
          | inr e ↦ let n : i ≤ w.watch.maxfd = c.reached i (rw (e) at k) in omega arith
        ];
      })

put_reading-Grows :
    (i cap : ℕ) (r : Reading) (w w' : World) (a b : Arena)
    → put_reading i cap r w a ≡ ok (w', b)
    → Grows w w'
unfolding put_reading
put_reading-Grows i cap r w w' a b h = elim (Bool-cases (w.ctxs.cap == cap)) [
  | inr e ↦ absurd (fault-ok (rw (put_reading, e) at h))
  | inl e ↦
      let new : SocketCtx → SocketCtx =
        λ ctx. record ctx { readbuf = r.readbuf; msglen = r.msglen } in
      let (ctx, a₁, e₁, h₁) =
        bind_returns (Array.item w.ctxs i) (λ ctx. return (put_ctx i (new ctx) w)) a b w'
          (rw (put_reading, e) at h) in
      subst (λ v. Grows w v) (ok-value h₁)
        (record {
          ctxs = Grown-set w.ctxs.items i ctx (new ctx) (item-items w.ctxs i ctx a a₁ e₁) refl refl;
          larger = omega arith;
        })
]

finish_reading :
    (listenfd fd i : ℕ) (t s' : Server) (eof go_on : Bool) (a b : Arena)
    → ((ctx : SocketCtx) → get_elem? (world t).ctxs.items i ≡ some ctx → ctx.fd ≡ fd)
    → Serves listenfd t
    → (if eof
          then ◌>>=◌ {B = Server × Bool} (stop_reading fd i t) (λ u. return (u, true))
          else return (t, true))
        a
      ≡ ok ((s', go_on), b)
    → Serves listenfd s'
finish_reading listenfd fd i t s' false go_on a b own c h =
    subst (λ u. Serves listenfd u) (ap (λ u. u.0) (ok-value h)) c
finish_reading listenfd fd i t s' true go_on a b own c h =
    let (u, a₁, e₁, h₁) =
      bind_returns (stop_reading fd i t) (λ u. return (u, true)) a b (s', go_on) h in
    subst (λ v. Serves listenfd v) (ap (λ v. v.0) (ok-value h₁))
      (stop_reading-Covered listenfd fd i t u a a₁ own c e₁)

pub receive-Serves :
    (scratch : Arena) (stale listenfd fd : ℕ) (recvs : List RecvEvent) (s s' : Server)
    (go_on : Bool) (a b : Arena)
    → Serves listenfd s
    → receive scratch stale fd recvs s a ≡ ok ((s', go_on), b)
    → Serves listenfd s'
unfolding receive
receive-Serves scratch stale listenfd fd recvs s s' go_on a b c h =
    elim (Option-cases (find_by_fd fd 0 (world s).ctxs.items)) [
      | inl e ↦ subst (λ t. Serves listenfd t) (ap (λ t. t.0) (ok-value (rw (receive, e) at h))) c
      | inr (i, e) ↦
          let reading : SocketCtx → Received → Reading =
            λ ctx r. record { readbuf = r.buf; msglen = ctx.msglen; read_eof = is_eof r.status } in
          let handled : SocketCtx → Received → M (Reading × Tracking) = λ ctx r.
            read_loop (handle_msg scratch ctx.fromaddr stale) (read_fuel (reading ctx r))
              (reading ctx r) s.tracking in
          let after : Tracking → World → Server =
            λ t w. record s { tracking = record t { world = w } } in
          let finish : Reading → Tracking → World → M (Server × Bool) = λ done t w.
            if done.read_eof
            then (do s'' ← stop_reading fd i (after t w); return (s'', true))
            else return (after t w, true) in
          let putting : Reading × Tracking → M (Server × Bool) =
            λ q. (do w ← put_reading i (world s).ctxs.cap q.0 q.1.world; finish q.0 q.1 w) in
          let (ctx, a₁, e₁, h₁) =
            bind_returns (Array.item (world s).ctxs i)
              (λ ctx. do r ← net_recv recvs ctx.readbuf; q ← handled ctx r; putting q) a b
              (s', go_on) (rw (receive, e) at h) in
          let (r, a₂, e₂, h₂) =
            bind_returns (net_recv recvs ctx.readbuf) (λ r. do q ← handled ctx r; putting q) a₁ b
              (s', go_on) h₁ in
          let (q, a₃, e₃, h₃) = bind_returns (handled ctx r) putting a₂ b (s', go_on) h₂ in
          let (w, a₄, e₄, h₄) =
            bind_returns (put_reading i (world s).ctxs.cap q.0 q.1.world) (finish q.0 q.1) a₃ b
              (s', go_on) h₃ in
          let grows : Grows (world s) w =
            Grows-trans (world s) q.1.world w
              (read_loop-keeps (handle_msg scratch ctx.fromaddr stale)
                (λ t u. Grows t.world u.world) (λ t. Grows-refl t.world)
                (λ t u v. Grows-trans t.world u.world v.world)
                (λ p n t u a b. handle_msg-Grows scratch ctx.fromaddr stale p n t u a b)
                (read_fuel (reading ctx r)) (reading ctx r) q.0 s.tracking q.1 a₂ a₃ e₃)
              (put_reading-Grows i (world s).ctxs.cap q.0 q.1.world w a₃ a₄ e₄) in
          let now : Serves listenfd (after q.1 w) =
            Grows-Covered listenfd s.readfds (world s) w grows c in
          let (found, at_i, its_fd) = found-item fd i (world s).ctxs.items e in
          finish_reading listenfd fd i (after q.1 w) s' q.0.read_eof go_on a₄ b
            (λ d at_d.
              Grown-fd (world s).ctxs.items w.ctxs.items i found d grows.ctxs at_i at_d ∙ its_fd)
            now h₄
    ]
