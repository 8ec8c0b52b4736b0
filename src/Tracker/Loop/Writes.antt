-- ===== src/Tracker/Loop/Writes.antt =====
-- Writing to a socket in the loop of the tracker, and the descriptors that it watches.
use tm.Base.{ℕ, ◌≤◌, ◌≡◌, refl, sym, ap, subst, arith, inl, inr, Bool, true, false, ◌&&◌}
use tm.Base.{List, set, get_elem?, some, ok, ok-value}
use tm.Base.{◌==◌, if◌then◌else◌, Bool-cases, Option-cases}
use tm.Clib.Arena.{Arena, M, return, ◌>>=◌}
use tm.Clib.Arena.Blocks.{bind_returns}
use tm.Clib.Array
use tm.Clib.Array.{Array}
use tm.Clib.Array.Items.{item-items}
use tm.Clib.Buffer
use tm.Clib.Buffer.{Buffer}
use tm.Cnet.Stream.{
  Status, finished, failed, ongoing, SendEvent, Sent, Watch, net_send2, FdSet, fd_clr,
}
use tm.Cnet.Stream.Watched.{net_send2-larger}
use tm.Tmcommon.Contexts.{SocketCtx, find_by_fd}
use tm.Tmcommon.Contexts.Grown.{Grown, Grown-set, Shut-item}
use tm.Tmcommon.Sending.{World, shut_wr, sent}
use tm.Tmcommon.Sending.Grows.{Grows}
use tm.Tracker.Loop.{put_ctx, logged, close_ctx, after_write, write_out}
use tm.Tracker.Loop.Covered.{Covered, Grows-Covered, close_ctx-Covered}

after_write-keeps :
    (fd : ℕ) (z : Status) (buf buf' : Buffer) (w w' : World) (a b : Arena)
    → after_write fd z buf w a ≡ ok ((w', buf'), b)
    → (w'.ctxs ≡ w.ctxs) × (w'.watch.maxfd ≡ w.watch.maxfd)
unfolding after_write
after_write-keeps fd ongoing buf buf' w w' a b h =
    let e : w ≡ w' = ap (λ t. t.0) (ok-value h) in
    (ap (λ v. v.ctxs) (sym e), ap (λ v. v.watch.maxfd) (sym e))
after_write-keeps fd finished buf buf' w w' a b h =
    let e = ap (λ t. t.0) (ok-value h) in
    (ap (λ v. v.ctxs) (sym e), ap (λ v. v.watch.maxfd) (sym e))
after_write-keeps fd failed buf buf' w w' a b h =
    let after : World =
      logged (shut_wr fd)
        (record w { watch = record w.watch { writefds = fd_clr fd w.watch.writefds } }) in
    let (cleared, a₁, e₁, h₁) =
      bind_returns (Buffer.clear buf) (λ x. return (after, x)) a b (w', buf') h in
    let e : after ≡ w' = ap (λ t. t.0) (ok-value h₁) in
    (ap (λ v. v.ctxs) (sym e), ap (λ v. v.watch.maxfd) (sym e))

-- A context that was shut down for reading is closed when all is written.
close_written :
    (listenfd : ℕ) (readfds : FdSet) (shut empty : Bool) (fd : ℕ) (w w' : World) (a b : Arena)
    → (shut ≡ true → readfds fd ≡ false)
    → Covered listenfd readfds w
    → (if shut && empty then close_ctx fd w else return w) a ≡ ok (w', b)
    → Covered listenfd readfds w'
close_written listenfd readfds true true fd w w' a b off c h =
    close_ctx-Covered listenfd fd readfds w w' a b (off refl) c h
close_written listenfd readfds true false fd w w' a b off c h =
    subst (λ v. Covered listenfd readfds v) (ok-value h) c
close_written listenfd readfds false empty fd w w' a b off c h =
    subst (λ v. Covered listenfd readfds v) (ok-value h) c

pub write_out-Covered :
    (listenfd : ℕ) (readfds : FdSet) (fd : ℕ) (sends : List SendEvent) (w w' : World) (a b : Arena)
    → Covered listenfd readfds w
    → write_out fd sends w a ≡ ok (w', b)
    → Covered listenfd readfds w'
unfolding write_out
write_out-Covered listenfd readfds fd sends w w' a b c h =
    elim (Option-cases (find_by_fd fd 0 w.ctxs.items)) [
      | inl e ↦ subst (λ v. Covered listenfd readfds v) (ok-value (rw (write_out, e) at h)) c
      | inr (i, e) ↦
          let wrote : Sent × Watch → World =
            λ t. logged (sent fd t.0.wire) (record w { watch = t.1 }) in
          let put : SocketCtx → World × Buffer → World =
            λ ctx q. put_ctx i (record ctx { writebuf = q.1 }) q.0 in
          let finish : SocketCtx → World × Buffer → M World = λ ctx q.
            if ctx.shut_rd && (q.1.len == 0)
            then close_ctx ctx.fd (put ctx q)
            else return (put ctx q) in
          let (ctx, a₁, e₁, h₁) =
            bind_returns (Array.item w.ctxs i)
              (λ ctx. do
                t ← net_send2 ctx.fd sends ctx.writebuf w.watch
                q ← after_write fd t.0.status t.0.buf (wrote t)
                finish ctx q)
              a b w' (rw (write_out, e) at h) in
          let (t, a₂, e₂, h₂) =
            bind_returns (net_send2 ctx.fd sends ctx.writebuf w.watch)
              (λ t. do q ← after_write fd t.0.status t.0.buf (wrote t); finish ctx q) a₁ b w' h₁ in
          let (q, a₃, e₃, h₃) =
            bind_returns (after_write fd t.0.status t.0.buf (wrote t)) (finish ctx) a₂ b w' h₂ in
          let item : get_elem? w.ctxs.items i ≡ some ctx = item-items w.ctxs i ctx a a₁ e₁ in
          let (same, max) = after_write-keeps fd t.0.status t.0.buf q.1 (wrote t) q.0 a₂ a₃ e₃ in
          let larger : w.watch.maxfd ≤ t.1.maxfd =
            net_send2-larger ctx.fd sends ctx.writebuf w.watch t.1 t.0 a₁ a₂ e₂ in
          let new : SocketCtx = record ctx { writebuf = q.1 } in
          let grows : Grows w (put ctx q) = record {
            ctxs =
                subst (λ r. Grown w.ctxs.items (set r.items i new)) (sym same)
                  (Grown-set w.ctxs.items i ctx new item refl refl);
            larger = omega (arith, max, larger);
          } in
          close_written listenfd readfds ctx.shut_rd (q.1.len == 0) ctx.fd (put ctx q) w' a₃ b
            (λ shut. elim (Bool-cases (readfds ctx.fd)) [
              | inl k ↦ absurd (c.unshut ctx.fd k (Shut-item w.ctxs.items i ctx item shut))
              | inr k ↦ k
            ])
            (Grows-Covered listenfd readfds w (put ctx q) grows c) h₃
    ]
