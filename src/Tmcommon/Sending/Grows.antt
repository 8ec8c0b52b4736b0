-- ===== src/Tmcommon/Sending/Grows.antt =====
-- What sending does to the contexts and to the range of descriptors, whatever the system answers.
use tm.Base.{
  ℕ, ◌≤◌, ◌≡◌, refl, ap, subst, arith, inl, inr, Option-cases, Bool-cases, Outcome-cases, ok-value,
}
use tm.Base.{List, [], ◌∷◌, ◌++◌, length, set, none, ok, fault-ok, ltb, if◌then◌else◌}
use tm.Clib.Arena.{Arena, M, return, ◌>>=◌, load}
use tm.Clib.Arena.Blocks.{bind_returns}
use tm.Clib.Array
use tm.Clib.Array.{Array}
use tm.Clib.Array.Items.{item-items}
use tm.Clib.Buffer
use tm.Clib.Buffer.{Buffer}
use tm.Cnet.Stream.{Status, finished, failed, ongoing, SendEvent, Watch, Sent, fd_set, net_send2}
use tm.Cnet.HostAddr.{to_sock_addr}
use tm.Cnet.Stream.Watched.{net_send2-larger}
use tm.Tmcommon.Contexts.{SocketCtx, ctx_new, find_by_toaddr}
use tm.Tmcommon.Contexts.Grown.{Grown, Grown-refl, Grown-trans, Grown-set, ctx_new-Grown}
use tm.Tmcommon.Peers.{Peer}
use tm.Tmcommon.Sending.{
  asked_connect, World, Attempt, no_socket, no_connection, connected, sent, queue, send_now,
  keep_rest, after_send, send_msg_to_hostaddr, send_msg_to_peers,
}

-- The contexts stay, new ones are open, and the range of descriptors only grows.
pub record Grows (w w' : World) : Type 0 where
  pub ctxs : Grown w.ctxs.items w'.ctxs.items
  pub larger : w.watch.maxfd ≤ w'.watch.maxfd

pub Grows-refl : (w : World) → Grows w w
Grows-refl w = record { ctxs = Grown-refl w.ctxs.items; larger = omega arith }

pub Grows-trans : (u v w : World) → Grows u v → Grows v w → Grows u w
Grows-trans u v w g h = record {
  ctxs = Grown-trans u.ctxs.items v.ctxs.items w.ctxs.items g.ctxs h.ctxs;
  larger =
      let k : u.watch.maxfd ≤ v.watch.maxfd = g.larger in
      let l : v.watch.maxfd ≤ w.watch.maxfd = h.larger in omega arith;
}

queue-Grows :
    (bytes : List ℕ) (i : ℕ) (w w' : World) (a b : Arena)
    → queue bytes i w a ≡ ok (w', b)
    → Grows w w'
unfolding queue
queue-Grows bytes i w w' a b h =
    let after : SocketCtx → Buffer → World = λ ctx buf. record w {
      ctxs = record w.ctxs { items = set w.ctxs.items i (record ctx { writebuf = buf }) };
    } in
    let (ctx, a₁, e₁, h₁) =
      bind_returns (Array.item w.ctxs i)
        (λ ctx. do buf ← Buffer.append ctx.writebuf bytes; return (after ctx buf)) a b w' h in
    let (buf, a₂, e₂, h₂) =
      bind_returns (Buffer.append ctx.writebuf bytes) (λ buf. return (after ctx buf)) a₁ b w' h₁ in
    subst (λ v. Grows w v) (ok-value h₂)
      (record {
        ctxs =
            Grown-set w.ctxs.items i ctx (record ctx { writebuf = buf })
              (item-items w.ctxs i ctx a a₁ e₁) refl refl;
        larger = omega arith;
      })

send_now-larger :
    (bytes wire left : List ℕ) (fd : ℕ) (sends : List SendEvent) (w w' : Watch) (z : Status)
    (a b : Arena)
    → send_now bytes fd sends w a ≡ ok ((z, wire, left, w'), b)
    → w.maxfd ≤ w'.maxfd
unfolding send_now
send_now-larger bytes wire left fd sends w w' z a b h =
    let finish : Sent × Watch → M (Status × List ℕ × List ℕ × Watch) =
      λ t. (do rest ← load t.0.buf.bs t.0.buf.len; return (t.0.status, t.0.wire, rest, t.1)) in
    let (buf, a₁, e₁, h₁) =
      bind_returns (Buffer.new (length bytes))
        (λ buf. do sendbuf ← Buffer.append buf bytes; t ← net_send2 fd sends sendbuf w; finish t) a
        b (z, wire, left, w') h in
    let (sendbuf, a₂, e₂, h₂) =
      bind_returns (Buffer.append buf bytes)
        (λ sendbuf. do t ← net_send2 fd sends sendbuf w; finish t) a₁ b (z, wire, left, w') h₁ in
    let (t, a₃, e₃, h₃) =
      bind_returns (net_send2 fd sends sendbuf w) finish a₂ b (z, wire, left, w') h₂ in
    let (rest, a₄, e₄, h₄) =
      bind_returns (load t.0.buf.bs t.0.buf.len) (λ rest. return (t.0.status, t.0.wire, rest, t.1))
        a₃ b (z, wire, left, w') h₃ in
    subst (λ v. w.maxfd ≤ v.maxfd) (ap (λ r. r.3) (ok-value h₄))
      (net_send2-larger fd sends sendbuf w t.1 t.0 a₂ a₃ e₃)

keep_rest-Grows :
    (fd toaddr : ℕ) (left : List ℕ) (w w' : World) (a b : Arena)
    → keep_rest fd toaddr left w a ≡ ok (w', b)
    → Grows w w'
unfolding keep_rest
keep_rest-Grows fd toaddr left w w' a b h =
    let watched : World → World = λ v. record v {
      watch = record {
        writefds = fd_set fd v.watch.writefds;
        maxfd = if ltb v.watch.maxfd fd then fd else v.watch.maxfd;
      };
    } in
    let (t, a₁, e₁, h₁) =
      bind_returns (ctx_new fd w.ctxs 0 toaddr 1 64)
        (λ t. do v ← queue left t.1 (record w { ctxs = t.0 }); return (watched v)) a b w' h in
    let (v, a₂, e₂, h₂) =
      bind_returns (queue left t.1 (record w { ctxs = t.0 })) (λ v. return (watched v)) a₁ b w'
        h₁ in
    let made : Grows w (record w { ctxs = t.0 }) = record {
      ctxs = (ctx_new-Grown fd 0 toaddr 1 64 w.ctxs t.0 t.1 a a₁ e₁).0;
      larger = omega arith;
    } in
    let done : Grows v (watched v) = record {
      ctxs = Grown-refl v.ctxs.items;
      larger = ground arith;
    } in
    subst (λ u. Grows w u) (ok-value h₂)
      (Grows-trans w v (watched v)
        (Grows-trans w (record w { ctxs = t.0 }) v made
          (queue-Grows left t.1 (record w { ctxs = t.0 }) v a₁ a₂ e₂))
        done)

after_send-Grows :
    (fd toaddr : ℕ) (z z' : Status) (left : List ℕ) (w w' : World) (a b : Arena)
    → after_send fd toaddr z left w a ≡ ok ((w', z'), b)
    → Grows w w'
unfolding after_send
after_send-Grows fd toaddr failed z' left w w' a b h =
    subst (λ v. Grows w v) (ap (λ t. t.0) (ok-value h))
      (record { ctxs = Grown-refl w.ctxs.items; larger = omega arith })
after_send-Grows fd toaddr finished z' left w w' a b h =
    subst (λ v. Grows w v) (ap (λ t. t.0) (ok-value h))
      (record { ctxs = Grown-refl w.ctxs.items; larger = omega arith })
after_send-Grows fd toaddr ongoing z' left w w' a b h =
    let (v, a₁, e₁, h₁) =
      bind_returns (keep_rest fd toaddr left w) (λ v. return (v, finished)) a b (w', z') h in
    subst (λ u. Grows w u) (ap (λ t. t.0) (ok-value h₁))
      (keep_rest-Grows fd toaddr left w v a a₁ e₁)

-- Where no context has the address.
opened-Grows :
    (scratch : Arena) (bytes : List ℕ) (toaddr : ℕ) (attempts : List Attempt) (w w' : World)
    (z : Status) (a b : Arena)
    → w.attempts ≡ attempts
    → find_by_toaddr toaddr 0 w.ctxs.items ≡ none
    → send_msg_to_hostaddr scratch bytes toaddr w a ≡ ok ((w', z), b)
    → Grows w w'
unfolding send_msg_to_hostaddr
opened-Grows scratch bytes toaddr [] w w' z a b e f h =
    absurd (fault-ok (rw (send_msg_to_hostaddr, f, e) at h))
opened-Grows scratch bytes toaddr (no_socket ∷ rest) w w' z a b e f h =
    subst (λ v. Grows w v) (ap (λ t. t.0) (ok-value (rw (send_msg_to_hostaddr, f, e) at h)))
      (record { ctxs = Grown-refl w.ctxs.items; larger = omega arith })
opened-Grows scratch bytes toaddr (no_connection fd ∷ rest) w w' z a b e f h =
    subst (λ v. Grows w v) (ap (λ t. t.0) (ok-value (rw (send_msg_to_hostaddr, f, e) at h)))
      (record { ctxs = Grown-refl w.ctxs.items; larger = omega arith })
opened-Grows scratch bytes toaddr (connected fd sends ∷ rest) w w' z a b e f h =
    elim (Outcome-cases (send_now bytes fd sends w.watch scratch)) [
      | inr (bad, g) ↦ absurd (fault-ok (rw (send_msg_to_hostaddr, f, e, g) at h))
      | inl (((status, wire, left, watch), s), g) ↦
          let v : World = record w {
            watch = watch;
            attempts = rest;
            log = w.log ++ (asked_connect fd (to_sock_addr toaddr) ∷ sent fd wire ∷ []);
          } in
          Grows-trans w v w'
            (record {
              ctxs = Grown-refl w.ctxs.items;
              larger = send_now-larger bytes wire left fd sends w.watch watch status scratch s g;
            })
            (after_send-Grows fd toaddr status z left v w' a b
              (rw (send_msg_to_hostaddr, f, e, g) at h))
    ]

pub send_msg_to_hostaddr-Grows :
    (scratch : Arena) (bytes : List ℕ) (toaddr : ℕ) (w w' : World) (z : Status) (a b : Arena)
    → send_msg_to_hostaddr scratch bytes toaddr w a ≡ ok ((w', z), b)
    → Grows w w'
unfolding send_msg_to_hostaddr
send_msg_to_hostaddr-Grows scratch bytes toaddr w w' z a b h =
    elim (Option-cases (find_by_toaddr toaddr 0 w.ctxs.items)) [
      | inl e ↦ opened-Grows scratch bytes toaddr w.attempts w w' z a b refl e h
      | inr (i, e) ↦
          let (v, a₁, e₁, h₁) =
            bind_returns (queue bytes i w) (λ v. return (v, ongoing)) a b (w', z)
              (rw (send_msg_to_hostaddr, e) at h) in
          subst (λ u. Grows w u) (ap (λ t. t.0) (ok-value h₁)) (queue-Grows bytes i w v a a₁ e₁)
    ]

pub send_msg_to_peers-Grows :
    (scratch : Arena) (bytes : List ℕ) (ps : List Peer) (w w' : World) (a b : Arena)
    → send_msg_to_peers scratch bytes ps w a ≡ ok (w', b)
    → Grows w w'
unfolding send_msg_to_peers
send_msg_to_peers-Grows scratch bytes [] w w' a b h =
    subst (λ v. Grows w v) (ok-value h) (Grows-refl w)
send_msg_to_peers-Grows scratch bytes (p ∷ ps) w w' a b h = elim (Bool-cases p.active) [
  | inr e ↦ send_msg_to_peers-Grows scratch bytes ps w w' a b (rw (send_msg_to_peers, e) at h)
  | inl e ↦
      let (t, a₁, e₁, h₁) =
        bind_returns (send_msg_to_hostaddr scratch bytes p.toaddr w)
          (λ t. send_msg_to_peers scratch bytes ps t.0) a b w' (rw (send_msg_to_peers, e) at h) in
      Grows-trans w t.0 w' (send_msg_to_hostaddr-Grows scratch bytes p.toaddr w t.0 t.1 a a₁ e₁)
        (send_msg_to_peers-Grows scratch bytes ps t.0 w' a₁ b h₁)
]
