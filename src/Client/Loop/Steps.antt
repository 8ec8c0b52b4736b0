-- ===== src/Client/Loop/Steps.antt =====
-- The steps of a round of the loop of a client, and the descriptors that it watches.
use tm.Base.{
  ℕ, zero, suc, ◌+◌, ◌≤◌, ◌<◌, ◌≡◌, refl, sym, subst, arith, inl, inr, Bool, true, false, ◌&&◌,
}
use tm.Base.{
  [], ◌∷◌, ◌++◌, set, get_elem?, some, ok, fault-ok, ok-value, ltb, leb, ◌==◌, if◌then◌else◌,
}
use tm.Base.{Bool-cases, Option-cases, ==_iff}
use tm.Clib.Arena.{Arena, M, return, ◌>>=◌}
use tm.Clib.Arena.Blocks.{bind_returns}
use tm.Clib.Array
use tm.Clib.Array.{Array}
use tm.Clib.Array.Items.{append-items, item-items}
use tm.Clib.Buffer
use tm.Clib.Buffer.{Buffer}
use tm.Cnet.HostAddr.{SockAddr, from_sock_addr}
use tm.Cnet.Stream.{net_recv, Received, fd_set}
use tm.Tmcommon.Contexts.{SocketCtx, find_by_fd}
use tm.Tmcommon.Contexts.Held.{HasFd, HasFd-append, HasFd-last}
use tm.Tracker.Framing.{Reading, read_loop, read_fuel}
use tm.Client.Handling.{Client, handle_msg}
use tm.Client.Loop.Follows.{
  Follows, same-Follows, Follows-trans, larger_of, larger-below, put-Follows, close-Follows,
}
use tm.Client.Loop.{
  AcceptEvent, Round, Fixed, Inbox, accept_peer, close_ctx, is_eof, receive, visit, scan,
  fd_setsize,
}

-- What `accept` answers is below `FD_SETSIZE`.
abbrev pub IsSmall : AcceptEvent → Type 0
IsSmall AcceptEvent.no_peer = Unit {0}
IsSmall (AcceptEvent.other_family fd) = Unit {0}
IsSmall (AcceptEvent.peer fd sa) = fd < fd_setsize

-- A new connection.
accepted :
    (fd : ℕ) (sa : SockAddr) (s s' : Inbox) (a b : Arena)
    → fd < fd_setsize
    → accept_peer (AcceptEvent.peer fd sa) s a ≡ ok (s', b)
    → Follows s s'
unfolding accept_peer
accepted fd sa s s' a b small h =
    let ctx : Buffer → Buffer → SocketCtx = λ x y. record {
      fd = fd;
      fromaddr = from_sock_addr sa;
      toaddr = 0;
      readbuf = x;
      writebuf = y;
      msglen = 0;
      shut_rd = false;
    } in
    let after : Array SocketCtx → Inbox = λ ctxs. record s {
      ctxs = ctxs;
      readfds = fd_set fd s.readfds;
      maxfd = if ltb s.maxfd fd then fd else s.maxfd;
    } in
    let (x, a₁, e₁, h₁) =
      bind_returns (Buffer.new 64)
        (λ x. do y ← Buffer.new 64; ctxs ← Array.append s.ctxs (ctx x y); return (after ctxs)) a b
        s' h in
    let (y, a₂, e₂, h₂) =
      bind_returns (Buffer.new 64)
        (λ y. do ctxs ← Array.append s.ctxs (ctx x y); return (after ctxs)) a₁ b s' h₁ in
    let (ctxs, a₃, e₃, h₃) =
      bind_returns (Array.append s.ctxs (ctx x y)) (λ ctxs. return (after ctxs)) a₂ b s' h₂ in
    let items : ctxs.items ≡ s.ctxs.items ++ (ctx x y ∷ []) =
      append-items s.ctxs ctxs (ctx x y) a₂ a₃ e₃ in
    subst (λ t. Follows s t) (ok-value h₃)
      (record {
        known = λ i w. elim (Bool-cases (i == fd)) [
          | inl e ↦
              let q : i ≡ fd = (==_iff i fd).0 e in
              inr (
                subst (λ j. HasFd j ctxs.items) (sym q)
                    (subst (λ l. HasFd fd l) (sym items) (HasFd-last s.ctxs.items (ctx x y))),
                subst (λ j. j ≤ (if ltb s.maxfd fd then fd else s.maxfd)) (sym q)
                    ((larger_of s.maxfd fd).1),
              )
          | inr e ↦ inl (
            rw (e) at w,
            λ c. subst (λ l. HasFd i l) (sym items) (HasFd-append s.ctxs.items (ctx x y ∷ []) c),
          )
        ];
        larger = (larger_of s.maxfd fd).0;
        small = λ l. larger-below s.maxfd fd fd_setsize l small;
      })

-- What is done when the bytes of a socket are handled.
after_reading-Follows :
    (fd i : ℕ) (s s' : Inbox) (client : Client) (ctx new : SocketCtx) (eof : Bool) (a b : Arena)
    → get_elem? s.ctxs.items i ≡ some ctx
    → new.fd ≡ ctx.fd
    → (if eof
          then close_ctx fd (record s {
            client = client;
            ctxs = record s.ctxs { items = set s.ctxs.items i new };
          })
          else return (record s {
            client = client;
            ctxs = record s.ctxs { items = set s.ctxs.items i new };
          }))
        a
      ≡ ok (s', b)
    → Follows s s'
after_reading-Follows fd i s s' client ctx new true a b e f h =
    let t : Inbox = record s {
      client = client;
      ctxs = record s.ctxs { items = set s.ctxs.items i new };
    } in
    Follows-trans s t s' (put-Follows s client i ctx new e f) (close-Follows fd t s' a b h)
after_reading-Follows fd i s s' client ctx new false a b e f h =
    subst (λ t. Follows s t) (ok-value h) (put-Follows s client i ctx new e f)

received :
    (fixed : Fixed) (round : Round) (fd : ℕ) (s s' : Inbox) (a b : Arena)
    → receive fixed round fd s a ≡ ok (s', b)
    → Follows s s'
unfolding receive
received fixed round fd s s' a b h = elim (Option-cases (find_by_fd fd 0 s.ctxs.items)) [
  | inl e ↦ same-Follows s s' (ok-value (rw (receive, e) at h))
  | inr (i, e) ↦
      let reading : SocketCtx → Received → Reading =
        λ ctx r. record { readbuf = r.buf; msglen = ctx.msglen; read_eof = is_eof r.status } in
      let finish : SocketCtx → Reading → Client → M Inbox = λ ctx done client.
        let t : Inbox = record s {
          client = client;
          ctxs = record s.ctxs {
            items =
                set s.ctxs.items i (record ctx { readbuf = done.readbuf; msglen = done.msglen });
          };
        } in
        if done.read_eof then close_ctx fd t else return t in
      let handled : SocketCtx → Received → M (Reading × Client) = λ ctx r.
        read_loop (handle_msg fixed.tracker_addr round.now fixed.locals ctx.fromaddr)
          (read_fuel (reading ctx r)) (reading ctx r) s.client in
      let (ctx, a₁, e₁, h₁) =
        bind_returns (Array.item s.ctxs i)
          (λ ctx. do
            r ← net_recv (round.recvs fd) ctx.readbuf
            (done, client) ← handled ctx r
            finish ctx done client)
          a b s' (rw (receive, e) at h) in
      let (r, a₂, e₂, h₂) =
        bind_returns (net_recv (round.recvs fd) ctx.readbuf)
          (λ r. do (done, client) ← handled ctx r; finish ctx done client) a₁ b s' h₁ in
      let (t, a₃, e₃, h₃) = bind_returns (handled ctx r) (λ t. finish ctx t.0 t.1) a₂ b s' h₂ in
      after_reading-Follows fd i s s' t.1 ctx
        (record ctx { readbuf = t.0.readbuf; msglen = t.0.msglen }) t.0.read_eof a₃ b
        (item-items s.ctxs i ctx a a₁ e₁) refl h₃
]

accept-Follows :
    (event : AcceptEvent) (s s' : Inbox) (a b : Arena)
    → IsSmall event
    → accept_peer event s a ≡ ok (s', b)
    → Follows s s'
unfolding accept_peer
accept-Follows AcceptEvent.no_peer s s' a b small h = same-Follows s s' (ok-value h)
accept-Follows (AcceptEvent.other_family fd) s s' a b small h =
    subst (λ t. Follows s t) (ok-value h)
      (record { known = λ i w. inl (w, λ c. c); larger = omega arith; small = λ l. l })
accept-Follows (AcceptEvent.peer fd sa) s s' a b small h = accepted fd sa s s' a b small h

pub visited :
    (fixed : Fixed) (round : Round) (i : ℕ) (s s' : Inbox) (a b : Arena)
    → IsSmall round.accept
    → visit fixed round i s a ≡ ok (s', b)
    → Follows s s'
unfolding visit
visited fixed round i s s' a b small h = elim (Bool-cases (round.readable i)) [
  | inr e ↦ same-Follows s s' (ok-value (rw (visit, e) at h))
  | inl e ↦ elim (Bool-cases (i == fixed.pipefd)) [
    | inl f ↦
        subst (λ t. Follows s t) (ok-value (rw (visit, e, f) at h))
          (record { known = λ j w. inl (w, λ c. c); larger = omega arith; small = λ l. l })
    | inr f ↦ elim (Bool-cases (i == fixed.listenfd)) [
      | inl g ↦ accept-Follows round.accept s s' a b small (rw (visit, e, f, g) at h)
      | inr g ↦ received fixed round i s s' a b (rw (visit, e, f, g) at h)
    ]
  ]
]

pub scanned :
    (fixed : Fixed) (round : Round) (fuel i : ℕ) (s s' : Inbox) (a b : Arena)
    → IsSmall round.accept
    → scan fixed round fuel i s a ≡ ok (s', b)
    → Follows s s'
unfolding scan
scanned fixed round zero i s s' a b small h = absurd (fault-ok h)
scanned fixed round (suc fuel) i s s' a b small h =
    elim (Bool-cases (leb i s.maxfd && s.is_running)) [
      | inl e ↦
          let (t, a₁, e₁, h₁) =
            bind_returns (visit fixed round i s) (λ t. scan fixed round fuel (i + 1) t) a b s'
              (rw (scan, e) at h) in
          Follows-trans s t s' (visited fixed round i s t a a₁ small e₁)
            (scanned fixed round fuel (i + 1) t s' a₁ b small h₁)
      | inr e ↦ same-Follows s s' (ok-value (rw (scan, e) at h))
    ]
