-- ===== src/Tracker/Loop.antt =====
-- tmtracker.c, `THREAD_wait_for_tcp_messages`: the loop round `select`. It works in the arena of the
-- contexts. What the system answers is a script.
pub mod Covered
pub mod Steps
pub mod Writes
pub mod Served
pub mod Tests
use tm.Base.{
  ℕ, zero, suc, ◌+◌, Bool, true, false, not, ◌&&◌, Option, List, [], ◌∷◌, ◌++◌, length, map, set,
  none, some,
}
use tm.Base.{fault, wild, unfinished, ltb, leb, ◌==◌, if◌then◌else◌}
use tm.Clib.Arena
use tm.Clib.Arena.{Arena, M, return, ◌>>=◌}
use tm.Clib.Array
use tm.Clib.Array.{Array}
use tm.Clib.Buffer
use tm.Clib.Buffer.{Buffer}
use tm.Cnet.Connect.{Resolved, OpenEvents, open_tcp_socket}
use tm.Cnet.HostAddr.{SockAddr, from_sock_addr}
use tm.Cnet.Stream.{
  Status, finished, failed, ongoing, RecvEvent, net_recv, SendEvent, net_send2, FdSet, fd_set,
  fd_clr,
}
use tm.Tmcommon.Contexts.{SocketCtx, ctx_new, find_by_fd, remove_by_fd}
use tm.Tmcommon.Sending.{World, Attempt, Effect, shutdown, shut_rd, shut_wr, sent}
use tm.Tmcommon.Peers.{Peers}
use tm.Tracker.Framing.{Reading, read_loop, read_fuel}
use tm.Tracker.Handling.{Tracking, handle_msg}

-- An answer of `accept`: -1, a socket of another family, or one with its IPv4 address.
pub data AcceptEvent : Type 0 where
  no_peer : AcceptEvent
  other_family : ℕ → AcceptEvent
  peer : ℕ → SockAddr → AcceptEvent

-- One round: the two sets that `select` answers, and what the sockets in them answer. What `accept`
-- answers depends on the descriptors that are in use.
pub record Round : Type 0 where
  pub readable : FdSet
  pub writable : FdSet
  pub accept : List ℕ → AcceptEvent
  pub recvs : ℕ → List RecvEvent
  pub sends : ℕ → List SendEvent

-- An answer of `select`: 0 or `EINTR`, another error, or sets.
pub data SelectAnswer : Type 0 where
  nothing broken : SelectAnswer
  ready : Round → SelectAnswer

-- The locals of the loop, with the table of peers.
pub record Server : Type 0 where
  pub tracking : Tracking
  pub readfds : FdSet

abbrev pub world : Server → World
world s = s.tracking.world

abbrev pub with_world : Server → World → Server
with_world s w = record s { tracking = record s.tracking { world = w } }

-- A context that is written back at its index.
abbrev pub put_ctx : ℕ → SocketCtx → World → World
put_ctx i ctx w = record w { ctxs = record w.ctxs { items = set w.ctxs.items i ctx } }

abbrev pub logged : Effect → World → World
logged e w = record w { log = w.log ++ (e ∷ []) }

-- `sizeof(SocketCtx)`: a number, two addresses, two buffers of 32 bytes, and two more numbers.
abbrev pub sizeof_ctx : ℕ
sizeof_ctx = 96

-- The branch for a new connection. The Boolean says whether the round goes on with this descriptor.
pub accept_peer : AcceptEvent → Server → M (Server × Bool)
accept_peer no_peer s = return (s, false)
accept_peer (other_family fd) s = return (with_world s (logged (shutdown fd) (world s)), false)
accept_peer (peer fd sa) s = do
  (ctxs, i) ← ctx_new fd (world s).ctxs (from_sock_addr sa) 0 64 1
  let w = world s
  let watch = record w.watch { maxfd = if ltb w.watch.maxfd fd then fd else w.watch.maxfd }
  return (
    record (with_world s (record w { ctxs = ctxs; watch = watch })) {
      readfds = fd_set fd s.readfds;
    },
    true,
  )

-- `SocketCtx_close_and_remove`, and a new array in an arena that is empty again where no context is
-- left.
pub close_ctx : ℕ → World → M World
close_ctx fd w =
    let ctxs = remove_by_fd fd w.ctxs in
    let w' = record (logged (shutdown fd) w) { ctxs = ctxs } in
    if length ctxs.items == 0
    then (λ a.
        (do fresh ← Array.new 64 sizeof_ctx; return (record w' { ctxs = fresh })) (Arena.reset a))
    else return w'

-- `if (read_eof)`.
pub stop_reading : ℕ → ℕ → Server → M Server
stop_reading fd i s = do
  ctx ← Array.item (world s).ctxs i
  let w = put_ctx i (record ctx { shut_rd = true }) (logged (shut_rd fd) (world s))
  let s' = record (with_world s w) { readfds = fd_clr fd s.readfds }
  if ctx.writebuf.len == 0 then (do w' ← close_ctx fd w; return (with_world s' w')) else return s'

-- The read buffer is written back through the pointer that was taken before the messages were
-- handled. Where the array has moved since then, that pointer does not lead to the context any more,
-- and the model stops.
pub put_reading : ℕ → ℕ → Reading → World → M World
put_reading i cap r w =
    if w.ctxs.cap == cap
    then (do
      ctx ← Array.item w.ctxs i
      return (put_ctx i (record ctx { readbuf = r.readbuf; msglen = r.msglen }) w))
    else (λ a. fault wild)

-- `NetRecv` answered 0.
abbrev pub is_eof : Status → Bool
is_eof finished = true
is_eof failed = false
is_eof ongoing = false

-- The branch for bytes from a peer.
pub receive : Arena → ℕ → ℕ → List RecvEvent → Server → M (Server × Bool)
receive scratch stale fd recvs s = elim (find_by_fd fd 0 (world s).ctxs.items) [
  | none ↦ return (s, false)
  | some i ↦ do
    ctx ← Array.item (world s).ctxs i
    r ← net_recv recvs ctx.readbuf
    let reading : Reading = record {
      readbuf = r.buf;
      msglen = ctx.msglen;
      read_eof = is_eof r.status;
    }
    (done, t) ←
        read_loop (handle_msg scratch ctx.fromaddr stale) (read_fuel reading) reading s.tracking
    w ← put_reading i (world s).ctxs.cap done t.world
    let s' = record s { tracking = record t { world = w } }
    if done.read_eof then (do s'' ← stop_reading fd i s'; return (s'', true)) else return (s', true)
]

-- What is done with `writefds` and the buffer after `NetSend2`.
pub after_write : ℕ → Status → Buffer → World → M (World × Buffer)
after_write fd ongoing buf w = return (w, buf)
after_write fd finished buf w = return (
  logged (shut_wr fd)
      (record w { watch = record w.watch { writefds = fd_clr fd w.watch.writefds } }),
  buf,
)
after_write fd failed buf w = do
  cleared ← Buffer.clear buf
  return (
    logged (shut_wr fd)
        (record w { watch = record w.watch { writefds = fd_clr fd w.watch.writefds } }),
    cleared,
  )

-- The branch for a socket that can be written.
pub write_out : ℕ → List SendEvent → World → M World
write_out fd sends w = elim (find_by_fd fd 0 w.ctxs.items) [
  | none ↦ return w
  | some i ↦ do
    ctx ← Array.item w.ctxs i
    (z, watch) ← net_send2 ctx.fd sends ctx.writebuf w.watch
    let w₁ = logged (sent fd z.wire) (record w { watch = watch })
    (w₂, buf) ← after_write fd z.status z.buf w₁
    let w₃ = put_ctx i (record ctx { writebuf = buf }) w₂
    if ctx.shut_rd && (buf.len == 0) then close_ctx ctx.fd w₃ else return w₃
]

-- What a round does with the descriptor `i`.
pub visit : Arena → ℕ → ℕ → Round → ℕ → Server → M Server
visit scratch stale listenfd round i s = do
  (s', go_on) ←
      if round.readable i
      then (if i == listenfd
          then accept_peer (round.accept (map (λ ctx. ctx.fd) (world s).ctxs.items)) s
          else receive scratch stale i (round.recvs i) s)
      else return (s, true)
  if go_on && round.writable i
      then (do w ← write_out i (round.sends i) (world s'); return (with_world s' w))
      else return s'

-- `for (int i=0; i <= maxfd; i++)`, where `maxfd` may grow on the way.
pub scan : Arena → ℕ → ℕ → Round → ℕ → ℕ → Server → M Server
scan scratch stale listenfd round zero i s = λ a. fault unfinished
scan scratch stale listenfd round (suc fuel) i s = elim (leb i (world s).watch.maxfd) [
  | true ↦ do
    s' ← visit scratch stale listenfd round i s
    scan scratch stale listenfd round fuel (i + 1) s'
  | false ↦ return s
]

-- `FD_SETSIZE`: the descriptors in a set are below it.
abbrev pub fd_setsize : ℕ
fd_setsize = 1024

-- `while (1)`, up to the end of the script, where the thread waits in `select`, or to an error of
-- `select`.
pub serve : Arena → ℕ → ℕ → List SelectAnswer → Server → M Server
serve scratch stale listenfd [] s = return s
serve scratch stale listenfd (nothing ∷ answers) s = serve scratch stale listenfd answers s
serve scratch stale listenfd (broken ∷ answers) s = return s
serve scratch stale listenfd (ready round ∷ answers) s = do
  s' ← scan scratch stale listenfd round (suc fd_setsize) 0 s
  serve scratch stale listenfd answers s'

-- The state in front of the loop: nothing is watched but the listening socket.
pub start : ℕ → Peers → Arena → List Attempt → M Server
start listenfd peers peers_arena attempts = do
  ctxs ← Array.new 64 sizeof_ctx
  return (record {
    tracking = record {
      peers = peers;
      peers_arena = peers_arena;
      world = record {
        ctxs = ctxs;
        watch = record { writefds = λ fd. false; maxfd = listenfd };
        attempts = attempts;
        log = [];
      };
    };
    readfds = fd_set listenfd (λ fd. false);
  })

-- `THREAD_wait_for_tcp_messages`; `none` is an early return. `can_listen` says whether `listen`
-- answers 0.
pub wait_for_tcp_messages :
    Arena
    → ℕ
    → Resolved
    → OpenEvents
    → Bool
    → Peers
    → Arena
    → List Attempt
    → List SelectAnswer
    → M (Option Server)
wait_for_tcp_messages scratch stale host opening can_listen peers peers_arena attempts answers = do
  o ← open_tcp_socket host opening
  elim o.fd [
    | none ↦ return none
    | some listenfd ↦ if not can_listen then return none else (do
      s ← start listenfd peers peers_arena attempts
      s' ← serve scratch stale listenfd answers s
      return (some s'))
  ]
