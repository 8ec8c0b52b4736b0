-- ===== src/Client/Loop.antt =====
-- tm.c, `THREAD_wait_for_tcp_messages`: the loop round `select` of a client, up to a byte in the pipe
-- that ends it. It works in the arena of the contexts. What the system answers is a script.
pub mod Follows
pub mod Steps
pub mod Watched
pub mod Tests
use tm.Base.{
  ℕ, zero, suc, ◌+◌, Bool, true, false, not, ◌&&◌, List, [], ◌∷◌, ◌++◌, length, set, none, some,
}
use tm.Base.{fault, unfinished, ltb, leb, ◌==◌, if◌then◌else◌}
use tm.Clib.Arena
use tm.Clib.Arena.{Arena, M, return, ◌>>=◌}
use tm.Clib.Array
use tm.Clib.Array.{Array}
use tm.Clib.Buffer
use tm.Cnet.HostAddr.{SockAddr, from_sock_addr}
use tm.Cnet.Stream.{Status, finished, failed, ongoing, RecvEvent, net_recv, FdSet, fd_set, fd_clr}
use tm.Tmcommon.Contexts.{SocketCtx, find_by_fd, remove_by_fd}
use tm.Tracker.Framing.{Reading, read_loop, read_fuel}
use tm.Client.Handling.{Client, Locals, handle_msg}

-- An answer of `accept`: -1, a socket of another family, or one with its IPv4 address.
pub data AcceptEvent : Type 0 where
  no_peer : AcceptEvent
  other_family : ℕ → AcceptEvent
  peer : ℕ → SockAddr → AcceptEvent

-- One round: the set that `select` answers, what `accept` and `recv` answer, and the time.
pub record Round : Type 0 where
  pub readable : FdSet
  pub accept : AcceptEvent
  pub recvs : ℕ → List RecvEvent
  pub now : ℕ

pub data SelectAnswer : Type 0 where
  nothing broken : SelectAnswer
  ready : Round → SelectAnswer

-- `GTrackerAddr`, the two descriptors of the thread, and what stands in the locals of `handle_msg`.
pub record Fixed : Type 0 where
  pub tracker_addr : ℕ
  pub listenfd : ℕ
  pub pipefd : ℕ
  pub locals : Locals

-- The locals of the loop; `closed` are the sockets that were shut down, in order.
pub record Inbox : Type 0 where
  pub client : Client
  pub ctxs : Array SocketCtx
  pub readfds : FdSet
  pub maxfd : ℕ
  pub closed : List ℕ
  pub is_running : Bool

-- The branch for a new connection. `shut_rd` is not set, and not looked at.
pub accept_peer : AcceptEvent → Inbox → M Inbox
accept_peer no_peer s = return s
accept_peer (other_family fd) s = return (record s { closed = s.closed ++ (fd ∷ []) })
accept_peer (peer fd sa) s = do
  readbuf ← Buffer.new 64
  writebuf ← Buffer.new 64
  ctxs ← Array.append s.ctxs (record {
    fd = fd;
    fromaddr = from_sock_addr sa;
    toaddr = 0;
    readbuf = readbuf;
    writebuf = writebuf;
    msglen = 0;
    shut_rd = false;
  })
  return (record s {
    ctxs = ctxs;
    readfds = fd_set fd s.readfds;
    maxfd = if ltb s.maxfd fd then fd else s.maxfd;
  })

-- `sizeof(SocketCtx)`.
abbrev pub sizeof_ctx : ℕ
sizeof_ctx = 96

-- `if (read_eof)`: what waits in the write buffer is lost, as nothing is ever put there.
pub close_ctx : ℕ → Inbox → M Inbox
close_ctx fd s =
    let ctxs = remove_by_fd fd s.ctxs in
    let s' = record s {
      ctxs = ctxs;
      readfds = fd_clr fd s.readfds;
      closed = s.closed ++ (fd ∷ []);
    } in
    if length ctxs.items == 0
    then (λ a.
        (do fresh ← Array.new 64 sizeof_ctx; return (record s' { ctxs = fresh })) (Arena.reset a))
    else return s'

abbrev pub is_eof : Status → Bool
is_eof finished = true
is_eof failed = false
is_eof ongoing = false

-- The branch for bytes from a socket.
pub receive : Fixed → Round → ℕ → Inbox → M Inbox
receive fixed round fd s = elim (find_by_fd fd 0 s.ctxs.items) [
  | none ↦ return s
  | some i ↦ do
    ctx ← Array.item s.ctxs i
    r ← net_recv (round.recvs fd) ctx.readbuf
    let reading : Reading = record {
      readbuf = r.buf;
      msglen = ctx.msglen;
      read_eof = is_eof r.status;
    }
    (done, client) ←
        read_loop (handle_msg fixed.tracker_addr round.now fixed.locals ctx.fromaddr)
          (read_fuel reading) reading s.client
    let ctx' = record ctx { readbuf = done.readbuf; msglen = done.msglen }
    let s' = record s { client = client; ctxs = record s.ctxs { items = set s.ctxs.items i ctx' } }
    if done.read_eof then close_ctx fd s' else return s'
]

-- What a round does with the descriptor `i`.
pub visit : Fixed → Round → ℕ → Inbox → M Inbox
visit fixed round i s =
    if not (round.readable i)
    then return s
    else if i == fixed.pipefd
    then return (record s { is_running = false })
    else if i == fixed.listenfd
    then accept_peer round.accept s
    else receive fixed round i s

-- `for (int i=0; i <= maxfd; i++)`, left by `break` at the pipe.
pub scan : Fixed → Round → ℕ → ℕ → Inbox → M Inbox
scan fixed round zero i s = λ a. fault unfinished
scan fixed round (suc fuel) i s = elim (leb i s.maxfd && s.is_running) [
  | true ↦ do s' ← visit fixed round i s; scan fixed round fuel (i + 1) s'
  | false ↦ return s
]

-- `FD_SETSIZE`: the descriptors in a set are below it.
abbrev pub fd_setsize : ℕ
fd_setsize = 1024

-- `while (is_running)`, up to the end of the script, where the thread waits in `select`, or to an
-- error of `select`, where it returns without closing the listening socket.
pub listen_loop : Fixed → List SelectAnswer → Inbox → M Inbox
listen_loop fixed [] s = return s
listen_loop fixed (nothing ∷ answers) s = listen_loop fixed answers s
listen_loop fixed (broken ∷ answers) s = return s
listen_loop fixed (ready round ∷ answers) s = do
  s' ← scan fixed round (suc fd_setsize) 0 s
  elim s'.is_running [
    | true ↦ listen_loop fixed answers s'
    | false ↦ return (record s' { closed = s'.closed ++ (fixed.listenfd ∷ []) })
  ]

-- The locals in front of the loop, where the listening socket and the pipe could be opened.
pub start : Fixed → Client → M Inbox
start fixed client = do
  ctxs ← Array.new 64 sizeof_ctx
  return (record {
    client = client;
    ctxs = ctxs;
    readfds = fd_set fixed.pipefd (fd_set fixed.listenfd (λ fd. false));
    maxfd = if ltb fixed.listenfd fixed.pipefd then fixed.pipefd else fixed.listenfd;
    closed = [];
    is_running = true;
  })
