-- ===== src/Cnet/Stream.antt =====
-- cnet.c, the loops round `recv`, `send` and `select` on a nonblocking socket. What the system calls
-- answer is a script, one event for each call.
pub mod Receive
pub mod Send
pub mod Wait
pub mod Watched
use tm.Base.{
  ℕ, ◌-◌, Bool, true, false, List, [], ◌∷◌, ◌++◌, fault, unfinished, ltb, ◌==◌, if◌then◌else◌,
}
use tm.Clib.Arena.{Arena, M, return, ◌>>=◌, ◌>>◌, assert, load}
use tm.Clib.Buffer
use tm.Clib.Buffer.{Buffer}

-- The results of `NetRecv` and `NetSend`: 0, -1 and 1.
pub data Status : Type 0 where
  finished failed ongoing : Status

-- An answer of `recv`: bytes, 0, or -1 with `EINTR`, with `EAGAIN`, or with another `errno`.
pub data RecvEvent : Type 0 where
  bytes : List ℕ → RecvEvent
  eof interrupted would_block broken : RecvEvent

pub record Received : Type 0 where
  pub status : Status
  pub buf : Buffer
  pub events : List RecvEvent

-- `NetRecv`.
unfoldable pub net_recv : List RecvEvent → Buffer → M Received
net_recv [] buf = λ a. fault unfinished
net_recv (eof ∷ events) buf = return (record { status = finished; buf = buf; events = events })
net_recv (interrupted ∷ events) buf = net_recv events buf
net_recv (would_block ∷ events) buf =
    return (record { status = ongoing; buf = buf; events = events })
net_recv (broken ∷ events) buf = return (record { status = failed; buf = buf; events = events })
net_recv (bytes xs ∷ events) buf = do buf' ← Buffer.append buf xs; net_recv events buf'

-- An answer of `send`: how many bytes it took, or -1 as above.
pub data SendEvent : Type 0 where
  took : ℕ → SendEvent
  interrupted would_block broken : SendEvent

-- `wire` is what went out, in order.
pub record Sent : Type 0 where
  pub status : Status
  pub buf : Buffer
  pub wire : List ℕ
  pub events : List SendEvent

-- `NetSend`.
pub net_send : List SendEvent → Buffer → M Sent
net_send [] buf =
    if buf.len == 0
    then return (record { status = finished; buf = buf; wire = []; events = [] })
    else (λ a. fault unfinished)
net_send (e ∷ events) buf =
    if buf.len == 0
    then return (record { status = finished; buf = buf; wire = []; events = e ∷ events })
    else elim e [
      | interrupted ↦ net_send events buf
      | would_block ↦ return (record { status = ongoing; buf = buf; wire = []; events = events })
      | broken ↦ return (record { status = failed; buf = buf; wire = []; events = events })
      | took z ↦ do
        assert (ltb 0 z)
        xs ← load buf.bs z
        buf' ← Buffer.shift buf z
        s ← net_send events buf'
        return (record s { wire = xs ++ s.wire })
    ]

-- `fd_set`, `FD_SET` and `FD_CLR`.
abbrev pub FdSet : Type 0
FdSet = ℕ → Bool

abbrev pub fd_set : ℕ → FdSet → FdSet
fd_set fd fds x = if x == fd then true else fds x

abbrev pub fd_clr : ℕ → FdSet → FdSet
fd_clr fd fds x = if x == fd then false else fds x

pub record Watch : Type 0 where
  pub writefds : FdSet
  pub maxfd : ℕ

-- What `NetSend2` does to `writefds` and `maxfd` after `NetSend` returned `status`.
unfoldable pub watch_after : ℕ → Status → Watch → Watch
watch_after fd finished w = record w { writefds = fd_clr fd w.writefds }
watch_after fd ongoing w = record {
  writefds = fd_set fd w.writefds;
  maxfd = if ltb w.maxfd fd then fd else w.maxfd;
}
watch_after fd failed w = w

-- `NetSend2`.
pub net_send2 : ℕ → List SendEvent → Buffer → Watch → M (Sent × Watch)
net_send2 fd events buf w = do s ← net_send events buf; return (s, watch_after fd s.status w)

-- An answer of `select` for the one socket: nothing in time, an interrupt, an error, or the set with
-- or without the socket.
pub data SelectEvent : Type 0 where
  timeout interrupted broken : SelectEvent
  ready : Bool → SelectEvent

-- The loop of `NetSend_wait_until_complete`; the socket is watched for writing.
pub wait_loop : List SelectEvent → List SendEvent → Buffer → M Sent
wait_loop [] sends buf = λ a. fault unfinished
wait_loop (timeout ∷ selects) sends buf =
    return (record { status = failed; buf = buf; wire = []; events = sends })
wait_loop (interrupted ∷ selects) sends buf = wait_loop selects sends buf
wait_loop (broken ∷ selects) sends buf =
    return (record { status = failed; buf = buf; wire = []; events = sends })
wait_loop (ready false ∷ selects) sends buf = wait_loop selects sends buf
wait_loop (ready true ∷ selects) sends buf = do
  s ← net_send sends buf
  elim s.status [
    | failed ↦ return s
    | finished ↦ return s
    | ongoing ↦ do
      t ← wait_loop selects s.events s.buf
      return (record t { wire = s.wire ++ t.wire })
  ]

-- `NetSend_wait_until_complete`: 0 or -1.
pub wait_until_complete : List SelectEvent → List SendEvent → Buffer → M Sent
wait_until_complete selects sends buf = do
  s ← net_send sends buf
  elim s.status [
    | failed ↦ return s
    | finished ↦ return s
    | ongoing ↦ do
      t ← wait_loop selects s.events s.buf
      return (record t { wire = s.wire ++ t.wire })
  ]
