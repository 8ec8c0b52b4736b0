-- ===== src/Cnet/Connect.antt =====
-- cnet.c, the calls that open a TCP socket. What the system answers is a script; what becomes of the
-- descriptors is a log. Each socket call has its own answer, and the time that is left for `select`
-- is part of its answers.
pub mod Closes
use tm.Base.{ℕ, ◌+◌, Bool, true, false, not, List, [], ◌∷◌, ◌++◌, Option, none, some}
use tm.Base.{ok, fault, unfinished, ◌==◌, if◌then◌else◌}
use tm.Clib.Arena.{M, return, ◌>>=◌, ◌>>◌, assert}
use tm.Cnet.HostAddr.{SockAddr, to_sock_addr}
use tm.Cnet.Stream.{SelectEvent, timeout, interrupted, broken, ready}

-- An answer of `connect`: 0, or -1 with `EINPROGRESS` or another `errno`.
pub data ConnectEvent : Type 0 where
  connected in_progress refused : ConnectEvent

-- The answers while a socket is opened: of `socket`, whether `setsockopt` and `bind` answer 0, of
-- `connect`, of `select`, and of `getsockopt`, with the error of the socket where it answers 0.
pub record OpenEvents : Type 0 where
  pub socket : Option ℕ
  pub setsockopt : Bool
  pub bind : Bool
  pub connect : ConnectEvent
  pub selects : List SelectEvent
  pub so_error : Option ℕ

-- What happened to a descriptor. `ShutdownSocket` shuts the socket down and closes it.
pub data SocketEffect : Type 0 where
  opened : ℕ → SocketEffect
  bound : ℕ → ℕ → SocketEffect
  asked_connect : ℕ → SockAddr → SocketEffect
  shut_down : ℕ → SocketEffect

-- The descriptor, or `none` for -1.
pub record Opened : Type 0 where
  pub fd : Option ℕ
  pub log : List SocketEffect

-- What the loop over `select` comes to: the socket can be written, or `return -1`.
pub data Polled : Type 0 where
  writable gave_up : Polled

-- `while (1) { int zz = select(...) ... }`, with the assertions behind it.
pub poll_loop : List SelectEvent → M Polled
poll_loop [] a = fault unfinished
poll_loop (timeout ∷ selects) a = ok (gave_up, a)
poll_loop (interrupted ∷ selects) a = poll_loop selects a
poll_loop (broken ∷ selects) a = ok (gave_up, a)
poll_loop (ready b ∷ selects) a = (do assert b; return writable) a

-- `ShutdownSocket(fd); return -1;`
pub give_up : ℕ → List SocketEffect → Opened
give_up fd log = record { fd = none; log = log ++ (shut_down fd ∷ []) }

-- `getsockopt` for `SO_ERROR`.
pub check_error : ℕ → List SocketEffect → Option ℕ → Opened
check_error fd log none = give_up fd log
check_error fd log (some err) =
    if err == 0 then record { fd = some fd; log = log } else give_up fd log

-- `OpenTcpConnectSocket` from the answer of `connect` on.
pub finish_connect : ℕ → List SocketEffect → OpenEvents → M Opened
finish_connect fd log ev = elim ev.connect [
  | connected ↦ return (record { fd = some fd; log = log })
  | refused ↦ return (give_up fd log)
  | in_progress ↦ do
    polled ← poll_loop ev.selects
    elim polled [
      | writable ↦ return (check_error fd log ev.so_error)
      | gave_up ↦ return (give_up fd log)
    ]
]

-- `OpenTcpConnectSocket`.
pub open_tcp_connect_socket : ℕ → SockAddr → OpenEvents → M Opened
open_tcp_connect_socket bindport sa ev = elim ev.socket [
  | none ↦ return (record { fd = none; log = [] })
  | some fd ↦
      if not ev.setsockopt
      then return (record { fd = none; log = opened fd ∷ [] })
      else if not ev.bind
      then return (record { fd = none; log = opened fd ∷ [] })
      else finish_connect fd (opened fd ∷ bound fd bindport ∷ asked_connect fd sa ∷ []) ev
]

-- `OpenTcpConnectSocket2`.
pub open_tcp_connect_socket2 : ℕ → ℕ → OpenEvents → M Opened
open_tcp_connect_socket2 bindport hostaddr ev =
    open_tcp_connect_socket bindport (to_sock_addr hostaddr) ev

-- An answer of `getaddrinfo`: the family, the length and the address of the first entry.
pub data Resolved : Type 0 where
  unresolved : Resolved
  address : ℕ → ℕ → SockAddr → Resolved

-- `sizeof(SockAddrIPV4)`.
abbrev pub sizeof_sock_addr : ℕ
sizeof_sock_addr = 16

-- `GetIPV4Address`; `none` is -1.
pub get_ipv4_address : Resolved → M (Option SockAddr)
get_ipv4_address unresolved = return none
get_ipv4_address (address family len sa) = do
  assert (family == 2)
  assert (len == sizeof_sock_addr)
  return (some sa)

-- `OpenTcpConnectSocket3`.
pub open_tcp_connect_socket3 : ℕ → Resolved → OpenEvents → M Opened
open_tcp_connect_socket3 bindport host ev = do
  sa ← get_ipv4_address host
  elim sa [
    | none ↦ return (record { fd = none; log = [] })
    | some sa ↦ open_tcp_connect_socket bindport sa ev
  ]

-- `OpenTcpSocket`.
pub open_tcp_socket : Resolved → OpenEvents → M Opened
open_tcp_socket host ev = do
  sa ← get_ipv4_address host
  elim sa [
    | none ↦ return (record { fd = none; log = [] })
    | some sa ↦ elim ev.socket [
      | none ↦ return (record { fd = none; log = [] })
      | some fd ↦
          if not ev.setsockopt
          then return (record { fd = none; log = opened fd ∷ [] })
          else if not ev.bind
          then return (record { fd = none; log = opened fd ∷ [] })
          else return (record { fd = some fd; log = opened fd ∷ bound fd sa.sin_port ∷ [] })
    ]
  ]
