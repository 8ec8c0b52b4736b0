-- ===== src/Tmcommon/Sending.antt =====
-- tmcommon.c, `send_msg_to_hostaddr` and `send_msg_to_peers`. What `socket` and `connect` answer, and
-- the answers of `send` on each new socket, are scripts; what goes out is a log.
pub mod Queued
pub mod Message
pub mod Broadcast
pub mod Grows
use tm.Base.{ℕ, zero, suc, ◌+◌, ◌%◌, ◌^◌, Bool, true, false, List, [], ◌∷◌, ◌++◌, length, set}
use tm.Base.{Option, none, some, ok, fault, unfinished, ltb, if◌then◌else◌}
use tm.Clib.Arena.{Arena, M, return, ◌>>=◌, load}
use tm.Clib.Array
use tm.Clib.Array.{Array}
use tm.Clib.Buffer
use tm.Clib.Buffer.{Buffer}
use tm.Cnet.HostAddr.{SockAddr, to_sock_addr}
use tm.Cnet.Stream
use tm.Cnet.Stream.{Status, finished, failed, ongoing, SendEvent, Watch, fd_set, Sent, net_send2}
use tm.Tmcommon.Contexts.{SocketCtx, ctx_new, find_by_toaddr}
use tm.Tmcommon.Peers.{Peer}

-- What becomes of one attempt to open a socket: `socket` fails, `connect` fails, or the socket is
-- connected and `send` answers as the script says.
pub data Attempt : Type 0 where
  no_socket : Attempt
  no_connection : ℕ → Attempt
  connected : ℕ → List SendEvent → Attempt

-- `ShutdownSocket`, one of the two halves of it, the address that `connect` is given, and bytes that
-- `send` took.
pub data Effect : Type 0 where
  shutdown : ℕ → Effect
  shut_rd shut_wr : ℕ → Effect
  asked_connect : ℕ → SockAddr → Effect
  sent : ℕ → List ℕ → Effect

pub record World : Type 0 where
  pub ctxs : Array SocketCtx
  pub watch : Watch
  pub attempts : List Attempt
  pub log : List Effect

-- The socket's buffer gets the bytes, behind what is still to be sent.
pub queue : List ℕ → ℕ → World → M World
queue msgbytes i w = do
  ctx ← Array.item w.ctxs i
  buf ← Buffer.append ctx.writebuf msgbytes
  return (record w {
    ctxs = record w.ctxs { items = set w.ctxs.items i (record ctx { writebuf = buf }) };
  })

-- `BufferNew`, `BufferAppend` and `NetSend2` on a buffer in the scratch arena: what was sent, the
-- bytes that are left, and the watch.
pub send_now : List ℕ → ℕ → List SendEvent → Watch → M (Status × List ℕ × List ℕ × Watch)
send_now msgbytes destfd sends watch = do
  buf ← Buffer.new (length msgbytes)
  sendbuf ← Buffer.append buf msgbytes
  (s, watch') ← net_send2 destfd sends sendbuf watch
  left ← load s.buf.bs s.buf.len
  return (s.status, s.wire, left, watch')

-- `if (z == 1)`: the rest waits in a new context.
pub keep_rest : ℕ → ℕ → List ℕ → World → M World
keep_rest destfd toaddr left w = do
  (ctxs, i) ← ctx_new destfd w.ctxs 0 toaddr 1 64
  w' ← queue left i (record w { ctxs = ctxs })
  return (record w' {
    watch = record {
      writefds = fd_set destfd w'.watch.writefds;
      maxfd = if ltb w'.watch.maxfd destfd then destfd else w'.watch.maxfd;
    };
  })

-- `send_msg_to_hostaddr` behind `connect`, after what `NetSend2` answered.
pub after_send : ℕ → ℕ → Status → List ℕ → World → M (World × Status)
after_send destfd toaddr failed left w =
    return (record w { log = w.log ++ (shutdown destfd ∷ []) }, failed)
after_send destfd toaddr finished left w =
    return (record w { log = w.log ++ (shutdown destfd ∷ []) }, finished)
after_send destfd toaddr ongoing left w = do
  w' ← keep_rest destfd toaddr left w
  return (w', finished)

-- `send_msg_to_hostaddr`, with a copy of the scratch arena, so that nothing in it outlives the call.
pub send_msg_to_hostaddr : Arena → List ℕ → ℕ → World → M (World × Status)
send_msg_to_hostaddr scratch msgbytes toaddr w = elim (find_by_toaddr toaddr 0 w.ctxs.items) [
  | some i ↦ do w' ← queue msgbytes i w; return (w', ongoing)
  | none ↦ elim w.attempts [
    | [] ↦ λ a. fault unfinished
    | no_socket ∷ rest ↦ return (record w { attempts = rest }, failed)
    | no_connection destfd ∷ rest ↦ return (
      record w {
        attempts = rest;
        log = w.log ++ (asked_connect destfd (to_sock_addr toaddr) ∷ shutdown destfd ∷ []);
      },
      failed,
    )
    | connected destfd sends ∷ rest ↦ elim (send_now msgbytes destfd sends w.watch scratch) [
      | fault e ↦ λ a. fault e
      | ok ((status, wire, left, watch), scratch') ↦
          after_send destfd toaddr status left (record w {
            watch = watch;
            attempts = rest;
            log = w.log ++ (asked_connect destfd (to_sock_addr toaddr) ∷ sent destfd wire ∷ []);
          })
    ]
  ]
]

-- `send_msg_to_peers`: to every active peer, whatever became of the peers before it.
pub send_msg_to_peers : Arena → List ℕ → List Peer → World → M World
send_msg_to_peers scratch msgbytes [] w = return w
send_msg_to_peers scratch msgbytes (p ∷ ps) w = elim p.active [
  | false ↦ send_msg_to_peers scratch msgbytes ps w
  | true ↦ do
    (w', z) ← send_msg_to_hostaddr scratch msgbytes p.toaddr w
    send_msg_to_peers scratch msgbytes ps w'
]
