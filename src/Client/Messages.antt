-- ===== src/Client/Messages.antt =====
-- tm.c, `SendMsg` and `ConnectAndSendMsg`: a message over a socket of its own.
pub mod Delivered
use tm.Base.{ℕ, List, [], ◌∷◌, ◌++◌, none, some}
use tm.Clib.Arena.{M, return, ◌>>=◌, in_copy}
use tm.Cnet.HostAddr.{SockAddr}
use tm.Cnet.Pack.{Arg}
use tm.Cnet.Stream.{Status, failed, SendEvent, SelectEvent, Sent, wait_until_complete}
use tm.Cnet.Connect.{OpenEvents, SocketEffect, shut_down, open_tcp_connect_socket}
use tm.Tmcommon.Messages.{new_message}

-- `SendMsgV`, and `SendMsg` with its arguments as a list; `selects` and `sends` are the answers for
-- the socket.
pub send_msg : List SelectEvent → List SendEvent → List ℕ → List Arg → M Sent
send_msg selects sends fmt args =
    in_copy (do sendbuf ← new_message 256 fmt args; wait_until_complete selects sends sendbuf)

-- What the system answers to one `ConnectAndSendMsg`.
pub record Answers : Type 0 where
  pub opening : OpenEvents
  pub selects : List SelectEvent
  pub sends : List SendEvent

-- What comes of it: the result, the bytes that went out, and what became of the descriptor.
pub record Delivery : Type 0 where
  pub status : Status
  pub wire : List ℕ
  pub log : List SocketEffect

-- `ConnectAndSendMsg`. Its result is 0 or -1.
pub connect_and_send_msg : ℕ → SockAddr → Answers → List ℕ → List Arg → M Delivery
connect_and_send_msg bindport sa answers fmt args = do
  o ← open_tcp_connect_socket bindport sa answers.opening
  elim o.fd [
    | none ↦ return (record { status = failed; wire = []; log = o.log })
    | some destfd ↦ do
      s ← send_msg answers.selects answers.sends fmt args
      return (record { status = s.status; wire = s.wire; log = o.log ++ (shut_down destfd ∷ []) })
  ]
