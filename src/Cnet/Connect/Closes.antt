-- ===== src/Cnet/Connect/Closes.antt =====
-- What becomes of the descriptor that `OpenTcpConnectSocket` opens.
use tm.Base.{ℕ, ◌≢◌, ◌≡◌, refl, ◌∙◌, ap, true, false, List, [], ◌∷◌, Option, none, some}
use tm.Base.{ok, ◌==◌, if◌then◌else◌, ne→==, ==_iff}
use tm.Clib.Arena.{Arena, ◌>>=◌}
use tm.Cnet.HostAddr.{SockAddr}
use tm.Cnet.Stream.{SelectEvent}
use tm.Cnet.Connect.{
  connected, in_progress, refused, OpenEvents, SocketEffect, opened, bound, asked_connect,
  shut_down, Opened, Polled, writable, gave_up, poll_loop, give_up, check_error, finish_connect,
  open_tcp_connect_socket,
}

-- The descriptors that are open after the effects, where `fds` were before.
abbrev pub close_fd : ℕ → List ℕ → List ℕ
close_fd fd [] = []
close_fd fd (x ∷ fds) = if x == fd then close_fd fd fds else x ∷ close_fd fd fds

abbrev pub open_after : List ℕ → List SocketEffect → List ℕ
open_after fds [] = fds
open_after fds (opened fd ∷ log) = open_after (fd ∷ fds) log
open_after fds (bound fd port ∷ log) = open_after fds log
open_after fds (asked_connect fd sa ∷ log) = open_after fds log
open_after fds (shut_down fd ∷ log) = open_after (close_fd fd fds) log

-- The addresses that `connect` is given, in order.
abbrev pub destinations : List SocketEffect → List SockAddr
destinations [] = []
destinations (opened fd ∷ log) = destinations log
destinations (bound fd port ∷ log) = destinations log
destinations (asked_connect fd sa ∷ log) = sa ∷ destinations log
destinations (shut_down fd ∷ log) = destinations log

-- `select` comes to `p`: after any number of interrupts it says that the socket can be written, or
-- it fails, or the time is over.
pub data Polls : List SelectEvent → Polled → Type 0 where
  interrupted :
      {selects : List SelectEvent} {p : Polled}
      → Polls selects p
      → Polls (SelectEvent.interrupted ∷ selects) p
  timeout : {selects : List SelectEvent} → Polls (SelectEvent.timeout ∷ selects) gave_up
  broken : {selects : List SelectEvent} → Polls (SelectEvent.broken ∷ selects) gave_up
  ready : {selects : List SelectEvent} → Polls (SelectEvent.ready true ∷ selects) writable

pub poll_loop_lem :
    {selects : List SelectEvent} {p : Polled}
    → Polls selects p
    → (a : Arena) → poll_loop selects a ≡ ok (p, a)
unfolding poll_loop
poll_loop_lem (interrupted ps) a = poll_loop_lem ps a
poll_loop_lem timeout a = refl
poll_loop_lem broken a = refl
poll_loop_lem ready a = refl

-- How an attempt to open the socket `fd` ends, by the answers of the system.
pub data Ends (ev : OpenEvents) : Option ℕ → List ℕ → Type 0 where
  no_socket : ev.socket ≡ none → Ends ev none []
  no_option : {fd : ℕ} → ev.socket ≡ some fd → ev.setsockopt ≡ false → Ends ev none (fd ∷ [])
  no_bind :
      {fd : ℕ}
      → ev.socket ≡ some fd
      → ev.setsockopt ≡ true
      → ev.bind ≡ false
      → Ends ev none (fd ∷ [])
  at_once :
      {fd : ℕ}
      → ev.socket ≡ some fd
      → ev.setsockopt ≡ true
      → ev.bind ≡ true
      → ev.connect ≡ connected
      → Ends ev (some fd) (fd ∷ [])
  refusal :
      {fd : ℕ}
      → ev.socket ≡ some fd
      → ev.setsockopt ≡ true
      → ev.bind ≡ true
      → ev.connect ≡ refused
      → Ends ev none []
  no_answer :
      {fd : ℕ}
      → ev.socket ≡ some fd
      → ev.setsockopt ≡ true
      → ev.bind ≡ true
      → ev.connect ≡ in_progress
      → Polls ev.selects gave_up
      → Ends ev none []
  late_error :
      {fd : ℕ}
      → ev.socket ≡ some fd
      → ev.setsockopt ≡ true
      → ev.bind ≡ true
      → ev.connect ≡ in_progress
      → Polls ev.selects writable
      → ev.so_error ≢ some 0
      → Ends ev none []
  later :
      {fd : ℕ}
      → ev.socket ≡ some fd
      → ev.setsockopt ≡ true
      → ev.bind ≡ true
      → ev.connect ≡ in_progress
      → Polls ev.selects writable
      → ev.so_error ≡ some 0
      → Ends ev (some fd) (fd ∷ [])

-- The log where a connection is asked for.
abbrev asked : ℕ → ℕ → SockAddr → List SocketEffect
asked bindport fd sa = opened fd ∷ bound fd bindport ∷ asked_connect fd sa ∷ []

closed : (fd : ℕ) → close_fd fd (fd ∷ []) ≡ []
closed fd = rw ((==_iff fd fd).1 refl)

-- An attempt that ends with `ShutdownSocket` leaves nothing open.
gives_up :
    (bindport fd : ℕ) (sa : SockAddr) (ev : OpenEvents) (a : Arena)
    → open_tcp_connect_socket bindport sa ev a ≡ ok (give_up fd (asked bindport fd sa), a)
    → (o : Opened) × (open_tcp_connect_socket bindport sa ev a ≡ ok (o, a))
      × (o.fd ≡ none)
      × (open_after [] o.log ≡ [])
unfolding give_up
gives_up bindport fd sa ev a e = (give_up fd (asked bindport fd sa), e, refl, closed fd)

check_error_fails :
    (fd : ℕ) (log : List SocketEffect) (so_error : Option ℕ)
    → so_error ≢ some 0
    → check_error fd log so_error ≡ give_up fd log
unfolding check_error
check_error_fails fd log none h = refl
check_error_fails fd log (some err) h = rw (ne→== err 0 (λ e. h (ap some e)))

asks :
    (bindport fd : ℕ) (sa : SockAddr) (ev : OpenEvents) (a : Arena)
    → ev.socket ≡ some fd
    → ev.setsockopt ≡ true
    → ev.bind ≡ true
    → open_tcp_connect_socket bindport sa ev a ≡ finish_connect fd (asked bindport fd sa) ev a
unfolding open_tcp_connect_socket
asks bindport fd sa ev a e f g = rw (e, f, g)

-- `OpenTcpConnectSocket`, for every answer of the system, as long as `select` does not answer
-- forever that it was interrupted: the result is the socket exactly where it is connected, and
-- -1 else. No descriptor is left open but the result, and the socket where `setsockopt` or
-- `bind` fails, which is neither closed nor returned.
pub open_tcp_connect_socket_lem :
    {ev : OpenEvents} {fd : Option ℕ} {left : List ℕ}
    → Ends ev fd left
    → (bindport : ℕ) (sa : SockAddr) (a : Arena)
    → (o : Opened) × (open_tcp_connect_socket bindport sa ev a ≡ ok (o, a))
      × (o.fd ≡ fd)
      × (open_after [] o.log ≡ left)
unfolding open_tcp_connect_socket finish_connect check_error
open_tcp_connect_socket_lem (no_socket e) bindport sa a =
    (record { fd = none; log = [] }, rw e, refl, refl)
open_tcp_connect_socket_lem (no_option {fd} e f) bindport sa a =
    (record { fd = none; log = opened fd ∷ [] }, rw (e, f), refl, refl)
open_tcp_connect_socket_lem (no_bind {fd} e f g) bindport sa a =
    (record { fd = none; log = opened fd ∷ [] }, rw (e, f, g), refl, refl)
open_tcp_connect_socket_lem (at_once {fd} e f g h) bindport sa a =
    (record { fd = some fd; log = asked bindport fd sa }, rw (e, f, g, h), refl, refl)
open_tcp_connect_socket_lem {ev} (refusal {fd} e f g h) bindport sa a =
    gives_up bindport fd sa ev a (asks bindport fd sa ev a e f g ∙ rw h)
open_tcp_connect_socket_lem {ev} (no_answer {fd} e f g h p) bindport sa a =
    gives_up bindport fd sa ev a
      (asks bindport fd sa ev a e f g ∙ rw h (rw (poll_loop_lem p a, ◌>>=◌)))
open_tcp_connect_socket_lem {ev} (late_error {fd} e f g h p n) bindport sa a =
    let fails = check_error_fails fd (asked bindport fd sa) ev.so_error n in
    gives_up bindport fd sa ev a
      (asks bindport fd sa ev a e f g ∙ rw h (rw (poll_loop_lem p a, ◌>>=◌) (rw fails)))
open_tcp_connect_socket_lem {ev} (later {fd} e f g h p n) bindport sa a = (
  record { fd = some fd; log = asked bindport fd sa },
  asks bindport fd sa ev a e f g ∙ rw h (rw (poll_loop_lem p a, ◌>>=◌) (rw (n, check_error))),
  refl,
  refl,
)

-- Where the socket is connected, it is to the address, and to no other.
pub connected_lem :
    {ev : OpenEvents} {fd : ℕ} {left : List ℕ}
    → Ends ev (some fd) left
    → (bindport : ℕ) (sa : SockAddr) (a : Arena)
    → (o : Opened) × (open_tcp_connect_socket bindport sa ev a ≡ ok (o, a))
      × (o.fd ≡ some fd)
      × (open_after [] o.log ≡ fd ∷ [])
      × (destinations o.log ≡ sa ∷ [])
unfolding open_tcp_connect_socket finish_connect check_error
connected_lem (at_once {fd} e f g h) bindport sa a =
    (record { fd = some fd; log = asked bindport fd sa }, rw (e, f, g, h), refl, refl, refl)
connected_lem {ev} (later {fd} e f g h p n) bindport sa a = (
  record { fd = some fd; log = asked bindport fd sa },
  asks bindport fd sa ev a e f g ∙ rw h (rw (poll_loop_lem p a, ◌>>=◌) (rw (n, check_error))),
  refl,
  refl,
  refl,
)
