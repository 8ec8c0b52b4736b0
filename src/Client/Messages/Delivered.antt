-- ===== src/Client/Messages/Delivered.antt =====
-- What `ConnectAndSendMsg` sends and leaves open.
use tm.Base.{
  ℕ, ◌≡◌, refl, sym, ap, ◌∙◌, arith, ◌⊎◌, true, List, [], ◌∷◌, ◌++◌, length, length-slice,
}
use tm.Base.{take, none, some, ok, ==_iff}
use tm.Clib.Arena.{Arena, ◌>>=◌}
use tm.Clib.Arena.Blocks.{in_copy_lem}
use tm.Clib.Buffer.{Buffer}
use tm.Cnet.HostAddr.{SockAddr}
use tm.Cnet.Pack.{Arg}
use tm.Cnet.Pack.Bytes.{Encodes}
use tm.Cnet.Pack.Framed.{framed}
use tm.Cnet.Stream.{Status, finished, failed, SendEvent, SelectEvent, wait_until_complete}
use tm.Cnet.Stream.Wait.{Waits, wait_until_complete_lem}
use tm.Cnet.Connect.{
  SocketEffect, opened, bound, asked_connect, shut_down, Opened, open_tcp_connect_socket,
}
use tm.Cnet.Connect.Closes.{
  close_fd, open_after, Ends, open_tcp_connect_socket_lem, destinations, connected_lem,
}
use tm.Tmcommon.Messages.{new_message}
use tm.Tmcommon.Messages.Composed.{Fits, new_message_lem}
use tm.Client.Messages.{send_msg, Answers, Delivery, connect_and_send_msg}

sends :
    (selects : List SelectEvent) (answers rest : List SendEvent) (fmt : List ℕ) (args : List Arg)
    (s : Status) (wire : List ℕ) (x y : Buffer) (a b c : Arena)
    → new_message 256 fmt args a ≡ ok (x, b)
    → wait_until_complete selects answers x b
      ≡ ok (record { status = s; buf = y; wire = wire; events = rest }, c)
    → send_msg selects answers fmt args a
      ≡ ok (record { status = s; buf = y; wire = wire; events = rest }, record c { pos = a.pos })
unfolding send_msg
sends selects answers rest fmt args s wire x y a b c e f = in_copy_lem _ _ a c (rw (e, ◌>>=◌) f)

-- `SendMsg` of a message that has room: what goes out is a prefix of the message with its length in
-- front, and all of it where the result is 0.
pub send_msg_lem :
    {selects : List SelectEvent} {answers rest : List SendEvent} {fmt : List ℕ} {args : List Arg}
    {bs : List ℕ} {s : Status} {k : ℕ}
    → Encodes fmt args bs
    → Waits (SelectEvent.ready true ∷ selects) answers (length (framed bs)) k s rest
    → (a : Arena) → Fits a 256 (length bs)
    → (b : Arena) × (buf : Buffer) × (send_msg selects answers fmt args a
        ≡ ok (
          record { status = s; buf = buf; wire = take k (framed bs); events = rest },
          record b { pos = a.pos },
        ))
      × (((s ≡ finished) × (k ≡ length (framed bs))) ⊎ (s ≡ failed))
send_msg_lem {selects} {answers} {rest} {fmt} {args} {bs} {s} {k} e w a fits =
    let (b, x, e₁, o, all) = new_message_lem e 256 a fits in
    let len_x : length (framed bs) ≡ x.len =
      ap length (sym all) ∙ length-slice x.bs x.len b.bs (omega arith) in
    let (c, y, e₂, q, outcome) = wait_until_complete_lem w x b o len_x in
    (
      c,
      y,
      sends selects answers rest fmt args s (take k (framed bs)) x y a b c e₁ (
          e₂
          ∙ ap (λ l. ok (record { status = s; buf = y; wire = take k l; events = rest }, c)) all),
      outcome,
    )

open_after-append :
    (fds : List ℕ) (log more : List SocketEffect)
    → open_after fds (log ++ more) ≡ open_after (open_after fds log) more
open_after-append fds [] more = refl
open_after-append fds (opened fd ∷ log) more = open_after-append (fd ∷ fds) log more
open_after-append fds (bound fd port ∷ log) more = open_after-append fds log more
open_after-append fds (asked_connect fd sa ∷ log) more = open_after-append fds log more
open_after-append fds (shut_down fd ∷ log) more = open_after-append (close_fd fd fds) log more

destinations-append :
    (log : List SocketEffect) (fd : ℕ)
    → destinations (log ++ (shut_down fd ∷ [])) ≡ destinations log
destinations-append [] fd = refl
destinations-append (opened x ∷ log) fd = destinations-append log fd
destinations-append (bound x port ∷ log) fd = destinations-append log fd
destinations-append (asked_connect x sa ∷ log) fd = ap (λ l. sa ∷ l) (destinations-append log fd)
destinations-append (shut_down x ∷ log) fd = destinations-append log fd

shuts :
    (fd : ℕ) (log : List SocketEffect)
    → open_after [] log ≡ fd ∷ []
    → open_after [] (log ++ (shut_down fd ∷ [])) ≡ []
shuts fd log e = rw (open_after-append [] log (shut_down fd ∷ []), e) (rw ((==_iff fd fd).1 refl))

-- The two ways of `ConnectAndSendMsg`.
no_connection :
    (bindport : ℕ) (sa : SockAddr) (answers : Answers) (fmt : List ℕ) (args : List Arg) (o : Opened)
    (a : Arena)
    → open_tcp_connect_socket bindport sa answers.opening a ≡ ok (o, a)
    → o.fd ≡ none
    → connect_and_send_msg bindport sa answers fmt args a
      ≡ ok (record { status = failed; wire = []; log = o.log }, a)
unfolding connect_and_send_msg
no_connection bindport sa answers fmt args o a e f = rw (e, ◌>>=◌) (rw f)

connection :
    (bindport fd : ℕ) (sa : SockAddr) (answers : Answers) (fmt : List ℕ) (args : List Arg)
    (o : Opened) (s : Status) (wire : List ℕ) (buf : Buffer) (rest : List SendEvent) (a b : Arena)
    → open_tcp_connect_socket bindport sa answers.opening a ≡ ok (o, a)
    → o.fd ≡ some fd
    → send_msg answers.selects answers.sends fmt args a
      ≡ ok (record { status = s; buf = buf; wire = wire; events = rest }, b)
    → connect_and_send_msg bindport sa answers fmt args a
      ≡ ok (record { status = s; wire = wire; log = o.log ++ (shut_down fd ∷ []) }, b)
unfolding connect_and_send_msg
connection bindport fd sa answers fmt args o s wire buf rest a b e f g =
    rw (e, ◌>>=◌) (rw f (rw (g, ◌>>=◌)))

-- `ConnectAndSendMsg` where the socket is connected, of a message that is shorter than 2 ^ 16
-- and has room in the arena: `connect` is given the address and no other, a prefix of the
-- message with its length in front goes out, all of it where the result is 0, and the result is
-- -1 else. In both cases no descriptor is left open, and all that was taken of the arena is free
-- again.
pub connect_and_send_lem :
    (answers : Answers) {fd : ℕ} {rest : List SendEvent} {fmt : List ℕ} {args : List Arg}
    {bs : List ℕ} {s : Status} {k : ℕ}
    → Ends answers.opening (some fd) (fd ∷ [])
    → Encodes fmt args bs
    → Waits (SelectEvent.ready true ∷ answers.selects) answers.sends (length (framed bs)) k s rest
    → (bindport : ℕ) (sa : SockAddr) (a : Arena) → Fits a 256 (length bs)
    → (b : Arena) × (d : Delivery) × (connect_and_send_msg bindport sa answers fmt args a
        ≡ ok (d, b))
      × (d.status ≡ s)
      × (d.wire ≡ take k (framed bs))
      × (((s ≡ finished) × (k ≡ length (framed bs))) ⊎ (s ≡ failed))
      × (open_after [] d.log ≡ [])
      × (b.pos ≡ a.pos)
      × (destinations d.log ≡ sa ∷ [])
connect_and_send_lem answers {fd} {rest} {fmt} {args} {bs} {s} {k} h e w bindport sa a fits =
    let (o, f, fd_eq, left, there) = connected_lem h bindport sa a in
    let (b, buf, g, outcome) = send_msg_lem e w a fits in
    let d : Delivery = record {
      status = s;
      wire = take k (framed bs);
      log = o.log ++ (shut_down fd ∷ []);
    } in
    (
      record b { pos = a.pos },
      d,
      connection bindport fd sa answers fmt args o s (take k (framed bs)) buf rest a
          (record b { pos = a.pos }) f fd_eq g,
      refl,
      refl,
      outcome,
      shuts fd o.log left,
      refl,
      destinations-append o.log fd ∙ there,
    )

-- `ConnectAndSendMsg` where there is no connection: the result is -1 and nothing goes out.
pub connect_and_send-none :
    (answers : Answers) {left : List ℕ}
    → Ends answers.opening none left
    → (bindport : ℕ) (sa : SockAddr) (fmt : List ℕ) (args : List Arg) (a : Arena)
    → (d : Delivery) × (connect_and_send_msg bindport sa answers fmt args a ≡ ok (d, a))
      × (d.status ≡ failed)
      × (d.wire ≡ [])
      × (open_after [] d.log ≡ left)
connect_and_send-none answers {left} h bindport sa fmt args a =
    let (o, f, fd_eq, rest) = open_tcp_connect_socket_lem h bindport sa a in
    (
      record { status = failed; wire = []; log = o.log },
      no_connection bindport sa answers fmt args o a f fd_eq,
      refl,
      refl,
      rest,
    )
