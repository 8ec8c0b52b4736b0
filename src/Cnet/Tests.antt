-- ===== src/Cnet/Tests.antt =====
-- Runs of cnet.c on concrete inputs.
use tm.Base.{ℕ, ◌+◌, ◌≡◌, refl, true, inl, arith}
use tm.Base.{List, [], ◌∷◌, ◌++◌, length, take, replicate, ok}
use tm.Clib.Arena.{Arena}
use tm.Clib.Arena.Blocks.{IsValid, Extends}
use tm.Clib.Buffer.{Buffer}
use tm.Clib.Buffer.Contents.{contents, Owns, HasRoom}
use tm.Clib.Buffer.Append.{Appended}
use tm.Clib.Str
use tm.Clib.Str.{Str}
use tm.Clib.Str.Held.{Made}
use tm.Cnet.Unpack.Overread.{unpack-overreads}
use tm.Cnet.HostAddr.{SockAddr, from_sock_addr, to_sock_addr, ipaddr_equals}
use tm.Cnet.HostAddr
use tm.Cnet.Pack.{Arg, int, str, pack, pack_len}
use tm.Cnet.Pack.Bytes.{Encodes}
use tm.Cnet.Pack.Bytes
use tm.Cnet.Pack.Appends.{pack_lem}
use tm.Cnet.Pack.Framed.{framed, pack_len_lem}
use tm.Cnet.Unpack.{Slot, unpack}
use tm.Cnet.Unpack.Spec.{Reads}
use tm.Cnet.Unpack.RoundTrip.{unpack-pack}
use tm.Cnet.Stream.{finished, ongoing, RecvEvent, net_recv, SendEvent, net_send}
use tm.Cnet.Stream.Receive.{Delivers, net_recv_lem}
use tm.Cnet.Stream.Receive
use tm.Cnet.Stream.Send.{Takes, SentOff, net_send_lem}
use tm.Cnet.Stream.Send
use tm.Base.{◌⊎◌}
use tm.Cnet.Stream.{failed, SelectEvent, wait_until_complete}
use tm.Cnet.Stream.Wait.{wait_until_complete_lem}
use tm.Cnet.Stream.Wait
use tm.Base.{some, none, some-inj}
use tm.Cnet.Connect
use tm.Cnet.Connect.{OpenEvents, Opened, open_tcp_connect_socket}
use tm.Cnet.Connect.Closes
use tm.Cnet.Connect.Closes.{open_after, open_tcp_connect_socket_lem}

abbrev local : SockAddr
local = record { sin_family = 2; sin_port = 36895; s_addr = 16777343 }

to_sock_addr_example : to_sock_addr (from_sock_addr local) ≡ local
to_sock_addr_example = HostAddr.to_sock_addr-from_sock_addr local refl (omega arith) (omega arith)

-- An arena of 64 bytes with a buffer of 16 in front, which holds one byte.
abbrev room : Arena
room = record { bs = 7 ∷ replicate 63 0; pos = 16; cap = 64 }

room-IsValid : IsValid room
room-IsValid = record { filled = refl; inside = omega arith; small = omega arith }

abbrev one_byte : Buffer
one_byte = record { bs = 0; len = 1; cap = 16 }

one_byte-Owns : Owns room one_byte
one_byte-Owns = record {
  valid = room-IsValid;
  inside = omega arith;
  used = omega arith;
  some_cap = omega arith;
}

-- The format of a message that adds a peer: `%b%s`, here for the alias `ab`.
abbrev fmt : List ℕ
fmt = b'%' ∷ b'b' ∷ b'%' ∷ b's' ∷ []

abbrev args : List Arg
args = int 1 ∷ str (b'a' ∷ b'b' ∷ []) ∷ []

abbrev message : List ℕ
message = 1 ∷ 0 ∷ 2 ∷ b'a' ∷ b'b' ∷ []

abbrev message-Encodes : Encodes fmt args message
message-Encodes = Bytes.byte 1 (Bytes.string (b'a' ∷ b'b' ∷ []) (omega arith) Bytes.end)

pack_example :
    (b : Arena) × (buf' : Buffer) × (pack one_byte fmt args room ≡ ok ((buf', length message), b))
    × Appended room one_byte message b buf'
    × HasRoom b buf' 2
pack_example =
    pack_lem message-Encodes one_byte 2 room one_byte-Owns (omega arith, inl (omega arith))

pack_len_example :
    (b : Arena) × (buf' : Buffer) × (pack_len one_byte fmt args room
      ≡ ok ((buf', length message + 2), b))
    × Appended room one_byte (framed message) b buf'
    × HasRoom b buf' 2
pack_len_example =
    pack_len_lem message-Encodes (omega arith) one_byte 2 room one_byte-Owns
      (omega arith, inl (omega arith))

abbrev slots : List Slot
slots = Slot.u8 0 ∷ Slot.string Str.new0 ∷ []

unpack_example :
    (b : Arena) × (out : List Slot) × (unpack (message ++ (99 ∷ [])) (length message) fmt slots room
      ≡ ok (out, b))
    × Reads b message-Encodes out
    × IsValid b
    × Extends room b
unpack_example =
    unpack-pack message-Encodes slots (99 ∷ []) room
      (0, Slot.string Str.new0 ∷ [], refl, ([], refl, refl)) room-IsValid (omega arith)

abbrev answers : List RecvEvent
answers =
    RecvEvent.bytes (1 ∷ 2 ∷ [])
    ∷ RecvEvent.interrupted
    ∷ RecvEvent.bytes (3 ∷ [])
    ∷ RecvEvent.would_block
    ∷ []

net_recv_example :
    (b : Arena) × (buf' : Buffer) × (net_recv answers one_byte room
      ≡ ok (record { status = ongoing; buf = buf'; events = [] }, b))
    × Appended room one_byte (1 ∷ 2 ∷ 3 ∷ []) b buf'
    × HasRoom b buf' 0
net_recv_example =
    net_recv_lem
      (Receive.more (1 ∷ 2 ∷ []) (Receive.interrupted (Receive.more (3 ∷ []) Receive.would_block)))
      one_byte 0 room one_byte-Owns (omega arith, inl (omega arith))

net_send_example :
    (b : Arena) × (buf' : Buffer) × (net_send
        (SendEvent.interrupted ∷ SendEvent.took 1 ∷ [])
        one_byte
        room
      ≡ ok (
        record {
          status = finished;
          buf = buf';
          wire = take 1 (contents room one_byte);
          events = [];
        },
        b,
      ))
    × SentOff room one_byte 1 b buf'
net_send_example =
    net_send_lem
      (Send.interrupted (omega arith) (Send.some_sent 1 (omega arith) (omega arith) Send.all_sent))
      one_byte room one_byte-Owns refl

-- The socket is ready at the second call of `select`, and takes the byte.
wait_until_complete_example :
    (b : Arena) × (buf' : Buffer) × (wait_until_complete
        (SelectEvent.interrupted ∷ SelectEvent.ready true ∷ [])
        (SendEvent.would_block ∷ SendEvent.took 1 ∷ [])
        one_byte
        room
      ≡ ok (
        record {
          status = finished;
          buf = buf';
          wire = take (0 + 1) (contents room one_byte);
          events = [];
        },
        b,
      ))
    × SentOff room one_byte (0 + 1) b buf'
    × (((finished ≡ finished) × (0 + 1 ≡ 1)) ⊎ (finished ≡ failed))
wait_until_complete_example =
    wait_until_complete_lem
      (Wait.some_sent (Send.would_block (omega arith)) (
        Wait.interrupted
          (Wait.all_sent (Send.some_sent 1 (omega arith) (omega arith) Send.all_sent))))
      one_byte room one_byte-Owns refl

-- A message of three bytes whose string is said to be of four bytes.
overread_example :
    (b : Arena) × (t : Str) × (unpack
        (0 ∷ 4 ∷ 65 ∷ 66 ∷ 67 ∷ 68 ∷ 69 ∷ [])
        3
        (b'%' ∷ b's' ∷ [])
        (Slot.string Str.new0 ∷ [])
        room
      ≡ ok (Slot.string t ∷ [], b))
    × Made room (65 ∷ 66 ∷ 67 ∷ 68 ∷ []) b t
overread_example =
    unpack-overreads (65 ∷ []) (66 ∷ 67 ∷ 68 ∷ []) (69 ∷ []) room (omega arith) (omega arith)
      (omega arith) room-IsValid (omega arith)

-- A connection that is refused when the socket could be written.
abbrev late : OpenEvents
late = record {
  socket = some 5;
  setsockopt = true;
  bind = true;
  connect = Connect.in_progress;
  selects = SelectEvent.interrupted ∷ SelectEvent.ready true ∷ [];
  so_error = some 111;
}

late-Ends : Closes.Ends late none []
late-Ends =
    Closes.late_error refl refl refl refl (Closes.Polls.interrupted Closes.Polls.ready)
      (λ e. omega (arith, some-inj e))

open_tcp_connect_socket_example :
    (o : Opened) × (open_tcp_connect_socket 8100 local late room ≡ ok (o, room))
    × (o.fd ≡ none)
    × (open_after [] o.log ≡ [])
open_tcp_connect_socket_example = open_tcp_connect_socket_lem late-Ends 8100 local room
