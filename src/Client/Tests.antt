-- ===== src/Client/Tests.antt =====
-- Runs of tm.c on concrete inputs.
use tm.Base.{ℕ, ◌+◌, ◌≤◌, ◌≡◌, refl, ◌⊎◌, arith, true, false, inl, inr, Bool-cases}
use tm.Base.{List, [], ◌∷◌, ◌++◌, length, length-replicate, take, drop, replicate, some, ok}
use tm.Clib.Arena.{Arena}
use tm.Clib.Arena.Blocks.{IsValid, Extends}
use tm.Clib.Array.{Array}
use tm.Clib.Ctype.{is_alnum, is_space}
use tm.Clib.Static.{NoZero, cstr_equals}
use tm.Clib.Str
use tm.Clib.Str.{Str}
use tm.Clib.Str.Held.{Holds}
use tm.Clib.Str.AllHeld.{AllHold, none_held, one_held}
use tm.Cnet.HostAddr.{SockAddr, from_sock_addr, to_sock_addr, ipaddr_equals, ipaddr_equals_iff}
use tm.Cnet.Connect
use tm.Cnet.Connect.{OpenEvents}
use tm.Cnet.Connect.Closes
use tm.Cnet.Connect.Closes.{open_after, destinations}
use tm.Cnet.Pack.{int}
use tm.Cnet.Pack.Bytes
use tm.Cnet.Pack.Framed.{framed}
use tm.Cnet.Stream.{finished, failed, SendEvent, SelectEvent}
use tm.Cnet.Stream.Send
use tm.Cnet.Stream.Wait
use tm.Tmcommon.Messages.{bye, bye_fmt}
use tm.Tmcommon.Peers.{Peer, find_peer_alias}
use tm.Tmcommon.Messages.Formats.{online_bytes}
use tm.Tmcommon.Peers.{Peers}
use tm.Tmcommon.Peers.Create.{Created}
use tm.Client.Handling.{Client, Locals, idle_peer_online, handle_msg}
use tm.Client.Handling.Online.{handle_online_lem, foreign_online}
use tm.Client.Handling.Trusted.{KeepsPeers, handle_msg-trusted}
use tm.Client.Args.{Globals, parse_args}
use tm.Client.Args.Settings.{Config, Shows, configure_all, settings_of, parse_args_lem}
use tm.Client.Messages.{Answers, Delivery, connect_and_send_msg}
use tm.Client.Messages.Delivered.{connect_and_send_lem}
use tm.Client.Tokens.{tokenize_command}
use tm.Client.Tokens.Words.{words}
use tm.Client.Tokens.Tokenized.{room_for, tokenize_command_lem}
use tm.Client.Join.{array_join_strings}
use tm.Client.Join.Joined.{unwords, join_room, array_join_strings_lem}
use tm.Client.Commands.{execute_command, stay, printed_peers, tried_send, keyword}
use tm.Client.Commands.Meaning.{command_of, answer, send}
use tm.Client.Commands.Local.{Line, execute_command_lem}
use tm.Client.Commands.Chat.{chat_bytes}
use tm.Client.Commands.Sends.{execute_command-sends}

-- An arena of 1500 bytes.
abbrev scratch : Arena
scratch = record { bs = replicate 1500 0; pos = 0; cap = 1500 }

scratch-IsValid : IsValid scratch
scratch-IsValid = record {
  filled = length-replicate {A = ℕ} 1500 0;
  inside = omega arith;
  small = omega arith;
}

abbrev local : SockAddr
local = record { sin_family = 2; sin_port = 36895; s_addr = 16777343 }

-- A connection that takes a while, and a socket that takes everything.
abbrev opening : OpenEvents
opening = record {
  socket = some 5;
  setsockopt = true;
  bind = true;
  connect = Connect.in_progress;
  selects = SelectEvent.interrupted ∷ SelectEvent.ready true ∷ [];
  so_error = some 0;
}

opening-Ends : Closes.Ends opening (some 5) (5 ∷ [])
opening-Ends = Closes.later refl refl refl refl (Closes.Polls.interrupted Closes.Polls.ready) refl

abbrev answers : ℕ → Answers
answers n = record { opening = opening; selects = []; sends = SendEvent.took n ∷ [] }

connect_and_send_example :
    (b : Arena) × (d : Delivery) × (connect_and_send_msg 8100 local
        (answers 3)
        bye_fmt
        (int bye ∷ [])
        scratch
      ≡ ok (d, b))
    × (d.status ≡ finished)
    × (d.wire ≡ take 3 (framed (4 ∷ [])))
    × (((finished ≡ finished) × (3 ≡ length (framed (4 ∷ [])))) ⊎ (finished ≡ failed))
    × (open_after [] d.log ≡ [])
    × (b.pos ≡ scratch.pos)
    × (destinations d.log ≡ local ∷ [])
connect_and_send_example =
    connect_and_send_lem (answers 3) opening-Ends (Bytes.byte 4 Bytes.end)
      (Wait.all_sent (Send.some_sent 3 (omega arith) (omega arith) Send.all_sent)) 8100 local
      scratch (scratch-IsValid, omega arith, omega arith, omega arith)

-- `send ann hi!`
abbrev command : List ℕ
command = b's' ∷ b'e' ∷ b'n' ∷ b'd' ∷ b' ' ∷ b'a' ∷ b'n' ∷ b'n' ∷ b' ' ∷ b'h' ∷ b'i' ∷ b'!' ∷ []

abbrev ann : List ℕ
ann = b'a' ∷ b'n' ∷ b'n' ∷ []

abbrev hi : List ℕ
hi = b'h' ∷ b'i' ∷ []

command-NoZero : NoZero command
command-NoZero = (
  omega arith,
  (
    omega arith,
    (
      omega arith,
      (
        omega arith,
        (
          omega arith,
          (
            omega arith,
            (
              omega arith,
              (omega arith, (omega arith, (omega arith, (omega arith, (omega arith, tt))))),
            ),
          ),
        ),
      ),
    ),
  ),
)

command-words : words command ≡ (b's' ∷ b'e' ∷ b'n' ∷ b'd' ∷ []) ∷ ann ∷ hi ∷ []
unfolding is_alnum is_space
command-words = refl

command-Line : Line command scratch
command-Line = record {
  no_zero = command-NoZero;
  valid = scratch-IsValid;
  short = omega arith;
  few = rw command-words (omega arith);
  fits = omega arith;
}

tokenize_command_example :
    (b : Arena) × (tokens : Array Str) × (tokenize_command command scratch ≡ ok (tokens, b))
    × AllHold b tokens.items (words command)
    × IsValid b
    × Extends scratch b
    × (b.pos ≤ scratch.pos + 384 + room_for (length command) 0)
tokenize_command_example =
    tokenize_command_lem command scratch command-NoZero scratch-IsValid (omega arith)
      (rw command-words (omega arith)) (omega arith)

-- A peer that is online.
abbrev ann_peer : Peer
ann_peer = record {
  hpeer = 1;
  alias = ann ++ replicate 14 0;
  hostname = replicate 17 0;
  fromaddr = 100;
  toaddr = 200;
  active = true;
}

abbrev online : Peers
online = record { array = record { items = ann_peer ∷ []; itemsize = 64; cap = 4 }; next = 2 }

-- `peers`
abbrev show : List ℕ
show = b'p' ∷ b'e' ∷ b'e' ∷ b'r' ∷ b's' ∷ []

show-words : words show ≡ show ∷ []
unfolding is_alnum is_space
show-words = refl

show-answer : answer (command_of (show ∷ [])) ≡ some (stay (printed_peers ∷ []))
unfolding keyword Str.equals Str.same_bytes
show-answer = refl

execute_command_example :
    (b : Arena) × (execute_command online 8100 (answers 1) show scratch
      ≡ ok (stay (printed_peers ∷ []), b))
    × (b.pos ≡ scratch.pos)
execute_command_example =
    execute_command_lem online 8100 (answers 1) show (stay (printed_peers ∷ [])) scratch
      (record {
        no_zero = (omega arith, (omega arith, (omega arith, (omega arith, (omega arith, tt)))));
        valid = scratch-IsValid;
        short = omega arith;
        few = rw show-words (omega arith);
        fits = omega arith;
      })
      (rw show-words show-answer) (λ e. omega arith)

command_of-command :
    command_of ((b's' ∷ b'e' ∷ b'n' ∷ b'd' ∷ []) ∷ ann ∷ hi ∷ []) ≡ send ann (hi ∷ [])
unfolding keyword Str.equals Str.same_bytes
command_of-command = refl

ann-online : find_peer_alias ann (ann_peer ∷ []) ≡ some 1
unfolding find_peer_alias cstr_equals
ann-online = refl

execute_command_sends_example :
    (b : Arena) × (d : Delivery) × (execute_command online 8100 (answers 7) command scratch
      ≡ ok (stay (tried_send 200 d ∷ []), b))
    × (d.status ≡ finished)
    × (d.wire ≡ take 7 (framed (chat_bytes (unwords (hi ∷ [])))))
    × (destinations d.log ≡ to_sock_addr 200 ∷ [])
    × (open_after [] d.log ≡ [])
    × (b.pos ≡ scratch.pos)
execute_command_sends_example =
    execute_command-sends online 8100 (answers 7) command ann hi [] ann_peer scratch command-Line
      (omega arith, omega arith) (rw command-words command_of-command) ann-online refl opening-Ends
      (Wait.all_sent (Send.some_sent 7 (omega arith) (omega arith) Send.all_sent))

-- An arena that holds `hi`, and an empty string behind it.
abbrev texts : Arena
texts = record { bs = b'h' ∷ b'i' ∷ replicate 98 0; pos = 4; cap = 100 }

texts-IsValid : IsValid texts
texts-IsValid = record { filled = refl; inside = omega arith; small = omega arith }

abbrev hi_str : Str
hi_str = record { bs = some 0; len = 2 }

hi-Holds : Holds texts hi_str hi
hi-Holds = record { at_ = 0; bs_eq = refl; len_eq = refl; inside = omega arith; ended = refl }

abbrev empty_str : Str
empty_str = record { bs = some 3; len = 0 }

empty-Holds : Holds texts empty_str []
empty-Holds = record { at_ = 3; bs_eq = refl; len_eq = refl; inside = omega arith; ended = refl }

abbrev two_strs : Array Str
two_strs = record { items = hi_str ∷ hi_str ∷ []; itemsize = 24; cap = 16 }

array_join_strings_example :
    (b : Arena) × (out : Str) × (array_join_strings two_strs 0 1 empty_str texts ≡ ok (out, b))
    × Holds b out (unwords (hi ∷ hi ∷ []))
    × IsValid b
    × Extends texts b
    × (b.pos ≤ texts.pos + 1 + join_room 0 (hi ∷ hi ∷ []))
array_join_strings_example =
    array_join_strings_lem two_strs 0 1 empty_str (hi ∷ hi ∷ []) texts
      (one_held hi-Holds (one_held hi-Holds none_held))
      (
        (omega arith, (omega arith, tt)),
        omega arith,
        ((omega arith, (omega arith, tt)), omega arith, tt),
      )
      texts-IsValid (omega arith) (omega arith)

abbrev globals : Globals
globals = record {
  tracker_host = hi_str;
  tracker_port = 9000;
  send_port = 8100;
  listen_port = 8200;
  alias = empty_str;
  hostname = hi_str;
}

abbrev config : Config
config = record {
  tracker_host = hi;
  tracker_port = 9000;
  send_port = 8100;
  listen_port = 8200;
  alias = [];
  hostname = hi;
}

globals-Shows : Shows texts globals config
globals-Shows = record {
  tracker_host = hi-Holds;
  tracker_port = refl;
  send_port = refl;
  listen_port = refl;
  alias = empty-Holds;
  hostname = hi-Holds;
}

-- `tm -alias ann`
abbrev argv : List (List ℕ)
argv = (b't' ∷ b'm' ∷ []) ∷ (b'-' ∷ b'a' ∷ b'l' ∷ b'i' ∷ b'a' ∷ b's' ∷ []) ∷ ann ∷ []

parse_args_example :
    (b : Arena) × (g : Globals) × (parse_args argv globals texts ≡ ok (g, b))
    × Shows b g (configure_all (settings_of argv) config)
    × Extends texts b
parse_args_example =
    parse_args_lem argv globals config texts texts-IsValid globals-Shows (omega arith) (omega arith)

abbrev no_locals : Locals
no_locals = record { fromaddr = 0; toaddr = 0 }

abbrev client : Client
client = record {
  peers = record { array = record { items = ann_peer ∷ []; itemsize = 64; cap = 4 }; next = 2 };
  peers_arena = record { bs = replicate 8 0; pos = 4; cap = 8 };
  chattexts = record { items = []; itemsize = 48; cap = 4 };
  chats_arena = record { bs = replicate 8 0; pos = 4; cap = 8 };
  idle = [];
}

-- The tracker tells of `hi`, which is on a host of that name.
abbrev news_arena : Arena
news_arena = record { bs = online_bytes hi hi 300 400 ++ replicate 75 0; pos = 40; cap = 100 }

abbrev far : SockAddr
far = record { sin_family = 2; sin_port = 36895; s_addr = 16777344 }

handle_online_example :
    (b : Arena) × (peers : Peers) × (pa : Arena) × (h : ℕ) × (handle_msg
        (from_sock_addr local)
        0
        no_locals
        (from_sock_addr local)
        0
        25
        client
        news_arena
      ≡ ok (record client { peers = peers; peers_arena = pa; idle = idle_peer_online h ∷ [] }, b))
    × Created (ann_peer ∷ []) hi hi 300 400 peers h
    × (b.pos ≡ 40)
handle_online_example =
    handle_online_lem (from_sock_addr local) 0 (from_sock_addr local) 0 300 400 no_locals hi hi
      (replicate 75 0) client news_arena refl
      ((ipaddr_equals_iff local local (omega arith) (omega arith)).1 refl)
      (omega arith, (omega arith, tt)) (omega arith, (omega arith, tt)) (omega arith) (omega arith)
      (omega arith) (omega arith)
      (record { filled = refl; inside = omega arith; small = omega arith }) (omega arith)
      (record { below = (omega arith, tt); distinct = (tt, tt, tt); sized = (refl, refl, tt) })
      (record {
        valid = record { filled = refl; inside = omega arith; small = omega arith };
        within = omega arith;
        some_cap = omega arith;
        space = inl (omega arith);
      })

foreign : ipaddr_equals (from_sock_addr far) (from_sock_addr local) ≡ false
foreign = elim (Bool-cases (ipaddr_equals (from_sock_addr far) (from_sock_addr local))) [
  | inl e ↦ absurd (
      let h : 16777344 ≡ 16777343 = (ipaddr_equals_iff far local (omega arith) (omega arith)).0 e in
      omega arith)
  | inr e ↦ e
]

handle_msg_trusted_example : KeepsPeers client client
handle_msg_trusted_example =
    handle_msg-trusted (from_sock_addr local) 0 (from_sock_addr far) 0 25 no_locals client client
      news_arena news_arena foreign
      (foreign_online (from_sock_addr local) 0 (from_sock_addr far) 0 25 no_locals client
        (drop 1 news_arena.bs) news_arena refl foreign)
