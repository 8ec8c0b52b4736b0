-- ===== src/Client/Loop/Tests.antt =====
-- Runs of the loop of a client on concrete inputs.
use tm.Base.{◌≡◌, refl, arith, false, List, [], ◌∷◌, replicate, ok, ◌==◌}
use tm.Clib.Arena
use tm.Clib.Arena.{Arena, ◌>>=◌}
use tm.Clib.Array
use tm.Clib.Array.{Array}
use tm.Clib.Buffer
use tm.Cnet.HostAddr.{SockAddr, from_sock_addr}
use tm.Cnet.Stream.{fd_set}
use tm.Client.Handling.{Client}
use tm.Client.Loop.{
  AcceptEvent, Round, SelectAnswer, Fixed, Inbox, accept_peer, visit, scan, listen_loop, start,
}
use tm.Client.Loop.Follows.{Watched}
use tm.Client.Loop.Watched.{listen_loop-Watched, Scans, scan_lem}

abbrev fixed : Fixed
fixed = record {
  tracker_addr = 0;
  listenfd = 1;
  pipefd = 0;
  locals = record { fromaddr = 0; toaddr = 0 };
}

abbrev client : Client
client = record {
  peers = record { array = record { items = []; itemsize = 64; cap = 4 }; next = 1 };
  peers_arena = record { bs = []; pos = 0; cap = 0 };
  chattexts = record { items = []; itemsize = 48; cap = 4 };
  chats_arena = record { bs = []; pos = 0; cap = 0 };
  idle = [];
}

abbrev far : SockAddr
far = record { sin_family = 2; sin_port = 36895; s_addr = 16777344 }

-- A connection comes in, and then a byte in the pipe.
abbrev joined : Round
joined = record {
  readable = λ i. i == 1;
  accept = AcceptEvent.peer 2 far;
  recvs = λ i. [];
  now = 0;
}

abbrev ended : Round
ended = record { readable = λ i. i == 0; accept = AcceptEvent.no_peer; recvs = λ i. []; now = 0 }

abbrev answers : List SelectAnswer
answers = SelectAnswer.ready joined ∷ SelectAnswer.nothing ∷ SelectAnswer.ready ended ∷ []

abbrev room : Arena
room = record { bs = replicate 7000 0; pos = 0; cap = 7000 }

-- The client where the loop is over: the connection is still open.
abbrev over : Inbox
over = record {
  client = client;
  ctxs = record {
    items =
        record {
          fd = 2;
          fromaddr = from_sock_addr far;
          toaddr = 0;
          readbuf = record { bs = 6144; len = 0; cap = 64 };
          writebuf = record { bs = 6208; len = 0; cap = 64 };
          msglen = 0;
          shut_rd = false;
        }
        ∷ [];
    itemsize = 96;
    cap = 64;
  };
  readfds = fd_set 2 (fd_set 0 (fd_set 1 (λ fd. false)));
  maxfd = 2;
  closed = 1 ∷ [];
  is_running = false;
}

run :
    (do t ← start fixed client; listen_loop fixed answers t) room
    ≡ ok (over, record room { pos = 6272 })
unfolding start listen_loop scan visit accept_peer Array.new Array.append Array.enlarge Buffer.new
    Arena.alloc
run = refl

listen_loop-Watched_example : Watched fixed over
listen_loop-Watched_example =
    listen_loop-Watched fixed client answers over room (record room { pos = 6272 }) (omega arith)
      (omega arith) (omega arith, (tt, tt)) run

scan_example : Scans fixed joined 0 over room (scan fixed joined 1025 0 over room)
scan_example =
    scan_lem fixed joined 1025 0 over room (omega arith) (omega arith) (omega arith) (omega arith)
