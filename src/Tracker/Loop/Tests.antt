-- ===== src/Tracker/Loop/Tests.antt =====
-- Runs of the loop of the tracker on concrete inputs.
use tm.Base.{ℕ, ◌≡◌, refl, false, map, List, [], ◌∷◌, replicate, ok, ◌==◌}
use tm.Clib.Arena
use tm.Clib.Arena.{Arena, ◌>>=◌}
use tm.Clib.Array
use tm.Clib.Buffer
use tm.Cnet.HostAddr.{SockAddr}
use tm.Cnet.Stream.{fd_set, fd_clr, RecvEvent, net_recv}
use tm.Tmcommon.Contexts.{SocketCtx, ctx_new, find_by_fd, remove_by_fd}
use tm.Tmcommon.Peers.{Peers}
use tm.Tmcommon.Sending.{shut_rd, shutdown}
use tm.Tracker.Framing.{read_loop}
use tm.Tracker.Loop.{
  AcceptEvent, Round, SelectAnswer, Server, world, accept_peer, receive, stop_reading, put_reading,
  close_ctx, visit, scan, serve, start,
}
use tm.Tracker.Loop.Steps.{IsFresh}
use tm.Tracker.Loop.Covered.{Covered}
use tm.Tracker.Loop.Served.{serve-Serves}

abbrev far : SockAddr
far = record { sin_family = 2; sin_port = 36895; s_addr = 16777344 }

-- The first connection gets the descriptor 2, and there are no others.
abbrev first_only : List ℕ → AcceptEvent
first_only [] = AcceptEvent.peer 2 far
first_only (fd ∷ fds) = AcceptEvent.no_peer

abbrev joined : Round
joined = record {
  readable = λ i. i == 1;
  writable = λ i. false;
  accept = first_only;
  recvs = λ i. [];
  sends = λ i. [];
}

-- The peer of the connection shuts it down.
abbrev left : Round
left = record {
  readable = λ i. i == 2;
  writable = λ i. false;
  accept = first_only;
  recvs = λ i. RecvEvent.eof ∷ [];
  sends = λ i. [];
}

abbrev answers : List SelectAnswer
answers = SelectAnswer.ready joined ∷ SelectAnswer.nothing ∷ SelectAnswer.ready left ∷ []

first_only-IsFresh : (ctxs : List SocketCtx) → IsFresh (first_only (map (λ ctx. ctx.fd) ctxs)) ctxs
first_only-IsFresh [] = λ h. elim h [ ]
first_only-IsFresh (ctx ∷ ctxs) = tt

abbrev room : Arena
room = record { bs = replicate 7000 0; pos = 0; cap = 7000 }

abbrev peers : Peers
peers = record { array = record { items = []; itemsize = 64; cap = 4 }; next = 1 }

-- The connection is closed, and the log says how.
abbrev over : Server
over = record {
  tracking = record {
    peers = peers;
    peers_arena = room;
    world = record {
      ctxs = record { items = []; itemsize = 96; cap = 64 };
      watch = record { writefds = λ fd. false; maxfd = 2 };
      attempts = [];
      log = shut_rd 2 ∷ shutdown 2 ∷ [];
    };
  };
  readfds = fd_clr 2 (fd_set 2 (fd_set 1 (λ fd. false)));
}

run :
    (do t ← start 1 peers room []; serve room 0 1 answers t) room
    ≡ ok (over, record room { pos = 6144 })
unfolding start serve scan visit accept_peer receive stop_reading put_reading close_ctx Array.new
    Array.append Array.enlarge Array.item Array.remove Buffer.new Arena.alloc Arena.reset ctx_new
    find_by_fd remove_by_fd net_recv read_loop
run = refl

serve-Serves_example : Covered 1 over.readfds (world over)
serve-Serves_example =
    serve-Serves room 0 1 peers room [] answers over room (record room { pos = 6144 })
      (first_only-IsFresh, (first_only-IsFresh, tt)) run
