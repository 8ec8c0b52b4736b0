-- ===== src/Tmcommon/Tests.antt =====
-- Runs of tmcommon.c on concrete inputs.
use tm.Base.{ℕ, ◌≢◌, ◌≡◌, refl, arith, inl, true, false, List, [], ◌∷◌, ok, replicate}
use tm.Base.{◌++◌, ◌+◌, set, inr}
use tm.Clib.Buffer.{Buffer}
use tm.Clib.Buffer.Contents.{contents}
use tm.Cnet.Stream.{Status, ongoing, SendEvent}
use tm.Cnet.Stream.Send
use tm.Tmcommon.Contexts.{SocketCtx}
use tm.Tmcommon.Contexts.Made.{find_by_toaddr-nil, find_by_toaddr-here}
use tm.Tmcommon.Sending.{World, Attempt, send_msg_to_hostaddr}
use tm.Tmcommon.Sending.Message.{Leaves, send_msg_lem, send_msg-queued}
use tm.Clib.Arena.{Arena}
use tm.Clib.Arena.Blocks.{IsValid, Extends}
use tm.Clib.Static.{NoZero}
use tm.Tmcommon.Peers.{Peer, Peers, create_peer, destroy_peer, find_peer_fromaddr, get_peer_data}
use tm.Tmcommon.Peers.Table.{IsTable}
use tm.Tmcommon.Peers.Create.{Created, create_peer_lem}
use tm.Tmcommon.Peers.First.{create_peer-first}
use tm.Tmcommon.Peers.Destroy.{is_active, destroy_peer_lem}

abbrev room : Arena
room = record { bs = replicate 8 0; pos = 4; cap = 8 }

abbrev ann : Peer
ann = record {
  hpeer = 1;
  alias = b'a' ∷ b'n' ∷ b'n' ∷ replicate 14 0;
  hostname = b'h' ∷ replicate 16 0;
  fromaddr = 100;
  toaddr = 200;
  active = true;
}

abbrev peers : Peers
peers = record { array = record { items = ann ∷ []; itemsize = 64; cap = 4 }; next = 2 }

peers-IsTable : IsTable 2 (ann ∷ [])
peers-IsTable = record {
  below = (omega arith, tt);
  distinct = (tt, tt, tt);
  sized = (refl, refl, tt);
}

abbrev bob : List ℕ
bob = b'b' ∷ b'o' ∷ b'b' ∷ []

bob-NoZero : NoZero bob
bob-NoZero = (omega arith, (omega arith, (omega arith, tt)))

create_peer_example :
    (b : Arena) × (peers' : Peers) × (h : ℕ) × (create_peer peers bob bob 101 201 room
      ≡ ok ((peers', h), b))
    × Created (ann ∷ []) bob bob 101 201 peers' h
    × IsValid b
    × Extends room b
create_peer_example =
    create_peer_lem peers bob bob 101 201 room bob-NoZero bob-NoZero peers-IsTable (record {
      valid = record { filled = refl; inside = omega arith; small = omega arith };
      within = omega arith;
      some_cap = omega arith;
      space = inl (omega arith);
    })

abbrev no_arena : Arena
no_arena = record { bs = []; pos = 0; cap = 0 }

abbrev no_peers : Peers
no_peers = record { array = record { items = []; itemsize = 0; cap = 0 }; next = 1 }

create_peer_first_example :
    (b : Arena) × (peers' : Peers) × (h : ℕ) × (create_peer no_peers bob bob 101 201 no_arena
      ≡ ok ((peers', h), b))
    × Created [] bob bob 101 201 peers' h
    × IsValid b
create_peer_first_example =
    create_peer-first no_peers bob bob 101 201 no_arena bob-NoZero bob-NoZero refl refl

destroy_peer_example :
    IsTable (destroy_peer 1 peers).next (destroy_peer 1 peers).array.items
    × (is_active 1 (destroy_peer 1 peers).array.items ≡ false)
    × ((k : ℕ) → k ≢ 1 → is_active k (destroy_peer 1 peers).array.items ≡ is_active k (ann ∷ []))
    × ((k : ℕ)
        → find_peer_fromaddr k (destroy_peer 1 peers).array.items ≡ find_peer_fromaddr k (ann ∷ []))
    × ((k : ℕ) (alias hostname : List ℕ)
        → get_peer_data k alias hostname (destroy_peer 1 peers).array.items
          ≡ get_peer_data k alias hostname (ann ∷ []))
destroy_peer_example = destroy_peer_lem 1 peers peers-IsTable

-- A socket that takes one byte of two.
abbrev one_taken : List SendEvent
one_taken = SendEvent.took 1 ∷ SendEvent.would_block ∷ []

abbrev idle : World
idle = record {
  ctxs = record { items = []; itemsize = 120; cap = 4 };
  watch = record { writefds = λ fd. false; maxfd = 0 };
  attempts = Attempt.connected 7 one_taken ∷ [];
  log = [];
}

abbrev scratch : Arena
scratch = record { bs = replicate 8 0; pos = 0; cap = 8 }

abbrev sockets : Arena
sockets = record { bs = 5 ∷ replicate 79 0; pos = 2; cap = 80 }

send_msg_example :
    (d : Arena) × (w' : World) × (z : Status) × (send_msg_to_hostaddr scratch
        (b'h' ∷ b'i' ∷ [])
        300
        idle
        sockets
      ≡ ok ((w', z), d))
    × Leaves idle (b'h' ∷ b'i' ∷ []) 300 7 (1 + 0) ongoing d w' z
send_msg_example =
    send_msg_lem (b'h' ∷ b'i' ∷ [])
      (Send.some_sent 1 (omega arith) (omega arith) (Send.would_block (omega arith))) 300 7 [] idle
      scratch sockets (find_by_toaddr-nil 300) refl
      (record { filled = refl; inside = omega arith; small = omega arith }) (omega arith)
      (
        record { filled = refl; inside = omega arith; small = omega arith },
        omega arith,
        omega arith,
        omega arith,
      )

abbrev waiting : SocketCtx
waiting = record {
  fd = 7;
  fromaddr = 0;
  toaddr = 300;
  readbuf = record { bs = 0; len = 0; cap = 0 };
  writebuf = record { bs = 0; len = 1; cap = 2 };
  msglen = 0;
  shut_rd = false;
}

abbrev busy : World
busy = record idle { ctxs = record { items = waiting ∷ []; itemsize = 120; cap = 4 } }

send_msg_queued_example :
    (b : Arena) × (w' : World) × (buf : Buffer) × (send_msg_to_hostaddr scratch
        (b'h' ∷ b'i' ∷ [])
        300
        busy
        sockets
      ≡ ok ((w', ongoing), b))
    × (w'.ctxs.items ≡ set (waiting ∷ []) 0 (record waiting { writebuf = buf }))
    × (contents b buf ≡ contents sockets waiting.writebuf ++ (b'h' ∷ b'i' ∷ []))
    × (w'.watch ≡ busy.watch)
    × (w'.log ≡ [])
send_msg_queued_example =
    send_msg-queued scratch (b'h' ∷ b'i' ∷ []) 300 0 busy waiting sockets
      (find_by_toaddr-here waiting []) refl
      (record {
        valid = record { filled = refl; inside = omega arith; small = omega arith };
        inside = omega arith;
        used = omega arith;
        some_cap = omega arith;
      })
      (omega arith, inr (omega arith))
