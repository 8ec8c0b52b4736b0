-- ===== src/Tracker/Tests.antt =====
-- Runs of tmtracker.c on concrete inputs.
use tm.Base.{ℕ, ◌≤◌, ◌<◌, ◌≡◌, refl, arith, List, [], ◌∷◌, ◌++◌, ok, take, replicate, false}
use tm.Clib.Arena.{Arena, M, return, ◌>>=◌, load}
use tm.Clib.Buffer.{Buffer}
use tm.Clib.Buffer.Contents.{contents, Owns, load_front}
use tm.Tracker.Framing.{Handler}
use tm.Tracker.Framing.Splits.{Splits}
use tm.Tracker.Framing.Reads.{Runs, read_loop_lem}
use tm.Base.{length-replicate, true, fault, assertion}
use tm.Clib.Arena.Blocks.{IsValid}
use tm.Cnet.Pack.Framed.{framed}
use tm.Tmcommon.Messages.Formats.{offline_bytes}
use tm.Tmcommon.Peers.{Peer, Peers}
use tm.Tmcommon.Peers.Table.{IsTable}
use tm.Tmcommon.Sending.Broadcast.{send_all, active_addrs}
use tm.Tracker.Handling.{Tracking, handle_msg}
use tm.Tracker.Handling.Leaving.{Left, handle_bye_lem, bye_aborts}

-- A handler that keeps the messages it was given.
abbrev record_msg : ℕ → ℕ → List (List ℕ) → M (List (List ℕ))
record_msg p n s = do bs ← load p n; return (s ++ (bs ∷ []))

record_msg-keeps :
    (buf : Buffer) (n : ℕ) (s s' : List (List ℕ)) (a : Arena)
    → Owns a buf
    → 0 < n
    → n ≤ buf.len
    → s ++ (take n (contents a buf) ∷ []) ≡ s'
    → (b : Arena) × (record_msg buf.bs n s a ≡ ok (s', b))
      × Owns b buf
      × (contents b buf ≡ contents a buf)
record_msg-keeps buf n s s' a o p l h = (a, rw (load_front a buf n o l, ◌>>=◌) (rw h), o, refl)

abbrev recorder : Handler (List (List ℕ))
recorder = record {
  handle = record_msg;
  Handles = λ msg s s'. s ++ (msg ∷ []) ≡ s';
  keeps = record_msg-keeps;
}

-- A buffer with a message of two bytes and the start of another.
abbrev received : List ℕ
received = 0 ∷ 2 ∷ 4 ∷ 7 ∷ 0 ∷ 3 ∷ 1 ∷ []

abbrev room : Arena
room = record { bs = 0 ∷ 2 ∷ 4 ∷ 7 ∷ 0 ∷ 3 ∷ 1 ∷ replicate 57 0; pos = 16; cap = 64 }

abbrev readbuf : Buffer
readbuf = record { bs = 0; len = 7; cap = 16 }

readbuf-Owns : Owns room readbuf
readbuf-Owns = record {
  valid = record { filled = refl; inside = omega arith; small = omega arith };
  inside = omega arith;
  used = omega arith;
  some_cap = omega arith;
}

received-Splits : Splits 0 received ((4 ∷ 7 ∷ []) ∷ []) 3 (1 ∷ []) false
received-Splits = Splits.header 0 2 (omega arith) (omega arith) (omega arith) (
    Splits.body (4 ∷ 7 ∷ []) (omega arith) (
      Splits.header 0 3 (omega arith) (omega arith) (omega arith)
        (Splits.no_body 3 (1 ∷ []) (omega arith))))

read_loop_example : Runs recorder room 8 readbuf 0 false [] 3 (1 ∷ []) false ((4 ∷ 7 ∷ []) ∷ [])
read_loop_example =
    read_loop_lem recorder 8 received-Splits readbuf false [] ((4 ∷ 7 ∷ []) ∷ []) room readbuf-Owns
      refl (omega arith) ((4 ∷ 7 ∷ []) ∷ [], refl, refl)

-- A scratch arena, and a table with one peer.
abbrev scratch : Arena
scratch = record { bs = replicate 1500 0; pos = 0; cap = 1500 }

scratch-IsValid : IsValid scratch
scratch-IsValid = record {
  filled = length-replicate {A = ℕ} 1500 0;
  inside = omega arith;
  small = omega arith;
}

abbrev ann : Peer
ann = record {
  hpeer = 1;
  alias = b'a' ∷ b'n' ∷ b'n' ∷ replicate 14 0;
  hostname = b'h' ∷ replicate 16 0;
  fromaddr = 100;
  toaddr = 200;
  active = true;
}

abbrev peers : Peers
peers = record { array = record { items = ann ∷ []; itemsize = 64; cap = 4 }; next = 2 }

peers-IsTable : IsTable 2 (ann ∷ [])
peers-IsTable = record {
  below = (omega arith, tt);
  distinct = (tt, tt, tt);
  sized = (refl, refl, tt);
}

abbrev peers_arena : Arena
peers_arena = record { bs = replicate 8 0; pos = 4; cap = 8 }

abbrev tracking : Tracking
tracking = record {
  peers = peers;
  peers_arena = peers_arena;
  world = record {
    ctxs = record { items = []; itemsize = 96; cap = 64 };
    watch = record { writefds = λ fd. false; maxfd = 3 };
    attempts = [];
    log = [];
  };
}

-- A `KNOCK` of `b` on the host `h` that listens on port 8200.
abbrev knock_room : Arena
knock_room = record {
  bs = 3 ∷ 0 ∷ 1 ∷ b'b' ∷ 0 ∷ 1 ∷ b'h' ∷ 32 ∷ 8 ∷ replicate 7 0;
  pos = 16;
  cap = 16;
}

abbrev bye_room : Arena
bye_room = record { bs = 4 ∷ replicate 7 0; pos = 8; cap = 8 }

handle_bye_example :
    (scratch' : Arena) × (peers' : Peers) × (handle_msg scratch 100 0 0 1 tracking bye_room
      ≡ (send_all scratch'
              (framed (offline_bytes 100))
              (active_addrs peers'.array.items)
              tracking.world
            >>= λ w. return (record tracking { peers = peers'; world = w }))
          bye_room)
    × Left 100 peers peers'
handle_bye_example =
    handle_bye_lem scratch 100 0 0 1 (replicate 7 0) tracking bye_room refl scratch-IsValid
      (omega arith) peers-IsTable (omega arith)

-- No peer came yet.
abbrev untouched : Tracking
untouched = record tracking {
  peers = record { array = record { items = []; itemsize = 0; cap = 0 }; next = 1 };
}

bye_aborts_example : handle_msg scratch 100 0 0 1 untouched bye_room ≡ fault assertion
bye_aborts_example = bye_aborts scratch 100 0 0 1 (replicate 7 0) untouched bye_room refl refl
