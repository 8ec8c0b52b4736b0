-- ===== src/Tracker/Handling.antt =====
-- tmtracker.c, `handle_msg`: the tracker tells peers of each other. It works in the arena of the
-- contexts, in a copy of the scratch arena, and in the arena of the table of peers.
pub mod Told
pub mod Knocks
pub mod Read
pub mod Handled
pub mod Leaving
pub mod Grows
use tm.Base.{ℕ, ◌%◌, ◌^◌, Bool, true, false, List, [], ◌∷◌, drop, none, some, fault, wild, ◌==◌}
use tm.Base.{if◌then◌else◌}
use tm.Clib.Arena.{Arena, M, return, ◌>>=◌, ◌>>◌, load, on_arena}
use tm.Clib.Buffer
use tm.Clib.Buffer.{Buffer}
use tm.Clib.Static.{c_str}
use tm.Clib.Str
use tm.Clib.Str.{Str}
use tm.Cnet.HostAddr.{from_sock_addr, to_sock_addr, htons}
use tm.Cnet.Pack.{Arg, int, longlong, str, pack_len}
use tm.Cnet.Unpack.{Slot, unpack}
use tm.Tmcommon.Messages.{
  online_args, peer_online, peer_offline, knock, bye, peer_online_fmt, peer_offline_fmt, knock_fmt,
  new_message,
}
use tm.Tmcommon.Peers.{Peer, Peers, create_peer, destroy_peer, print_peers, find_peer_fromaddr}
use tm.Tmcommon.Sending.{World, send_msg_to_hostaddr, send_msg_to_peers}

-- `GPeers` with its arena, and what `handle_msg` is given of the sockets.
pub record Tracking : Type 0 where
  pub peers : Peers
  pub peers_arena : Arena
  pub world : World

-- The values behind the number of a `KNOCK`.
pub knocked : List Slot → M (Str × Str × ℕ)
knocked (Slot.u8 msgno ∷ Slot.string alias ∷ Slot.string hostname ∷ Slot.u16 listenport ∷ []) =
    return (alias, hostname, listenport)
knocked slots = λ a. fault wild

-- `NetUnpack` of a `KNOCK`, and the texts in it as C strings. `listenport` is what stands in the local
-- before, which is left there by a message that is too short.
pub read_knock : List ℕ → ℕ → ℕ → M (List ℕ × List ℕ × ℕ)
read_knock msgbytes msglen listenport = do
  slots ←
      unpack msgbytes msglen knock_fmt
        (Slot.u8 knock ∷ Slot.string Str.new0 ∷ Slot.string Str.new0 ∷ Slot.u16 listenport ∷ [])
  (alias, hostname, port) ← knocked slots
  cs ← Str.cstr alias
  ds ← Str.cstr hostname
  return (cs, ds, port)

-- The address for messages to the peer: the one it sent from, with the port it listens on.
pub listen_addr : ℕ → ℕ → ℕ
listen_addr fromaddr listenport =
    from_sock_addr (record (to_sock_addr fromaddr) { sin_port = htons listenport })

-- The bytes of `sendbuf` that are sent: its length is passed as a `u16`.
pub packed : Buffer → M (List ℕ)
packed sendbuf = load sendbuf.bs (sendbuf.len % 2 ^ 16)

-- `BufferNew`, `NetPackLen`, and the bytes.
pub first_message : List ℕ → List Arg → M (Buffer × List ℕ)
first_message fmt args = do
  sendbuf ← new_message 1024 fmt args
  bytes ← packed sendbuf
  return (sendbuf, bytes)

-- `BufferClear`, `NetPackLen`, and the bytes.
pub next_message : Buffer → Peer → M (Buffer × List ℕ)
next_message sendbuf p = do
  cleared ← Buffer.clear sendbuf
  (sendbuf', n) ←
      pack_len cleared peer_online_fmt
        (online_args (c_str p.alias) (c_str p.hostname) p.fromaddr p.toaddr)
  bytes ← packed sendbuf'
  return (sendbuf', bytes)

-- The loop that tells the new peer of the others.
pub tell_of_peers : Arena → Buffer → ℕ → List Peer → World → M World
tell_of_peers scratch sendbuf toaddr [] w = return w
tell_of_peers scratch sendbuf toaddr (p ∷ ps) w = elim p.active [
  | false ↦ tell_of_peers scratch sendbuf toaddr ps w
  | true ↦ do
    ((sendbuf', bytes), scratch') ← on_arena scratch (next_message sendbuf p)
    (w', z) ← send_msg_to_hostaddr scratch' bytes toaddr w
    tell_of_peers scratch' sendbuf' toaddr ps w'
]

-- `if (msgno == KNOCK)`.
pub handle_knock : Arena → ℕ → List ℕ → ℕ → ℕ → Tracking → M Tracking
handle_knock scratch fromaddr msgbytes msglen listenport t = do
  ((alias, hostname, port), scratch₁) ← on_arena scratch (read_knock msgbytes msglen listenport)
  let toaddr = listen_addr fromaddr port
  ((sendbuf, bytes), scratch₂) ←
      on_arena scratch₁ (first_message peer_online_fmt (online_args alias hostname fromaddr toaddr))
  w₁ ← send_msg_to_peers scratch₂ bytes t.peers.array.items t.world
  w₂ ← tell_of_peers scratch₂ sendbuf toaddr t.peers.array.items w₁
  ((peers, hpeer), peers_arena) ←
      on_arena t.peers_arena (create_peer t.peers alias hostname fromaddr toaddr)
  print_peers peers
  return (record { peers = peers; peers_arena = peers_arena; world = w₂ })

-- `if (hpeer != -1) destroy_peer(hpeer)`.
pub without_peer : ℕ → Peers → Peers
without_peer fromaddr peers = elim (find_peer_fromaddr fromaddr peers.array.items) [
  | none ↦ peers
  | some hpeer ↦ destroy_peer hpeer peers
]

-- `else if (msgno == BYE)`.
pub handle_bye : Arena → ℕ → Tracking → M Tracking
handle_bye scratch fromaddr t = do
  let peers = without_peer fromaddr t.peers
  print_peers peers
  ((sendbuf, bytes), scratch') ←
      on_arena scratch (first_message peer_offline_fmt (int peer_offline ∷ longlong fromaddr ∷ []))
  w ← send_msg_to_peers scratch' bytes peers.array.items t.world
  return (record t { peers = peers; world = w })

-- `MSGNO`: the first byte of a message that has one.
pub msgno : ℕ → M ℕ
msgno p = do bs ← load p 1; elim bs [ [] ↦ λ a. fault wild | b ∷ rest ↦ return b ]

-- `handle_msg`; the message of `msglen` bytes stands at `p` in the arena of the contexts.
pub handle_msg : Arena → ℕ → ℕ → ℕ → ℕ → Tracking → M Tracking
handle_msg scratch fromaddr listenport p msglen t = do
  n ← msgno p
  if n == knock
      then (λ a. handle_knock scratch fromaddr (drop p a.bs) msglen listenport t a)
      else if n == bye
      then handle_bye scratch fromaddr t
      else return t
