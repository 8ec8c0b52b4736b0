-- ===== src/Client/Handling.antt =====
-- tm.c, `handle_msg`: what a client does about a message. It works in the arena of the contexts,
-- whose copy is its scratch arena, in the arena of the table of peers, and in that of the texts.
pub mod Trusted
pub mod Online
use tm.Base.{
  ℕ, ◌+◌, ◌-◌, Bool, true, false, not, List, [], ◌∷◌, ◌++◌, length, drop, none, some, Option, ok,
}
use tm.Base.{fault, wild, ◌==◌, if◌then◌else◌}
use tm.Clib.Arena.{Arena, M, return, ◌>>=◌, ◌>>◌, load, in_copy, on_arena}
use tm.Clib.Array
use tm.Clib.Array.{Array}
use tm.Clib.Str
use tm.Clib.Str.{Str}
use tm.Cnet.HostAddr.{ipaddr_equals}
use tm.Cnet.Unpack.{Slot, unpack}
use tm.Tmcommon.Messages.{
  peer_online, peer_offline, chattext, peer_online_fmt, peer_offline_fmt, chattext_fmt,
}
use tm.Tmcommon.Peers.{Peers, create_peer, print_peers, find_peer_fromaddr}

-- `ChatText`; its text is in the arena of the texts.
pub record ChatText : Type 0 where
  pub timestamp : ℕ
  pub fromaddr : ℕ
  pub toaddr : ℕ
  pub text : Str

-- A call that `g_idle_add` hands to the thread of the windows: a peer came or went, or a text came
-- from a peer, which is the item of `GChatTexts` at an index.
pub data IdleCall : Type 0 where
  idle_peer_online idle_peer_offline : ℕ → IdleCall
  idle_open_chatwin : ℕ → ℕ → IdleCall

-- `GPeers` and `GChatTexts` with their arenas, and the idle calls so far.
pub record Client : Type 0 where
  pub peers : Peers
  pub peers_arena : Arena
  pub chattexts : Array ChatText
  pub chats_arena : Arena
  pub idle : List IdleCall

-- What stands in the locals before, which a message that is too short leaves there.
pub record Locals : Type 0 where
  pub fromaddr : ℕ
  pub toaddr : ℕ

-- `NetUnpack` of a `PEER_ONLINE`, and the texts in it as C strings.
pub online_values : List Slot → M (List ℕ × List ℕ × ℕ × ℕ)
online_values
      (Slot.u8 n ∷ Slot.string alias ∷ Slot.string hostname ∷ Slot.u64 from ∷ Slot.u64 to ∷ []) =
    do cs ← Str.cstr alias; ds ← Str.cstr hostname; return (cs, ds, from, to)
online_values slots = λ a. fault wild

pub read_online : List ℕ → ℕ → Locals → M (List ℕ × List ℕ × ℕ × ℕ)
read_online msgbytes msglen l = do
  slots ← unpack msgbytes msglen peer_online_fmt (
      Slot.u8 peer_online
      ∷ Slot.string Str.new0
      ∷ Slot.string Str.new0
      ∷ Slot.u64 l.fromaddr
      ∷ Slot.u64 l.toaddr
      ∷ [])
  online_values slots

-- `if (msgno == PEER_ONLINE)`, behind the check of the sender.
pub handle_online : List ℕ → ℕ → Locals → Client → M Client
handle_online msgbytes msglen l c = do
  (alias, hostname, fromaddr, toaddr) ← in_copy (read_online msgbytes msglen l)
  ((peers, hpeer), pa) ← on_arena c.peers_arena (create_peer c.peers alias hostname fromaddr toaddr)
  print_peers peers
  return
      (record c { peers = peers; peers_arena = pa; idle = c.idle ++ (idle_peer_online hpeer ∷ []) })

-- `else if (msgno == PEER_OFFLINE)`, behind the check of the sender.
pub offline_value : List Slot → M ℕ
offline_value (Slot.u8 n ∷ Slot.u64 from ∷ []) = return from
offline_value slots = λ a. fault wild

pub told_offline : Option ℕ → Client → Client
told_offline none c = c
told_offline (some hpeer) c = record c { idle = c.idle ++ (idle_peer_offline hpeer ∷ []) }

pub handle_offline : List ℕ → ℕ → Locals → Client → M Client
handle_offline msgbytes msglen l c = do
  slots ←
      in_copy
        (unpack msgbytes msglen peer_offline_fmt (Slot.u8 peer_offline ∷ Slot.u64 l.fromaddr ∷ []))
  fromaddr ← offline_value slots
  print_peers c.peers
  return (told_offline (find_peer_fromaddr fromaddr c.peers.array.items) c)

-- `NetUnpack` of a `CHATTEXT`, and the bytes that its text counts.
pub text_value : List Slot → M (List ℕ)
text_value (Slot.u8 n ∷ Slot.string text ∷ []) = λ a. ok (Str.text a text, a)
text_value slots = λ a. fault wild

pub read_text : List ℕ → ℕ → M (List ℕ)
read_text msgbytes msglen = do
  slots ← unpack msgbytes msglen chattext_fmt (Slot.u8 chattext ∷ Slot.string Str.new0 ∷ [])
  text_value slots

-- `StringDup` to the arena of the texts, and `ArrayAppend`.
pub append_chattext : ℕ → ℕ → List ℕ → Array ChatText → M (Array ChatText)
append_chattext now fromaddr text chattexts = do
  copy ← Str.new_from_bytes text (length text)
  Array.append chattexts (record { timestamp = now; fromaddr = fromaddr; toaddr = 0; text = copy })

-- A text is kept, and shown, if a peer has the address that it came from.
pub keep_chattext : ℕ → ℕ → List ℕ → Client → M Client
keep_chattext now fromaddr text c = elim (find_peer_fromaddr fromaddr c.peers.array.items) [
  | none ↦ return c
  | some hpeer ↦ do
    (chattexts, ca) ← on_arena c.chats_arena (append_chattext now fromaddr text c.chattexts)
    return (record c {
      chattexts = chattexts;
      chats_arena = ca;
      idle = c.idle ++ (idle_open_chatwin hpeer (length chattexts.items - 1) ∷ []);
    })
]

-- `else if (msgno == CHATTEXT)`; `now` is the time.
pub handle_chattext : ℕ → ℕ → List ℕ → ℕ → Client → M Client
handle_chattext now fromaddr msgbytes msglen c = do
  text ← in_copy (read_text msgbytes msglen)
  keep_chattext now fromaddr text c

-- The branches for the numbers of messages; `tracker_addr` is `GTrackerAddr`.
pub on_msgno : ℕ → ℕ → Locals → ℕ → List ℕ → ℕ → Client → ℕ → M Client
on_msgno tracker_addr now l fromaddr msgbytes msglen c n =
    if n == peer_online
    then (if ipaddr_equals fromaddr tracker_addr
        then handle_online msgbytes msglen l c
        else return c)
    else if n == peer_offline
    then (if ipaddr_equals fromaddr tracker_addr
        then handle_offline msgbytes msglen l c
        else return c)
    else if n == chattext
    then handle_chattext now fromaddr msgbytes msglen c
    else return c

-- `MSGNO`: the first byte of a message that has one.
pub msgno : ℕ → M ℕ
msgno p = do bs ← load p 1; elim bs [ [] ↦ λ a. fault wild | b ∷ rest ↦ return b ]

-- `handle_msg`, where the message stands at `p`.
pub handle_msg : ℕ → ℕ → Locals → ℕ → ℕ → ℕ → Client → M Client
handle_msg tracker_addr now l fromaddr p msglen c = do
  n ← msgno p
  λ a. on_msgno tracker_addr now l fromaddr (drop p a.bs) msglen c n a
