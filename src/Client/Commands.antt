-- ===== src/Client/Commands.antt =====
-- tm.c, `execute_command`: a command line of the shell. What it prints and sends is a log.
pub mod Meaning
pub mod Keywords
pub mod Local
pub mod Chat
pub mod Sends
use tm.Base.{ℕ, suc, ◌+◌, ◌-◌, Bool, true, false, ◌||◌, List, [], ◌∷◌, length, none, some, ◌==◌}
use tm.Base.{ok, if◌then◌else◌}
use tm.Clib.Arena.{M, return, ◌>>=◌, ◌>>◌, in_copy}
use tm.Clib.Array.{Array}
use tm.Clib.Str
use tm.Clib.Str.{Str, new0}
use tm.Cnet.HostAddr.{to_sock_addr}
use tm.Cnet.Pack.{int, str}
use tm.Tmcommon.Messages.{chattext, chattext_fmt}
use tm.Tmcommon.Peers.{Peer, Peers, find_peer_alias, get_peer_data, print_peers}
use tm.Client.Messages.{Answers, Delivery, connect_and_send_msg}
use tm.Client.Tokens.{tokenize_command}
use tm.Client.Join.{array_join_strings}

-- `print_peers`, `print_chattexts`, the message that an alias is not online, and a message that is
-- sent to an address, with what came of it.
pub data ShellEffect : Type 0 where
  printed_peers printed_chattexts : ShellEffect
  not_online : List ℕ → ShellEffect
  tried_send : ℕ → Delivery → ShellEffect

-- The result, which is 1 where the shell is to be left, and what was done.
pub record Executed : Type 0 where
  pub leave : Bool
  pub log : List ShellEffect

abbrev pub stay : List ShellEffect → Executed
stay log = record { leave = false; log = log }

-- `enum ExecState`, with the local `sendalias`.
pub data ExecState : Type 0 where
  exec_start exec_send : ExecState
  exec_sendalias : Str → ExecState

-- What a word means in `EXEC_START`.
pub data Keyword : Type 0 where
  leave_now nothing_to_do show_peers show_chats start_send skip : Keyword

unfoldable pub keyword : List ℕ → Keyword
keyword token =
    if Str.equals token (b'q' ∷ b'u' ∷ b'i' ∷ b't' ∷ [])
      || Str.equals token (b'b' ∷ b'y' ∷ b'e' ∷ [])
    then leave_now
    else if Str.equals token (b'k' ∷ b'n' ∷ b'o' ∷ b'c' ∷ b'k' ∷ [])
    then nothing_to_do
    else if Str.equals token (b'p' ∷ b'e' ∷ b'e' ∷ b'r' ∷ b's' ∷ [])
    then show_peers
    else if Str.equals token (b'c' ∷ b'h' ∷ b'a' ∷ b't' ∷ b's' ∷ [])
    then show_chats
    else if Str.equals token (b's' ∷ b'e' ∷ b'n' ∷ b'd' ∷ [])
    then start_send
    else skip

-- The address that `get_peer_data` writes, which is 0 before.
abbrev pub toaddr_of : ℕ → List Peer → ℕ
toaddr_of hpeer peers = elim (get_peer_data hpeer [] [] peers) [
  | none ↦ 0
  | some (alias, host, from, to) ↦ to
]

-- `EXEC_SENDALIAS`: the tokens from index `i` on are the text.
pub send_chat : List Peer → ℕ → Answers → Array Str → ℕ → Str → M Executed
send_chat peers send_port answers tokens i sendalias = do
  text ← array_join_strings tokens i (length tokens.items - 1) new0
  if text.len == 0 then return (stay []) else (do
    alias ← Str.cstr sendalias
    elim (find_peer_alias alias peers) [
      | none ↦ return (stay (not_online alias ∷ []))
      | some hpeer ↦ do
        let toaddr = toaddr_of hpeer peers
        cs ← Str.cstr text
        d ← in_copy (
            connect_and_send_msg send_port (to_sock_addr toaddr) answers chattext_fmt
              (int chattext ∷ str cs ∷ []))
        return (stay (tried_send toaddr d ∷ []))
    ])

-- The branches of `EXEC_START`, with the rounds that follow where it does not return.
abbrev pub on_keyword : Peers → Keyword → M Executed → M Executed → M Executed
on_keyword known leave_now sending going_on = return (record { leave = true; log = [] })
on_keyword known nothing_to_do sending going_on = return (stay [])
on_keyword known show_peers sending going_on = do
  print_peers known
  return (stay (printed_peers ∷ []))
on_keyword known show_chats sending going_on = return (stay (printed_chattexts ∷ []))
on_keyword known start_send sending going_on = sending
on_keyword known skip sending going_on = going_on

-- The loop over the tokens, from index `i` on.
pub exec_loop : Peers → ℕ → Answers → Array Str → List Str → ℕ → ExecState → M Executed
exec_loop peers send_port answers tokens [] i state = return (stay [])
exec_loop peers send_port answers tokens (token ∷ rest) i exec_start = λ a.
    on_keyword peers (keyword (Str.text a token))
      (exec_loop peers send_port answers tokens rest (i + 1) exec_send)
      (exec_loop peers send_port answers tokens rest (i + 1) exec_start) a
exec_loop peers send_port answers tokens (token ∷ rest) i exec_send =
    exec_loop peers send_port answers tokens rest (i + 1) (exec_sendalias token)
exec_loop peers send_port answers tokens (token ∷ rest) i (exec_sendalias sendalias) =
    send_chat peers.array.items send_port answers tokens i sendalias

-- `execute_command`, with a copy of the scratch arena.
pub execute_command : Peers → ℕ → Answers → List ℕ → M Executed
execute_command peers send_port answers cmd = in_copy (do
  tokens ← tokenize_command cmd
  if length tokens.items == 0
      then return (stay [])
      else exec_loop peers send_port answers tokens tokens.items 0 exec_start)
