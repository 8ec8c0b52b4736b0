-- ===== src/Client/Commands/Sends.antt =====
-- `execute_command` of a line that sends a message.
use tm.Base.{ℕ, ◌+◌, ◌*◌, ◌≤◌, ◌<◌, ◌≡◌, refl, ap, ◌∙◌, subst, arith, true}
use tm.Base.{List, [], ◌∷◌, length, take, drop, none, some, ok}
use tm.Clib.Arena.{Arena}
use tm.Clib.Arena.Blocks.{IsValid, Extends}
use tm.Clib.Array.{Array}
use tm.Clib.Static.{NoZero}
use tm.Clib.Str.{Str}
use tm.Clib.Str.Held.{Holds}
use tm.Clib.Str.AllHeld.{AllHold}
use tm.Cnet.Pack.Framed.{framed}
use tm.Cnet.Stream.{Status, SendEvent, SelectEvent}
use tm.Cnet.Stream.Wait.{Waits}
use tm.Cnet.Connect.Closes.{Ends, open_after, destinations}
use tm.Tmcommon.Peers.{Peer, Peers, find_peer_alias}
use tm.Tmcommon.Peers.Table.{peer_at, get-peer_at}
use tm.Cnet.HostAddr.{to_sock_addr}
use tm.Client.Messages.{Answers, Delivery}
use tm.Client.Tokens.Words.{words, words-AreWords, AreWords}
use tm.Client.Tokens.Tokenized.{room_for, tokenize_command_lem}
use tm.Client.Join.Joined.{unwords, join_room}
use tm.Client.Commands.{
  exec_start, exec_loop, execute_command, stay, tried_send, not_online, toaddr_of, Keyword,
  leave_now, nothing_to_do, show_peers, show_chats, start_send, skip,
}
use tm.Client.Commands.Meaning.{
  Command, nothing, quit, peers, chats, send, send_of, asks_for, command_of, meaning,
}
use tm.Client.Commands.Keywords.{RunsAs, exec_loop_lem}
use tm.Client.Commands.Chat.{chat_bytes, Sendable, unknown_lem, known_lem}
use tm.Client.Commands.Local.{Line, steps}

-- The alias and the text are among the words.
abbrev SendsWords : Command → Type 0
SendsWords nothing = Unit
SendsWords quit = Unit
SendsWords peers = Unit
SendsWords chats = Unit
SendsWords (send alias ws) = NoZero alias × AreWords ws

asks_for-SendsWords :
    (k : Keyword) (c d : Command) → SendsWords c → SendsWords d → SendsWords (asks_for k c d)
asks_for-SendsWords leave_now c d h g = tt
asks_for-SendsWords nothing_to_do c d h g = tt
asks_for-SendsWords show_peers c d h g = tt
asks_for-SendsWords show_chats c d h g = tt
asks_for-SendsWords start_send c d h g = h
asks_for-SendsWords skip c d h g = g

send_of-SendsWords : (ws : List (List ℕ)) → AreWords ws → SendsWords (send_of ws)
send_of-SendsWords [] h = tt
send_of-SendsWords (alias ∷ []) h = tt
send_of-SendsWords (alias ∷ w ∷ ws) (n, p, h) = (n, h)

command_of-SendsWords : (ws : List (List ℕ)) → AreWords ws → SendsWords (command_of ws)
command_of-SendsWords [] h = tt
command_of-SendsWords (w ∷ ws) (n, p, h) =
    asks_for-SendsWords (meaning w) (send_of ws) (command_of ws) (send_of-SendsWords ws h)
      (command_of-SendsWords ws h)

-- Room for a message in the scratch arena, behind the tokens.
abbrev pub HasSendRoom : List ℕ → List (List ℕ) → Arena → Type 0
HasSendRoom cmd ws a =
    (length (unwords ws) < 60000)
    × (a.pos + 384 + room_for (length cmd) 0 + join_room 0 ws + 257 + 4 * (length (unwords ws) + 5)
        ≤ a.cap)

sendable :
    (cmd : List ℕ) {tokens : Array Str} {j : ℕ} {s : Str} {alias w : List ℕ} {ws : List (List ℕ)}
    (a b : Arena)
    → Line cmd a
    → HasSendRoom cmd (w ∷ ws) a
    → command_of (words cmd) ≡ send alias (w ∷ ws)
    → IsValid b
    → Extends a b
    → b.pos ≤ a.pos + 384 + room_for (length cmd) 0
    → Holds b s alias
    → AllHold b (drop j tokens.items) (w ∷ ws)
    → Sendable tokens j s alias w ws b
sendable cmd {alias = alias} {w = w} {ws = ws} a b l (short, room) e v x used h hs =
    let (n, are_words) =
      subst SendsWords e (command_of-SendsWords (words cmd) (words-AreWords cmd l.no_zero)) in
    record {
      held_alias = h;
      held = hs;
      are_words = are_words;
      no_zero = n;
      valid = v;
      short = short;
      room = omega (arith, room, used, x);
    }

toaddr_of_lem :
    (h : ℕ) (ps : List Peer) (p : Peer) → peer_at h ps ≡ some p → toaddr_of h ps ≡ p.toaddr
toaddr_of_lem h ps p e = rw (toaddr_of, get-peer_at h ps p [] [] e) refl

-- `execute_command` of a line that asks for a message to an alias which a peer of the table has,
-- active or not, with at most 16 words and with room in the scratch arena, whose room is free
-- again behind it, where the socket is connected: `connect` is given the address for messages of
-- that peer and no other, the message with the words behind the alias, one space between them,
-- goes out up to what the socket takes, and no descriptor is left open.
pub execute_command-sends :
    (known : Peers) (send_port : ℕ) (answers : Answers) (cmd alias w : List ℕ) (ws : List (List ℕ))
    (p : Peer) (a : Arena) {fd k hpeer : ℕ} {rest : List SendEvent} {z : Status}
    → Line cmd a
    → HasSendRoom cmd (w ∷ ws) a
    → command_of (words cmd) ≡ send alias (w ∷ ws)
    → find_peer_alias alias known.array.items ≡ some hpeer
    → peer_at hpeer known.array.items ≡ some p
    → Ends answers.opening (some fd) (fd ∷ [])
    → Waits
        (SelectEvent.ready true ∷ answers.selects)
        answers.sends
        (length (framed (chat_bytes (unwords (w ∷ ws)))))
        k
        z
        rest
    → (b : Arena) × (d : Delivery) × (execute_command known send_port answers cmd a
        ≡ ok (stay (tried_send p.toaddr d ∷ []), b))
      × (d.status ≡ z)
      × (d.wire ≡ take k (framed (chat_bytes (unwords (w ∷ ws)))))
      × (destinations d.log ≡ to_sock_addr p.toaddr ∷ [])
      × (open_after [] d.log ≡ [])
      × (b.pos ≡ a.pos)
execute_command-sends known send_port answers cmd alias w ws p a {hpeer = hpeer} l room e found at_h
      ends waits =
    let (b, tokens, f, hs, v, x, used) =
      tokenize_command_lem cmd a l.no_zero l.valid l.short l.few l.fits in
    let (s, j, g, h, hs') =
      subst
        (λ c.
          RunsAs known send_port answers tokens b c
            (exec_loop known send_port answers tokens tokens.items 0 exec_start b))
        e (exec_loop_lem known send_port answers tokens b 0 hs refl) in
    let r = sendable cmd a b l room e v x used h hs' in
    let (c, d, runs, status, wire, closed, there) =
      known_lem known.array.items send_port answers r found ends waits in
    let to : toaddr_of hpeer known.array.items ≡ p.toaddr =
      toaddr_of_lem hpeer known.array.items p at_h in
    let (a', done, same) =
      steps known send_port answers cmd tokens (stay (tried_send p.toaddr d ∷ [])) a b c f
        (g ∙ runs ∙ ap (λ t. ok (stay (tried_send t d ∷ []), c)) to) in
    (a', d, done, status, wire, there ∙ ap (λ t. to_sock_addr t ∷ []) to, closed, same)

-- Where no peer has the alias, the shell says so, and nothing is sent.
pub execute_command-unknown :
    (known : Peers) (send_port : ℕ) (answers : Answers) (cmd alias w : List ℕ) (ws : List (List ℕ))
    (a : Arena)
    → Line cmd a
    → HasSendRoom cmd (w ∷ ws) a
    → command_of (words cmd) ≡ send alias (w ∷ ws)
    → find_peer_alias alias known.array.items ≡ none
    → (b : Arena) × (execute_command known send_port answers cmd a
        ≡ ok (stay (not_online alias ∷ []), b))
      × (b.pos ≡ a.pos)
execute_command-unknown known send_port answers cmd alias w ws a l room e found =
    let (b, tokens, f, hs, v, x, used) =
      tokenize_command_lem cmd a l.no_zero l.valid l.short l.few l.fits in
    let (s, j, g, h, hs') =
      subst
        (λ c.
          RunsAs known send_port answers tokens b c
            (exec_loop known send_port answers tokens tokens.items 0 exec_start b))
        e (exec_loop_lem known send_port answers tokens b 0 hs refl) in
    let (c, runs) =
      unknown_lem known.array.items send_port answers (sendable cmd a b l room e v x used h hs')
        found in
    steps known send_port answers cmd tokens (stay (not_online alias ∷ [])) a b c f (g ∙ runs)
