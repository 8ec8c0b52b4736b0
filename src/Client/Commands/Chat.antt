-- ===== src/Client/Commands/Chat.antt =====
-- `send_chat`: the text that is made of the tokens, and where it goes.
use tm.Base.{ℕ, suc, ◌+◌, ◌-◌, ◌*◌, ◌≤◌, ◌<◌, ◌≡◌, sym, subst, arith, ne→==, true}
use tm.Base.{
  List, [], ◌∷◌, ◌++◌, length, length-append, length-drop, take, take-all, append-nil, drop, none,
  some, ok,
}
use tm.Clib.Arena.{Arena, ◌>>=◌}
use tm.Clib.Arena.Blocks.{IsValid, in_copy_lem}
use tm.Clib.Array.{Array}
use tm.Clib.Static.{NoZero}
use tm.Clib.Str
use tm.Clib.Str.{Str, new0}
use tm.Clib.Str.Held.{Holds, Holds-Extends}
use tm.Clib.Str.AllHeld.{AllHold}
use tm.Clib.Str.CStr.{cstr-Holds}
use tm.Cnet.HostAddr.{to_sock_addr}
use tm.Cnet.Pack.{int, str}
use tm.Cnet.Pack.Bytes.{Encodes, big_endian}
use tm.Cnet.Pack.Bytes
use tm.Cnet.Pack.Framed.{framed}
use tm.Cnet.Stream.{Status, SendEvent, SelectEvent}
use tm.Cnet.Stream.Wait.{Waits}
use tm.Cnet.Connect.Closes.{Ends, open_after, destinations}
use tm.Tmcommon.Messages.{chattext, chattext_fmt}
use tm.Tmcommon.Peers.{Peer, find_peer_alias}
use tm.Client.Messages.{Answers, Delivery, connect_and_send_msg}
use tm.Client.Messages.Delivered.{connect_and_send_lem}
use tm.Client.Tokens.Words.{AreWords, append-NoZero}
use tm.Client.Join.{array_join_strings}
use tm.Client.Join.Joined.{unwords, join_room, array_join_strings_lem}
use tm.Client.Commands.{stay, tried_send, not_online, send_chat, toaddr_of}
use tm.Client.Commands.Meaning.{}

-- The bytes of a message with a text: its number, and the text behind its length.
abbrev pub chat_bytes : List ℕ → List ℕ
chat_bytes text = 5 ∷ big_endian 2 (length text) ++ text

chat-Encodes :
    (text : List ℕ)
    → length text < 65536
    → Encodes chattext_fmt (int chattext ∷ str text ∷ []) (chat_bytes text)
chat-Encodes text h =
    subst
      (λ t.
        Encodes chattext_fmt (int chattext ∷ str text ∷ []) (5 ∷ big_endian 2 (length text) ++ t))
      (append-nil text) (Bytes.byte chattext (Bytes.string text h Bytes.end))

module _ (known : List Peer) (send_port : ℕ) (answers : Answers) (tokens : Array Str) (j : ℕ)
    (s : Str) where
  unknown_runs :
      (text : Str) (alias : List ℕ) (a b : Arena)
      → array_join_strings tokens j (length tokens.items - 1) new0 a ≡ ok (text, b)
      → 0 < text.len
      → Str.cstr s b ≡ ok (alias, b)
      → find_peer_alias alias known ≡ none
      → send_chat known send_port answers tokens j s a ≡ ok (stay (not_online alias ∷ []), b)
  unfolding send_chat
  unknown_runs text alias a b e p f g =
      rw (e, ◌>>=◌) (rw (ne→== text.len 0 (omega arith)) (rw (f, ◌>>=◌) (rw g)))

  known_runs :
      (text : Str) (alias cs : List ℕ) (hpeer : ℕ) (d : Delivery) (a b c : Arena)
      → array_join_strings tokens j (length tokens.items - 1) new0 a ≡ ok (text, b)
      → 0 < text.len
      → Str.cstr s b ≡ ok (alias, b)
      → find_peer_alias alias known ≡ some hpeer
      → Str.cstr text b ≡ ok (cs, b)
      → connect_and_send_msg send_port
          (to_sock_addr (toaddr_of hpeer known))
          answers
          chattext_fmt
          (int chattext ∷ str cs ∷ [])
          b
        ≡ ok (d, c)
      → send_chat known send_port answers tokens j s a
        ≡ ok (stay (tried_send (toaddr_of hpeer known) d ∷ []), record c { pos = b.pos })
  unfolding send_chat
  known_runs text alias cs hpeer d a b c e p f g h k =
      rw (e, ◌>>=◌)
        (rw (ne→== text.len 0 (omega arith))
          (rw (f, ◌>>=◌) (rw g (rw (h, ◌>>=◌) (rw (in_copy_lem _ d b c k, ◌>>=◌))))))

-- Words that are there make a text that is not empty and has no zero byte.
unwords-NoZero : (ws : List (List ℕ)) → AreWords ws → NoZero (unwords ws)
unwords-NoZero [] h = tt
unwords-NoZero (w ∷ []) (n, p, h) = n
unwords-NoZero (w ∷ w' ∷ ws) (n, p, h) =
    append-NoZero w _ n (λ e. omega arith, unwords-NoZero (w' ∷ ws) h)

unwords-lt : (w : List ℕ) (ws : List (List ℕ)) → AreWords (w ∷ ws) → 0 < length (unwords (w ∷ ws))
unwords-lt w [] (n, p, h) = p
unwords-lt w (w' ∷ ws) (n, p, h) = omega (arith, length-append w (b' ' ∷ unwords (w' ∷ ws)))

-- What `array_join_strings` is asked for in `execute_command`: all tokens from index `j` on.
rest_AllHold :
    {a : Arena} (tokens : Array Str) (j : ℕ) {ws : List (List ℕ)}
    → AllHold a (drop j tokens.items) ws
    → AllHold a (take (suc (length tokens.items - 1) - j) (drop j tokens.items)) ws
rest_AllHold {a} tokens j {ws} h =
    let n : ℕ = suc (length tokens.items - 1) - j in
    let all = take-all n (drop j tokens.items) (omega (arith, length-drop j tokens.items)) in
    subst (λ t. AllHold a t ws) (sym all) h

-- A text of some words and its alias, in the arena, with room for what is made of them.
pub record Sendable (tokens : Array Str) (j : ℕ) (s : Str) (alias w : List ℕ) (ws : List (List ℕ))
    (a : Arena) : Type 0 where
  pub held_alias : Holds a s alias
  pub held : AllHold a (drop j tokens.items) (w ∷ ws)
  pub are_words : AreWords (w ∷ ws)
  pub no_zero : NoZero alias
  pub valid : IsValid a
  pub short : length (unwords (w ∷ ws)) < 60000
  pub room : a.pos + join_room 0 (w ∷ ws) + 257 + 4 * (length (unwords (w ∷ ws)) + 5) ≤ a.cap

module _ (known : List Peer) (send_port : ℕ) (answers : Answers) {tokens : Array Str} {j : ℕ}
    {s : Str} {alias w : List ℕ} {ws : List (List ℕ)} {a : Arena}
    (r : Sendable tokens j s alias w ws a) where
  abbrev text : List ℕ
  text = unwords (w ∷ ws)

  len_chat : length (chat_bytes text) ≡ length text + 3
  len_chat = omega arith

  -- `send_chat` where no peer has the alias.
  pub unknown_lem :
      find_peer_alias alias known ≡ none
      → (b : Arena) × (send_chat known send_port answers tokens j s a
          ≡ ok (stay (not_online alias ∷ []), b))
  unknown_lem e =
      let (b, out, f, h, v, x, used) =
        array_join_strings_lem tokens j (length tokens.items - 1) new0 (w ∷ ws) a
          (rest_AllHold tokens j r.held) r.are_words r.valid (omega (arith, r.short))
          (omega (arith, r.room)) in
      (
        b,
        unknown_runs known send_port answers tokens j s out alias a b f
            (omega (arith, h.len_eq, unwords-lt w ws r.are_words))
            (cstr-Holds s alias b (Holds-Extends x r.held_alias) r.no_zero) e,
      )

  -- `send_chat` to a peer that can be reached.
  pub known_lem :
      {fd k hpeer : ℕ} {rest : List SendEvent} {z : Status}
      → find_peer_alias alias known ≡ some hpeer
      → Ends answers.opening (some fd) (fd ∷ [])
      → Waits
          (SelectEvent.ready true ∷ answers.selects)
          answers.sends
          (length (framed (chat_bytes text)))
          k
          z
          rest
      → (b : Arena) × (d : Delivery) × (send_chat known send_port answers tokens j s a
          ≡ ok (stay (tried_send (toaddr_of hpeer known) d ∷ []), b))
        × (d.status ≡ z)
        × (d.wire ≡ take k (framed (chat_bytes text)))
        × (open_after [] d.log ≡ [])
        × (destinations d.log ≡ to_sock_addr (toaddr_of hpeer known) ∷ [])
  known_lem {hpeer = hpeer} e ends waits =
      let (b, out, f, h, v, x, used) =
        array_join_strings_lem tokens j (length tokens.items - 1) new0 (w ∷ ws) a
          (rest_AllHold tokens j r.held) r.are_words r.valid (omega (arith, r.short))
          (omega (arith, r.room)) in
      let (c, d, g, status, wire, outcome, closed, same, there) =
        connect_and_send_lem answers ends (chat-Encodes text (omega (arith, r.short))) waits
          send_port (to_sock_addr (toaddr_of hpeer known)) b
          (
            v,
            omega arith,
            omega (arith, r.short, len_chat),
            omega (arith, used, x, r.room, len_chat),
          ) in
      (
        record c { pos = b.pos },
        d,
        known_runs known send_port answers tokens j s out alias text hpeer d a b c f
            (omega (arith, h.len_eq, unwords-lt w ws r.are_words))
            (cstr-Holds s alias b (Holds-Extends x r.held_alias) r.no_zero) e
            (cstr-Holds out text b h (unwords-NoZero (w ∷ ws) r.are_words)) g,
        status,
        wire,
        closed,
        there,
      )
