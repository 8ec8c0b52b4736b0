-- ===== src/Client/Commands/Meaning.antt =====
-- What the words of a command line ask for.
use tm.Base.{ℕ, ◌≡◌, refl, Bool, ◌||◌, if◌then◌else◌, drop, List, [], ◌∷◌}
use tm.Base.{same_word, same_word_iff, same_test, look_up, true, false}
use tm.Clib.Str
use tm.Clib.Str.Search.{equals_iff}
use tm.Client.Commands.{
  printed_peers, printed_chattexts, Executed, stay, Keyword, leave_now, nothing_to_do, show_peers,
  show_chats, start_send, skip, keyword,
}
use tm.Base.{Option, none, some}

pub data Command : Type 0 where
  nothing quit peers chats : Command
  send : List ℕ → List (List ℕ) → Command

-- Behind `send`: an alias, and at least one word of text.
abbrev pub send_of : List (List ℕ) → Command
send_of [] = nothing
send_of (alias ∷ []) = nothing
send_of (alias ∷ w ∷ ws) = send alias (w ∷ ws)

-- What a word asks for, with what it asks for where the words behind it are a message, and where
-- they are looked at in its place.
abbrev pub asks_for : Keyword → Command → Command → Command
asks_for leave_now sending going_on = quit
asks_for nothing_to_do sending going_on = nothing
asks_for show_peers sending going_on = peers
asks_for show_chats sending going_on = chats
asks_for start_send sending going_on = sending
asks_for skip sending going_on = going_on

-- The keywords. `knock` is one, and asks for nothing.
abbrev pub vocabulary : List (List ℕ × Keyword)
vocabulary =
    (b'q' ∷ b'u' ∷ b'i' ∷ b't' ∷ [], leave_now)
    ∷ (b'b' ∷ b'y' ∷ b'e' ∷ [], leave_now)
    ∷ (b'k' ∷ b'n' ∷ b'o' ∷ b'c' ∷ b'k' ∷ [], nothing_to_do)
    ∷ (b'p' ∷ b'e' ∷ b'e' ∷ b'r' ∷ b's' ∷ [], show_peers)
    ∷ (b'c' ∷ b'h' ∷ b'a' ∷ b't' ∷ b's' ∷ [], show_chats)
    ∷ (b's' ∷ b'e' ∷ b'n' ∷ b'd' ∷ [], start_send)
    ∷ []

abbrev pub meaning : List ℕ → Keyword
meaning = look_up skip vocabulary

equals-same : (word w : List ℕ) → Str.equals word w ≡ same_word word w
equals-same word w =
    same_test (Str.equals word w) (same_word word w) (equals_iff word w) (same_word_iff word w)

either :
    {K : Type 0} (a b : Bool) (x y : K)
    → (if a || b then x else y) ≡ (if a then x else if b then x else y)
either true b x y = refl
either false b x y = refl

-- The tests of `execute_command` know these words, and no others.
pub keyword_lem : (word : List ℕ) → keyword word ≡ meaning word
unfolding keyword
keyword_lem word =
    rw
      (
        equals-same word (b'q' ∷ b'u' ∷ b'i' ∷ b't' ∷ []),
        equals-same word (b'b' ∷ b'y' ∷ b'e' ∷ []),
        equals-same word (b'k' ∷ b'n' ∷ b'o' ∷ b'c' ∷ b'k' ∷ []),
        equals-same word (b'p' ∷ b'e' ∷ b'e' ∷ b'r' ∷ b's' ∷ []),
        equals-same word (b'c' ∷ b'h' ∷ b'a' ∷ b't' ∷ b's' ∷ []),
        equals-same word (b's' ∷ b'e' ∷ b'n' ∷ b'd' ∷ []),
      )
      (either (same_word word (b'q' ∷ b'u' ∷ b'i' ∷ b't' ∷ []))
        (same_word word (b'b' ∷ b'y' ∷ b'e' ∷ [])) leave_now
        (look_up skip (drop 2 vocabulary) word))

-- The first word that is a keyword decides, whatever stands before it.
abbrev pub command_of : List (List ℕ) → Command
command_of [] = nothing
command_of (w ∷ ws) = asks_for (meaning w) (send_of ws) (command_of ws)

-- What is done for a command that sends nothing.
abbrev pub answer : Command → Option Executed
answer nothing = some (stay [])
answer quit = some (record { leave = true; log = [] })
answer peers = some (stay (printed_peers ∷ []))
answer chats = some (stay (printed_chattexts ∷ []))
answer (send alias ws) = none
