-- ===== src/Client/Commands/Keywords.antt =====
-- The loop of `execute_command` follows the meaning of the words.
use tm.Base.{ℕ, ◌+◌, ◌<◌, ◌≡◌, refl, sym, ap, ◌∙◌, true}
use tm.Base.{Outcome, List, [], ◌∷◌, drop, drop-drop, ok}
use tm.Clib.Arena.{Arena, M, ◌>>=◌}
use tm.Clib.Array.{Array}
use tm.Clib.Str.{Str}
use tm.Clib.Str.Held.{Holds, text-Holds}
use tm.Clib.Str.AllHeld.{AllHold, none_held, one_held}
use tm.Tmcommon.Peers.{Peers}
use tm.Tmcommon.Peers.First.{print_peers_lem}
use tm.Client.Messages.{Answers}
use tm.Client.Commands.{
  printed_peers, printed_chattexts, Executed, stay, Keyword, leave_now, nothing_to_do, show_peers,
  show_chats, start_send, skip, exec_start, exec_send, exec_loop, send_chat, on_keyword,
}
use tm.Client.Commands.Meaning.{
  Command, nothing, quit, peers, chats, send, send_of, asks_for, command_of, meaning, keyword_lem,
}

module _ (known : Peers) (send_port : ℕ) (answers : Answers) (tokens : Array Str) (a : Arena) where
  -- What a run comes to, for each command: at `send`, the text is in the tokens from some index on.
  abbrev pub RunsAs : Command → Outcome (Executed × Arena) → Type 0
  RunsAs nothing r = r ≡ ok (stay [], a)
  RunsAs quit r = r ≡ ok (record { leave = true; log = [] }, a)
  RunsAs peers r = 0 < known.array.cap → r ≡ ok (stay (printed_peers ∷ []), a)
  RunsAs chats r = r ≡ ok (stay (printed_chattexts ∷ []), a)
  RunsAs (send alias ws) r =
      (s : Str) × (j : ℕ) × (r ≡ send_chat known.array.items send_port answers tokens j s a)
      × Holds a s alias
      × AllHold a (drop j tokens.items) ws

  next :
      (i : ℕ) (s : Str) (rest : List Str)
      → drop i tokens.items ≡ s ∷ rest
      → drop (i + 1) tokens.items ≡ rest
  next i s rest e = sym (drop-drop 1 i tokens.items) ∙ ap (drop 1) e

  sends_lem :
      (i : ℕ) {rest : List Str} {ws : List (List ℕ)}
      → AllHold a rest ws
      → drop i tokens.items ≡ rest
      → RunsAs (send_of ws) (exec_loop known send_port answers tokens rest i exec_send a)
  unfolding exec_loop
  sends_lem i none_held e = refl
  sends_lem i (one_held h none_held) e = refl
  sends_lem i (one_held {s} h (one_held {s = s'} {strs = ss} h' hs)) e =
      (s, i + 1, refl, h, rw (next i s (s' ∷ ss) e) (one_held h' hs))

  decides :
      (k : Keyword) (c d : Command) (m n : M Executed)
      → RunsAs c (m a)
      → RunsAs d (n a)
      → RunsAs (asks_for k c d) (on_keyword known k m n a)
  decides leave_now c d m n h g = refl
  decides nothing_to_do c d m n h g = refl
  decides show_peers c d m n h g = λ sc. rw (print_peers_lem known a sc, ◌>>=◌) refl
  decides show_chats c d m n h g = refl
  decides start_send c d m n h g = h
  decides skip c d m n h g = g

  pub exec_loop_lem :
      (i : ℕ) {rest : List Str} {ws : List (List ℕ)}
      → AllHold a rest ws
      → drop i tokens.items ≡ rest
      → RunsAs (command_of ws) (exec_loop known send_port answers tokens rest i exec_start a)
  unfolding exec_loop
  exec_loop_lem i none_held e = refl
  exec_loop_lem i (one_held {s} {w} {strs} {ws} h hs) e =
      rw (text-Holds a s w h, keyword_lem w)
        (decides (meaning w) (send_of ws) (command_of ws)
          (exec_loop known send_port answers tokens strs (i + 1) exec_send)
          (exec_loop known send_port answers tokens strs (i + 1) exec_start)
          (sends_lem (i + 1) hs (next i s strs e)) (exec_loop_lem (i + 1) hs (next i s strs e)))
