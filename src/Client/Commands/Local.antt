-- ===== src/Client/Commands/Local.antt =====
-- `execute_command` of a line that has no message to send.
use tm.Base.{ℕ, suc, ◌+◌, ◌≤◌, ◌<◌, ◌≡◌, refl, ◌∙◌, arith, ne→==}
use tm.Base.{List, [], ◌∷◌, length, some, ok, ◌==◌, if◌then◌else◌}
use tm.Clib.Arena.{Arena, ◌>>=◌, return}
use tm.Clib.Arena.Blocks.{IsValid, in_copy_lem}
use tm.Clib.Array.{Array}
use tm.Clib.Static.{NoZero}
use tm.Clib.Str.{Str}
use tm.Tmcommon.Peers.{Peers}
use tm.Client.Messages.{Answers}
use tm.Client.Tokens.{tokenize_command}
use tm.Client.Tokens.Words.{words}
use tm.Client.Tokens.Tokenized.{room_for, tokenize_command_lem}
use tm.Client.Commands.{Executed, exec_start, exec_loop, execute_command, stay}
use tm.Client.Commands.Meaning.{Command, nothing, quit, peers, chats, send, command_of, answer}
use tm.Client.Commands.Keywords.{RunsAs, exec_loop_lem}

-- What is asked of a command and of the scratch arena.
pub record Line (cmd : List ℕ) (a : Arena) : Type 0 where
  pub no_zero : NoZero cmd
  pub valid : IsValid a
  pub short : length cmd < 65535
  pub few : length (words cmd) ≤ 16
  pub fits : a.pos + 384 + room_for (length cmd) 0 ≤ a.cap

-- The two steps of `execute_command`.
skip_empty :
    (known : Peers) (send_port : ℕ) (answers : Answers) (tokens : Array Str) (strs : List Str)
    (b : Arena)
    → (if length strs == 0
          then return (stay [])
          else exec_loop known send_port answers tokens strs 0 exec_start)
        b
      ≡ exec_loop known send_port answers tokens strs 0 exec_start b
unfolding exec_loop
skip_empty known send_port answers tokens [] b = refl
skip_empty known send_port answers tokens (s ∷ strs) b =
    rw (ne→== (suc (length strs)) 0 (omega arith)) refl

pub steps :
    (known : Peers) (send_port : ℕ) (answers : Answers) (cmd : List ℕ) (tokens : Array Str)
    (r : Executed) (a b c : Arena)
    → tokenize_command cmd a ≡ ok (tokens, b)
    → exec_loop known send_port answers tokens tokens.items 0 exec_start b ≡ ok (r, c)
    → (d : Arena) × (execute_command known send_port answers cmd a ≡ ok (r, d)) × (d.pos ≡ a.pos)
unfolding execute_command
steps known send_port answers cmd tokens r a b c e f = (
  record c { pos = a.pos },
  in_copy_lem _ r a c
      (rw (e, ◌>>=◌) (skip_empty known send_port answers tokens tokens.items b ∙ f)),
  refl,
)

answers_local :
    (known : Peers) (send_port : ℕ) (answers : Answers) (tokens : Array Str) (a : Arena)
    (c : Command) (r : Executed) (x : _)
    → answer c ≡ some r
    → (c ≡ peers → 0 < known.array.cap)
    → RunsAs known send_port answers tokens a c x
    → x ≡ ok (r, a)
answers_local known send_port answers tokens a nothing r x e sc h = cc
answers_local known send_port answers tokens a quit r x e sc h = cc
answers_local known send_port answers tokens a peers r x e sc h = let f = h (sc refl) in cc
answers_local known send_port answers tokens a chats r x e sc h = cc
answers_local known send_port answers tokens a (send alias ws) r x e sc h = cc

-- `execute_command` of a line that has no message to send, with at most 16 words and with room
-- for them in the scratch arena, whose room is free again behind it: the first keyword decides.
-- It is left for `quit` and `bye`, the peers, if their table was made, or the texts are printed
-- for `peers` and `chats`, and nothing is done for `knock`, for `send` without an alias or a
-- text, and without a keyword.
pub execute_command_lem :
    (known : Peers) (send_port : ℕ) (answers : Answers) (cmd : List ℕ) (r : Executed) (a : Arena)
    → Line cmd a
    → answer (command_of (words cmd)) ≡ some r
    → (command_of (words cmd) ≡ peers → 0 < known.array.cap)
    → (b : Arena) × (execute_command known send_port answers cmd a ≡ ok (r, b)) × (b.pos ≡ a.pos)
execute_command_lem known send_port answers cmd r a l e sc =
    let (b, tokens, f, hs, v, x, used) =
      tokenize_command_lem cmd a l.no_zero l.valid l.short l.few l.fits in
    let g = exec_loop_lem known send_port answers tokens b 0 hs refl in
    steps known send_port answers cmd tokens r a b b f
      (answers_local known send_port answers tokens b (command_of (words cmd)) r _ e sc g)
