-- ===== src/Client/Tokens.antt =====
-- tm.c, `tokenize_command` and `array_join_strings`: the words of a command line.
pub mod Words
pub mod Step
pub mod Tokenized
use tm.Base.{
  ℕ, suc, ◌+◌, ◌-◌, Bool, ◌&&◌, ◌||◌, List, [], ◌∷◌, ◌++◌, length, leb, ltb, ◌==◌, if◌then◌else◌,
}
use tm.Clib.Arena.{M, return, ◌>>=◌}
use tm.Clib.Array
use tm.Clib.Array.{Array}
use tm.Clib.Ctype.{is_alnum, is_space}
use tm.Clib.Str
use tm.Clib.Str.{Str, new0}

-- `enum TokenizeState`.
pub data TokenizeState : Type 0 where
  tokenize_start tokenize_space tokenize_char tokenize_eof : TokenizeState

-- The locals of `tokenize_command`.
pub record Tokenizer : Type 0 where
  pub tokens : Array Str
  pub state : TokenizeState
  pub token : Str

-- What is done with a character in `TOKENIZE_START` and in `TOKENIZE_SPACE`. A character that is
-- neither a letter, a digit, white space nor the end is passed over.
pub between : ℕ → Tokenizer → M Tokenizer
between ch t =
    if is_alnum ch
    then (do
      token ← Str.append_char t.token ch
      return (record t { state = tokenize_char; token = token }))
    else if is_space ch
    then return (record t { state = tokenize_space })
    else if ch == 0
    then return (record t { state = tokenize_eof })
    else return t

-- In `TOKENIZE_CHAR`.
pub inside : ℕ → Tokenizer → M Tokenizer
inside ch t =
    if is_alnum ch
    then (do
      token ← Str.append_char t.token ch
      return (record t { state = tokenize_char; token = token }))
    else if is_space ch
    then (do
      tokens ← Array.append t.tokens t.token
      return (record { tokens = tokens; state = tokenize_space; token = new0 }))
    else if ch == 0
    then (do
      tokens ← Array.append t.tokens t.token
      return (record t { tokens = tokens; state = tokenize_eof }))
    else return t

pub tokenize_step : ℕ → Tokenizer → M Tokenizer
tokenize_step ch t = elim t.state [
  | tokenize_start ↦ between ch t
  | tokenize_space ↦ between ch t
  | tokenize_char ↦ inside ch t
  | tokenize_eof ↦ return t
]

pub tokenize_loop : List ℕ → Tokenizer → M Tokenizer
tokenize_loop [] t = return t
tokenize_loop (ch ∷ cmd) t = do t' ← tokenize_step ch t; tokenize_loop cmd t'

-- `sizeof(String)`: two pointers and the count, with padding.
abbrev pub sizeof_string : ℕ
sizeof_string = 24

-- `tokenize_command`: the loop reads the zero byte behind the command too.
pub tokenize_command : List ℕ → M (Array Str)
tokenize_command cmd = do
  tokens ← Array.new 16 sizeof_string
  t ←
      tokenize_loop (cmd ++ (0 ∷ []))
        (record { tokens = tokens; state = tokenize_space; token = new0 })
  return t.tokens
