-- ===== src/Client/Tokens/Step.antt =====
-- What one character does to the tokenizer.
use tm.Base.{ℕ, ◌+◌, ◌≤◌, ◌<◌, ◌≡◌, ◌≢◌, refl, arith, true, false}
use tm.Base.{List, [], ◌∷◌, ◌++◌, length, ok, ne→==}
use tm.Clib.Arena.{Arena, ◌>>=◌}
use tm.Clib.Arena.Blocks.{IsValid}
use tm.Clib.Array.{Array}
use tm.Clib.Array.Items.{append_room}
use tm.Clib.Ctype.{is_alnum, is_space}
use tm.Clib.Str
use tm.Clib.Str.{Str, new0}
use tm.Clib.Str.Held.{Holds, Made, str_append_lem, append_new0_lem, append_char-append}
use tm.Client.Tokens.{
  Tokenizer, TokenizeState, tokenize_space, tokenize_char, tokenize_eof, between, inside,
  tokenize_step,
}

-- The word `xs` that the tokenizer has begun, and the state that goes with it.
pub data Begun (a : Arena) : TokenizeState → Str → List ℕ → Type 0 where
  nothing : Begun a tokenize_space new0 []
  some_of :
      {str : Str} {c : ℕ} {cs : List ℕ} → Holds a str (c ∷ cs) → Begun a tokenize_char str (c ∷ cs)

pub alnum_char : (ch : ℕ) → is_alnum ch ≡ true → ch ≢ 0
unfolding is_alnum
alnum_char ch e = ground arith

-- `StringAppendChar` on the token.
added :
    {a : Arena} {state : TokenizeState} {str : Str} {xs : List ℕ}
    → Begun a state str xs
    → (ch : ℕ) → ch ≢ 0
    → IsValid a
    → length xs + 2 ≤ 65535
    → a.pos + (length xs + 2) ≤ a.cap
    → (b : Arena) × (str' : Str) × (Str.append_char str ch a ≡ ok (str', b))
      × Made a (xs ++ (ch ∷ [])) b str'
added {a} nothing ch nz v short fits =
    rw (append_char-append new0 ch nz) (append_new0_lem (ch ∷ []) a v (omega arith) (omega arith))
added {a} {str = str} {xs = xs} (some_of h) ch nz v short fits =
    rw (append_char-append str ch nz)
      (str_append_lem str xs (ch ∷ []) a v h (omega arith) (omega arith))

Begun-append :
    {b : Arena} {str : Str} (xs : List ℕ) (ch : ℕ)
    → Holds b str (xs ++ (ch ∷ []))
    → Begun b tokenize_char str (xs ++ (ch ∷ []))
Begun-append [] ch h = some_of h
Begun-append (x ∷ xs) ch h = some_of h

-- A letter or digit is put behind the word.
alnum_runs :
    {a : Arena} {state : TokenizeState} {str : Str} {xs : List ℕ}
    → Begun a state str xs
    → (ch : ℕ) (tokens : Array Str) (str' : Str) (b : Arena) → is_alnum ch ≡ true
    → Str.append_char str ch a ≡ ok (str', b)
    → tokenize_step ch (record { tokens = tokens; state = state; token = str }) a
      ≡ ok (record { tokens = tokens; state = tokenize_char; token = str' }, b)
unfolding tokenize_step between inside
alnum_runs nothing ch tokens str' b e f = rw e (rw (f, ◌>>=◌))
alnum_runs (some_of h) ch tokens str' b e f = rw e (rw (f, ◌>>=◌))

pub alnum_lem :
    {a : Arena} {state : TokenizeState} {str : Str} {xs : List ℕ}
    → Begun a state str xs
    → (ch : ℕ) (tokens : Array Str) → is_alnum ch ≡ true
    → IsValid a
    → length xs + 2 ≤ 65535
    → a.pos + (length xs + 2) ≤ a.cap
    → (b : Arena) × (str' : Str) × (tokenize_step ch
          (record { tokens = tokens; state = state; token = str })
          a
        ≡ ok (record { tokens = tokens; state = tokenize_char; token = str' }, b))
      × Made a (xs ++ (ch ∷ [])) b str'
      × Begun b tokenize_char str' (xs ++ (ch ∷ []))
alnum_lem {xs = xs} g ch tokens e v short fits =
    let (b, str', f, m) = added g ch (alnum_char ch e) v short fits in
    (b, str', alnum_runs g ch tokens str' b e f, m, Begun-append xs ch m.holds)

-- A character of no kind changes nothing.
pub other_lem :
    {a : Arena} {state : TokenizeState} {str : Str} {xs : List ℕ}
    → Begun a state str xs
    → (ch : ℕ) (tokens : Array Str) → is_alnum ch ≡ false
    → is_space ch ≡ false
    → ch ≢ 0
    → let t : Tokenizer = record { tokens = tokens; state = state; token = str } in
      tokenize_step ch t a ≡ ok (t, a)
unfolding tokenize_step between inside
other_lem nothing ch tokens e f nz = rw (e, f, ne→== ch 0 nz)
other_lem (some_of h) ch tokens e f nz = rw (e, f, ne→== ch 0 nz)

-- White space where no word is begun, and behind a word, which becomes a token.
pub space_between :
    (ch : ℕ) (tokens : Array Str) (a : Arena)
    → is_alnum ch ≡ false
    → is_space ch ≡ true
    → let t : Tokenizer = record { tokens = tokens; state = tokenize_space; token = new0 } in
      tokenize_step ch t a ≡ ok (t, a)
unfolding tokenize_step between
space_between ch tokens a e f = rw (e, f)

pub space_behind :
    (ch : ℕ) (tokens : Array Str) (str : Str) (a : Arena)
    → is_alnum ch ≡ false
    → is_space ch ≡ true
    → length tokens.items < tokens.cap
    → tokenize_step ch (record { tokens = tokens; state = tokenize_char; token = str }) a
      ≡ ok (
        record {
          tokens = record tokens { items = tokens.items ++ (str ∷ []) };
          state = tokenize_space;
          token = new0;
        },
        a,
      )
unfolding tokenize_step inside
space_behind ch tokens str a e f l = rw (e, f) (rw (append_room tokens str a l, ◌>>=◌))

-- The zero byte behind the command ends a word too.
pub end_between :
    (tokens : Array Str) (a : Arena)
    → tokenize_step 0 (record { tokens = tokens; state = tokenize_space; token = new0 }) a
      ≡ ok (record { tokens = tokens; state = tokenize_eof; token = new0 }, a)
unfolding tokenize_step between is_alnum is_space
end_between tokens a = refl

pub end_behind :
    (tokens : Array Str) (str : Str) (a : Arena)
    → length tokens.items < tokens.cap
    → tokenize_step 0 (record { tokens = tokens; state = tokenize_char; token = str }) a
      ≡ ok (
        record {
          tokens = record tokens { items = tokens.items ++ (str ∷ []) };
          state = tokenize_eof;
          token = str;
        },
        a,
      )
unfolding tokenize_step inside is_alnum is_space
end_behind tokens str a l = rw (append_room tokens str a l, ◌>>=◌)
