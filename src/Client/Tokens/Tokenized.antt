-- ===== src/Client/Tokens/Tokenized.antt =====
-- `tokenize_command` finds the words of a command.
use tm.Base.{ℕ, zero, suc, ◌+◌, ◌≤◌, ◌<◌, ◌≡◌, refl, sym, ap, subst, arith, true, false, inl, inr}
use tm.Base.{List, [], ◌∷◌, ◌++◌, length, length-append, append-nil, append_assoc, ok, Bool-cases}
use tm.Clib.Arena.{Arena, ◌>>=◌}
use tm.Clib.Arena.Blocks.{IsValid, Extends, Extends-refl, Extends-trans}
use tm.Clib.Array
use tm.Clib.Array.{Array}
use tm.Clib.Array.Items.{array_new_lem}
use tm.Clib.Static.{NoZero}
use tm.Clib.Ctype.{is_alnum, is_space}
use tm.Clib.Str.{Str, new0}
use tm.Clib.Str.AllHeld.{AllHold, none_held, AllHold-Extends, AllHold-append, AllHold-length}
use tm.Client.Tokens.{
  Tokenizer, TokenizeState, tokenize_space, tokenize_step, tokenize_loop, tokenize_command,
  sizeof_string,
}
use tm.Client.Tokens.Words.{flush, words, words_from, words_from-words}
use tm.Client.Tokens.Step.{
  Begun, nothing, some_of, alnum_lem, other_lem, space_between, space_behind, end_between,
  end_behind,
}

-- The most that `n` characters take of the arena behind `k` characters of a word: each makes a new
-- block for the longer word and its zero byte.
abbrev pub room_for : ℕ → ℕ → ℕ
room_for zero k = 0
room_for (suc n) k = k + 2 + room_for n (suc k)

room_for-le : (n j k : ℕ) → j ≤ k → room_for n j ≤ room_for n k
room_for-le zero j k h = omega arith
room_for-le (suc n) j k h = omega (arith, room_for-le n (suc j) (suc k) (omega arith))

room_for-suc : (n j k : ℕ) → j ≤ suc k → room_for n j ≤ room_for (suc n) k
room_for-suc n j k h = omega (arith, room_for-le n j (suc k) h)

-- A run of the tokenizer that ends with the words `ws` and takes at most `n` bytes.
record Finds (a : Arena) (cmd : List ℕ) (t : Tokenizer) (ws : List (List ℕ)) (n : ℕ) : Type 0 where
  after : Arena
  out : Tokenizer
  runs : tokenize_loop cmd t a ≡ ok (out, after)
  held : AllHold after out.tokens.items ws
  valid : IsValid after
  extends : Extends a after
  used : after.pos ≤ a.pos + n

Finds-step :
    {a b : Arena} {ch : ℕ} {cmd : List ℕ} {t t' : Tokenizer} {ws : List (List ℕ)} {n m : ℕ}
    → tokenize_step ch t a ≡ ok (t', b)
    → Extends a b
    → b.pos + n ≤ a.pos + m
    → Finds b cmd t' ws n
    → Finds a (ch ∷ cmd) t ws m
unfolding tokenize_loop
Finds-step e x h f = record {
  after = f.after;
  out = f.out;
  runs = rw (e, ◌>>=◌) f.runs;
  held = f.held;
  valid = f.valid;
  extends = Extends-trans x f.extends;
  used = omega (arith, f.used);
}

Finds-end :
    {a : Arena} {ch : ℕ} {t t' : Tokenizer} {ws : List (List ℕ)}
    → IsValid a
    → tokenize_step ch t a ≡ ok (t', a)
    → AllHold a t'.tokens.items ws
    → Finds a (ch ∷ []) t ws 0
unfolding tokenize_loop
Finds-end {a} {t' = t'} v e h = record {
  after = a;
  out = t';
  runs = rw (e, ◌>>=◌);
  held = h;
  valid = v;
  extends = Extends-refl a;
  used = omega arith;
}

at_end :
    {a : Arena} {state : TokenizeState} {str : Str} {xs : List ℕ}
    → Begun a state str xs
    → (tokens : Array Str) (ws : List (List ℕ)) → AllHold a tokens.items ws
    → IsValid a
    → length ws + length (flush xs []) ≤ tokens.cap
    → Finds a
        (0 ∷ [])
        (record { tokens = tokens; state = state; token = str })
        (ws ++ flush xs [])
        0
at_end {a} nothing tokens ws hs v l = Finds-end v (end_between tokens a) (rw (append-nil ws) hs)
at_end {a} {str = str} (some_of h) tokens ws hs v l =
    Finds-end v (end_behind tokens str a (omega (arith, AllHold-length hs))) (AllHold-append hs h)

flush-append : (xs : List ℕ) (ws : List (List ℕ)) → flush xs ws ≡ flush xs [] ++ ws
flush-append [] ws = refl
flush-append (x ∷ xs) ws = refl

-- At white space, the word that is begun, if there is one, becomes a token.
space_lem :
    {a : Arena} {state : TokenizeState} {str : Str} {xs : List ℕ}
    → Begun a state str xs
    → (ch : ℕ) (tokens : Array Str) (ws more : List (List ℕ)) → AllHold a tokens.items ws
    → is_alnum ch ≡ false
    → is_space ch ≡ true
    → length ws + length (flush xs more) ≤ tokens.cap
    → (tokens' : Array Str) × (tokenize_step ch
          (record { tokens = tokens; state = state; token = str })
          a
        ≡ ok (record { tokens = tokens'; state = tokenize_space; token = new0 }, a))
      × AllHold a tokens'.items (ws ++ flush xs [])
      × (length (ws ++ flush xs []) + length more ≤ tokens'.cap)
space_lem {a} nothing ch tokens ws more hs e f l = (
  tokens,
  space_between ch tokens a e f,
  rw (append-nil ws) hs,
  omega (arith, length-append ws (flush [] [])),
)
space_lem {a} {str = str} {xs = xs} (some_of h) ch tokens ws more hs e f l = (
  record tokens { items = tokens.items ++ (str ∷ []) },
  space_behind ch tokens str a e f (omega (arith, AllHold-length hs)),
  AllHold-append hs h,
  omega (arith, length-append ws (xs ∷ [])),
)

finds :
    (cmd : List ℕ) {a : Arena} {state : TokenizeState} {str : Str} {xs : List ℕ}
    → Begun a state str xs
    → NoZero cmd
    → (tokens : Array Str) (ws : List (List ℕ)) → AllHold a tokens.items ws
    → IsValid a
    → length xs + length cmd + 1 ≤ 65535
    → length ws + length (words_from xs cmd) ≤ tokens.cap
    → a.pos + room_for (length cmd) (length xs) ≤ a.cap
    → Finds a
        (cmd ++ (0 ∷ []))
        (record { tokens = tokens; state = state; token = str })
        (ws ++ words_from xs cmd)
        (room_for (length cmd) (length xs))
finds [] {xs = xs} g nz tokens ws hs v short l fits = at_end g tokens ws hs v l
finds (c ∷ cmd) {a} {xs = xs} g (nz, nzs) tokens ws hs v short l fits =
    elim (Bool-cases (is_alnum c)) [
      | inl e ↦
          let (b, str', f, m, g') = alnum_lem g c tokens e v (omega arith) (omega arith) in
          let len : length (xs ++ (c ∷ [])) ≡ suc (length xs) =
            omega (arith, length-append xs (c ∷ [])) in
          let l' : length ws + length (words_from (xs ++ (c ∷ [])) cmd) ≤ tokens.cap =
            (rw e at l) in
          let used_by = ap (room_for (length cmd)) len in
          let room : b.pos + room_for (length cmd) (length (xs ++ (c ∷ []))) ≤ b.cap =
            rw len (omega (arith, m.taken, m.extends, len)) in
          rw e (
            Finds-step f m.extends (omega (arith, len, m.taken, used_by)) (
              finds cmd g' nzs tokens ws (AllHold-Extends m.extends hs) m.valid (omega (arith, len))
                l' room))
      | inr e ↦ elim (Bool-cases (is_space c)) [
        | inl f ↦
            let l' : length ws + length (flush xs (words_from [] cmd)) ≤ tokens.cap =
              (rw (e, f) at l) in
            let (tokens', runs, hs', l'') = space_lem g c tokens ws (words_from [] cmd) hs e f l' in
            let less = room_for-suc (length cmd) 0 (length xs) (omega arith) in
            rw
              (
                e,
                f,
                flush-append xs (words_from [] cmd),
                sym (append_assoc ws (flush xs []) (words_from [] cmd)),
              )
              (Finds-step runs (Extends-refl a) (omega (arith, less)) (
                finds cmd nothing nzs tokens' (ws ++ flush xs []) hs' v (omega arith) l''
                  (omega (arith, less))))
        | inr f ↦
            let l' : length ws + length (words_from xs cmd) ≤ tokens.cap = (rw (e, f) at l) in
            let less = room_for-suc (length cmd) (length xs) (length xs) (omega arith) in
            rw (e, f)
              (Finds-step (other_lem g c tokens e f nz) (Extends-refl a) (omega (arith, less))
                (finds cmd g nzs tokens ws hs v (omega arith) l' (omega (arith, less))))
      ]
    ]

starts :
    (cmd : List ℕ) (a b c : Arena) (tokens : Array Str) (t : Tokenizer)
    → Array.new 16 sizeof_string a ≡ ok (tokens, b)
    → tokenize_loop
        (cmd ++ (0 ∷ []))
        (record { tokens = tokens; state = tokenize_space; token = new0 })
        b
      ≡ ok (t, c)
    → tokenize_command cmd a ≡ ok (t.tokens, c)
unfolding tokenize_command
starts cmd a b c tokens t e f = rw (e, ◌>>=◌) (rw (f, ◌>>=◌))

-- `tokenize_command` of a command that has at most 16 words and is shorter than 65535 bytes,
-- with room for the array of tokens and for the copies that the words make as they grow: the
-- tokens are the words of the command, in order, each as a string with a zero byte behind it, no
-- more than that room is taken, and nothing that was handed out before changes.
pub tokenize_command_lem :
    (cmd : List ℕ) (a : Arena)
    → NoZero cmd
    → IsValid a
    → length cmd < 65535
    → length (words cmd) ≤ 16
    → a.pos + 384 + room_for (length cmd) 0 ≤ a.cap
    → (b : Arena) × (tokens : Array Str) × (tokenize_command cmd a ≡ ok (tokens, b))
      × AllHold b tokens.items (words cmd)
      × IsValid b
      × Extends a b
      × (b.pos ≤ a.pos + 384 + room_for (length cmd) 0)
tokenize_command_lem cmd a nz v short few fits =
    let empty : Array Str = record { items = []; itemsize = sizeof_string; cap = 16 } in
    let b : Arena = record a { pos = a.pos + 384 } in
    let vb : IsValid b = record { filled = v.filled; inside = omega arith; small = v.small } in
    let few' : 0 + length (words_from [] cmd) ≤ 16 =
      omega (arith, ap length (words_from-words cmd)) in
    let f = finds cmd {a = b} nothing nz empty [] none_held vb (omega arith) few' (omega arith) in
    let x : Extends a b = record { grows = omega arith; same_cap = refl; kept = refl } in
    (
      f.after,
      f.out.tokens,
      starts cmd a b f.after empty f.out
          (array_new_lem 16 sizeof_string a v (omega arith) (omega arith)) f.runs,
      subst (λ t. AllHold f.after f.out.tokens.items t) (words_from-words cmd) f.held,
      f.valid,
      Extends-trans x f.extends,
      omega (arith, f.used),
    )
