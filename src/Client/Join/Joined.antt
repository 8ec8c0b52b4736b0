-- ===== src/Client/Join/Joined.antt =====
-- The text that `array_join_strings` makes.
use tm.Base.{ℕ, suc, ◌+◌, ◌-◌, ◌≤◌, ◌≡◌, refl, ap, ◌∙◌, arith, subst}
use tm.Base.{List, [], ◌∷◌, ◌++◌, length, length-append, append-nil, append_assoc, take, drop, ok}
use tm.Clib.Arena.{Arena, ◌>>=◌}
use tm.Clib.Arena.Blocks.{IsValid, Extends, Extends-refl, Extends-trans}
use tm.Clib.Array.{Array}
use tm.Clib.Str
use tm.Clib.Str.{Str}
use tm.Clib.Str.Held.{Holds, assign_lem, str_append_lem}
use tm.Clib.Str.AllHeld.{AllHold, none_held, one_held, AllHold-Extends}
use tm.Clib.Str.CStr.{cstr-Holds}
use tm.Client.Tokens.Words.{AreWords}
use tm.Client.Join.{join_loop, array_join_strings}

-- The words with one space between them.
abbrev pub unwords : List (List ℕ) → List ℕ
unwords [] = []
unwords (w ∷ []) = w
unwords (w ∷ w' ∷ ws) = w ++ (b' ' ∷ unwords (w' ∷ ws))

-- What the copies take that the loop makes behind `n` characters.
abbrev pub join_room : ℕ → List (List ℕ) → ℕ
join_room n [] = 0
join_room n (w ∷ []) = n + length w + 1
join_room n (w ∷ w' ∷ ws) =
    n + length w + 1 + (n + length w + 2) + join_room (n + length w + 1) (w' ∷ ws)

-- A string that was made from one that holds `xs`.
record Joins (a : Arena) (strs : List Str) (str : Str) (xs : List ℕ) (n : ℕ) : Type 0 where
  pub after : Arena
  pub out : Str
  pub runs : join_loop strs str a ≡ ok (out, after)
  pub valid : IsValid after
  pub extends : Extends a after
  pub holds : Holds after out xs
  pub used : after.pos ≤ a.pos + n

one_runs :
    (s str x : Str) (w : List ℕ) (a b : Arena)
    → Str.cstr s a ≡ ok (w, a)
    → Str.append str w a ≡ ok (x, b)
    → join_loop (s ∷ []) str a ≡ ok (x, b)
unfolding join_loop
one_runs s str x w a b e f = rw (e, ◌>>=◌) f

more_runs :
    (s s' str x y : Str) (strs : List Str) (w : List ℕ) (a b c : Arena)
    → Str.cstr s a ≡ ok (w, a)
    → Str.append str w a ≡ ok (x, b)
    → Str.append x (b' ' ∷ []) b ≡ ok (y, c)
    → join_loop (s ∷ s' ∷ strs) str a ≡ join_loop (s' ∷ strs) y c
unfolding join_loop
more_runs s s' str x y strs w a b c e f g = rw (e, ◌>>=◌) (rw (f, ◌>>=◌) (rw (g, ◌>>=◌)))

joins :
    (ws : List (List ℕ)) {strs : List Str} {a : Arena}
    → AllHold a strs ws
    → AreWords ws
    → (str : Str) (xs : List ℕ) → IsValid a
    → Holds a str xs
    → length xs + length (unwords ws) + 1 ≤ 65535
    → a.pos + join_room (length xs) ws ≤ a.cap
    → Joins a strs str (xs ++ unwords ws) (join_room (length xs) ws)
unfolding join_loop
joins [] {a = a} none_held nz str xs v h short fits = record {
  after = a;
  out = str;
  runs = refl;
  valid = v;
  extends = Extends-refl a;
  holds = rw (append-nil xs) h;
  used = omega arith;
}
joins (w ∷ []) {a = a} (one_held {s} g none_held) (nz, p, nzs) str xs v h short fits =
    let (b, x, e, m) = str_append_lem str xs w a v h (omega arith) (omega arith) in
    record {
      after = b;
      out = x;
      runs = one_runs s str x w a b (cstr-Holds s w a g nz) e;
      valid = m.valid;
      extends = m.extends;
      holds = m.holds;
      used = omega (arith, m.taken, length-append xs w);
    }
joins (w ∷ w' ∷ ws) {a = a} (one_held {s} g (one_held {s = s'} {strs = ss} g' gs)) (nz, p, nzs) str
      xs v h short fits =
    let rest : List ℕ = unwords (w' ∷ ws) in
    let len : length (xs ++ w) ≡ length xs + length w = length-append xs w in
    let len' : length ((xs ++ w) ++ (b' ' ∷ [])) ≡ length xs + length w + 1 =
      omega (arith, len, length-append (xs ++ w) (b' ' ∷ [])) in
    let all : length (w ++ (b' ' ∷ rest)) ≡ length w + suc (length rest) =
      length-append w (b' ' ∷ rest) in
    let (b, x, e, m) = str_append_lem str xs w a v h (omega (arith, all)) (omega arith) in
    let (c, y, f, m') =
      str_append_lem x (xs ++ w) (b' ' ∷ []) b m.valid m.holds (omega (arith, all, len))
        (omega (arith, m.taken, m.extends, len)) in
    let ext : Extends a c = Extends-trans m.extends m'.extends in
    let pos_eq : c.pos ≡ a.pos + (length xs + length w + 1) + (length xs + length w + 2) =
      omega (arith, m.taken, m'.taken, len, len') in
    let same = ap (λ n. join_room n (w' ∷ ws)) len' in
    let j =
      joins (w' ∷ ws) (AllHold-Extends ext (one_held g' gs)) nzs y ((xs ++ w) ++ (b' ' ∷ []))
        m'.valid m'.holds (omega (arith, all, len')) (omega (arith, pos_eq, same, ext)) in
    record {
      after = j.after;
      out = j.out;
      runs = more_runs s s' str x y ss w a b c (cstr-Holds s w a g nz) e f ∙ j.runs;
      valid = j.valid;
      extends = Extends-trans ext j.extends;
      holds =
          subst (λ t. Holds j.after j.out t)
            (append_assoc (xs ++ w) (b' ' ∷ []) rest ∙ append_assoc xs w (b' ' ∷ rest)) j.holds;
      used = omega (arith, j.used, pos_eq, same);
    }

starts :
    (strs : Array Str) (istart iend : ℕ) (outstr : Str) (x y : Str) (a b c : Arena)
    → Str.assign outstr [] a ≡ ok (x, b)
    → join_loop (take (suc iend - istart) (drop istart strs.items)) x b ≡ ok (y, c)
    → array_join_strings strs istart iend outstr a ≡ ok (y, c)
unfolding array_join_strings
starts strs istart iend outstr x y a b c e f = rw (e, ◌>>=◌) f

-- `array_join_strings` with room for its copies, where the strings from index `istart` to
-- `iend`, or to the last, hold `ws`, which are not empty, have no zero byte and make a text
-- shorter than 65535 bytes: the result is `ws` with one space between them, no more than the
-- room is taken, and nothing that was handed out before changes.
pub array_join_strings_lem :
    (strs : Array Str) (istart iend : ℕ) (outstr : Str) (ws : List (List ℕ)) (a : Arena)
    → AllHold a (take (suc iend - istart) (drop istart strs.items)) ws
    → AreWords ws
    → IsValid a
    → length (unwords ws) + 1 ≤ 65535
    → a.pos + 1 + join_room 0 ws ≤ a.cap
    → (b : Arena) × (out : Str) × (array_join_strings strs istart iend outstr a ≡ ok (out, b))
      × Holds b out (unwords ws)
      × IsValid b
      × Extends a b
      × (b.pos ≤ a.pos + 1 + join_room 0 ws)
array_join_strings_lem strs istart iend outstr ws a hs nz v short fits =
    let (b, x, e, m) = assign_lem outstr [] a v (omega arith) (omega arith) in
    let j =
      joins ws (AllHold-Extends m.extends hs) nz x [] m.valid m.holds (omega arith)
        (omega (arith, m.taken, m.extends)) in
    (
      j.after,
      j.out,
      starts strs istart iend outstr x j.out a b j.after e j.runs,
      j.holds,
      j.valid,
      Extends-trans m.extends j.extends,
      omega (arith, m.taken, j.used),
    )
