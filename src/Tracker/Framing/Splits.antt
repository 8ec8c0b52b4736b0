-- ===== src/Tracker/Framing/Splits.antt =====
-- How a stream of bytes is to be cut into messages, whatever pieces it comes in.
use tm.Base.{ℕ, zero, suc, ◌+◌, ◌-◌, ◌*◌, ◌/◌, ◌%◌, ◌^◌, ◌≤◌, ◌<◌, ◌≡◌, refl, sym, ap, subst}
use tm.Base.{arith, Bool, true, false, List, [], ◌∷◌, ◌++◌, length, append_assoc}
use tm.Base.{take, drop, take-append-drop, length-take}
use native.Mathlib.Decide.{dec_lt}
use tm.Cnet.Pack.Framed.{framed}

-- `Splits n xs msgs m rest closed`: from `xs`, where a message of `n` bytes is awaited, or its length
-- if `n` is 0, come the messages `msgs`, then `m` bytes are awaited and `rest` is left. A length of 0
-- closes the connection.
pub data Splits : ℕ → List ℕ → List (List ℕ) → ℕ → List ℕ → Bool → Type 0 where
  no_length : (xs : List ℕ) → length xs < 2 → Splits 0 xs [] 0 xs false
  closing : (xs : List ℕ) → Splits 0 (0 ∷ 0 ∷ xs) [] 0 (0 ∷ 0 ∷ xs) true
  header :
      (x y : ℕ) {xs : List ℕ} {msgs : List (List ℕ)} {m : ℕ} {rest : List ℕ} {closed : Bool}
      → x < 256
      → y < 256
      → 0 < x * 256 + y
      → Splits (x * 256 + y) xs msgs m rest closed
      → Splits 0 (x ∷ y ∷ xs) msgs m rest closed
  no_body : (n : ℕ) (xs : List ℕ) → length xs < n → Splits n xs [] n xs false
  body :
      (msg : List ℕ) {xs : List ℕ} {msgs : List (List ℕ)} {m : ℕ} {rest : List ℕ} {closed : Bool}
      → 0 < length msg
      → Splits 0 xs msgs m rest closed
      → Splits (length msg) (msg ++ xs) (msg ∷ msgs) m rest closed

-- However a stream is cut into pieces, the same messages come out: what is left of one piece, with the
-- next one behind it, goes on where the first ended.
pub Splits-append :
    {n m k : ℕ} {xs rest rest' : List ℕ} {msgs msgs' : List (List ℕ)} {closed : Bool} (ys : List ℕ)
    → Splits n xs msgs m rest false
    → Splits m (rest ++ ys) msgs' k rest' closed
    → Splits n (xs ++ ys) (msgs ++ msgs') k rest' closed
Splits-append ys (no_length xs h) t = t
Splits-append ys (header x y hx hy h s) t = header x y hx hy h (Splits-append ys s t)
Splits-append ys (no_body n xs h) t = t
Splits-append ys (body msg {xs = xs} h s) t =
    rw (append_assoc msg xs ys) (body msg h (Splits-append ys s t))

-- A stream of messages with their lengths in front.
abbrev pub stream : List (List ℕ) → List ℕ
stream [] = []
stream (msg ∷ msgs) = framed msg ++ stream msgs

-- Every message can be framed, and has a byte at least.
abbrev pub Framable : List (List ℕ) → Type 0
Framable [] = Unit
Framable (msg ∷ msgs) = (0 < length msg) × (length msg < 2 ^ 16) × Framable msgs

-- The messages that were framed come out.
pub Splits-stream : (msgs : List (List ℕ)) → Framable msgs → Splits 0 (stream msgs) msgs 0 [] false
Splits-stream [] f = no_length [] (omega arith)
Splits-stream (msg ∷ msgs) (h, l, f) =
    let n : ℕ = length msg in
    let e : n / 256 % 256 * 256 + n / 1 % 256 ≡ n = omega arith in
    header (n / 256 % 256) (n / 1 % 256) (omega arith) (omega arith) (omega (arith, e)) (
      subst (λ k. Splits k (msg ++ stream msgs) (msg ∷ msgs) 0 [] false) (sym e)
        (body msg h (Splits-stream msgs f)))

take-append_more :
    (xs ys : List ℕ) (i : ℕ)
    → length xs ≤ i
    → (take i (xs ++ ys) ≡ xs ++ take (i - length xs) ys)
      × (drop i (xs ++ ys) ≡ drop (i - length xs) ys)
take-append_more [] ys i h =
    let e : i ≡ i - 0 = omega arith in (ap (λ k. take k ys) e, ap (λ k. drop k ys) e)
take-append_more (x ∷ xs) ys zero h = absurd (omega arith)
take-append_more (x ∷ xs) ys (suc i) h =
    let (t, d) = take-append_more xs ys i (omega arith) in
    let e : suc i - suc (length xs) ≡ i - length xs = omega arith in (rw (e, t), rw (e, d))

-- A cut of a stream behind its first `i` bytes: what the first piece gives, and then the second.
pub record Cut (n i : ℕ) (xs : List ℕ) (msgs : List (List ℕ)) (k : ℕ) (rest' : List ℕ)
    : Type 0 where
  pub awaited : ℕ
  pub rest : List ℕ
  pub first : List (List ℕ)
  pub second : List (List ℕ)
  pub before : Splits n (take i xs) first awaited rest false
  pub after : Splits awaited (rest ++ drop i xs) second k rest' false
  pub whole : first ++ second ≡ msgs

Cut-early :
    (n i : ℕ) (xs : List ℕ) (msgs : List (List ℕ)) (k : ℕ) (rest' : List ℕ)
    → Splits n (take i xs) [] n (take i xs) false
    → Splits n xs msgs k rest' false
    → Cut n i xs msgs k rest'
Cut-early n i xs msgs k rest' s t = record {
  awaited = n;
  rest = take i xs;
  first = [];
  second = msgs;
  before = s;
  after = rw (take-append-drop i xs) t;
  whole = refl;
}

pub Splits-Cut :
    {n k : ℕ} {xs rest' : List ℕ} {msgs : List (List ℕ)}
    → Splits n xs msgs k rest' false
    → (i : ℕ) → Cut n i xs msgs k rest'
Splits-Cut (no_length xs h) i =
    Cut-early 0 i xs [] 0 xs (no_length (take i xs) (omega (arith, length-take i xs)))
      (no_length xs h)
Splits-Cut (no_body n xs h) i =
    Cut-early n i xs [] n xs (no_body n (take i xs) (omega (arith, length-take i xs)))
      (no_body n xs h)
Splits-Cut (header x y hx hy h s) zero =
    Cut-early 0 0 _ _ _ _ (no_length [] (omega arith)) (header x y hx hy h s)
Splits-Cut (header x y hx hy h s) (suc zero) =
    Cut-early 0 1 _ _ _ _ (no_length (x ∷ []) (omega arith)) (header x y hx hy h s)
Splits-Cut (header x y hx hy h s) (suc (suc i)) =
    let c = Splits-Cut s i in
    record {
      awaited = c.awaited;
      rest = c.rest;
      first = c.first;
      second = c.second;
      before = header x y hx hy h c.before;
      after = c.after;
      whole = c.whole;
    }
Splits-Cut (body msg {xs = xs} {msgs = msgs} {m = m} {rest = rest} h s) i =
    elim (dec_lt i (length msg)) [
      | yes l ↦
          Cut-early (length msg) i (msg ++ xs) (msg ∷ msgs) m rest
            (no_body (length msg) (take i (msg ++ xs)) (omega (arith, length-take i (msg ++ xs))))
            (body msg h s)
      | no l ↦
          let (t, d) = take-append_more msg xs i (omega arith) in
          let c = Splits-Cut s (i - length msg) in
          record {
            awaited = c.awaited;
            rest = c.rest;
            first = msg ∷ c.first;
            second = c.second;
            before = rw t (body msg h c.before);
            after = rw d c.after;
            whole = ap (λ l. msg ∷ l) c.whole;
          }
    ]
