-- ===== src/Client/Tokens/Words.antt =====
-- The words of a command line, without a tokenizer: the letters, digits and white space of the
-- line, cut at the white space.
use tm.Base.{ℕ, ◌≡◌, refl, sym, ap, ◌∙◌, arith, ◌||◌}
use tm.Base.{List, [], ◌∷◌, ◌++◌, append-nil, append_assoc, Bool-cases, inl, inr, if◌then◌else◌}
use tm.Base.{subst, length, ◌<◌}
use tm.Clib.Ctype.{is_alnum, is_space}
use tm.Clib.Static.{NoZero}

abbrev pub kept : List ℕ → List ℕ
kept [] = []
kept (c ∷ cs) = if is_alnum c || is_space c then c ∷ kept cs else kept cs

-- A character joins the first of the pieces.
abbrev pub join_first : List ℕ → List (List ℕ) → List (List ℕ)
join_first xs [] = xs ∷ []
join_first xs (p ∷ ps) = (xs ++ p) ∷ ps

abbrev pub pieces : List ℕ → List (List ℕ)
pieces [] = [] ∷ []
pieces (c ∷ cs) = if is_alnum c then join_first (c ∷ []) (pieces cs) else [] ∷ pieces cs

-- A piece is a word if it is not empty.
abbrev pub flush : List ℕ → List (List ℕ) → List (List ℕ)
flush [] ws = ws
flush (c ∷ cs) ws = (c ∷ cs) ∷ ws

abbrev pub nonempty : List (List ℕ) → List (List ℕ)
nonempty [] = []
nonempty (p ∷ ps) = flush p (nonempty ps)

abbrev pub words : List ℕ → List (List ℕ)
words cmd = nonempty (pieces (kept cmd))

-- The same from the left, where the word `xs` is begun.
abbrev pub words_from : List ℕ → List ℕ → List (List ℕ)
words_from xs [] = flush xs []
words_from xs (c ∷ cs) =
    if is_alnum c
    then words_from (xs ++ (c ∷ [])) cs
    else if is_space c
    then flush xs (words_from [] cs)
    else words_from xs cs

join_first-join_first :
    (xs ys : List ℕ) (ps : List (List ℕ))
    → join_first (xs ++ ys) ps ≡ join_first xs (join_first ys ps)
join_first-join_first xs ys [] = refl
join_first-join_first xs ys (p ∷ ps) = ap (λ t. t ∷ ps) (append_assoc xs ys p)

pieces-join_nil : (cs : List ℕ) → join_first [] (pieces cs) ≡ pieces cs
pieces-join_nil [] = refl
pieces-join_nil (c ∷ cs) = elim (Bool-cases (is_alnum c)) [
  | inl e ↦ rw e (sym (join_first-join_first [] (c ∷ []) (pieces cs)))
  | inr e ↦ rw e refl
]

words_from-pieces :
    (xs cs : List ℕ) → words_from xs cs ≡ nonempty (join_first xs (pieces (kept cs)))
words_from-pieces xs [] = ap (λ t. flush t []) (sym (append-nil xs))
words_from-pieces xs (c ∷ cs) = elim (Bool-cases (is_alnum c)) [
  | inl e ↦ rw e (
      rw e (
        words_from-pieces (xs ++ (c ∷ [])) cs
        ∙ ap nonempty (join_first-join_first xs (c ∷ []) (pieces (kept cs)))))
  | inr e ↦ elim (Bool-cases (is_space c)) [
    | inl f ↦
        rw (e, f)
          (rw e (
            rw (append-nil xs)
              (ap (flush xs) (words_from-pieces [] cs ∙ ap nonempty (pieces-join_nil (kept cs))))))
    | inr f ↦ rw (e, f) (words_from-pieces xs cs)
  ]
]

-- Both find the same words.
pub words_from-words : (cs : List ℕ) → words_from [] cs ≡ words cs
words_from-words cs = words_from-pieces [] cs ∙ ap nonempty (pieces-join_nil (kept cs))

-- The texts are not empty and have no zero byte.
abbrev pub AreWords : List (List ℕ) → Type 0
AreWords [] = Unit
AreWords (w ∷ ws) = NoZero w × (0 < length w) × AreWords ws

pub append-NoZero : (xs ys : List ℕ) → NoZero xs → NoZero ys → NoZero (xs ++ ys)
append-NoZero [] ys h k = k
append-NoZero (x ∷ xs) ys (n, h) k = (n, append-NoZero xs ys h k)

flush-AreWords :
    (xs : List ℕ) (ws : List (List ℕ)) → NoZero xs → AreWords ws → AreWords (flush xs ws)
flush-AreWords [] ws h k = k
flush-AreWords (x ∷ xs) ws h k = (h, omega arith, k)

words_from-AreWords : (xs cs : List ℕ) → NoZero xs → NoZero cs → AreWords (words_from xs cs)
words_from-AreWords xs [] h k = flush-AreWords xs [] h tt
words_from-AreWords xs (c ∷ cs) h (n, k) = elim (Bool-cases (is_alnum c)) [
  | inl e ↦ rw e (words_from-AreWords (xs ++ (c ∷ [])) cs (append-NoZero xs (c ∷ []) h (n, tt)) k)
  | inr e ↦ elim (Bool-cases (is_space c)) [
    | inl f ↦ rw (e, f) (flush-AreWords xs (words_from [] cs) h (words_from-AreWords [] cs tt k))
    | inr f ↦ rw (e, f) (words_from-AreWords xs cs h k)
  ]
]

pub words-AreWords : (cs : List ℕ) → NoZero cs → AreWords (words cs)
words-AreWords cs h = subst AreWords (words_from-words cs) (words_from-AreWords [] cs tt h)
