-- ===== src/Clib/Str/Search.antt =====
-- `StringSearch` finds the first occurrence, and `StringEquals` decides equality.
use tm.Base.{ℕ, ◌+◌, ◌-◌, ◌≤◌, ◌<◌, ◌≡◌, refl, sym, ap, subst, ◌∙◌, ◌↔◌, arith, true}
use tm.Base.{List, [], ◌∷◌, length, slice, take, drop, Option, none, some, Bool-cases, inl, inr}
use tm.Base.{drop-drop, drop-nil, take-nil, ==_iff, ne→==}
use native.Mathlib.Decide.{dec_lt, ℕ_discrete}
use tm.Clib.Str.{matches_here, search_from, search, same_bytes, equals}

-- `s` stands in `str` at index `i`.
abbrev pub OccursAt : List ℕ → List ℕ → ℕ → Type 0
OccursAt str s i = slice i (length s) str ≡ s

take-matches : (cs ks : List ℕ) → matches_here cs ks ≡ true → take (length ks) cs ≡ ks
unfolding matches_here
take-matches [] ks h = cc
take-matches (c ∷ cs) [] h = cc
take-matches (c ∷ cs) (k ∷ []) h = ground arith
take-matches (c ∷ cs) (k ∷ k' ∷ ks) h = ground (arith, take-matches cs (k' ∷ ks))

matches-take :
    (cs ks : List ℕ) → 0 < length ks → take (length ks) cs ≡ ks → matches_here cs ks ≡ true
unfolding matches_here
matches-take cs [] p h = absurd (omega arith)
matches-take [] (k ∷ ks) p h = cc
matches-take (c ∷ cs) (k ∷ []) p h = ground arith
matches-take (c ∷ cs) (k ∷ k' ∷ ks) p h = ground (arith, matches-take cs (k' ∷ ks) (omega arith))

-- What it means that a search from index `p` answers `r`: the first index from `p` on at which `s`
-- occurs, or that there is none.
abbrev pub FirstFrom : List ℕ → ℕ → List ℕ → Option ℕ → Type 0
FirstFrom str p s none = (m : ℕ) → p ≤ m → ¬ OccursAt str s m
FirstFrom str p s (some j) =
    (p ≤ j) × OccursAt str s j × ((m : ℕ) → p ≤ m → m < j → ¬ OccursAt str s m)

-- A search that goes on behind an index at which `s` does not occur.
FirstFrom-next :
    (str : List ℕ) (p : ℕ) (s : List ℕ) (r : Option ℕ)
    → ¬ OccursAt str s p
    → FirstFrom str (p + 1) s r
    → FirstFrom str p s r
FirstFrom-next str p s none np f = λ m l o. elim (dec_lt p m) [
  | yes k ↦ f m (omega arith) o
  | no k ↦ np (subst (OccursAt str s) (omega arith) o)
]
FirstFrom-next str p s (some j) np (l, o, f) = (
  omega arith,
  o,
  λ m k k' o'. elim (dec_lt p m) [
    | yes q ↦ f m (omega arith) k' o'
    | no q ↦ np (subst (OccursAt str s) (omega arith) o')
  ],
)

drop-later : (p m : ℕ) (str : List ℕ) → p ≤ m → drop m str ≡ drop (m - p) (drop p str)
drop-later p m str h = ap (λ t. drop t str) (omega arith) ∙ sym (drop-drop (m - p) p str)

not-OccursAt-nil :
    (str : List ℕ) (p m : ℕ) (s : List ℕ)
    → 0 < length s
    → drop p str ≡ []
    → p ≤ m
    → ¬ OccursAt str s m
not-OccursAt-nil str p m s h e l o =
    let z : drop m str ≡ [] =
      drop-later p m str l ∙ ap (drop (m - p)) e ∙ drop-nil (m - p) [] (omega arith) in
    let w : s ≡ [] = sym o ∙ ap (take (length s)) z ∙ take-nil (length s) in
    omega (arith, ap length w)

-- The loop over what is left of `str` from index `p` on.
search_from-FirstFrom :
    (str cs : List ℕ) (p : ℕ) (s : List ℕ)
    → 0 < length s
    → drop p str ≡ cs
    → FirstFrom str p s (search_from cs p s)
unfolding search_from
search_from-FirstFrom str [] p s h e = λ m l o. not-OccursAt-nil str p m s h e l o
search_from-FirstFrom str (c ∷ cs) p s h e = elim (Bool-cases (matches_here (c ∷ cs) s)) [
  | inl y ↦ rw y (omega arith, rw e (take-matches (c ∷ cs) s y), λ m l k o. absurd (omega arith))
  | inr n ↦ rw n (
      FirstFrom-next str p s (search_from cs (p + 1) s)
        (λ o. cc (n, matches-take (c ∷ cs) s h (ap (take (length s)) (sym e) ∙ o)))
        (search_from-FirstFrom str cs (p + 1) s h (sym (drop-drop 1 p str) ∙ ap (drop 1) e)))
]

-- `StringSearch` answers the first index from `startpos` on at which the search string occurs,
-- and -1 exactly if there is none, if the search string is not empty.
pub search_lem :
    (str : List ℕ) (startpos : ℕ) (s : List ℕ)
    → 0 < length s
    → FirstFrom str startpos s (search str startpos s)
unfolding search
search_lem str startpos s h = search_from-FirstFrom str (drop startpos str) startpos s h refl

-- An empty search string is never found.
search_from-nil : (cs : List ℕ) (i : ℕ) → search_from cs i [] ≡ none
unfolding search_from matches_here
search_from-nil [] i = refl
search_from-nil (c ∷ cs) i = search_from-nil cs (i + 1)

same_bytes_iff : (xs ys : List ℕ) → length xs ≡ length ys → (same_bytes xs ys ≡ true) ↔ (xs ≡ ys)
unfolding same_bytes
same_bytes_iff [] [] e = (λ h. refl, λ h. refl)
same_bytes_iff [] (y ∷ ys) e = absurd (omega arith)
same_bytes_iff (x ∷ xs) [] e = absurd (omega arith)
same_bytes_iff (x ∷ xs) (y ∷ ys) e = ground (arith, same_bytes_iff xs ys (omega arith))

-- `StringEquals` answers 1 exactly if the string's bytes are the C string's.
pub equals_iff : (xs ys : List ℕ) → (equals xs ys ≡ true) ↔ (xs ≡ ys)
unfolding equals
equals_iff xs ys = elim (ℕ_discrete (length xs) (length ys)) [
  | yes e ↦ rw ((==_iff (length xs) (length ys)).1 e) (same_bytes_iff xs ys e)
  | no n ↦ rw (ne→== (length xs) (length ys) n) (λ h. cc, λ h. absurd (n (ap length h)))
]
