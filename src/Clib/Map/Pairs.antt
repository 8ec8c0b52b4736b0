-- ===== src/Clib/Map/Pairs.antt =====
-- Lists of pairs where a key occurs once.
use tm.Base.{ℕ, zero, suc, ◌≢◌, ◌≡◌, refl, sym, ap, ◌∙◌, ◌⊎◌, inl, inr, true, false}
use tm.Base.{List, [], ◌∷◌, none, Bool-cases}
use tm.Clib.Static.{cstr_equals, cstr_equals_iff}
use tm.Clib.Map.{find, last, others, remove_from}

-- The two outcomes of a comparison of keys.
pub keys-cases :
    (k l : List ℕ) → ((cstr_equals k l ≡ true) × (k ≡ l)) ⊎ ((cstr_equals k l ≡ false) × (k ≢ l))
keys-cases k l = elim (Bool-cases (cstr_equals k l)) [
  | inl e ↦ inl (e, (cstr_equals_iff k l).0 e)
  | inr e ↦ inr (e, λ q. cc (e, (cstr_equals_iff k l).1 q))
]

module _ {V : Type 0} where
  abbrev pub NoKey : List ℕ → List (List ℕ × V) → Type 0
  NoKey k [] = Unit
  NoKey k (x ∷ xs) = (x.0 ≢ k) × NoKey k xs

  abbrev pub Distinct : List (List ℕ × V) → Type 0
  Distinct [] = Unit
  Distinct (x ∷ xs) = NoKey x.0 xs × Distinct xs

  pub find-NoKey : (k : List ℕ) (xs : List (List ℕ × V)) → NoKey k xs → find k xs ≡ none
  unfolding find
  find-NoKey k [] n = refl
  find-NoKey k (x ∷ xs) (n, ns) = elim (keys-cases x.0 k) [
    | inl (e, q) ↦ absurd (n q)
    | inr (e, q) ↦ rw e (find-NoKey k xs ns)
  ]

  -- The last pair and the others are the same pairs.
  pub NoKey-others :
      (k : List ℕ) (y : List ℕ × V) (ys : List (List ℕ × V))
      → NoKey k (y ∷ ys)
      → NoKey k (others y ys) × ((last y ys).0 ≢ k)
  NoKey-others k y [] (n, ns) = (tt, n)
  NoKey-others k y (z ∷ zs) (n, ns) = let (a, b) = NoKey-others k z zs ns in ((n, a), b)

  pub Distinct-others :
      (y : List ℕ × V) (ys : List (List ℕ × V))
      → Distinct (y ∷ ys)
      → Distinct (others y ys) × NoKey (last y ys).0 (others y ys)
  Distinct-others y [] d = (tt, tt)
  Distinct-others y (z ∷ zs) (n, d) =
      let (a, b) = Distinct-others z zs d in
      let (c, e) = NoKey-others y.0 z zs n in ((c, a), (λ q. e (sym q), b))

  pub find-others :
      (k : List ℕ) (y : List ℕ × V) (ys : List (List ℕ × V))
      → Distinct (y ∷ ys)
      → find k (last y ys ∷ others y ys) ≡ find k (y ∷ ys)
  unfolding find
  find-others k y [] d = refl
  find-others k y (z ∷ zs) (n, d) = elim (keys-cases y.0 k) [
    | inl (e, q) ↦ elim (keys-cases (last z zs).0 k) [
      | inl (f, r) ↦ absurd ((NoKey-others y.0 z zs n).1 (r ∙ sym q))
      | inr (f, r) ↦ rw (e, f)
    ]
    | inr (e, q) ↦ rw e (find-others k z zs d)
  ]

  -- Where no pair has the key, nothing is removed.
  pub remove_from-NoKey :
      (fuel : ℕ) (k : List ℕ) (xs : List (List ℕ × V)) → NoKey k xs → remove_from fuel k xs ≡ xs
  unfolding remove_from
  remove_from-NoKey zero k xs n = refl
  remove_from-NoKey (suc fuel) k [] n = refl
  remove_from-NoKey (suc fuel) k (x ∷ []) (n, ns) = elim (keys-cases x.0 k) [
    | inl (e, q) ↦ absurd (n q)
    | inr (e, q) ↦ rw e
  ]
  remove_from-NoKey (suc fuel) k (x ∷ y ∷ ys) (n, ns) = elim (keys-cases x.0 k) [
    | inl (e, q) ↦ absurd (n q)
    | inr (e, q) ↦ rw e (ap (λ t. x ∷ t) (remove_from-NoKey fuel k (y ∷ ys) ns))
  ]
