-- ===== src/Clib/Map/Laws.antt =====
-- `MapSet`, `MapGet` and `MapRemove` on a map where every key occurs once.
use tm.Base.{ℕ, zero, suc, ◌≤◌, ◌≢◌, ◌≡◌, refl, sym, ◌∙◌, ◌⊎◌, inl, inr, arith}
use tm.Base.{subst, List, [], ◌∷◌, ◌++◌, length, none, some}
use tm.Clib.Static.{cstr_equals_iff}
use tm.Clib.Map.{Map, overwrite, get, find, remove, remove_from, last, others}
use tm.Clib.Map.Pairs.{
  keys-cases, NoKey, Distinct, find-NoKey, NoKey-others, Distinct-others, find-others,
  remove_from-NoKey,
}

module _ {V : Type 0} where
  -- What `MapRemove` leaves.
  pub record Removed (k : List ℕ) (xs ys : List (List ℕ × V)) : Type 0 where
    pub gone : NoKey k ys
    pub kept : (l : List ℕ) → l ≢ k → find l ys ≡ find l xs
    pub distinct : Distinct ys
    pub fewer : (l : List ℕ) → NoKey l xs → NoKey l ys

  remove_last :
      (k : List ℕ) (x y : List ℕ × V) (ys : List (List ℕ × V))
      → x.0 ≡ k
      → Distinct (x ∷ y ∷ ys)
      → Removed k (x ∷ y ∷ ys) (last y ys ∷ others y ys)
  unfolding find
  remove_last k x y ys q (n, d) =
      let (a, b) = NoKey-others x.0 y ys n in
      let (c, e) = Distinct-others y ys d in
      record {
        gone = (λ r. b (r ∙ sym q), subst (λ t. NoKey t (others y ys)) q a);
        kept = λ l m. elim (keys-cases x.0 l) [
          | inl (f, r) ↦ absurd (m (sym r ∙ q))
          | inr (f, r) ↦ rw f (find-others l y ys d)
        ];
        distinct = (e, c);
        fewer = λ l (m, ms). let (u, w) = NoKey-others l y ys ms in (w, u);
      }

  remove_from-Removed :
      (fuel : ℕ) (k : List ℕ) (xs : List (List ℕ × V))
      → length xs ≤ fuel
      → Distinct xs
      → Removed k xs (remove_from fuel k xs)
  unfolding remove_from find
  remove_from-Removed zero k [] h d = record {
    gone = tt;
    kept = λ l m. refl;
    distinct = tt;
    fewer = λ l n. tt;
  }
  remove_from-Removed (suc fuel) k [] h d = record {
    gone = tt;
    kept = λ l m. refl;
    distinct = tt;
    fewer = λ l n. tt;
  }
  remove_from-Removed zero k (x ∷ xs) h d = absurd (omega arith)
  remove_from-Removed (suc fuel) k (x ∷ []) h d = elim (keys-cases x.0 k) [
    | inl (e, q) ↦ rw e (record {
      gone = tt;
      kept = λ l m. sym (find-NoKey l (x ∷ []) ((λ r. m (sym r ∙ q)), tt));
      distinct = tt;
      fewer = λ l n. tt;
    })
    | inr (e, q) ↦
        rw e (record { gone = (q, tt); kept = λ l m. refl; distinct = d; fewer = λ l n. n })
  ]
  remove_from-Removed (suc fuel) k (x ∷ y ∷ ys) h (n, d) = elim (keys-cases x.0 k) [
    | inl (e, q) ↦
        let (a, b) = NoKey-others x.0 y ys n in
        rw e (
          rw (remove_from-NoKey fuel k (others y ys) (subst (λ t. NoKey t (others y ys)) q a))
            (remove_last k x y ys q (n, d)))
    | inr (e, q) ↦
        let r = remove_from-Removed fuel k (y ∷ ys) (omega arith) d in
        rw e (record {
          gone = (q, r.gone);
          kept = λ l m. rw (r.kept l m);
          distinct = (r.fewer x.0 n, r.distinct);
          fewer = λ l (m, ms). (m, r.fewer l ms);
        })
  ]

  -- `MapRemove` on a map where every key occurs once: the key gives nothing any more, every
  -- other key gives what it gave, and every key still occurs once.
  pub remove_lem :
      (m : Map V) (k : List ℕ)
      → Distinct m.items
      → (get (remove m k) k ≡ none)
        × ((l : List ℕ) → l ≢ k → get (remove m k) l ≡ get m l)
        × Distinct (remove m k).items
  unfolding get remove
  remove_lem m k d =
      let r = remove_from-Removed (length m.items) k m.items (omega arith) d in
      (find-NoKey k _ r.gone, r.kept, r.distinct)

  -- What `MapSet` leaves.
  pub record Stored (k : List ℕ) (v : V) (xs ys : List (List ℕ × V)) : Type 0 where
    pub stored : find k ys ≡ some v
    pub same : (l : List ℕ) → l ≢ k → find l ys ≡ find l xs
    pub distinct : Distinct ys
    pub fewer : (l : List ℕ) → l ≢ k → NoKey l xs → NoKey l ys

  pub overwrite-cases :
      (k : List ℕ) (v : V) (xs : List (List ℕ × V))
      → Distinct xs
      → ((overwrite k v xs ≡ none) × NoKey k xs)
        ⊎ ((ys : List (List ℕ × V)) × (overwrite k v xs ≡ some ys) × Stored k v xs ys)
  unfolding overwrite find
  overwrite-cases k v [] d = inl (refl, tt)
  overwrite-cases k v (x ∷ xs) (n, d) = elim (keys-cases x.0 k) [
    | inl (e, q) ↦ inr (
      (x.0, v) ∷ xs,
      rw e,
      record {
        stored = rw e;
        same = λ l m. elim (keys-cases x.0 l) [
          | inl (f, r) ↦ absurd (m (sym r ∙ q))
          | inr (f, r) ↦ rw f
        ];
        distinct = (n, d);
        fewer = λ l m ns. ns;
      },
    )
    | inr (e, q) ↦ elim (overwrite-cases k v xs d) [
      | inl (f, ns) ↦ inl (rw e (rw f), (q, ns))
      | inr (ys, f, s) ↦ inr (
        x ∷ ys,
        rw e (rw f),
        record {
          stored = rw e s.stored;
          same = λ l m. rw (s.same l m);
          distinct = (s.fewer x.0 q n, s.distinct);
          fewer = λ l m (a, as_). (a, s.fewer l m as_);
        },
      )
    ]
  ]

  pub append-Stored :
      (k : List ℕ) (v : V) (xs : List (List ℕ × V))
      → NoKey k xs
      → Distinct xs
      → Stored k v xs (xs ++ ((k, v) ∷ []))
  unfolding find
  append-Stored k v [] n d = record {
    stored = rw ((cstr_equals_iff k k).1 refl);
    same = λ l m. find-NoKey l ((k, v) ∷ []) ((λ q. m (sym q)), tt);
    distinct = (tt, tt);
    fewer = λ l m ns. ((λ q. m (sym q)), tt);
  }
  append-Stored k v (x ∷ xs) (n, ns) (a, d) =
      let s = append-Stored k v xs ns d in
      elim (keys-cases x.0 k) [
        | inl (e, q) ↦ absurd (n q)
        | inr (e, q) ↦ record {
          stored = rw e s.stored;
          same = λ l m. rw (s.same l m);
          distinct = (s.fewer x.0 n a, s.distinct);
          fewer = λ l m (b, bs). (b, s.fewer l m bs);
        }
      ]
