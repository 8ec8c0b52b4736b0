-- ===== src/Clib/Map/Set.antt =====
-- `MapSet` in an arena with room.
use tm.Base.{ℕ, ◌+◌, ◌*◌, ◌%◌, ◌^◌, ◌≤◌, ◌<◌, ◌≢◌, ◌≡◌, refl, subst, ◌⊎◌, inl, inr, arith}
use tm.Base.{List, [], ◌∷◌, ◌++◌, length, length-append, none, some, ok}
use tm.Base.{le→leb, lt→ltb, ne→==, ==_iff}
use native.Mathlib.Decide.{dec_lt}
use tm.Clib.Arena.{Arena, push_bytes, ◌>>=◌}
use tm.Clib.Arena.Blocks.{
  IsValid, Extends, Extends-refl, Extends-trans, alloc_fits, push_bytes_fits, placed-IsValid,
  placed-Extends, placed,
}
use tm.Clib.Map.{Map, overwrite, enlarge, set, get}
use tm.Clib.Map.Pairs.{Distinct}
use tm.Clib.Map.Laws.{overwrite-cases, append-Stored}

-- Room for one more pair, with a key of `n` bytes.
pub record HasPlace {V : Type 0} (a : Arena) (m : Map V) (n : ℕ) : Type 0 where
  pub valid : IsValid a
  pub within : 2 * length m.items ≤ m.cap
  pub place :
      ((2 * length m.items < m.cap) × (a.pos + (n + 1) ≤ a.cap))
      ⊎ ((m.cap * 2 < 2 ^ 16) × (0 < m.cap) × (a.pos + 8 * m.cap * 2 + (n + 1) ≤ a.cap))

push_key :
    (k : List ℕ) (a : Arena)
    → IsValid a
    → a.pos + (length k + 1) ≤ a.cap
    → push_bytes (k ++ (0 ∷ [])) (length k + 1) a
      ≡ ok (a.pos, placed a (length k + 1) (k ++ (0 ∷ [])))
push_key k a v h =
    let e : length (k ++ (0 ∷ [])) ≡ length k + 1 = length-append k (0 ∷ []) in
    subst (λ t. push_bytes (k ++ (0 ∷ [])) t a ≡ ok (a.pos, placed a t (k ++ (0 ∷ [])))) e
      (push_bytes_fits (k ++ (0 ∷ [])) a v (omega (arith, e)))

module _ {V : Type 0} where
  enlarge_lem :
      (a : Arena) (m : Map V) (n : ℕ)
      → HasPlace a m n
      → (b : Arena) × (cap : ℕ) × (enlarge m a ≡ ok (record m { cap = cap }, b))
        × (2 * length m.items < cap)
        × IsValid b
        × Extends a b
        × (b.pos + (n + 1) ≤ b.cap)
  unfolding enlarge
  enlarge_lem a m n h = elim (dec_lt (2 * length m.items) m.cap) [
    | yes l ↦ (
      a,
      m.cap,
      rw (ne→== (2 * length m.items) m.cap (omega arith)),
      l,
      h.valid,
      Extends-refl a,
      omega arith,
    )
    | no l ↦
        let small : m.cap * 2 % 2 ^ 16 ≡ m.cap * 2 = omega arith in
        (
          record a { pos = a.pos + 8 * m.cap * 2 },
          m.cap * 2,
          rw ((==_iff (2 * length m.items) m.cap).1 (omega arith))
              (rw (alloc_fits (8 * m.cap * 2) a h.valid (omega arith), ◌>>=◌) (rw small)),
          omega arith,
          omega arith,
          record { grows = omega arith; same_cap = refl; kept = refl },
          omega arith,
        )
  ]

  set_new :
      (m : Map V) (k : List ℕ) (v : V) (cap : ℕ) (a b : Arena)
      → 2 * length m.items ≤ m.cap
      → overwrite k v m.items ≡ none
      → enlarge m a ≡ ok (record m { cap = cap }, b)
      → 2 * length m.items < cap
      → IsValid b
      → b.pos + (length k + 1) ≤ b.cap
      → set m k v a
        ≡ ok (
          record { items = m.items ++ ((k, v) ∷ []); cap = cap },
          placed b (length k + 1) (k ++ (0 ∷ [])),
        )
  unfolding set
  set_new m k v cap a b w e f l val fits =
      rw (set, le→leb (2 * length m.items) m.cap w, e)
        (rw (f, ◌>>=◌) (rw (lt→ltb (2 * length m.items) cap l) (rw (push_key k b val fits, ◌>>=◌))))

  set_known :
      (m : Map V) (k : List ℕ) (v : V) (items : List (List ℕ × V)) (a : Arena)
      → 2 * length m.items ≤ m.cap
      → overwrite k v m.items ≡ some items
      → set m k v a ≡ ok (record m { items = items }, a)
  unfolding set
  set_known m k v items a w e = rw (set, le→leb (2 * length m.items) m.cap w, e)

  -- `MapSet` on a map where every key occurs once, with room for one more pair: it succeeds, the
  -- key gives the value, every other key gives what it gave, every key still occurs once, and
  -- nothing that was handed out before changes.
  pub set_lem :
      (m : Map V) (k : List ℕ) (v : V) (a : Arena)
      → Distinct m.items
      → HasPlace a m (length k)
      → (b : Arena) × (m' : Map V) × (set m k v a ≡ ok (m', b))
        × (get m' k ≡ some v)
        × ((l : List ℕ) → l ≢ k → get m' l ≡ get m l)
        × Distinct m'.items
        × IsValid b
        × Extends a b
  unfolding get
  set_lem m k v a d h = elim (overwrite-cases k v m.items d) [
    | inl (e, n) ↦
        let (b, cap, f, l, val, ext, fits) = enlarge_lem a m (length k) h in
        let s = append-Stored k v m.items n d in
        (
          placed b (length k + 1) (k ++ (0 ∷ [])),
          record { items = m.items ++ ((k, v) ∷ []); cap = cap },
          set_new m k v cap a b h.within e f l val fits,
          s.stored,
          s.same,
          s.distinct,
          placed-IsValid b val _ _ fits,
          Extends-trans ext (placed-Extends b val _ _ fits),
        )
    | inr (ys, e, s) ↦ (
      a,
      record m { items = ys },
      set_known m k v ys a h.within e,
      s.stored,
      s.same,
      s.distinct,
      h.valid,
      Extends-refl a,
    )
  ]
