-- ===== src/Clib/Str/Held.antt =====
-- What the operations that make a `String` leave in the arena.
use tm.Base.{ℕ, ◌≢◌, ne→==, ◌+◌, ◌%◌, ◌≤◌, ◌<◌, ◌≡◌, refl, sym, ap, ◌∙◌, arith, subst}
use tm.Base.{List, [], ◌∷◌, ◌++◌, length, slice, write, take, some, ok, length-append}
use tm.Base.{
  append_assoc, le→ltb, write-append, take-all, length-take, take-take, take-append, length-write,
  lt→ltb,
}
use tm.Clib.Arena.{Arena, ◌>>=◌, alloc}
use tm.Clib.Arena.Blocks.{IsValid, Extends, Extends-slice, placed, placed-IsValid, placed-Extends}
use tm.Clib.Arena.Blocks.{
  placed-slice, alloc_fits, store_inside, source_fits, load_from_inside, realloc_fits, realloc-none,
}
use tm.Clib.Str.{
  Str, text, u16_mod, fill, new, new_from_bytes, assign_from_bytes, dup, append, ushrt_max, new0,
  append_char, assign,
}

-- `s` is the text `xs` with a zero byte behind it, in a block that is handed out in `a`.
pub record Holds (a : Arena) (s : Str) (xs : List ℕ) : Type 0 where
  pub at_ : ℕ
  pub bs_eq : s.bs ≡ some at_
  pub len_eq : s.len ≡ length xs
  pub inside : at_ + (length xs + 1) ≤ a.pos
  pub ended : slice at_ (length xs + 1) a.bs ≡ xs ++ (0 ∷ [])

pub Holds-Extends :
    {a b : Arena} {s : Str} {xs : List ℕ} → Extends a b → Holds a s xs → Holds b s xs
Holds-Extends {a} {b} {s} {xs} e h = record {
  at_ = h.at_;
  bs_eq = h.bs_eq;
  len_eq = h.len_eq;
  inside = omega arith;
  ended = Extends-slice h.at_ (length xs + 1) e h.inside ∙ h.ended;
}

pub fill_lem :
    (p : ℕ) (xs : List ℕ) (a : Arena)
    → p + (length xs + 1) ≤ length a.bs
    → fill p xs a ≡ ok (tt, record a { bs = write p (xs ++ (0 ∷ [])) a.bs })
unfolding fill
fill_lem p xs a h =
    rw (store_inside p xs a (omega arith), ◌>>=◌)
      (rw (
        store_inside (p + length xs) (0 ∷ []) (record a { bs = write p xs a.bs })
            (omega (arith, length-write p xs a.bs)),
        write-append p xs (0 ∷ []) a.bs,
      ))

-- A string that was just made: nothing that was handed out before has changed.
pub record Made (a : Arena) (xs : List ℕ) (b : Arena) (s : Str) : Type 0 where
  pub valid : IsValid b
  pub extends : Extends a b
  pub holds : Holds b s xs
  pub taken : b.pos ≡ a.pos + (length xs + 1)

module _ (a : Arena) (v : IsValid a) (n : ℕ) (xs : List ℕ) (e : n ≡ length xs)
    (fits : a.pos + (n + 1) ≤ a.cap) where
  -- The arena with the text in its next block.
  abbrev pub with_text : Arena
  with_text = placed a (n + 1) (xs ++ (0 ∷ []))

  pub with_text-Made : Made a xs with_text (record { bs = some a.pos; len = n })
  with_text-Made =
      let len_all : length (xs ++ (0 ∷ [])) ≡ length xs + 1 = length-append xs (0 ∷ []) in
      record {
        valid = placed-IsValid a v _ _ fits;
        extends = placed-Extends a v _ _ fits;
        holds = record {
          at_ = a.pos;
          bs_eq = refl;
          len_eq = e;
          inside = omega arith;
          ended =
              subst (λ t. slice a.pos t with_text.bs ≡ xs ++ (0 ∷ [])) len_all
                (placed-slice a v (n + 1) _ fits (omega (arith, len_all)));
        };
        taken = omega arith;
      }

  -- The two steps of each maker that give it.
  pub making :
      (alloc (n + 1) a ≡ ok (a.pos, record a { pos = a.pos + (n + 1) }))
      × (fill a.pos xs (record a { pos = a.pos + (n + 1) }) ≡ ok (tt, with_text))
  making = (alloc_fits (n + 1) a v fits, fill_lem a.pos xs _ (omega arith))

-- `StringNewFromBytes`, given room and bytes to read, makes a string of the first `bslen` bytes,
-- if that is below 2 ^ 16, and nothing that was handed out before changes.
pub new_from_bytes_lem :
    (bs : List ℕ) (n : ℕ) (a : Arena)
    → IsValid a
    → n ≤ length bs
    → n < u16_mod
    → a.pos + (n + 1) ≤ a.cap
    → (b : Arena) × (s : Str) × (new_from_bytes bs n a ≡ ok (s, b)) × Made a (take n bs) b s
unfolding new_from_bytes
new_from_bytes_lem bs n a v h hn fits =
    let e : n ≡ length (take n bs) = omega (arith, length-take n bs) in
    let (m₁, m₂) = making a v n (take n bs) e fits in
    let small : n % u16_mod ≡ n = omega arith in
    (
      with_text a v n (take n bs) e fits,
      record { bs = some a.pos; len = n },
      rw (m₁, ◌>>=◌) (rw (source_fits bs n _ h, ◌>>=◌) (rw (m₂, ◌>>=◌) (rw small))),
      with_text-Made a v n (take n bs) e fits,
    )

-- `StringAssignFromBytes` replaces the string by a new one.
pub assign_from_bytes_lem :
    (str : Str) (bs : List ℕ) (n : ℕ) (a : Arena)
    → IsValid a
    → n ≤ length bs
    → n < u16_mod
    → a.pos + (n + 1) ≤ a.cap
    → (b : Arena) × (s : Str) × (assign_from_bytes str bs n a ≡ ok (s, b)) × Made a (take n bs) b s
unfolding assign_from_bytes
assign_from_bytes_lem str bs n a v h hn fits = new_from_bytes_lem bs n a v h hn fits

-- `StringNew`, given room, makes a string of the whole C string if that is shorter than 2 ^ 16.
pub new_lem :
    (s : List ℕ) (a : Arena)
    → IsValid a
    → length s < u16_mod
    → a.pos + (length s + 1) ≤ a.cap
    → (b : Arena) × (str : Str) × (new s a ≡ ok (str, b)) × Made a s b str
unfolding new
new_lem s a v hn fits =
    let (m₁, m₂) = making a v (length s) s refl fits in
    let small : length s % u16_mod ≡ length s = omega arith in
    (
      with_text a v (length s) s refl fits,
      record { bs = some a.pos; len = length s },
      rw small (rw (m₁, ◌>>=◌) (rw (take-all (length s) s (omega arith), m₂, ◌>>=◌))),
      with_text-Made a v (length s) s refl fits,
    )

pub Holds-slice :
    {a : Arena} {s : Str} {xs : List ℕ} (h : Holds a s xs) → slice h.at_ (length xs) a.bs ≡ xs
Holds-slice {a} {s} {xs} h =
    sym (take-take (length xs) (length xs + 1) _ (omega arith))
    ∙ ap (take (length xs)) h.ended
    ∙ take-append (length xs) xs (0 ∷ []) refl

-- The counted bytes of a string that is held are its text.
pub text-Holds : (a : Arena) (s : Str) (xs : List ℕ) → Holds a s xs → text a s ≡ xs
text-Holds a s xs h = rw h.bs_eq (rw h.len_eq (Holds-slice h))

-- `StringDup`, given room, copies the text of a string that is held to a block of its own, and
-- nothing that was handed out before changes.
pub dup_lem :
    (src : Str) (xs : List ℕ) (a : Arena)
    → IsValid a
    → Holds a src xs
    → a.pos + (length xs + 1) ≤ a.cap
    → (b : Arena) × (s : Str) × (dup src a ≡ ok (s, b)) × Made a xs b s
unfolding dup
dup_lem src xs a v h fits =
    let (m₁, m₂) = making a v (length xs) xs refl fits in
    let taken : Arena = record a { pos = a.pos + (length xs + 1) } in
    (
      with_text a v (length xs) xs refl fits,
      record { bs = some a.pos; len = length xs },
      rw (h.len_eq, h.bs_eq)
          (rw (m₁, ◌>>=◌)
            (rw (load_from_inside h.at_ (length xs) taken (omega arith), ◌>>=◌)
              (rw (Holds-slice h, m₂, ◌>>=◌)))),
      with_text-Made a v (length xs) xs refl fits,
    )

-- `StringAppend` on a string that is held, given room: the text is followed by `s`, in a new
-- block, if the new count with the zero byte is at most `USHRT_MAX`. Nothing that was handed out
-- before changes.
pub str_append_lem :
    (str : Str) (xs s : List ℕ) (a : Arena)
    → IsValid a
    → Holds a str xs
    → length xs + length s + 1 ≤ ushrt_max
    → a.pos + (length xs + length s + 1) ≤ a.cap
    → (b : Arena) × (str' : Str) × (append str s a ≡ ok (str', b)) × Made a (xs ++ s) b str'
unfolding append
str_append_lem str xs s a v h hn fits =
    let n : ℕ = length xs + length s in
    let e : n ≡ length (xs ++ s) = sym (length-append xs s) in
    let small : n % u16_mod ≡ n = omega arith in
    let old : Arena = placed a (n + 1) xs in
    (
      with_text a v n (xs ++ s) e fits,
      record { bs = some a.pos; len = n },
      rw (h.len_eq, h.bs_eq)
          (rw (le→ltb ushrt_max (n + 1) hn) (
            rw (realloc_fits h.at_ (length xs) (n + 1) a v (omega arith) (omega arith) fits, ◌>>=◌)
              (rw
                (
                  Holds-slice h,
                  fill_lem (a.pos + length xs) s old (omega (arith, length-write a.pos xs a.bs)),
                  ◌>>=◌,
                )
                (rw (small, write-append a.pos xs (s ++ (0 ∷ [])) a.bs, append_assoc))))),
      with_text-Made a v n (xs ++ s) e fits,
    )

-- Where the count would not fit, `StringAppend` changes nothing.
pub append_full :
    (str : Str) (s : List ℕ) (a : Arena)
    → ushrt_max ≤ str.len + length s
    → append str s a ≡ ok (str, a)
unfolding append
append_full str s a h = rw (lt→ltb ushrt_max (str.len + length s + 1) (omega arith))

-- `StringAppend` on a string without a block.
pub append_new0_lem :
    (s : List ℕ) (a : Arena)
    → IsValid a
    → length s + 1 ≤ ushrt_max
    → a.pos + (length s + 1) ≤ a.cap
    → (b : Arena) × (str : Str) × (append new0 s a ≡ ok (str, b)) × Made a s b str
unfolding append
append_new0_lem s a v hn fits =
    let (m₁, m₂) = making a v (length s) s refl fits in
    let small : (0 + length s) % u16_mod ≡ length s = omega arith in
    let none_yet : 0 + length s + 1 ≡ length s + 1 = omega arith in
    let same : a.pos + 0 ≡ a.pos = omega arith in
    (
      with_text a v (length s) s refl fits,
      record { bs = some a.pos; len = length s },
      rw (le→ltb ushrt_max (0 + length s + 1) (omega arith)) (
          rw (none_yet, realloc-none (length s + 1) a v fits, ◌>>=◌)
            (rw (same, m₂, ◌>>=◌) (rw small))),
      with_text-Made a v (length s) s refl fits,
    )

-- `StringAppendChar` of a byte that is not zero appends it.
pub append_char-append : (str : Str) (ch : ℕ) → ch ≢ 0 → append_char str ch ≡ append str (ch ∷ [])
unfolding append_char
append_char-append str ch nz = rw (ne→== ch 0 nz) refl

-- `StringAssign` replaces the string by a new one.
pub assign_lem :
    (str : Str) (s : List ℕ) (a : Arena)
    → IsValid a
    → length s < u16_mod
    → a.pos + (length s + 1) ≤ a.cap
    → (b : Arena) × (str' : Str) × (assign str s a ≡ ok (str', b)) × Made a s b str'
unfolding assign
assign_lem str s a v hn fits = new_lem s a v hn fits
