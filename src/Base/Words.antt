-- ===== src/Base/Words.antt =====
-- Words and what they stand for.
use Prim.Native.Nat.{ℕ}
use mathlib.Core.Path.{◌≡◌, refl, sym}
use mathlib.Core.Logic.{◌↔◌}
use mathlib.Core.Bool.{Bool, true, false, ◌&&◌}
use mathlib.Core.List.{List, [], ◌∷◌}
use native.Mathlib.Omega.{arith}
use tm.Base.Tests.{◌==◌, if◌then◌else◌}

-- Are two words the same?
abbrev pub same_word : List ℕ → List ℕ → Bool
same_word [] [] = true
same_word [] (d ∷ ds) = false
same_word (c ∷ cs) [] = false
same_word (c ∷ cs) (d ∷ ds) = (c == d) && same_word cs ds

pub same_word_iff : (cs ds : List ℕ) → (same_word cs ds ≡ true) ↔ (cs ≡ ds)
same_word_iff [] [] = (λ h. refl, λ h. refl)
same_word_iff [] (d ∷ ds) = (λ h. cc, λ h. cc)
same_word_iff (c ∷ cs) [] = (λ h. cc, λ h. cc)
same_word_iff (c ∷ cs) (d ∷ ds) = ground (arith, same_word_iff cs ds)

-- What a word stands for in a table of words, and `other` where it is not in it.
abbrev pub look_up : {K : Type 0} → K → List (List ℕ × K) → List ℕ → K
look_up other [] word = other
look_up other ((w, k) ∷ table) word = if same_word word w then k else look_up other table word

-- Two tests of one fact.
pub same_test : {P : Type 0} (a b : Bool) → (a ≡ true) ↔ P → (b ≡ true) ↔ P → a ≡ b
same_test true true f g = refl
same_test false false f g = refl
same_test true false f g = sym (g.1 (f.0 refl))
same_test false true f g = f.1 (g.0 refl)
