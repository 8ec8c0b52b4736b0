-- ===== src/Cnet/Unpack/Reads.antt =====
-- What single steps of `NetUnpack` read.
use tm.Base.{ℕ, suc, ◌+◌, ◌-◌, ◌*◌, ◌/◌, ◌%◌, ◌^◌, ◌<◌, ◌≤◌, ◌≢◌, ◌≡◌, refl, sym, ap, subst, ◌∙◌}
use tm.Base.{
  ◌⊎◌, inl, inr, Bool, Option, arith, true, false, none, some, ok, List, [], ◌∷◌, ◌++◌, length,
  ◌==◌, ne→==,
}
use tm.Base.{length-append, take-append, drop-append}
use native.Mathlib.Nat.{add_assoc}
use mathlib.Core.Path.{fun_ext}
use tm.Clib.Arena.{Arena, M, return, ◌>>=◌}
use tm.Clib.Arena.Blocks.{IsValid}
use tm.Clib.Str.{Str}
use tm.Clib.Str.Held.{Made, assign_from_bytes_lem}
use tm.Cnet.Pack.Bytes.{big_endian}
use tm.Cnet.Unpack.{Slot, u8, u16, u32, u64, string, Cursor, Taken, peek, number, take_text, take_s}
use tm.Cnet.Unpack.{take_b, take_w, take_l, take_L, convert, unpack_loop, advance, unless_end}

-- The number that bytes stand for, the most significant first.
abbrev pub value : List ℕ → ℕ
value [] = 0
value (b ∷ bs) = b * 256 ^ length bs + value bs

-- A cursor with `bs` before it, of which `k` belong to the message.
abbrev pub before : List ℕ → ℕ → Cursor
before bs k = record { mem = bs; left = k }

-- The unrolled reads take the number that the next bytes stand for.
pub number_lem :
    (b : ℕ) (bs more : List ℕ) (r acc : ℕ) (a : Arena)
    → number (suc (length bs)) acc (before ((b ∷ bs) ++ more) (suc (length bs) + r)) a
      ≡ ok ((acc + value (b ∷ bs), some (before more r)), a)
unfolding number peek
number_lem b [] more r acc a =
    let e : suc 0 + r - 1 ≡ r = omega arith in
    let f : acc + (b * 256 ^ 0 + 0) ≡ acc + b = omega arith in rw (e, f)
number_lem b (c ∷ bs) more r acc a =
    let e : suc (suc (length bs)) + r - 1 ≡ suc (length bs) + r = omega arith in
    let f : (suc (length bs) + r == 0) ≡ false = ne→== _ 0 (omega arith) in
    let regroup =
      ap (λ (t : ℕ). ok ((t, some (before more r)), a))
        (add_assoc acc (b * 256 ^ suc (length bs)) (value (c ∷ bs))) in
    rw e (rw f (number_lem c bs more r (acc + b * 256 ^ suc (length bs)) a ∙ regroup))

-- The three widths that are used.
number_be :
    (k : ℕ) (b : ℕ) (bs more : List ℕ) (r left w : ℕ) (a : Arena)
    → k ≡ suc (length bs)
    → left ≡ k + r
    → value (b ∷ bs) ≡ w
    → number k 0 (before ((b ∷ bs) ++ more) left) a ≡ ok ((w, some (before more r)), a)
number_be k b bs more r left w a e f g =
    let z : 0 + value (b ∷ bs) ≡ w = omega arith in
    rw (f, e) (number_lem b bs more r 0 a ∙ ap (λ (t : ℕ). ok ((t, some (before more r)), a)) z)

module _ (n : ℕ) (more : List ℕ) (r left : ℕ) (a : Arena) where
  pub read_word :
      left ≡ 2 + r
      → number 2 0 (before (big_endian 2 n ++ more) left) a
        ≡ ok ((n % 2 ^ 16, some (before more r)), a)
  read_word f = number_be 2 (n / 256 % 256) (n / 1 % 256 ∷ []) more r left _ a refl f (omega arith)

  pub read_double :
      left ≡ 4 + r
      → number 4 0 (before (big_endian 4 n ++ more) left) a
        ≡ ok ((n % 2 ^ 32, some (before more r)), a)
  read_double f = number_be 4 _ (big_endian 3 n) more r left _ a refl f (omega arith)

  pub read_quad :
      left ≡ 8 + r
      → number 8 0 (before (big_endian 8 n ++ more) left) a
        ≡ ok ((n % 2 ^ 64, some (before more r)), a)
  read_quad f = number_be 8 _ (big_endian 7 n) more r left _ a refl f (omega arith)

pub read_length :
    (n : ℕ) (more : List ℕ) (r : ℕ) (a : Arena)
    → n < 2 ^ 16
    → number 2 0 (before (big_endian 2 n ++ more) (2 + r)) a ≡ ok ((n, some (before more r)), a)
read_length n more r a h =
    let small : n % 2 ^ 16 ≡ n = omega arith in rw small at (read_word n more r (2 + r) a refl)

-- `%s` with something behind the length: the text is copied to the string's arena.
pub take_s_copies :
    (str : Str) (slots : List Slot) (s more : List ℕ) (r : ℕ) (a : Arena)
    → length s < 2 ^ 16
    → length s + r ≢ 0
    → IsValid a
    → a.pos + (length s + 1) ≤ a.cap
    → (b : Arena) × (t : Str) × (take_s
          (string str ∷ slots)
          (before (big_endian 2 (length s) ++ s ++ more) (2 + (length s + r)))
          a
        ≡ ok (record { out = string t ∷ []; slots = slots; cur = some (before more r) }, b))
      × Made a s b t
unfolding take_s take_text
take_s_copies str slots s more r a h ne v fits =
    let room : length s ≤ length (s ++ more) = omega (arith, length-append s more) in
    let (b, t, e, m) = assign_from_bytes_lem str (s ++ more) (length s) a v room h fits in
    let d : length s + r - length s ≡ r = omega arith in
    (
      b,
      t,
      rw (read_length (length s) (s ++ more) (length s + r) a h, ◌>>=◌)
          (rw (ne→== _ 0 ne) (rw (e, ◌>>=◌) (rw (drop-append (length s) s more refl, d)))),
      subst (λ x. Made a x b t) (take-append (length s) s more refl) m,
    )

-- `%s` with nothing behind the length: `NetUnpack` returns before it assigns the string.
pub take_s_stops :
    (str : Str) (slots : List Slot) (more : List ℕ) (a : Arena)
    → take_s (string str ∷ slots) (before (big_endian 2 0 ++ more) 2) a
      ≡ ok (record { out = string str ∷ []; slots = slots; cur = none }, a)
unfolding take_s take_text
take_s_stops str slots more a = rw (read_word 0 more 0 2 a (omega arith), ◌>>=◌)

-- Where no byte is left the loop returns, whatever the format still asks for.
pub loop_done :
    (fmt : List ℕ) (percent : Bool) (slots : List Slot) (cur : Cursor) (a : Arena)
    → cur.left ≡ 0
    → unpack_loop fmt percent slots cur a ≡ ok (slots, a)
unfolding unpack_loop
loop_done [] percent slots cur a z = refl
loop_done (c ∷ fmt) false slots cur a z = rw z
loop_done (c ∷ fmt) true slots cur a z = rw z

-- `next` leads on to `cur`: it is `cur`, or an early return where `cur` has no byte left.
abbrev pub LeadsTo : Option Cursor → Cursor → Type 0
LeadsTo next cur = (next ≡ some cur) ⊎ ((next ≡ none) × (cur.left ≡ 0))

pub unless_end-LeadsTo : (cur : Cursor) → LeadsTo (unless_end cur) cur
unless_end-LeadsTo cur = ground arith

-- So an early return is no different from going on.
pub after :
    (fmt : List ℕ) (percent : Bool) (slots : List Slot) (next : Option Cursor) (cur : Cursor)
    → LeadsTo next cur
    → (elim next [ none ↦ return slots | some cur' ↦ unpack_loop fmt percent slots cur' ])
      ≡ unpack_loop fmt percent slots cur
after fmt percent slots next cur (inl e) = rw e
after fmt percent slots next cur (inr (e, z)) =
    rw e (fun_ext λ a. sym (loop_done fmt percent slots cur a z))

-- The conversions of numbers that `NetUnpack` knows.
module _ (n g : ℕ) (slots : List Slot) (more : List ℕ) (r left : ℕ) (a : Arena) where
  pub convert_b :
      left ≡ 1 + r
      → convert b'b' (u8 g ∷ slots) (before (n % 256 ∷ more) left) a
        ≡ ok (
          record { out = u8 (n % 2 ^ 8) ∷ []; slots = slots; cur = unless_end (before more r) },
          a,
        )
  unfolding convert take_b peek
  convert_b f = let k : left - 1 ≡ r = omega arith in rw k

  pub convert_w :
      left ≡ 2 + r
      → convert b'w' (u16 g ∷ slots) (before (big_endian 2 n ++ more) left) a
        ≡ ok (record { out = u16 (n % 2 ^ 16) ∷ []; slots = slots; cur = some (before more r) }, a)
  unfolding convert take_w
  convert_w f = rw (read_word n more r left a f, ◌>>=◌)

  pub convert_l :
      left ≡ 4 + r
      → convert b'l' (u32 g ∷ slots) (before (big_endian 4 n ++ more) left) a
        ≡ ok (record { out = u32 (n % 2 ^ 32) ∷ []; slots = slots; cur = some (before more r) }, a)
  unfolding convert take_l
  convert_l f = rw (read_double n more r left a f, ◌>>=◌)

  pub convert_L :
      left ≡ 8 + r
      → convert b'L' (u64 g ∷ slots) (before (big_endian 8 n ++ more) left) a
        ≡ ok (record { out = u64 (n % 2 ^ 64) ∷ []; slots = slots; cur = some (before more r) }, a)
  unfolding convert take_L
  convert_L f = rw (read_quad n more r left a f, ◌>>=◌)

-- A character that stands for a byte.
pub skip :
    (c : ℕ) (fmt : List ℕ) (slots : List Slot) (cur : Cursor) (a : Arena)
    → c ≢ b'%'
    → cur.left ≢ 0
    → unpack_loop (c ∷ fmt) false slots cur a ≡ unpack_loop fmt false slots (advance cur 1) a
unfolding unpack_loop
skip c fmt slots cur a h l = rw (ne→== cur.left 0 l) (
    rw (ne→== c b'%' h) (
      ap (λ (m : M (List Slot)). m a)
        (after fmt false slots (unless_end (advance cur 1)) _ (unless_end-LeadsTo _))))

module _ (c : ℕ) (fmt : List ℕ) (slots : List Slot) (cur : Cursor) (a : Arena) (t : Taken)
    (b : Arena) (l : cur.left ≢ 0) (e : convert c slots cur a ≡ ok (t, b)) where
  -- A conversion, and the loop behind it.
  pub go_on :
      (cur' : Cursor) (rest : List Slot) (d : Arena)
      → LeadsTo t.cur cur'
      → unpack_loop fmt false t.slots cur' b ≡ ok (rest, d)
      → unpack_loop (b'%' ∷ c ∷ fmt) false slots cur a ≡ ok (t.out ++ rest, d)
  unfolding unpack_loop
  go_on cur' rest d (inl f) g = rw (ne→== cur.left 0 l) (rw (e, ◌>>=◌) (rw f (rw (g, ◌>>=◌))))
  go_on cur' rest d (inr (f, z)) g =
      rw (ne→== cur.left 0 l) (rw (e, ◌>>=◌) (rw f (cc (loop_done fmt false t.slots cur' b z))))
