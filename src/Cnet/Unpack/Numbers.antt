-- ===== src/Cnet/Unpack/Numbers.antt =====
-- `NetUnpack` on one byte or number that was packed.
use tm.Base.{ℕ, suc, ◌-◌, ◌%◌, ◌^◌, ◌≢◌, ◌≡◌, refl, ◌∙◌}
use tm.Base.{Option, arith, false, some, ok, List, [], ◌∷◌, ◌++◌, length, inl}
use tm.Clib.Arena.{Arena}
use tm.Cnet.Pack.{Arg}
use tm.Cnet.Pack.Bytes.{Encodes, plain, byte, word, double, quad}
use tm.Cnet.Unpack.{Slot, u8, u16, u32, u64, unless_end, Cursor}
use tm.Cnet.Unpack.{convert, unpack_loop}
use tm.Cnet.Unpack.Reads.{before, go_on, skip}
use tm.Cnet.Unpack.Reads.{LeadsTo, unless_end-LeadsTo, convert_b, convert_w, convert_l, convert_L}
use tm.Cnet.Unpack.Spec.{Unpacks, Goal}

pub unpack_plain :
    (c : ℕ) (h : c ≢ b'%') {fmt : List ℕ} {args : List Arg} {bs : List ℕ} (e : Encodes fmt args bs)
    → Goal e
    → Goal (plain c h e)
unpack_plain c h {fmt = fmt} {bs = bs} e ih slots more a r v fits =
    let t : Unpacks e (unpack_loop fmt false slots (before (bs ++ more) (length bs))) a =
      ih slots more a r v (omega arith) in
    let k : suc (length bs) - 1 ≡ length bs = omega arith in
    record {
      arena = t.arena;
      slots = t.slots;
      runs = skip c fmt slots _ a h (omega arith) ∙ rw k t.runs;
      reads = t.reads;
      valid = t.valid;
      extends = t.extends;
      used = omega (arith, t.used);
    }

-- A conversion that writes `w` to its slot and leaves the arena as it is.
module _ (c : ℕ) {fmt : List ℕ} {args : List Arg} {bs : List ℕ} (e : Encodes fmt args bs)
    (s w : Slot) (rest : List Slot) (cur : Cursor) (more : List ℕ) (a : Arena)
    (next : Option Cursor) where
  converted :
      cur.left ≢ 0
      → convert c (s ∷ rest) cur a ≡ ok (record { out = w ∷ []; slots = rest; cur = next }, a)
      → LeadsTo next (before (bs ++ more) (length bs))
      → (t : Unpacks e (unpack_loop fmt false rest (before (bs ++ more) (length bs))) a)
      → unpack_loop (b'%' ∷ c ∷ fmt) false (s ∷ rest) cur a ≡ ok (w ∷ t.slots, t.arena)
  converted l k q t = go_on c fmt (s ∷ rest) cur a _ a l k _ t.slots t.arena q t.runs

pub unpack_byte :
    (n : ℕ) {fmt : List ℕ} {args : List Arg} {bs : List ℕ} (e : Encodes fmt args bs)
    → Goal e
    → Goal (byte n e)
unpack_byte n {fmt = fmt} {bs = bs} e ih slots more a (g, rest, q, r) v fits =
    let t : Unpacks e (unpack_loop fmt false rest (before (bs ++ more) (length bs))) a =
      ih rest more a r v (omega arith) in
    record {
      arena = t.arena;
      slots = u8 (n % 2 ^ 8) ∷ t.slots;
      runs = rw q (
          converted b'b' e (u8 g) (u8 (n % 2 ^ 8)) rest _ more a
            (unless_end (before (bs ++ more) (length bs))) (omega arith)
            (convert_b n g rest (bs ++ more) (length bs) _ a (omega arith)) (unless_end-LeadsTo _)
            t);
      reads = (t.slots, refl, t.reads);
      valid = t.valid;
      extends = t.extends;
      used = omega (arith, t.used);
    }

pub unpack_word :
    (n : ℕ) {fmt : List ℕ} {args : List Arg} {bs : List ℕ} (e : Encodes fmt args bs)
    → Goal e
    → Goal (word n e)
unpack_word n {fmt = fmt} {bs = bs} e ih slots more a (g, rest, q, r) v fits =
    let t : Unpacks e (unpack_loop fmt false rest (before (bs ++ more) (length bs))) a =
      ih rest more a r v (omega arith) in
    record {
      arena = t.arena;
      slots = u16 (n % 2 ^ 16) ∷ t.slots;
      runs = rw q (
          converted b'w' e (u16 g) (u16 (n % 2 ^ 16)) rest _ more a
            (some (before (bs ++ more) (length bs))) (omega arith)
            (convert_w n g rest (bs ++ more) (length bs) _ a (omega arith)) (inl refl) t);
      reads = (t.slots, refl, t.reads);
      valid = t.valid;
      extends = t.extends;
      used = omega (arith, t.used);
    }

pub unpack_double :
    (n : ℕ) {fmt : List ℕ} {args : List Arg} {bs : List ℕ} (e : Encodes fmt args bs)
    → Goal e
    → Goal (double n e)
unpack_double n {fmt = fmt} {bs = bs} e ih slots more a (g, rest, q, r) v fits =
    let t : Unpacks e (unpack_loop fmt false rest (before (bs ++ more) (length bs))) a =
      ih rest more a r v (omega arith) in
    record {
      arena = t.arena;
      slots = u32 (n % 2 ^ 32) ∷ t.slots;
      runs = rw q (
          converted b'l' e (u32 g) (u32 (n % 2 ^ 32)) rest _ more a
            (some (before (bs ++ more) (length bs))) (omega arith)
            (convert_l n g rest (bs ++ more) (length bs) _ a (omega arith)) (inl refl) t);
      reads = (t.slots, refl, t.reads);
      valid = t.valid;
      extends = t.extends;
      used = omega (arith, t.used);
    }

pub unpack_quad :
    (n : ℕ) {fmt : List ℕ} {args : List Arg} {bs : List ℕ} (e : Encodes fmt args bs)
    → Goal e
    → Goal (quad n e)
unpack_quad n {fmt = fmt} {bs = bs} e ih slots more a (g, rest, q, r) v fits =
    let t : Unpacks e (unpack_loop fmt false rest (before (bs ++ more) (length bs))) a =
      ih rest more a r v (omega arith) in
    record {
      arena = t.arena;
      slots = u64 (n % 2 ^ 64) ∷ t.slots;
      runs = rw q (
          converted b'L' e (u64 g) (u64 (n % 2 ^ 64)) rest _ more a
            (some (before (bs ++ more) (length bs))) (omega arith)
            (convert_L n g rest (bs ++ more) (length bs) _ a (omega arith)) (inl refl) t);
      reads = (t.slots, refl, t.reads);
      valid = t.valid;
      extends = t.extends;
      used = omega (arith, t.used);
    }
