-- ===== src/Cnet/Unpack/RoundTrip.antt =====
-- `NetUnpack` reads back what `NetPack` wrote.
use tm.Base.{ℕ, suc, ◌+◌, ◌^◌, ◌<◌, ◌≤◌, ◌≢◌, ◌≡◌, refl}
use tm.Base.{arith, false, none, some, ok, List, [], ◌∷◌, ◌++◌, length, inl, inr}
use tm.Base.{append_assoc, length-append}
use tm.Clib.Arena.{Arena}
use tm.Clib.Arena.Blocks.{IsValid, Extends, Extends-refl, Extends-trans}
use native.Mathlib.Decide.{ℕ_discrete}
use tm.Clib.Str
use tm.Clib.Str.{Str}
use tm.Clib.Str.Held.{Holds-Extends}
use tm.Cnet.Pack.{Arg}
use tm.Cnet.Pack.Bytes.{Encodes, end, plain, byte, word, double, quad, string}
use tm.Cnet.Unpack.{Slot, Taken}
use tm.Cnet.Unpack.{convert, unpack_loop, unpack}
use tm.Cnet.Unpack.Reads.{before, take_s_copies, take_s_stops, go_on}
use tm.Cnet.Unpack.Spec.{Ready, Reads, Unpacks, Goal}
use tm.Cnet.Unpack.Numbers.{unpack_plain, unpack_byte, unpack_word, unpack_double, unpack_quad}

-- A string with something behind its length is copied.
unpack_text :
    (s : List ℕ) (h : length s < 2 ^ 16) {fmt : List ℕ} {args : List Arg} {bs : List ℕ}
    (e : Encodes fmt args bs)
    → length s + length bs ≢ 0
    → Goal e
    → Goal (string s h e)
unfolding convert
unpack_text s h {fmt = fmt} {bs = bs} e z ih slots more a (rest, q, r) v fits =
    let len_all : length (s ++ bs) ≡ length s + length bs = length-append s bs in
    let len_two : suc (suc (length (s ++ bs))) ≡ 2 + (length s + length bs) =
      omega (arith, len_all) in
    let (b, x, k, m) =
      take_s_copies Str.new0 rest s (bs ++ more) (length bs) a h z v (omega (arith, len_all)) in
    let t : Unpacks e (unpack_loop fmt false rest (before (bs ++ more) (length bs))) b =
      ih rest more b r m.valid (omega (arith, len_all, m.taken, m.extends)) in
    let taken : Taken = record {
      out = Slot.string x ∷ [];
      slots = rest;
      cur = some (before (bs ++ more) (length bs));
    } in
    record {
      arena = t.arena;
      slots = Slot.string x ∷ t.slots;
      runs = rw q (
          go_on b's' fmt _ _ a taken b (omega arith) (rw (len_two, append_assoc s bs more) k) _
            t.slots t.arena (inl refl) t.runs);
      reads = (x, t.slots, refl, inl (Holds-Extends t.extends m.holds), t.reads);
      valid = t.valid;
      extends = Extends-trans m.extends t.extends;
      used = omega (arith, t.used, len_all, m.taken);
    }

-- An empty string at the end of the message is left as it is, which is empty.
unpack_empty :
    (h : 0 < 2 ^ 16) {fmt : List ℕ} {args : List Arg} {bs : List ℕ} (e : Encodes fmt args bs)
    → length bs ≡ 0
    → Goal e
    → Goal (string [] h e)
unfolding convert
unpack_empty h {fmt = fmt} {bs = bs} e z ih slots more a (rest, q, r) v fits =
    let t : Unpacks e (unpack_loop fmt false rest (before (bs ++ more) (length bs))) a =
      ih rest more a r v (omega arith) in
    let taken : Taken = record { out = Slot.string Str.new0 ∷ []; slots = rest; cur = none } in
    record {
      arena = t.arena;
      slots = Slot.string Str.new0 ∷ t.slots;
      runs = rw q (
          go_on b's' fmt _ _ a taken a (omega arith)
            (rw z (take_s_stops Str.new0 rest (bs ++ more) a)) _ t.slots t.arena (inr (refl, z))
            t.runs);
      reads = (Str.new0, t.slots, refl, inr (refl, refl), t.reads);
      valid = t.valid;
      extends = t.extends;
      used = omega (arith, t.used);
    }

unpack_string :
    (s : List ℕ) (h : length s < 2 ^ 16) {fmt : List ℕ} {args : List Arg} {bs : List ℕ}
    (e : Encodes fmt args bs)
    → Goal e
    → Goal (string s h e)
unpack_string [] h {bs = bs} e ih = elim (ℕ_discrete (length bs) 0) [
  | yes z ↦ unpack_empty h e z ih
  | no z ↦ unpack_text [] h e (omega arith) ih
]
unpack_string (c ∷ s) h e ih = unpack_text (c ∷ s) h e (omega arith) ih

unpack_end : Goal end
unfolding unpack_loop
unpack_end slots more a r v fits = record {
  arena = a;
  slots = slots;
  runs = refl;
  reads = r;
  valid = v;
  extends = Extends-refl a;
  used = omega arith;
}

unpack_all : {fmt : List ℕ} {args : List Arg} {bs : List ℕ} (e : Encodes fmt args bs) → Goal e
unpack_all end = unpack_end
unpack_all (plain c h e) = unpack_plain c h e (unpack_all e)
unpack_all (byte n e) = unpack_byte n e (unpack_all e)
unpack_all (word n e) = unpack_word n e (unpack_all e)
unpack_all (double n e) = unpack_double n e (unpack_all e)
unpack_all (quad n e) = unpack_quad n e (unpack_all e)
unpack_all (string s h e) = unpack_string s h e (unpack_all e)

-- `NetUnpack` undoes `NetPack`: from the bytes that stand for some values under a format,
-- whatever follows them in memory, it reads those values under the same format, given room for
-- the strings. It changes nothing that was handed out before.
pub unpack-pack :
    {fmt : List ℕ} {args : List Arg} {bs : List ℕ} (e : Encodes fmt args bs) (slots : List Slot)
    (more : List ℕ) (a : Arena)
    → Ready e slots
    → IsValid a
    → a.pos + length bs ≤ a.cap
    → (b : Arena) × (out : List Slot) × (unpack (bs ++ more) (length bs) fmt slots a ≡ ok (out, b))
      × Reads b e out
      × IsValid b
      × Extends a b
unfolding unpack
unpack-pack e slots more a r v fits =
    let t = unpack_all e slots more a r v fits in
    (t.arena, t.slots, t.runs, t.reads, t.valid, t.extends)

-- It takes no more of the arena than the message is long.
pub unpack_uses :
    {fmt : List ℕ} {args : List Arg} {bs : List ℕ} (e : Encodes fmt args bs) (slots : List Slot)
    (more : List ℕ) (a : Arena)
    → Ready e slots
    → IsValid a
    → a.pos + length bs ≤ a.cap
    → Unpacks e (unpack (bs ++ more) (length bs) fmt slots) a
unfolding unpack
unpack_uses e slots more a r v fits =
    let t = unpack_all e slots more a r v fits in
    record {
      arena = t.arena;
      slots = t.slots;
      runs = t.runs;
      reads = t.reads;
      valid = t.valid;
      extends = t.extends;
      used = t.used;
    }
