-- ===== src/Cnet/Unpack/Spec.antt =====
-- What it means that `NetUnpack` reads back what was packed.
use tm.Base.{ℕ, ◌+◌, ◌%◌, ◌^◌, ◌≤◌, ◌≡◌}
use tm.Base.{false, ok, List, [], ◌∷◌, ◌++◌, length, ◌⊎◌}
use tm.Clib.Arena.{Arena, M}
use tm.Clib.Arena.Blocks.{IsValid, Extends}
use tm.Clib.Str
use tm.Clib.Str.{Str}
use tm.Clib.Str.Held.{Holds}
use tm.Cnet.Pack.{Arg}
use tm.Cnet.Pack.Bytes.{Encodes, end, plain, byte, word, double, quad, string}
use tm.Cnet.Unpack.{Slot, u8, u16, u32, u64}
use tm.Cnet.Unpack.{unpack_loop}
use tm.Cnet.Unpack.Reads.{before}

-- The slots that a caller passes under a format: of the right widths, strings new and empty.
abbrev pub Ready :
    {fmt : List ℕ} {args : List Arg} {bs : List ℕ} → Encodes fmt args bs → List Slot → Type 0
Ready end slots = slots ≡ []
Ready (plain c h e) slots = Ready e slots
Ready (byte n e) slots = (v : ℕ) × (rest : List Slot) × (slots ≡ u8 v ∷ rest) × Ready e rest
Ready (word n e) slots = (v : ℕ) × (rest : List Slot) × (slots ≡ u16 v ∷ rest) × Ready e rest
Ready (double n e) slots = (v : ℕ) × (rest : List Slot) × (slots ≡ u32 v ∷ rest) × Ready e rest
Ready (quad n e) slots = (v : ℕ) × (rest : List Slot) × (slots ≡ u64 v ∷ rest) × Ready e rest
Ready (string s h e) slots =
    (rest : List Slot) × (slots ≡ Slot.string Str.new0 ∷ rest) × Ready e rest

-- A string variable that reads as `s`: it holds `s`, or is still new and `s` is empty.
abbrev pub ReadsAs : Arena → Str → List ℕ → Type 0
ReadsAs a t s = Holds a t s ⊎ ((t ≡ Str.new0) × (s ≡ []))

-- The slots hold the values that were packed, numbers cut to their width on the wire.
abbrev pub Reads :
    Arena
    → {fmt : List ℕ} {args : List Arg} {bs : List ℕ} → Encodes fmt args bs
    → List Slot
    → Type 0
Reads a end slots = slots ≡ []
Reads a (plain c h e) slots = Reads a e slots
Reads a (byte n e) slots = (rest : List Slot) × (slots ≡ u8 (n % 2 ^ 8) ∷ rest) × Reads a e rest
Reads a (word n e) slots = (rest : List Slot) × (slots ≡ u16 (n % 2 ^ 16) ∷ rest) × Reads a e rest
Reads a (double n e) slots = (rest : List Slot) × (slots ≡ u32 (n % 2 ^ 32) ∷ rest) × Reads a e rest
Reads a (quad n e) slots = (rest : List Slot) × (slots ≡ u64 (n % 2 ^ 64) ∷ rest) × Reads a e rest
Reads a (string s h e) slots =
    (t : Str) × (rest : List Slot) × (slots ≡ Slot.string t ∷ rest) × ReadsAs a t s × Reads a e rest

-- A run of the loop that reads what was packed.
pub record Unpacks {fmt : List ℕ} {args : List Arg} {bs : List ℕ} (e : Encodes fmt args bs)
    (m : M (List Slot)) (a : Arena) : Type 0 where
  pub arena : Arena
  pub slots : List Slot
  pub runs : m a ≡ ok (slots, arena)
  pub reads : Reads arena e slots
  pub valid : IsValid arena
  pub extends : Extends a arena
  pub used : arena.pos ≤ a.pos + length bs

-- What the loop promises from the point where `e` is still to be read.
abbrev pub Goal : {fmt : List ℕ} {args : List Arg} {bs : List ℕ} → Encodes fmt args bs → Type 0
Goal {fmt} {args} {bs} e =
    (slots : List Slot) (more : List ℕ) (a : Arena)
    → Ready e slots
    → IsValid a
    → a.pos + length bs ≤ a.cap
    → Unpacks e (unpack_loop fmt false slots (before (bs ++ more) (length bs))) a
