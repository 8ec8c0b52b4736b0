-- ===== src/Cnet/Unpack.antt =====
-- cnet.c, `NetUnpack`: values read from a message by a format.
pub mod Reads
pub mod Spec
pub mod Numbers
pub mod RoundTrip
pub mod Texts
pub mod Overread
use tm.Base.{ℕ, zero, suc, ◌+◌, ◌-◌, ◌*◌, ◌%◌, ◌^◌, Bool, true, false, Option, none, some}
use tm.Base.{List, [], ◌∷◌, ◌++◌, drop, ok, fault, wild, ◌==◌, if◌then◌else◌}
use tm.Clib.Arena.{Arena, M, return, ◌>>=◌}
use tm.Clib.Str
use tm.Clib.Str.{Str}

-- Where an output pointer leads, with the value that stands there.
pub data Slot : Type 0 where
  u8 : ℕ → Slot
  u16 : ℕ → Slot
  u32 : ℕ → Slot
  u64 : ℕ → Slot
  string : Str → Slot

-- `pbs`: the bytes that can be read from it on, and how many of them belong to the message, which is
-- `maxp - pbs + 1`, or 0 if `pbs > maxp`.
pub record Cursor : Type 0 where
  pub mem : List ℕ
  pub left : ℕ

-- `*pbs`.
pub peek : Cursor → M ℕ
peek cur a = elim cur.mem [ [] ↦ fault wild | b ∷ bs ↦ ok (b, a) ]

-- `pbs += n`.
abbrev pub advance : Cursor → ℕ → Cursor
advance cur n = record { mem = drop n cur.mem; left = cur.left - n }

-- The unrolled reads of `%w`, `%l` and `%L`, most significant byte first: what is read so far, and the
-- cursor, or `none` where the message ends inside the number. The bits that `|=` sets are still 0.
pub number : ℕ → ℕ → Cursor → M (ℕ × Option Cursor)
number zero acc cur = return (acc, some cur)
number (suc zero) acc cur = do b ← peek cur; return (acc + b, some (advance cur 1))
number (suc (suc k)) acc cur = do
  b ← peek cur
  if cur.left - 1 == 0
      then return (acc + b * 256 ^ suc k, none)
      else number (suc k) (acc + b * 256 ^ suc k) (advance cur 1)

-- What the character behind a `%` does: the slots written, those still to come, and the cursor, or
-- `none` for an early return.
pub record Taken : Type 0 where
  pub out : List Slot
  pub slots : List Slot
  pub cur : Option Cursor

-- A check `if (pbs > maxp) return;`.
abbrev pub unless_end : Cursor → Option Cursor
unless_end cur = if cur.left == 0 then none else some cur

pub take_b : List Slot → Cursor → M Taken
take_b (u8 v ∷ slots) cur = do
  b ← peek cur
  return (record { out = u8 b ∷ []; slots = slots; cur = unless_end (advance cur 1) })
take_b slots cur = λ a. fault wild

pub take_w : List Slot → Cursor → M Taken
take_w (u16 v ∷ slots) cur = do
  (w, next) ← number 2 0 cur
  return (record { out = u16 w ∷ []; slots = slots; cur = next })
take_w slots cur = λ a. fault wild

pub take_l : List Slot → Cursor → M Taken
take_l (u32 v ∷ slots) cur = do
  (l, next) ← number 4 0 cur
  return (record { out = u32 l ∷ []; slots = slots; cur = next })
take_l slots cur = λ a. fault wild

pub take_L : List Slot → Cursor → M Taken
take_L (u64 v ∷ slots) cur = do
  (ll, next) ← number 8 0 cur
  return (record { out = u64 ll ∷ []; slots = slots; cur = next })
take_L slots cur = λ a. fault wild

-- `%s` behind its length: the text is copied, however many bytes the message has left.
pub take_text : Str → List Slot → ℕ → Cursor → M Taken
take_text str slots slen cur =
    if cur.left == 0
    then return (record { out = string str ∷ []; slots = slots; cur = none })
    else (do
      str' ← Str.assign_from_bytes str cur.mem slen
      return (record { out = string str' ∷ []; slots = slots; cur = some (advance cur slen) }))

-- The length is read as `%w` is, with a check behind its second byte as well.
pub take_s : List Slot → Cursor → M Taken
take_s (string str ∷ slots) cur = do
  (slen, next) ← number 2 0 cur
  elim next [
    | none ↦ return (record { out = string str ∷ []; slots = slots; cur = none })
    | some cur' ↦ take_text str slots slen cur'
  ]
take_s slots cur = λ a. fault wild

-- The character behind a `%`. Any other than these is ignored.
pub convert : ℕ → List Slot → Cursor → M Taken
convert c slots cur =
    if c == b'b'
    then take_b slots cur
    else if c == b'w'
    then take_w slots cur
    else if c == b'l'
    then take_l slots cur
    else if c == b'L'
    then take_L slots cur
    else if c == b's'
    then take_s slots cur
    else return (record { out = []; slots = slots; cur = some cur })

-- The loop over the format, its state as `percent`. A character that is neither a `%` nor behind one
-- stands for a byte whose value is not looked at. It returns the slots as they are when `NetUnpack` returns.
pub unpack_loop : List ℕ → Bool → List Slot → Cursor → M (List Slot)
unpack_loop [] percent slots cur = return slots
unpack_loop (c ∷ fmt) false slots cur = if cur.left == 0 then return slots else elim (c == b'%') [
  | true ↦ unpack_loop fmt true slots cur
  | false ↦ elim (unless_end (advance cur 1)) [
    | none ↦ return slots
    | some cur' ↦ unpack_loop fmt false slots cur'
  ]
]
unpack_loop (c ∷ fmt) true slots cur = if cur.left == 0 then return slots else (do
  t ← convert c slots cur
  elim t.cur [
    | none ↦ return (t.out ++ t.slots)
    | some cur' ↦ do rest ← unpack_loop fmt false t.slots cur'; return (t.out ++ rest)
  ])

-- `NetUnpack` of a message of `bslen` bytes that stands at the front of the memory `bs`.
pub unpack : List ℕ → ℕ → List ℕ → List Slot → M (List Slot)
unpack bs bslen fmt slots = unpack_loop fmt false slots (record { mem = bs; left = bslen })
