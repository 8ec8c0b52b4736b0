-- ===== src/Clib/Buffer/Shift.antt =====
-- `BufferNew`, `BufferClear` and `BufferShift`.
use tm.Base.{ℕ, ◌+◌, ◌-◌, ◌≤◌, ◌≡◌, refl, sym, subst, ◌∙◌, inl, inr}
use tm.Base.{arith, List, [], length, slice, write, drop, replicate, ok, ltb, Bool-cases}
use tm.Base.{
  slice-write_same, slice-write_before, slice-write_after, length-write, length-replicate,
}
use tm.Base.{length-slice, drop-slice, drop-nil, if◌then◌else◌, ltb→lt, le→leb}
use tm.Clib.Arena.{Arena, ◌>>=◌, store}
use tm.Clib.Arena.Blocks.{IsValid, alloc_fits, store_inside, load_inside}
use tm.Clib.Buffer.{Buffer, initial_cap, new, clear, shift}
use tm.Clib.Buffer.Contents.{contents, Owns, Spares, Spares-trans}

-- A write into a buffer's block spares the rest.
pub write-Spares :
    (a : Arena) (buf buf' : Buffer) (off : ℕ) (xs : List ℕ)
    → buf.bs ≤ off
    → off + length xs ≤ buf.bs + buf.cap
    → buf'.bs ≡ buf.bs
    → buf'.cap ≡ buf.cap
    → Spares a buf (record a { bs = write off xs a.bs }) buf'
write-Spares a buf buf' off xs h k e f = record {
  grows = omega arith;
  same_cap = refl;
  place = inl (e, f);
  before = λ p n l. slice-write_before p n off xs a.bs (omega arith);
  after = λ p n l m. slice-write_after p n off xs a.bs (omega arith);
}

-- `BufferClear` empties the buffer and touches nothing else.
pub clear_lem :
    (buf : Buffer) (a : Arena)
    → Owns a buf
    → let b = record a { bs = write buf.bs (replicate buf.len 0) a.bs } in
      let buf' = record buf { len = 0 } in
      (clear buf a ≡ ok (buf', b)) × Owns b buf' × (contents b buf' ≡ []) × Spares a buf b buf'
unfolding clear
clear_lem buf a o =
    let zeros : List ℕ = replicate buf.len 0 in
    let len_zeros : length zeros ≡ buf.len = length-replicate buf.len 0 in
    (
      rw (store_inside buf.bs zeros a (omega arith), ◌>>=◌),
      omega (arith, length-write buf.bs zeros a.bs),
      refl,
      write-Spares a buf _ buf.bs zeros (omega arith) (omega arith) refl refl,
    )

module _ (buf : Buffer) (k : ℕ) (a : Arena) (o : Owns a buf) (h : k ≤ buf.len) where
  abbrev rest : List ℕ
  rest = slice (buf.bs + k) (buf.len - k) a.bs

  abbrev zeros : List ℕ
  zeros = replicate (buf.cap - (buf.len - k)) 0

  abbrev copied : Arena
  copied = record a { bs = write buf.bs rest a.bs }

  abbrev cleared : Arena
  cleared = record a { bs = write (buf.bs + (buf.len - k)) zeros copied.bs }

  abbrev shifted : Buffer
  shifted = record buf { len = buf.len - k }

  length-rest : length rest ≡ buf.len - k
  length-rest = length-slice (buf.bs + k) (buf.len - k) a.bs (omega arith)

  length-cleared : length cleared.bs ≡ length a.bs
  length-cleared =
      length-write (buf.bs + (buf.len - k)) zeros copied.bs ∙ length-write buf.bs rest a.bs

  -- The bytes from the `k`-th on move to the front, and the block behind them is zeroed.
  contents-cleared : contents cleared shifted ≡ drop k (contents a buf)
  contents-cleared =
      slice-write_before buf.bs (buf.len - k) _ zeros copied.bs (omega arith)
      ∙ subst (λ t. slice buf.bs t copied.bs ≡ rest) length-rest
          (slice-write_same buf.bs rest a.bs (omega (arith, length-rest)))
      ∙ sym (drop-slice k buf.bs buf.len a.bs h)

  cleared-Owns : Owns cleared shifted
  cleared-Owns = omega (arith, length-cleared)

  cleared-Spares : Spares a buf cleared shifted
  cleared-Spares =
      let len_zeros : length zeros ≡ buf.cap - (buf.len - k) =
        length-replicate (buf.cap - (buf.len - k)) 0 in
      Spares-trans o
        (write-Spares a buf buf buf.bs rest (omega arith) (omega (arith, length-rest)) refl refl)
        (write-Spares copied buf shifted _ zeros (omega arith) (omega (arith, len_zeros)) refl refl)

  stores :
      (store buf.bs rest a ≡ ok (tt, copied))
      × (store (buf.bs + (buf.len - k)) zeros copied ≡ ok (tt, cleared))
  stores =
      let len_zeros : length zeros ≡ buf.cap - (buf.len - k) =
        length-replicate (buf.cap - (buf.len - k)) 0 in
      let len_copied : length copied.bs ≡ length a.bs = length-write buf.bs rest a.bs in
      (
        store_inside buf.bs rest a (omega (arith, length-rest)),
        store_inside (buf.bs + (buf.len - k)) zeros copied (omega (arith, len_zeros, len_copied)),
      )

-- The number of bytes that `BufferShift` removes.
abbrev pub removed : Buffer → ℕ → ℕ
removed buf n = if ltb buf.len n then buf.len else n

removed-le : (buf : Buffer) (n : ℕ) → removed buf n ≤ buf.len
removed-le buf n = ground arith

drop-removed :
    (a : Arena) (buf : Buffer) (n : ℕ)
    → Owns a buf
    → drop (removed buf n) (contents a buf) ≡ drop n (contents a buf)
drop-removed a buf n o =
    let len_all : length (contents a buf) ≡ buf.len =
      length-slice buf.bs buf.len a.bs (omega arith) in
    elim (Bool-cases (ltb buf.len n)) [
      | inl l ↦ rw l (
          drop-nil buf.len _ (omega (arith, len_all))
          ∙ sym (drop-nil n _ (omega (arith, len_all, ltb→lt buf.len n l))))
      | inr l ↦ rw l
    ]

-- `BufferShift` drops the first `n` bytes, all of them if there are no more, and touches nothing
-- else.
pub shift_lem :
    (buf : Buffer) (n : ℕ) (a : Arena)
    → Owns a buf
    → (b : Arena) × (buf' : Buffer) × (shift buf n a ≡ ok (buf', b))
      × Owns b buf'
      × (contents b buf' ≡ drop n (contents a buf))
      × (buf'.len ≡ buf.len - n)
      × (b.pos ≡ a.pos)
      × Spares a buf b buf'
unfolding shift
shift_lem buf n a o =
    let k : ℕ = removed buf n in
    let h : k ≤ buf.len = removed-le buf n in
    let (s₁, s₂) = stores buf k a o h in
    (
      cleared buf k a o h,
      shifted buf k a o h,
      rw (le→leb buf.len buf.cap o.used) (
          rw (load_inside (buf.bs + k) (buf.len - k) a (omega arith), ◌>>=◌)
            (rw (s₁, ◌>>=◌) (rw (s₂, ◌>>=◌)))),
      cleared-Owns buf k a o h,
      contents-cleared buf k a o h ∙ drop-removed a buf n o,
      ground arith,
      refl,
      cleared-Spares buf k a o h,
    )

-- `BufferNew` makes an empty buffer in a block of its own, of 1024 bytes for a capacity of 0.
pub new_lem :
    (c : ℕ) (a : Arena)
    → IsValid a
    → a.pos + initial_cap c ≤ a.cap
    → (b : Arena) × (buf : Buffer) × (new c a ≡ ok (buf, b))
      × Owns b buf
      × (contents b buf ≡ [])
      × (buf.bs ≡ a.pos)
      × (buf.cap ≡ initial_cap c)
      × (b ≡ record a { pos = a.pos + initial_cap c })
unfolding new
new_lem c a v h = (
  record a { pos = a.pos + initial_cap c },
  record { bs = a.pos; len = 0; cap = initial_cap c },
  rw (alloc_fits _ a v h, ◌>>=◌),
  ground arith,
  refl,
  refl,
  refl,
  refl,
)
