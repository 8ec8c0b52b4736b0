-- ===== src/Tracker/Framing.antt =====
-- tmtracker.c, `THREAD_wait_for_tcp_messages`: the loop that cuts the bytes in a socket's read buffer
-- into messages.
pub mod Splits
pub mod Reads
pub mod Keeps
use tm.Base.{ℕ, zero, suc, ◌+◌, ◌*◌, ◌≤◌, ◌<◌, ◌≡◌, Bool, true, false}
use tm.Base.{List, [], ◌∷◌, take, ok, fault, unfinished, leb, ◌==◌}
use tm.Clib.Arena.{Arena, M, return, ◌>>=◌, load}
use tm.Clib.Buffer
use tm.Clib.Buffer.{Buffer}
use tm.Clib.Buffer.Contents.{contents, Owns}
use tm.Cnet.HostAddr.{htons}

-- The fields of the `SocketCtx` that the loop works on, and its local `read_eof`.
pub record Reading : Type 0 where
  pub readbuf : Buffer
  pub msglen : ℕ
  pub read_eof : Bool

-- `*(u16 *) bs` on a little-endian machine.
abbrev pub native_u16 : List ℕ → ℕ
native_u16 [] = 0
native_u16 (x ∷ []) = x
native_u16 (x ∷ y ∷ xs) = x + 256 * y

-- `while (1) { if (socketctx->msglen == 0) ...`, with `handle_msg` as `handle`: it is given where the
-- message is and how long it is, and it works on a state `S` of its own.
unfoldable pub read_loop : {S : Type 0} → (ℕ → ℕ → S → M S) → ℕ → Reading → S → M (Reading × S)
read_loop handle zero r s = λ a. fault unfinished
read_loop handle (suc fuel) r s = elim (r.msglen == 0) [
  | true ↦ elim (leb 2 r.readbuf.len) [
    | true ↦ do
      bs ← load r.readbuf.bs 2
      elim (htons (native_u16 bs) == 0) [
        | true ↦ return (record r { read_eof = true }, s)
        | false ↦ do
          buf ← Buffer.shift r.readbuf 2
          read_loop handle fuel (record r { readbuf = buf; msglen = htons (native_u16 bs) }) s
      ]
    | false ↦ return (r, s)
  ]
  | false ↦ elim (leb r.msglen r.readbuf.len) [
    | true ↦ do
      s' ← handle r.readbuf.bs r.msglen s
      buf ← Buffer.shift r.readbuf r.msglen
      read_loop handle fuel (record r { readbuf = buf; msglen = 0 }) s'
    | false ↦ return (r, s)
  ]
]

-- Each round but the last removes a byte at least: `Reads.read_loop_lem`.
abbrev pub read_fuel : Reading → ℕ
read_fuel r = suc r.readbuf.len

-- What the loop needs of `handle_msg`: on some messages it makes a step, whatever stands behind the
-- message in the buffer, and it leaves the buffer as it is.
pub record Handler (S : Type 0) : Type 1 where
  pub handle : ℕ → ℕ → S → M S
  pub Handles : List ℕ → S → S → Type 0
  pub keeps :
      (buf : Buffer) (n : ℕ) (s s' : S) (a : Arena)
      → Owns a buf
      → 0 < n
      → n ≤ buf.len
      → Handles (take n (contents a buf)) s s'
      → (b : Arena) × (handle buf.bs n s a ≡ ok (s', b))
        × Owns b buf
        × (contents b buf ≡ contents a buf)
