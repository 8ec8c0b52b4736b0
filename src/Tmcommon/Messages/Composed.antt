-- ===== src/Tmcommon/Messages/Composed.antt =====
-- A message that is written to a new buffer.
use tm.Base.{ℕ, ◌+◌, ◌*◌, ◌≤◌, ◌<◌, ◌^◌, ◌≡◌, sym, ap, ◌∙◌, arith, inr}
use tm.Base.{List, ◌++◌, length, length-slice, ok, ne→==}
use tm.Clib.Arena.{Arena, ◌>>=◌}
use tm.Clib.Arena.Blocks.{IsValid}
use tm.Clib.Buffer
use tm.Clib.Buffer.{Buffer, initial_cap}
use tm.Clib.Buffer.Contents.{contents, Owns, HasRoom}
use tm.Clib.Buffer.Shift.{new_lem}
use tm.Cnet.Pack.{Arg, pack_len}
use tm.Cnet.Pack.Bytes.{Encodes}
use tm.Cnet.Pack.Framed.{framed, pack_len_lem}
use tm.Tmcommon.Messages.{new_message}

-- Room for a new message of `n` bytes in a buffer that starts at `cap` bytes.
abbrev pub Fits : Arena → ℕ → ℕ → Type 0
Fits a cap n = IsValid a × (0 < cap) × (n < 2 ^ 16) × (a.pos + cap + 4 * (n + 2) ≤ a.cap)

composes :
    (cap n : ℕ) (fmt : List ℕ) (args : List Arg) (x y : Buffer) (a b c : Arena)
    → Buffer.new cap a ≡ ok (x, b)
    → pack_len x fmt args b ≡ ok ((y, n), c)
    → new_message cap fmt args a ≡ ok (y, c)
unfolding new_message
composes cap n fmt args x y a b c e f = rw (e, ◌>>=◌) (rw (f, ◌>>=◌))

-- The buffer holds the message with its length in front, and has room for `n` bytes behind it.
pub new_message-HasRoom :
    {fmt : List ℕ} {args : List Arg} {bs : List ℕ}
    → Encodes fmt args bs
    → (size n : ℕ) (a : Arena) → Fits a size (length bs + n)
    → (b : Arena) × (buf : Buffer) × (new_message size fmt args a ≡ ok (buf, b))
      × Owns b buf
      × (contents b buf ≡ framed bs)
      × HasRoom b buf n
new_message-HasRoom {fmt} {args} {bs} e size n a (v, some_cap, small, fits) =
    let same : initial_cap size ≡ size = rw (ne→== size 0 (omega arith)) in
    let (b, x, e₁, o, empty, at_pos, cap_eq, b_eq) = new_lem size a v (omega (arith, same)) in
    let none_yet : x.len ≡ 0 = sym (length-slice x.bs x.len b.bs (omega arith)) ∙ ap length empty in
    let pos_eq : b.pos ≡ a.pos + initial_cap size = ap (λ t. t.pos) b_eq in
    let same_cap : b.cap ≡ a.cap = ap (λ t. t.cap) b_eq in
    let room : HasRoom b x (2 + length bs + n) =
      (omega (arith, none_yet), inr (omega (arith, none_yet, pos_eq, same_cap, same, cap_eq))) in
    let (c, y, e₂, s, r) = pack_len_lem e (omega arith) x n b o room in
    (
      c,
      y,
      composes size (length bs + 2) fmt args x y a b c e₁ e₂,
      s.owns,
      s.grown ∙ ap (λ l. l ++ framed bs) empty,
      r,
    )

pub new_message_lem :
    {fmt : List ℕ} {args : List Arg} {bs : List ℕ}
    → Encodes fmt args bs
    → (size : ℕ) (a : Arena) → Fits a size (length bs)
    → (b : Arena) × (buf : Buffer) × (new_message size fmt args a ≡ ok (buf, b))
      × Owns b buf
      × (contents b buf ≡ framed bs)
new_message_lem {bs = bs} e size a (v, some_cap, small, fits) =
    let (b, x, f, o, all, r) =
      new_message-HasRoom e size 0 a (v, some_cap, omega arith, omega arith) in
    (b, x, f, o, all)
