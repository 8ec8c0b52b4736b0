-- ===== src/Cnet/Stream/Receive.antt =====
-- `NetRecv` gathers what the socket has.
use tm.Base.{ℕ, ◌+◌, ◌≡◌, refl, arith, ok, List, [], ◌∷◌, ◌++◌, length, length-append}
use tm.Clib.Arena.{Arena, ◌>>=◌}
use tm.Clib.Buffer.{Buffer}
use tm.Clib.Buffer.Contents.{Owns, HasRoom}
use tm.Clib.Buffer.Append.{Appended, append_lem, Appended-nil, Appended-append}
use tm.Cnet.Stream.{Status, finished, failed, ongoing, RecvEvent, bytes, net_recv}

-- `Delivers events xs s rest`: up to the first answer that is neither bytes nor an interrupt, which
-- stands for the result `s`, the socket gives the bytes `xs`.
pub data Delivers : List RecvEvent → List ℕ → Status → List RecvEvent → Type 0 where
  eof : {rest : List RecvEvent} → Delivers (RecvEvent.eof ∷ rest) [] finished rest
  would_block : {rest : List RecvEvent} → Delivers (RecvEvent.would_block ∷ rest) [] ongoing rest
  broken : {rest : List RecvEvent} → Delivers (RecvEvent.broken ∷ rest) [] failed rest
  interrupted :
      {events rest : List RecvEvent} {xs : List ℕ} {s : Status}
      → Delivers events xs s rest
      → Delivers (RecvEvent.interrupted ∷ events) xs s rest
  more :
      (ys : List ℕ) {events rest : List RecvEvent} {xs : List ℕ} {s : Status}
      → Delivers events xs s rest
      → Delivers (bytes ys ∷ events) (ys ++ xs) s rest

-- Given room, `NetRecv` appends all bytes that the socket gives, in order, whatever interrupts
-- it, answers 0 at the end of the stream, -1 at an error and 1 where the socket has no more for
-- now, and touches nothing else. What came before an error or the end is kept.
pub net_recv_lem :
    {events rest : List RecvEvent} {xs : List ℕ} {s : Status}
    → Delivers events xs s rest
    → (buf : Buffer) (n : ℕ) (a : Arena) → Owns a buf
    → HasRoom a buf (length xs + n)
    → (b : Arena) × (buf' : Buffer) × (net_recv events buf a
        ≡ ok (record { status = s; buf = buf'; events = rest }, b))
      × Appended a buf xs b buf'
      × HasRoom b buf' n
unfolding net_recv
net_recv_lem eof buf n a o r = (a, buf, refl, Appended-nil a buf o, omega arith)
net_recv_lem would_block buf n a o r = (a, buf, refl, Appended-nil a buf o, omega arith)
net_recv_lem broken buf n a o r = (a, buf, refl, Appended-nil a buf o, omega arith)
net_recv_lem (interrupted d) buf n a o r = net_recv_lem d buf n a o r
net_recv_lem (more ys {xs = xs} d) buf n a o r =
    let len_all : length (ys ++ xs) ≡ length ys + length xs = length-append ys xs in
    let (b, x, e, s, q) = append_lem buf ys (length xs + n) a o (omega (arith, len_all)) in
    let (c, y, f, t, u) = net_recv_lem d x n b s.owns q in
    (c, y, rw (e, ◌>>=◌) f, Appended-append ys xs o s t, u)
