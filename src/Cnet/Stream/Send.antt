-- ===== src/Cnet/Stream/Send.antt =====
-- `NetSend` sends what the socket takes, and keeps the rest.
use tm.Base.{ℕ, ◌+◌, ◌-◌, ◌≤◌, ◌<◌, ◌≡◌, refl, ap, ◌∙◌}
use tm.Base.{arith, ok, List, [], ◌∷◌, take, drop}
use tm.Base.{take-add, drop-drop, ne→==, lt→ltb}
use tm.Clib.Arena.{Arena, load, ◌>>=◌}
use tm.Clib.Buffer.{Buffer, shift}
use tm.Clib.Buffer.Contents.{load_front, contents, Owns, Spares, Spares-refl, Spares-trans}
use tm.Clib.Buffer.Shift.{shift_lem}
use tm.Cnet.Stream.{
  Sent, Watch, watch_after, net_send2, Status, finished, failed, ongoing, SendEvent, took, net_send,
}

-- `Takes events n k s rest`: of `n` bytes the socket takes `k`, up to the first answer that is neither
-- a count nor an interrupt, or the last byte, which stands for the result `s`. A count is never above
-- the number of bytes that `send` was given.
pub data Takes : List SendEvent → ℕ → ℕ → Status → List SendEvent → Type 0 where
  all_sent : {rest : List SendEvent} → Takes rest 0 0 finished rest
  would_block :
      {rest : List SendEvent} {n : ℕ}
      → 0 < n
      → Takes (SendEvent.would_block ∷ rest) n 0 ongoing rest
  broken : {rest : List SendEvent} {n : ℕ} → 0 < n → Takes (SendEvent.broken ∷ rest) n 0 failed rest
  interrupted :
      {events rest : List SendEvent} {n k : ℕ} {s : Status}
      → 0 < n
      → Takes events n k s rest
      → Takes (SendEvent.interrupted ∷ events) n k s rest
  some_sent :
      (z : ℕ) {events rest : List SendEvent} {n k : ℕ} {s : Status}
      → 0 < z
      → z ≤ n
      → Takes events (n - z) k s rest
      → Takes (took z ∷ events) n (z + k) s rest

-- The result is 0 only where every byte was taken.
pub Takes-finished :
    {events rest : List SendEvent} {n k : ℕ} → Takes events n k finished rest → k ≡ n
Takes-finished all_sent = refl
Takes-finished (interrupted h t) = Takes-finished t
Takes-finished (some_sent z h l t) = omega (arith, Takes-finished t)

pub Takes-le :
    {events rest : List SendEvent} {n k : ℕ} {s : Status} → Takes events n k s rest → k ≤ n
Takes-le all_sent = omega arith
Takes-le (would_block h) = omega arith
Takes-le (broken h) = omega arith
Takes-le (interrupted h t) = Takes-le t
Takes-le (some_sent z h l t) = omega (arith, Takes-le t)

-- The buffer after `k` of its bytes were sent.
pub record SentOff (a : Arena) (buf : Buffer) (k : ℕ) (b : Arena) (buf' : Buffer) : Type 0 where
  pub owns : Owns b buf'
  pub left : contents b buf' ≡ drop k (contents a buf)
  pub shorter : buf'.len ≡ buf.len - k
  pub same_pos : b.pos ≡ a.pos
  pub spares : Spares a buf b buf'

pub SentOff-none : (a : Arena) (buf : Buffer) → Owns a buf → SentOff a buf 0 a buf
SentOff-none a buf o = record {
  owns = o;
  left = refl;
  shorter = omega arith;
  same_pos = refl;
  spares = Spares-refl a buf;
}

pub SentOff-trans :
    {a b c : Arena} {x y z : Buffer} (j k : ℕ)
    → Owns a x
    → SentOff a x j b y
    → SentOff b y k c z
    → SentOff a x (j + k) c z
SentOff-trans {a} {x = x} j k o s t = record {
  owns = t.owns;
  left = t.left ∙ ap (drop k) s.left ∙ drop-drop k j (contents a x);
  shorter = omega (arith, s.shorter, t.shorter);
  same_pos = t.same_pos ∙ s.same_pos;
  spares = Spares-trans o s.spares t.spares;
}

net_send-empty :
    (events : List SendEvent) (buf : Buffer) (a : Arena)
    → 0 ≡ buf.len
    → net_send events buf a
      ≡ ok (record { status = finished; buf = buf; wire = []; events = events }, a)
unfolding net_send
net_send-empty [] buf a e = rw (← e)
net_send-empty (x ∷ events) buf a e = rw (← e)

took_step :
    (z k : ℕ) (events rest : List SendEvent) (s : Status) (buf x y : Buffer) (a b c : Arena)
    → 0 < z
    → 0 < buf.len
    → load buf.bs z a ≡ ok (take z (contents a buf), a)
    → shift buf z a ≡ ok (x, b)
    → contents b x ≡ drop z (contents a buf)
    → net_send events x b
      ≡ ok (record { status = s; buf = y; wire = take k (contents b x); events = rest }, c)
    → net_send (took z ∷ events) buf a
      ≡ ok (record { status = s; buf = y; wire = take (z + k) (contents a buf); events = rest }, c)
unfolding net_send
took_step z k events rest s buf x y a b c h l loaded shifted left sent =
    rw (ne→== buf.len 0 (omega arith)) (
      rw (lt→ltb 0 z h, loaded, ◌>>=◌)
        (rw (shifted, ◌>>=◌) (rw (sent, ◌>>=◌, left, take-add z k (contents a buf)))))

-- `NetSend` sends a prefix of the buffer's bytes, in order, and leaves exactly the others in the
-- buffer, whatever interrupts it; it answers 0 where every byte was taken, -1 at an error and 1
-- where the socket takes no more for now, and touches nothing else.
pub net_send_lem :
    {events rest : List SendEvent} {n k : ℕ} {s : Status}
    → Takes events n k s rest
    → (buf : Buffer) (a : Arena) → Owns a buf
    → n ≡ buf.len
    → (b : Arena) × (buf' : Buffer) × (net_send events buf a
        ≡ ok (record { status = s; buf = buf'; wire = take k (contents a buf); events = rest }, b))
      × SentOff a buf k b buf'
unfolding net_send
net_send_lem (all_sent {rest = rest}) buf a o e =
    (a, buf, net_send-empty rest buf a e, SentOff-none a buf o)
net_send_lem (would_block h) buf a o e =
    (a, buf, rw (ne→== buf.len 0 (omega arith)), SentOff-none a buf o)
net_send_lem (broken h) buf a o e =
    (a, buf, rw (ne→== buf.len 0 (omega arith)), SentOff-none a buf o)
net_send_lem (interrupted h t) buf a o e =
    let (b, x, f, q) = net_send_lem t buf a o e in (b, x, rw (ne→== buf.len 0 (omega arith)) f, q)
net_send_lem (some_sent z {events = es} {rest = rest} {k = k} {s = st} h l t) buf a o e =
    let (b, x, f, own, left, len, pos, sp) = shift_lem buf z a o in
    let first : SentOff a buf z b x = record {
      owns = own;
      left = left;
      shorter = len;
      same_pos = pos;
      spares = sp;
    } in
    let (c, y, g, q) = net_send_lem t x b own (omega arith) in
    let loaded : load buf.bs z a ≡ ok (take z (contents a buf), a) =
      load_front a buf z o (omega arith) in
    (
      c,
      y,
      took_step z k es rest st buf x y a b c h (omega arith) loaded f left g,
      SentOff-trans z k o first q,
    )

-- `NetSend2` is `NetSend`, and the watch.
pub net_send2_lem :
    (fd : ℕ) (events : List SendEvent) (buf : Buffer) (w : Watch) (a b : Arena) (s : Sent)
    → net_send events buf a ≡ ok (s, b)
    → net_send2 fd events buf w a ≡ ok ((s, watch_after fd s.status w), b)
unfolding net_send2
net_send2_lem fd events buf w a b s e = rw (e, ◌>>=◌)
