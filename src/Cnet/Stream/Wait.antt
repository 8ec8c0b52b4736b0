-- ===== src/Cnet/Stream/Wait.antt =====
-- `NetSend_wait_until_complete` sends all it is given, or says that it did not.
use tm.Base.{ℕ, ◌+◌, ◌-◌, ◌≡◌, refl, ok, List, ◌∷◌, take, drop, true, false, arith}
use tm.Base.{take-add}
use tm.Clib.Arena.{Arena, ◌>>=◌}
use tm.Clib.Buffer.{Buffer}
use tm.Clib.Buffer.Contents.{contents, Owns}
use tm.Cnet.Stream.{
  Status, finished, failed, ongoing, SendEvent, SelectEvent, net_send, wait_loop,
  wait_until_complete,
}
use tm.Base.{◌⊎◌, inl, inr}
use tm.Cnet.Stream.Send.{
  Takes, Takes-finished, Takes-le, SentOff, SentOff-none, SentOff-trans, net_send_lem,
}

-- `Waits selects sends n k s rest`: of `n` bytes the socket takes `k`, over calls of `select` and
-- rounds of `send`.
pub data Waits : List SelectEvent → List SendEvent → ℕ → ℕ → Status → List SendEvent → Type 0 where
  timeout :
      {selects : List SelectEvent} {sends : List SendEvent} {n : ℕ}
      → Waits (SelectEvent.timeout ∷ selects) sends n 0 failed sends
  broken :
      {selects : List SelectEvent} {sends : List SendEvent} {n : ℕ}
      → Waits (SelectEvent.broken ∷ selects) sends n 0 failed sends
  interrupted :
      {selects : List SelectEvent} {sends rest : List SendEvent} {n k : ℕ} {s : Status}
      → Waits selects sends n k s rest
      → Waits (SelectEvent.interrupted ∷ selects) sends n k s rest
  not_ready :
      {selects : List SelectEvent} {sends rest : List SendEvent} {n k : ℕ} {s : Status}
      → Waits selects sends n k s rest
      → Waits (SelectEvent.ready false ∷ selects) sends n k s rest
  all_sent :
      {selects : List SelectEvent} {sends rest : List SendEvent} {n k : ℕ}
      → Takes sends n k finished rest
      → Waits (SelectEvent.ready true ∷ selects) sends n k finished rest
  send_broken :
      {selects : List SelectEvent} {sends rest : List SendEvent} {n k : ℕ}
      → Takes sends n k failed rest
      → Waits (SelectEvent.ready true ∷ selects) sends n k failed rest
  some_sent :
      {selects : List SelectEvent} {sends sends' rest : List SendEvent} {n j k : ℕ} {s : Status}
      → Takes sends n j ongoing sends'
      → Waits selects sends' (n - j) k s rest
      → Waits (SelectEvent.ready true ∷ selects) sends n (j + k) s rest

again :
    (selects : List SelectEvent) (sends sends' rest : List SendEvent) (s : Status) (j k : ℕ)
    (buf x y : Buffer) (a b c : Arena)
    → net_send sends buf a
      ≡ ok
          (record { status = ongoing; buf = x; wire = take j (contents a buf); events = sends' }, b)
    → contents b x ≡ drop j (contents a buf)
    → wait_loop selects sends' x b
      ≡ ok (record { status = s; buf = y; wire = take k (contents b x); events = rest }, c)
    → wait_loop (SelectEvent.ready true ∷ selects) sends buf a
      ≡ ok (record { status = s; buf = y; wire = take (j + k) (contents a buf); events = rest }, c)
unfolding wait_loop
again selects sends sends' rest s j k buf x y a b c e left f =
    rw (e, ◌>>=◌) (rw (f, ◌>>=◌, left, take-add j k (contents a buf)))

stops :
    (selects : List SelectEvent) (sends rest : List SendEvent) (k : ℕ) (buf x : Buffer)
    (a b : Arena)
    → net_send sends buf a
      ≡ ok (record { status = finished; buf = x; wire = take k (contents a buf); events = rest }, b)
    → wait_loop (SelectEvent.ready true ∷ selects) sends buf a
      ≡ ok (record { status = finished; buf = x; wire = take k (contents a buf); events = rest }, b)
unfolding wait_loop
stops selects sends rest k buf x a b e = rw (e, ◌>>=◌)

fails :
    (selects : List SelectEvent) (sends rest : List SendEvent) (k : ℕ) (buf x : Buffer)
    (a b : Arena)
    → net_send sends buf a
      ≡ ok (record { status = failed; buf = x; wire = take k (contents a buf); events = rest }, b)
    → wait_loop (SelectEvent.ready true ∷ selects) sends buf a
      ≡ ok (record { status = failed; buf = x; wire = take k (contents a buf); events = rest }, b)
unfolding wait_loop
fails selects sends rest k buf x a b e = rw (e, ◌>>=◌)

pub wait_loop_lem :
    {selects : List SelectEvent} {sends rest : List SendEvent} {n k : ℕ} {s : Status}
    → Waits selects sends n k s rest
    → (buf : Buffer) (a : Arena) → Owns a buf
    → n ≡ buf.len
    → (b : Arena) × (buf' : Buffer) × (wait_loop selects sends buf a
        ≡ ok (record { status = s; buf = buf'; wire = take k (contents a buf); events = rest }, b))
      × SentOff a buf k b buf'
unfolding wait_loop
wait_loop_lem timeout buf a o e = (a, buf, refl, SentOff-none a buf o)
wait_loop_lem broken buf a o e = (a, buf, refl, SentOff-none a buf o)
wait_loop_lem (interrupted w) buf a o e = wait_loop_lem w buf a o e
wait_loop_lem (not_ready w) buf a o e = wait_loop_lem w buf a o e
wait_loop_lem (all_sent {selects} {sends} {rest} {k = k} t) buf a o e =
    let (b, x, f, q) = net_send_lem t buf a o e in (b, x, stops selects sends rest k buf x a b f, q)
wait_loop_lem (send_broken {selects} {sends} {rest} {k = k} t) buf a o e =
    let (b, x, f, q) = net_send_lem t buf a o e in (b, x, fails selects sends rest k buf x a b f, q)
wait_loop_lem (some_sent {selects} {sends} {sends'} {rest} {j = j} {k = k} {s = s} t w) buf a o e =
    let (b, x, f, q) = net_send_lem t buf a o e in
    let (c, y, g, r) = wait_loop_lem w x b q.owns (omega (arith, q.shorter)) in
    (c, y, again selects sends sends' rest s j k buf x y a b c f q.left g, SentOff-trans j k o q r)

-- It does not give up with bytes left without saying so.
Waits-outcome :
    {selects : List SelectEvent} {sends rest : List SendEvent} {n k : ℕ} {s : Status}
    → Waits selects sends n k s rest
    → ((s ≡ finished) × (k ≡ n)) ⊎ (s ≡ failed)
Waits-outcome timeout = inr refl
Waits-outcome broken = inr refl
Waits-outcome (interrupted w) = Waits-outcome w
Waits-outcome (not_ready w) = Waits-outcome w
Waits-outcome (all_sent t) = inl (refl, Takes-finished t)
Waits-outcome (send_broken t) = inr refl
Waits-outcome (some_sent t w) = elim (Waits-outcome w) [
  | inl (e, f) ↦ inl (e, omega (arith, f, Takes-le t))
  | inr e ↦ inr e
]

-- `NetSend_wait_until_complete` sends a prefix of the buffer's bytes, in order, over any number
-- of calls of `select`, leaves exactly the others in the buffer and touches nothing else; it
-- answers 0 where every byte was taken, and -1 else.
pub wait_until_complete_lem :
    {selects : List SelectEvent} {sends rest : List SendEvent} {n k : ℕ} {s : Status}
    → Waits (SelectEvent.ready true ∷ selects) sends n k s rest
    → (buf : Buffer) (a : Arena) → Owns a buf
    → n ≡ buf.len
    → (b : Arena) × (buf' : Buffer) × (wait_until_complete selects sends buf a
        ≡ ok (record { status = s; buf = buf'; wire = take k (contents a buf); events = rest }, b))
      × SentOff a buf k b buf'
      × (((s ≡ finished) × (k ≡ n)) ⊎ (s ≡ failed))
unfolding wait_until_complete wait_loop
wait_until_complete_lem w buf a o e =
    let (b, x, f, q) = wait_loop_lem w buf a o e in (b, x, f, q, Waits-outcome w)
