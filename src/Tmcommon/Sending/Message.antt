-- ===== src/Tmcommon/Sending/Message.antt =====
-- `send_msg_to_hostaddr` on a new connection.
use tm.Base.{ℕ, ◌+◌, ◌-◌, ◌≤◌, ◌≡◌, refl, ◌∙◌, arith, true}
use tm.Base.{
  set, get_elem?, subst, List, [], ◌∷◌, ◌++◌, length, length-drop, take, drop, some, none, ok,
  ==_iff,
}
use tm.Clib.Arena.{Arena, ◌>>=◌}
use tm.Clib.Arena.Blocks.{IsValid}
use tm.Clib.Buffer.{Buffer, initial_cap}
use tm.Clib.Buffer.Contents.{contents, Owns, HasRoom}
use tm.Cnet.HostAddr.{to_sock_addr}
use tm.Cnet.Stream.{Status, finished, failed, ongoing, SendEvent, watch_after}
use tm.Cnet.Stream.Send.{Takes, Takes-finished}
use tm.Tmcommon.Contexts.{SocketCtx, find_by_toaddr}
use tm.Tmcommon.Contexts.Made.{new_ctx}
use tm.Tmcommon.Sending.{World, send_now, after_send, send_msg_to_hostaddr, Attempt, Effect}
use tm.Tmcommon.Sending.Queued.{queue_lem, send_now_lem, keep_rest_lem, HasRoomFor}

-- The state behind `NetSend2`, where the socket took `k` bytes.
abbrev pub sent_off : World → List ℕ → ℕ → ℕ → ℕ → Status → List Attempt → World
sent_off w msg toaddr fd k s rest = record w {
  watch = watch_after fd s w.watch;
  attempts = rest;
  log = w.log ++ (Effect.asked_connect fd (to_sock_addr toaddr) ∷ Effect.sent fd (take k msg) ∷ []);
}

reaches :
    (scratch d a : Arena) (msg : List ℕ) (toaddr fd k : ℕ) (sends : List SendEvent) (s : Status)
    (rest : List Attempt) (w : World)
    → find_by_toaddr toaddr 0 w.ctxs.items ≡ none
    → w.attempts ≡ Attempt.connected fd sends ∷ rest
    → send_now msg fd sends w.watch scratch
      ≡ ok ((s, take k msg, drop k msg, watch_after fd s w.watch), d)
    → send_msg_to_hostaddr scratch msg toaddr w a
      ≡ after_send fd toaddr s (drop k msg) (sent_off w msg toaddr fd k s rest) a
unfolding send_msg_to_hostaddr
reaches scratch d a msg toaddr fd k sends s rest w e f g =
    rw (send_msg_to_hostaddr, e) (rw f (rw g))

-- What a call leaves, for each result of `NetSend2`: where it took all bytes or failed, the socket is
-- shut down and no context is made; else the bytes that are left are in a new context, which is
-- watched.
abbrev pub Leaves : World → List ℕ → ℕ → ℕ → ℕ → Status → Arena → World → Status → Type 0
Leaves w msg toaddr fd k finished d w' z =
    (z ≡ finished)
    × (k ≡ length msg)
    × (w'.ctxs ≡ w.ctxs)
    × (w'.log
        ≡ w.log
          ++ (Effect.asked_connect fd (to_sock_addr toaddr) ∷ Effect.sent fd (take k msg) ∷ [])
          ++ (Effect.shutdown fd ∷ []))
Leaves w msg toaddr fd k failed d w' z =
    (z ≡ failed)
    × (w'.ctxs ≡ w.ctxs)
    × (w'.log
        ≡ w.log
          ++ (Effect.asked_connect fd (to_sock_addr toaddr) ∷ Effect.sent fd (take k msg) ∷ [])
          ++ (Effect.shutdown fd ∷ []))
Leaves w msg toaddr fd k ongoing d w' z =
    (z ≡ finished)
    × (w'.log
        ≡ w.log
          ++ (Effect.asked_connect fd (to_sock_addr toaddr) ∷ Effect.sent fd (take k msg) ∷ []))
    × (w'.watch.writefds fd ≡ true)
    × ((readbuf writebuf : Buffer) × (w'.ctxs.items
          ≡ w.ctxs.items ++ (new_ctx fd toaddr readbuf writebuf ∷ []))
        × Owns d writebuf
        × (contents d writebuf ≡ drop k msg))

settles :
    (w : World) (msg : List ℕ) (toaddr fd k : ℕ) (s : Status) (rest : List Attempt) (a : Arena)
    → HasRoomFor a w (length msg)
    → ((e : s ≡ finished) → k ≡ length msg)
    → (d : Arena) × (w' : World) × (z : Status) × (after_send fd toaddr s
          (drop k msg)
          (sent_off w msg toaddr fd k s rest)
          a
        ≡ ok ((w', z), d))
      × Leaves w msg toaddr fd k s d w' z
unfolding after_send watch_after
settles w msg toaddr fd k finished rest a r h =
    let w₁ : World = sent_off w msg toaddr fd k finished rest in
    let w' : World = record w₁ { log = w₁.log ++ (Effect.shutdown fd ∷ []) } in
    (a, w', finished, refl, (refl, h refl, refl, refl))
settles w msg toaddr fd k failed rest a r h =
    let w₁ : World = sent_off w msg toaddr fd k failed rest in
    let w' : World = record w₁ { log = w₁.log ++ (Effect.shutdown fd ∷ []) } in
    (a, w', failed, refl, (refl, refl, refl))
settles w msg toaddr fd k ongoing rest a (v, l, fits, small) h =
    let len_left : length (drop k msg) ≡ length msg - k = length-drop k msg in
    let w₁ : World = sent_off w msg toaddr fd k ongoing rest in
    let (d, x, y, e, o, all) =
      keep_rest_lem fd toaddr (drop k msg) w₁ a
        (v, l, omega (arith, len_left), omega (arith, len_left)) in
    let w' : World = record w₁ {
      ctxs = record w.ctxs { items = w.ctxs.items ++ (new_ctx fd toaddr x y ∷ []) };
      watch = watch_after fd ongoing w₁.watch;
    } in
    (d, w', finished, rw (e, ◌>>=◌), (refl, refl, rw ((==_iff fd fd).1 refl), (x, y, refl, o, all)))

-- `send_msg_to_hostaddr`, where no context has the address and the new socket is connected, with
-- room in the scratch arena for the message and in the arena of the contexts for one more with
-- it: `connect` is given the address, and the bytes that the socket took are sent, a prefix of
-- the message. Where it took all of them the answer is 0, and where it failed -1; the socket is
-- shut down then, and no context is made. Where it takes no more for now, the answer is 0, the
-- other bytes are in the write buffer of a new context, and the socket is watched for writing.
pub send_msg_lem :
    {s : Status} {k : ℕ} {sends unused : List SendEvent} (msg : List ℕ)
    → Takes sends (length msg) k s unused
    → (toaddr fd : ℕ) (rest : List Attempt) (w : World) (scratch a : Arena)
    → find_by_toaddr toaddr 0 w.ctxs.items ≡ none
    → w.attempts ≡ Attempt.connected fd sends ∷ rest
    → IsValid scratch
    → scratch.pos + initial_cap (length msg) ≤ scratch.cap
    → HasRoomFor a w (length msg)
    → (d : Arena) × (w' : World) × (z : Status) × (send_msg_to_hostaddr scratch msg toaddr w a
        ≡ ok ((w', z), d))
      × Leaves w msg toaddr fd k s d w' z
send_msg_lem {s} {k} {sends} {unused} msg t toaddr fd rest w scratch a e f v fits r =
    let (scratch', g) =
      send_now_lem msg fd k sends unused s w.watch scratch t v fits (omega (arith, r)) in
    let (d, w', z, h, leaves) =
      settles w msg toaddr fd k s rest a r
        (λ q. Takes-finished (subst (λ u. Takes sends (length msg) k u unused) q t)) in
    (d, w', z, reaches scratch scratch' a msg toaddr fd k sends s rest w e f g ∙ h, leaves)

-- `send_msg_to_hostaddr`, where a context has the address, with room in its write buffer or the
-- arena: the message is appended to the write buffer, the answer is 1, and neither the watched
-- sockets nor what was sent change, whether the socket of the context is watched or not.
pub send_msg-queued :
    (scratch : Arena) (msg : List ℕ) (toaddr i : ℕ) (w : World) (ctx : SocketCtx) (a : Arena)
    → find_by_toaddr toaddr 0 w.ctxs.items ≡ some i
    → get_elem? w.ctxs.items i ≡ some ctx
    → Owns a ctx.writebuf
    → HasRoom a ctx.writebuf (length msg)
    → (b : Arena) × (w' : World) × (buf : Buffer) × (send_msg_to_hostaddr scratch msg toaddr w a
        ≡ ok ((w', ongoing), b))
      × (w'.ctxs.items ≡ set w.ctxs.items i (record ctx { writebuf = buf }))
      × (contents b buf ≡ contents a ctx.writebuf ++ msg)
      × (w'.watch ≡ w.watch)
      × (w'.log ≡ w.log)
unfolding send_msg_to_hostaddr
send_msg-queued scratch msg toaddr i w ctx a e f o r =
    let (b, buf, g, own, all) = queue_lem msg i w ctx a f o r in
    let w' : World = record w {
      ctxs = record w.ctxs { items = set w.ctxs.items i (record ctx { writebuf = buf }) };
    } in
    (b, w', buf, rw (send_msg_to_hostaddr, e) (rw (g, ◌>>=◌)), refl, all, refl, refl)
