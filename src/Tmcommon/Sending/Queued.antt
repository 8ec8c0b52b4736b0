-- ===== src/Tmcommon/Sending/Queued.antt =====
-- No byte of a message is lost between the socket and the queue.
use tm.Base.{ℕ, ◌+◌, ◌*◌, ◌^◌, ◌≤◌, ◌<◌, ◌≡◌, sym, ap, ◌∙◌, inl, arith}
use tm.Base.{List, [], ◌∷◌, ◌++◌, length, length-slice, take, drop, set, get_elem?, some, ok}
use tm.Clib.Arena.{Arena, load, ◌>>=◌}
use tm.Clib.Arena.Blocks.{IsValid, load_inside}
use tm.Clib.Array.Items.{item-some, set_last, get_last}
use tm.Clib.Buffer
use tm.Clib.Buffer.{Buffer, initial_cap}
use tm.Clib.Buffer.Contents.{contents, Owns, HasRoom}
use tm.Clib.Buffer.Append.{append_lem}
use tm.Clib.Buffer.Shift.{new_lem}
use tm.Cnet.Stream.{Status, ongoing, SendEvent, Watch, watch_after, net_send}
use tm.Cnet.Stream.Send.{Takes, net_send_lem, net_send2_lem}
use tm.Tmcommon.Contexts.Made.{new_ctx, ctx_new_runs}
use tm.Tmcommon.Contexts.{SocketCtx}
use tm.Tmcommon.Sending.{World, queue, send_now, keep_rest}

send_now_runs :
    (msg : List ℕ) (fd k : ℕ) (sends rest : List SendEvent) (s : Status) (watch : Watch)
    (x y z : Buffer) (a b c d : Arena)
    → Buffer.new (length msg) a ≡ ok (x, b)
    → Buffer.append x msg b ≡ ok (y, c)
    → net_send sends y c ≡ ok (record { status = s; buf = z; wire = take k msg; events = rest }, d)
    → load z.bs z.len d ≡ ok (drop k msg, d)
    → send_now msg fd sends watch a ≡ ok ((s, take k msg, drop k msg, watch_after fd s watch), d)
unfolding send_now
send_now_runs msg fd k sends rest s watch x y z a b c d e f g h =
    rw (e, ◌>>=◌)
      (rw (f, ◌>>=◌) (rw (net_send2_lem fd sends y watch c d _ g, ◌>>=◌) (rw (h, ◌>>=◌))))

pub send_now_lem :
    (msg : List ℕ) (fd k : ℕ) (sends rest : List SendEvent) (s : Status) (watch : Watch) (a : Arena)
    → Takes sends (length msg) k s rest
    → IsValid a
    → a.pos + initial_cap (length msg) ≤ a.cap
    → length msg < 2 ^ 62
    → (d : Arena) × (send_now msg fd sends watch a
        ≡ ok ((s, take k msg, drop k msg, watch_after fd s watch), d))
send_now_lem msg fd k sends rest s watch a t v fits small =
    let (b, x, e, o, empty, at_pos, cap_eq, b_eq) = new_lem (length msg) a v fits in
    let none_yet : x.len ≡ 0 = sym (length-slice x.bs x.len b.bs (omega arith)) ∙ ap length empty in
    let enough : length msg ≤ initial_cap (length msg) = ground arith in
    let (c, y, f, ap_, r) =
      append_lem x msg 0 b o (omega arith, inl (omega (arith, none_yet, cap_eq, enough))) in
    let all : contents c y ≡ msg = ap_.grown ∙ ap (λ l. l ++ msg) empty in
    let (d, z, g, q) = net_send_lem t y c ap_.owns (omega (arith, ap_.longer, none_yet)) in
    (
      d,
      send_now_runs msg fd k sends rest s watch x y z a b c d e f
          (g ∙ ap (λ l. ok (record { status = s; buf = z; wire = take k l; events = rest }, d)) all)
          (load_inside z.bs z.len d (omega (arith, q.owns))
            ∙ ap (λ l. ok (l, d)) (q.left ∙ ap (drop k) all)),
    )

-- The bytes that wait in a context are followed by `bs`.
pub queue_lem :
    (bs : List ℕ) (i : ℕ) (w : World) (ctx : SocketCtx) (a : Arena)
    → get_elem? w.ctxs.items i ≡ some ctx
    → Owns a ctx.writebuf
    → HasRoom a ctx.writebuf (length bs)
    → (b : Arena) × (buf : Buffer) × (queue bs i w a
        ≡ ok (
          record w {
            ctxs = record w.ctxs { items = set w.ctxs.items i (record ctx { writebuf = buf }) };
          },
          b,
        ))
      × Owns b buf
      × (contents b buf ≡ contents a ctx.writebuf ++ bs)
unfolding queue
queue_lem bs i w ctx a e o r =
    let (b, buf, f, s, room) = append_lem ctx.writebuf bs 0 a o (omega arith) in
    (b, buf, rw (item-some w.ctxs i ctx a e, ◌>>=◌) (rw (f, ◌>>=◌)), s.owns, s.grown)

keep_rest_runs :
    (fd toaddr : ℕ) (left : List ℕ) (w : World) (x y z : Buffer) (a b c d : Arena)
    → Buffer.new 1 a ≡ ok (x, b)
    → Buffer.new 64 b ≡ ok (y, c)
    → length w.ctxs.items < w.ctxs.cap
    → queue left
        (length w.ctxs.items)
        (record w { ctxs = record w.ctxs { items = w.ctxs.items ++ (new_ctx fd toaddr x y ∷ []) } })
        c
      ≡ ok (
        record w { ctxs = record w.ctxs { items = w.ctxs.items ++ (new_ctx fd toaddr x z ∷ []) } },
        d,
      )
    → keep_rest fd toaddr left w a
      ≡ ok (
        record w {
          ctxs = record w.ctxs { items = w.ctxs.items ++ (new_ctx fd toaddr x z ∷ []) };
          watch = watch_after fd ongoing w.watch;
        },
        d,
      )
unfolding keep_rest watch_after
keep_rest_runs fd toaddr left w x y z a b c d e f l g =
    rw (ctx_new_runs fd toaddr w.ctxs x y a b c e f l, ◌>>=◌) (rw (g, ◌>>=◌))

-- Room for a context and `n` bytes in it.
abbrev pub HasRoomFor : Arena → World → ℕ → Type 0
HasRoomFor a w n =
    IsValid a × (length w.ctxs.items < w.ctxs.cap) × (a.pos + 65 + 4 * n ≤ a.cap) × (n < 2 ^ 60)

pub keep_rest_lem :
    (fd toaddr : ℕ) (left : List ℕ) (w : World) (a : Arena)
    → HasRoomFor a w (length left)
    → (d : Arena) × (x z : Buffer) × (keep_rest fd toaddr left w a
        ≡ ok (
          record w {
            ctxs = record w.ctxs { items = w.ctxs.items ++ (new_ctx fd toaddr x z ∷ []) };
            watch = watch_after fd ongoing w.watch;
          },
          d,
        ))
      × Owns d z
      × (contents d z ≡ left)
keep_rest_lem fd toaddr left w a (v, l, fits, small) =
    let (b, x, e, o, empty, at_pos, cap_eq, b_eq) = new_lem 1 a v (omega arith) in
    let b_pos : b.pos ≡ a.pos + 1 = ap (λ (r : Arena). r.pos) b_eq in
    let b_cap : b.cap ≡ a.cap = ap (λ (r : Arena). r.cap) b_eq in
    let (c, y, f, o', empty', at_pos', cap_eq', c_eq) =
      new_lem 64 b o.valid (omega (arith, b_pos, b_cap)) in
    let c_pos : c.pos ≡ b.pos + 64 = ap (λ (r : Arena). r.pos) c_eq in
    let c_cap : c.cap ≡ b.cap = ap (λ (r : Arena). r.cap) c_eq in
    let none_yet : y.len ≡ 0 =
      sym (length-slice y.bs y.len c.bs (omega arith)) ∙ ap length empty' in
    let ctx : SocketCtx = new_ctx fd toaddr x y in
    let w' : World = record w { ctxs = record w.ctxs { items = w.ctxs.items ++ (ctx ∷ []) } } in
    let room : HasRoom c y (length left) =
      (omega (arith, none_yet), omega (arith, none_yet, c_pos, c_cap, b_pos, b_cap, cap_eq')) in
    let (d, z, g, oz, all) =
      queue_lem left (length w.ctxs.items) w' ctx c (get_last w.ctxs.items ctx) o' room in
    (
      d,
      x,
      z,
      keep_rest_runs fd toaddr left w x y z a b c d e f l
          (rw (set_last w.ctxs.items ctx (record ctx { writebuf = z })) at g),
      oz,
      all ∙ ap (λ l. l ++ left) empty',
    )
