-- ===== src/Tracker/Handling/Told.antt =====
-- The messages of `handle_msg`, and the loop that tells the new peer of the others.
use tm.Base.{ℕ, ◌+◌, ◌-◌, ◌%◌, ◌^◌, ◌≤◌, ◌<◌, ◌≡◌, sym, ap, ◌∙◌, arith}
use tm.Base.{List, ◌++◌, length, length-append, length-slice, take, take-all, ok}
use tm.Clib.Arena.{Arena, ◌>>=◌}
use tm.Clib.Buffer
use tm.Clib.Buffer.{Buffer}
use tm.Clib.Buffer.Contents.{contents, Owns, HasRoom, load_front}
use tm.Clib.Buffer.Shift.{clear_lem}
use tm.Clib.Static.{c_str}
use tm.Cnet.Pack.{Arg, pack_len}
use tm.Cnet.Pack.Bytes.{Encodes, big_endian}
use tm.Cnet.Pack.Framed.{framed, pack_len_lem}
use tm.Tmcommon.Messages.{peer_online_fmt, new_message}
use tm.Tmcommon.Messages.Formats.{online_bytes, online-Encodes}
use tm.Tmcommon.Messages.Composed.{Fits, new_message-HasRoom}
use tm.Tmcommon.Peers.{Peer}
use tm.Tmcommon.Messages.{online_args}
use tm.Tracker.Handling.{packed, first_message, next_message}

-- The bytes that are sent are the message with its length in front.
packed_lem :
    (buf : Buffer) (a : Arena) (bs : List ℕ)
    → Owns a buf
    → contents a buf ≡ framed bs
    → length bs < 65000
    → packed buf a ≡ ok (framed bs, a)
unfolding packed
packed_lem buf a bs o all h =
    let len : length (framed bs) ≡ buf.len =
      ap length (sym all) ∙ length-slice buf.bs buf.len a.bs (omega arith) in
    let small : buf.len % 2 ^ 16 ≡ buf.len = omega (arith, len) in
    rw small (
      load_front a buf buf.len o (omega arith)
      ∙ ap (λ l. ok (l, a))
          (ap (take buf.len) all ∙ take-all buf.len (framed bs) (omega (arith, len))))

first_runs :
    (fmt : List ℕ) (args : List Arg) (buf : Buffer) (bytes : List ℕ) (a b : Arena)
    → new_message 1024 fmt args a ≡ ok (buf, b)
    → packed buf b ≡ ok (bytes, b)
    → first_message fmt args a ≡ ok ((buf, bytes), b)
unfolding first_message
first_runs fmt args buf bytes a b e f = rw (e, ◌>>=◌) (rw (f, ◌>>=◌))

-- Room for each of the messages in the loop, which are at most 57 bytes long.
pub record Roomy (s : Arena) (buf : Buffer) : Type 0 where
  pub owns : Owns s buf
  pub more : ℕ
  pub room : HasRoom s buf more
  pub enough : 64 ≤ buf.len + more

pub first_message_lem :
    {fmt : List ℕ} {args : List Arg} {bs : List ℕ}
    → Encodes fmt args bs
    → (a : Arena) → Fits a 1024 (length bs + 64)
    → length bs < 60000
    → (b : Arena) × (buf : Buffer) × (first_message fmt args a ≡ ok ((buf, framed bs), b))
      × Roomy b buf
first_message_lem {fmt} {args} {bs} e a fits short =
    let (b, buf, f, o, all, r) = new_message-HasRoom e 1024 64 a fits in
    let len : length (framed bs) ≡ buf.len =
      ap length (sym all) ∙ length-slice buf.bs buf.len b.bs (omega arith) in
    (
      b,
      buf,
      first_runs fmt args buf (framed bs) a b f (packed_lem buf b bs o all (omega arith)),
      record { owns = o; more = 64; room = r; enough = omega arith },
    )

next_runs :
    (buf cleared buf' : Buffer) (p : Peer) (n : ℕ) (bytes : List ℕ) (a b c : Arena)
    → Buffer.clear buf a ≡ ok (cleared, b)
    → pack_len cleared peer_online_fmt
        (online_args (c_str p.alias) (c_str p.hostname) p.fromaddr p.toaddr)
        b
      ≡ ok ((buf', n), c)
    → packed buf' c ≡ ok (bytes, c)
    → next_message buf p a ≡ ok ((buf', bytes), c)
unfolding next_message
next_runs buf cleared buf' p n bytes a b c e f g = rw (e, ◌>>=◌) (rw (f, ◌>>=◌) (rw (g, ◌>>=◌)))

pub next_message_lem :
    (buf : Buffer) (p : Peer) (a : Arena)
    → Roomy a buf
    → length (c_str p.alias) ≤ 17
    → length (c_str p.hostname) ≤ 17
    → (b : Arena) × (buf' : Buffer) × (next_message buf p a
        ≡ ok (
          (buf', framed (online_bytes (c_str p.alias) (c_str p.hostname) p.fromaddr p.toaddr)),
          b,
        ))
      × Roomy b buf'
next_message_lem buf p a r h k =
    let bs : List ℕ = online_bytes (c_str p.alias) (c_str p.hostname) p.fromaddr p.toaddr in
    let len_bs : length bs ≡ length (c_str p.alias) + length (c_str p.hostname) + 21 = omega (
      arith,
      length-append (c_str p.alias) (
          big_endian 2 (length (c_str p.hostname))
          ++ (c_str p.hostname ++ (big_endian 8 p.fromaddr ++ big_endian 8 p.toaddr))),
      length-append (c_str p.hostname) (big_endian 8 p.fromaddr ++ big_endian 8 p.toaddr),
    ) in
    let n : ℕ = buf.len + r.more - (2 + length bs) in
    let (e, o, empty, spares) = clear_lem buf a r.owns in
    let cleared : Buffer = record buf { len = 0 } in
    let (c, y, f, s, room) =
      pack_len_lem
        (online-Encodes (c_str p.alias) (c_str p.hostname) p.fromaddr p.toaddr (omega arith)
          (omega arith))
        (omega (arith, len_bs)) cleared n _ o (omega (arith, len_bs, r)) in
    let longer : y.len ≡ 2 + length bs = omega (arith, s.longer) in
    (
      c,
      y,
      next_runs buf cleared y p (length bs + 2) (framed bs) a _ c e f (
          packed_lem y c bs s.owns (s.grown ∙ ap (λ l. l ++ framed bs) empty)
            (omega (arith, len_bs))),
      record {
        owns = s.owns;
        more = n;
        room = room;
        enough = omega (arith, longer, len_bs, r.enough);
      },
    )
