-- ===== src/Tmcommon/Contexts/Made.antt =====
-- A context that was just made.
use tm.Base.{
  ℕ, ◌+◌, ◌-◌, ◌<◌, ◌≡◌, refl, arith, ok, false, List, [], ◌∷◌, ◌++◌, length, length-append,
}
use tm.Base.{some, none, lt→ltb, ==_iff}
use tm.Clib.Arena.{Arena, ◌>>=◌}
use tm.Clib.Array.{Array}
use tm.Clib.Array.Items.{append_room, item-some, get_last}
use tm.Clib.Buffer
use tm.Clib.Buffer.{Buffer}
use tm.Tmcommon.Contexts.{SocketCtx, ctx_new, find_by_toaddr}

-- A new context, as `send_msg_to_hostaddr` makes it.
abbrev pub new_ctx : ℕ → ℕ → Buffer → Buffer → SocketCtx
new_ctx fd toaddr readbuf writebuf = record {
  fd = fd;
  fromaddr = 0;
  toaddr = toaddr;
  readbuf = readbuf;
  writebuf = writebuf;
  msglen = 0;
  shut_rd = false;
}

pub ctx_new_runs :
    (fd toaddr : ℕ) (ctxs : Array SocketCtx) (x y : Buffer) (a b c : Arena)
    → Buffer.new 1 a ≡ ok (x, b)
    → Buffer.new 64 b ≡ ok (y, c)
    → length ctxs.items < ctxs.cap
    → ctx_new fd ctxs 0 toaddr 1 64 a
      ≡ ok (
        (record ctxs { items = ctxs.items ++ (new_ctx fd toaddr x y ∷ []) }, length ctxs.items),
        c,
      )
unfolding ctx_new
ctx_new_runs fd toaddr ctxs x y a b c e f l =
    let xs : List SocketCtx = ctxs.items ++ (new_ctx fd toaddr x y ∷ []) in
    let longer : length xs ≡ length ctxs.items + 1 =
      length-append ctxs.items (new_ctx fd toaddr x y ∷ []) in
    let index : length xs - 1 ≡ length ctxs.items = omega (arith, longer) in
    rw (e, ◌>>=◌)
      (rw (f, ◌>>=◌)
        (rw (append_room ctxs (new_ctx fd toaddr x y) c l, ◌>>=◌)
          (rw (lt→ltb 0 (length xs) (omega (arith, longer))) (
            rw (index) (
              rw
                (
                  item-some (record ctxs { items = xs }) (length ctxs.items) (new_ctx fd toaddr x y)
                      c (get_last ctxs.items (new_ctx fd toaddr x y)),
                  ◌>>=◌,
                )
                (rw ((==_iff fd fd).1 refl)))))))

-- Lookups by address.
pub find_by_toaddr-nil : (toaddr : ℕ) → find_by_toaddr toaddr 0 [] ≡ none
unfolding find_by_toaddr
find_by_toaddr-nil toaddr = refl

pub find_by_toaddr-here :
    (ctx : SocketCtx) (ctxs : List SocketCtx) → find_by_toaddr ctx.toaddr 0 (ctx ∷ ctxs) ≡ some 0
unfolding find_by_toaddr
find_by_toaddr-here ctx ctxs = rw ((==_iff ctx.toaddr ctx.toaddr).1 refl)
