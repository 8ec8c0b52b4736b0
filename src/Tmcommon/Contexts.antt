-- ===== src/Tmcommon/Contexts.antt =====
-- tmcommon.c, the socket contexts: one for each open connection, in an array that is in the arena of
-- their buffers. A pointer to a context is its index.
pub mod Made
pub mod Held
pub mod Grown
use tm.Base.{
  ℕ, zero, suc, ◌+◌, ◌-◌, Bool, true, false, List, [], ◌∷◌, ◌++◌, length, Option, none, some,
}
use tm.Base.{ltb, ◌==◌, if◌then◌else◌}
use tm.Clib.Arena.{Arena, M, return, ◌>>=◌, ◌>>◌, assert}
use tm.Clib.Array
use tm.Clib.Array.{Array}
use tm.Clib.Buffer
use tm.Clib.Buffer.{Buffer}

-- `SocketCtx`.
pub record SocketCtx : Type 0 where
  pub fd : ℕ
  pub fromaddr : ℕ
  pub toaddr : ℕ
  pub readbuf : Buffer
  pub writebuf : Buffer
  pub msglen : ℕ
  pub shut_rd : Bool

-- `SocketCtx_new`: the array, and the index of the new context.
unfoldable pub ctx_new : ℕ → Array SocketCtx → ℕ → ℕ → ℕ → ℕ → M (Array SocketCtx × ℕ)
ctx_new fd ctxs fromaddr toaddr init_readbuf_size init_writebuf_size = do
  readbuf ← Buffer.new init_readbuf_size
  writebuf ← Buffer.new init_writebuf_size
  ctxs' ← Array.append ctxs (record {
    fd = fd;
    fromaddr = fromaddr;
    toaddr = toaddr;
    readbuf = readbuf;
    writebuf = writebuf;
    msglen = 0;
    shut_rd = false;
  })
  assert (ltb 0 (length ctxs'.items))
  retctx ← Array.item ctxs' (length ctxs'.items - 1)
  assert (retctx.fd == fd)
  return (ctxs', length ctxs'.items - 1)

-- `SocketCtx_find_by_fd` and `SocketCtx_find_by_fd2`, from index `i` on; `none` is NULL and -1.
unfoldable pub find_by_fd : ℕ → ℕ → List SocketCtx → Option ℕ
find_by_fd fd i [] = none
find_by_fd fd i (ctx ∷ ctxs) =
    let rest = find_by_fd fd (i + 1) ctxs in if ctx.fd == fd then some i else rest

-- `SocketCtx_find_by_toaddr` and `SocketCtx_find_by_toaddr2`.
pub find_by_toaddr : ℕ → ℕ → List SocketCtx → Option ℕ
find_by_toaddr toaddr i [] = none
find_by_toaddr toaddr i (ctx ∷ ctxs) =
    let rest = find_by_toaddr toaddr (i + 1) ctxs in if ctx.toaddr == toaddr then some i else rest

-- The part of `SocketCtx_close_and_remove` behind `ShutdownSocket`.
unfoldable pub remove_by_fd : ℕ → Array SocketCtx → Array SocketCtx
remove_by_fd fd ctxs = elim (find_by_fd fd 0 ctxs.items) [
  | none ↦ ctxs
  | some index ↦ Array.remove ctxs index
]
