-- ===== src/Cnet/Pack.antt =====
-- cnet.c, `NetPackV` and `NetPackLenV`: values written to a buffer by a format.
pub mod Bytes
pub mod Packs
pub mod Appends
pub mod Framed
use tm.Base.{ℕ, zero, suc, ◌+◌, ◌-◌, ◌*◌, ◌/◌, ◌%◌, ◌^◌, Bool, true, false}
use tm.Base.{List, [], ◌∷◌, length, take, fault, wild, ltb, ◌==◌, if◌then◌else◌}
use tm.Clib.Arena.{Arena, M, return, ◌>>=◌, ◌>>◌, store, source}
use tm.Clib.Buffer
use tm.Clib.Buffer.{Buffer}
use tm.Cnet.HostAddr.{htons}

-- What a caller passes behind the format. A small integer is passed as an `int`; a `char *` is the
-- C string that it leads to.
pub data Arg : Type 0 where
  int : ℕ → Arg
  long : ℕ → Arg
  longlong : ℕ → Arg
  str : List ℕ → Arg

-- Where the loop over the format stands: `state` is 1 behind a `%`.
pub record Progress : Type 0 where
  pub percent : Bool
  pub args : List Arg
  pub buf : Buffer
  pub nbytes_packed : ℕ

-- The calls of `BufferAppendChar` for several bytes.
pub append_chars : Buffer → List ℕ → M Buffer
append_chars buf [] = return buf
append_chars buf (c ∷ cs) = do buf' ← Buffer.append_char buf c; append_chars buf' cs

-- A conversion that appends the bytes `cs` for the argument before `args`.
pub put : Progress → List Arg → List ℕ → M Progress
put p args cs = do
  buf' ← append_chars p.buf cs
  return (record {
    percent = false;
    args = args;
    buf = buf';
    nbytes_packed = p.nbytes_packed + length cs;
  })

-- `%b`, `%w`, `%l` and `%L`. An argument of another type, or none, is undefined in C.
pub pack_b : Progress → List Arg → M Progress
pack_b p (int n ∷ args) = put p args (n % 2 ^ 8 ∷ [])
pack_b p args = λ a. fault wild

pub pack_w : Progress → List Arg → M Progress
pack_w p (int n ∷ args) = let w = n % 2 ^ 16 in put p args (w / 2 ^ 8 ∷ w ∷ [])
pack_w p args = λ a. fault wild

pub pack_l : Progress → List Arg → M Progress
pack_l p (long l ∷ args) = put p args (l / 2 ^ 24 ∷ l / 2 ^ 16 ∷ l / 2 ^ 8 ∷ l ∷ [])
pack_l p args = λ a. fault wild

pub pack_L : Progress → List Arg → M Progress
pack_L p (longlong ll ∷ args) = put p args (
    ll / 2 ^ 56
    ∷ ll / 2 ^ 48
    ∷ ll / 2 ^ 40
    ∷ ll / 2 ^ 32
    ∷ ll / 2 ^ 24
    ∷ ll / 2 ^ 16
    ∷ ll / 2 ^ 8
    ∷ ll
    ∷ [])
pack_L p args = λ a. fault wild

-- `%s`: the length, cut to 16 bits, and as many bytes of the string.
pub pack_s : Progress → List Arg → M Progress
pack_s p (str s ∷ args) = do
  let slen = length s % 2 ^ 16
  p' ← put p args (slen / 2 ^ 8 ∷ slen ∷ [])
  xs ← source s slen
  buf' ← Buffer.append p'.buf xs
  return (record p' { buf = buf'; nbytes_packed = p'.nbytes_packed + slen })
pack_s p args = λ a. fault wild

-- The character behind a `%`. Any other than these is ignored.
pub convert : ℕ → Progress → M Progress
convert c p =
    if c == b'b'
    then pack_b p p.args
    else if c == b'w'
    then pack_w p p.args
    else if c == b'l'
    then pack_l p p.args
    else if c == b'L'
    then pack_L p p.args
    else if c == b's'
    then pack_s p p.args
    else return (record p { percent = false })

-- A character that is not behind a `%`.
pub literal : ℕ → Progress → M Progress
literal c p = if c == b'%' then return (record p { percent = true }) else (do
  buf' ← Buffer.append_char p.buf c
  return (record p { buf = buf'; nbytes_packed = p.nbytes_packed + 1 }))

pub step : ℕ → Progress → M Progress
step c p = if p.percent then convert c p else literal c p

pub pack_loop : List ℕ → Progress → M Progress
pack_loop [] p = return p
pack_loop (c ∷ fmt) p = do p' ← step c p; pack_loop fmt p'

-- `NetPackV`, and `NetPack` with its arguments as a list: the buffer and the number of bytes.
pub pack : Buffer → List ℕ → List Arg → M (Buffer × ℕ)
pack buf fmt args = do
  p ← pack_loop fmt (record { percent = false; args = args; buf = buf; nbytes_packed = 0 })
  return (p.buf, p.nbytes_packed)

-- `NetPackLenV` and `NetPackLen`: the length is written in front when it is known, and `msglen` is a
-- `u16`. The two bytes are stored by way of `htons`, high byte first.
pub pack_len : Buffer → List ℕ → List Arg → M (Buffer × ℕ)
pack_len buf fmt args = do
  buf₁ ← Buffer.append buf (0 ∷ 0 ∷ [])
  (buf₂, n) ← pack buf₁ fmt args
  let msglen = n % 2 ^ 16
  let at = buf₂.bs + buf₂.len - msglen - 2
  store at (htons msglen % 256 ∷ htons msglen / 256 ∷ [])
  return (buf₂, msglen + 2)
