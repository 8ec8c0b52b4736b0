-- ===== src/Cnet/Pack/Bytes.antt =====
-- The wire format: which bytes stand for which values under a format.
use tm.Base.{ℕ, zero, suc, ◌/◌, ◌%◌, ◌^◌, ◌<◌, ◌≢◌, List, [], ◌∷◌, ◌++◌, length}
use tm.Cnet.Pack.{Arg, int, long, longlong, str}

-- The last `k` bytes of a number, the most significant first.
abbrev pub big_endian : ℕ → ℕ → List ℕ
big_endian zero v = []
big_endian (suc k) v = v / 256 ^ k % 256 ∷ big_endian k v

-- `Encodes fmt args bytes`: the values `args` are written as `bytes` under the format `fmt`.
-- A string is its length in two bytes and its text.
pub data Encodes : List ℕ → List Arg → List ℕ → Type 0 where
  end : Encodes [] [] []
  plain :
      (c : ℕ) {fmt : List ℕ} {args : List Arg} {bytes : List ℕ}
      → c ≢ b'%'
      → Encodes fmt args bytes
      → Encodes (c ∷ fmt) args (c % 256 ∷ bytes)
  byte :
      (n : ℕ) {fmt : List ℕ} {args : List Arg} {bytes : List ℕ}
      → Encodes fmt args bytes
      → Encodes (b'%' ∷ b'b' ∷ fmt) (int n ∷ args) (n % 256 ∷ bytes)
  word :
      (n : ℕ) {fmt : List ℕ} {args : List Arg} {bytes : List ℕ}
      → Encodes fmt args bytes
      → Encodes (b'%' ∷ b'w' ∷ fmt) (int n ∷ args) (big_endian 2 n ++ bytes)
  double :
      (n : ℕ) {fmt : List ℕ} {args : List Arg} {bytes : List ℕ}
      → Encodes fmt args bytes
      → Encodes (b'%' ∷ b'l' ∷ fmt) (long n ∷ args) (big_endian 4 n ++ bytes)
  quad :
      (n : ℕ) {fmt : List ℕ} {args : List Arg} {bytes : List ℕ}
      → Encodes fmt args bytes
      → Encodes (b'%' ∷ b'L' ∷ fmt) (longlong n ∷ args) (big_endian 8 n ++ bytes)
  string :
      (s : List ℕ) {fmt : List ℕ} {args : List Arg} {bytes : List ℕ}
      → length s < 2 ^ 16
      → Encodes fmt args bytes
      → Encodes (b'%' ∷ b's' ∷ fmt) (str s ∷ args) (big_endian 2 (length s) ++ s ++ bytes)
