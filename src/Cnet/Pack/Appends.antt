-- ===== src/Cnet/Pack/Appends.antt =====
-- `NetPackV` appends the bytes of the wire format.
use tm.Base.{ℕ, ◌+◌, ◌/◌, ◌%◌, ◌^◌, ◌<◌, ◌≢◌, ◌≡◌, refl, arith, true}
use tm.Base.{List, [], ◌∷◌, ◌++◌, length, length-append, ok}
use tm.Base.{ne→==}
use tm.Clib.Arena.{Arena, M, ◌>>=◌}
use tm.Clib.Arena.Blocks.{source_all}
use tm.Clib.Buffer.{Buffer}
use tm.Clib.Buffer.Contents.{Owns, HasRoom}
use tm.Clib.Buffer.Append.{Appended, append_lem, Appended-nil, Appended-append, append_char_lem}
use tm.Cnet.Pack.{Arg, int, long, longlong, str, Progress, put, pack_b, pack_w, pack_l}
use tm.Cnet.Pack.{pack_L, pack_s, convert, literal, step, pack_loop, pack}
use tm.Cnet.Pack.Bytes.{big_endian, Encodes, end, plain, byte, word, double, quad, string}
use tm.Cnet.Pack.Packs.{at, Packs, put_as, Rest, then_loop}

-- The loop's variables behind a `%`.
abbrev behind : List Arg → Buffer → ℕ → Progress
behind args buf k = record (at args buf k) { percent = true }

literal_lem :
    (c : ℕ) (args : List Arg) (buf : Buffer) (k n : ℕ) (a : Arena)
    → c ≢ b'%'
    → Owns a buf
    → HasRoom a buf (1 + n)
    → Packs (literal c (at args buf k)) buf k args (c % 256 ∷ []) n a
unfolding literal
literal_lem c args buf k n a h o r =
    let (b, x, e, s, q) = append_char_lem buf c n a o r in
    record {
      arena = b;
      buffer = x;
      count = k + 1;
      runs = rw (ne→== c b'%' h) (rw (e, ◌>>=◌));
      appended = s;
      room = q;
      counted = refl;
    }

-- `%s`: the length, then the text.
abbrev put_length : List ℕ → List Arg → Buffer → ℕ → M Progress
put_length s args buf k = put (behind (str s ∷ args) buf k) args (length s / 2 ^ 8 ∷ length s ∷ [])

put_text :
    (s : List ℕ) (args : List Arg) (buf : Buffer) (k n : ℕ) (a : Arena)
    → length s < 2 ^ 16
    → Owns a buf
    → Packs (put_length s args buf k) buf k args (big_endian 2 (length s)) (length s + n) a
    → Packs
        (pack_s (behind (str s ∷ args) buf k) (str s ∷ args))
        buf
        k
        args
        (big_endian 2 (length s) ++ s)
        n
        a
unfolding pack_s
put_text s args buf k n a h o p =
    let small : length s % 2 ^ 16 ≡ length s = omega arith in
    let (b, x, e, t, q) = append_lem p.buffer s n p.arena p.appended.owns p.room in
    record {
      arena = b;
      buffer = x;
      count = p.count + length s;
      runs = rw small (rw (p.runs, ◌>>=◌) (rw (source_all s p.arena, ◌>>=◌) (rw (e, ◌>>=◌))));
      appended = Appended-append (big_endian 2 (length s)) s o p.appended t;
      room = q;
      counted = omega (arith, p.counted);
    }

pack_s_lem :
    (s : List ℕ) (args : List Arg) (buf : Buffer) (k n : ℕ) (a : Arena)
    → length s < 2 ^ 16
    → Owns a buf
    → HasRoom a buf (2 + length s + n)
    → Packs
        (pack_s (behind (str s ∷ args) buf k) (str s ∷ args))
        buf
        k
        args
        (big_endian 2 (length s) ++ s)
        n
        a
pack_s_lem s args buf k n a h o r =
    put_text s args buf k n a h o
      (put_as _ args (length s / 2 ^ 8 ∷ length s ∷ []) _ _ a (ground arith) o (omega arith))

abbrev quad_bytes : ℕ → List ℕ
quad_bytes v =
    v / 2 ^ 56 ∷ v / 2 ^ 48 ∷ v / 2 ^ 40 ∷ v / 2 ^ 32 ∷ v / 2 ^ 24 ∷ v / 2 ^ 16 ∷ v / 2 ^ 8 ∷ v ∷ []

-- The loop appends exactly the bytes of the wire format.
pack_loop_lem :
    {fmt : List ℕ} {args : List Arg} {bs : List ℕ}
    → Encodes fmt args bs
    → (n : ℕ) → Rest fmt args bs n
unfolding pack_loop step convert literal pack_b pack_w pack_l pack_L
pack_loop_lem end n buf k a o r = record {
  arena = a;
  buffer = buf;
  count = k;
  runs = refl;
  appended = Appended-nil a buf o;
  room = omega arith;
  counted = omega arith;
}
pack_loop_lem (plain c {fmt = fmt} {args = args} {bytes = bs} h e) n buf k a o r =
    then_loop (literal c (at args buf k)) fmt buf k args (c % 256 ∷ []) bs n a o
      (literal_lem c args buf k (length bs + n) a h o (omega arith)) (pack_loop_lem e n)
pack_loop_lem (byte v {fmt = fmt} {args = args} {bytes = bs} e) n buf k a o r =
    then_loop (pack_b (behind (int v ∷ args) buf k) (int v ∷ args)) fmt buf k args (v % 256 ∷ []) bs
      n a o (put_as _ args (v % 2 ^ 8 ∷ []) _ _ a (ground arith) o (omega arith))
      (pack_loop_lem e n)
pack_loop_lem (word v {fmt = fmt} {args = args} {bytes = bs} e) n buf k a o r =
    then_loop (pack_w (behind (int v ∷ args) buf k) (int v ∷ args)) fmt buf k args (big_endian 2 v)
      bs n a o
      (put_as _ args (v % 2 ^ 16 / 2 ^ 8 ∷ v % 2 ^ 16 ∷ []) _ _ a (ground arith) o (omega arith))
      (pack_loop_lem e n)
pack_loop_lem (double v {fmt = fmt} {args = args} {bytes = bs} e) n buf k a o r =
    then_loop (pack_l (behind (long v ∷ args) buf k) (long v ∷ args)) fmt buf k args
      (big_endian 4 v) bs n a o
      (put_as _ args (v / 2 ^ 24 ∷ v / 2 ^ 16 ∷ v / 2 ^ 8 ∷ v ∷ []) _ _ a (ground arith) o
        (omega arith))
      (pack_loop_lem e n)
pack_loop_lem (quad v {fmt = fmt} {args = args} {bytes = bs} e) n buf k a o r =
    then_loop (pack_L (behind (longlong v ∷ args) buf k) (longlong v ∷ args)) fmt buf k args
      (big_endian 8 v) bs n a o (put_as _ args (quad_bytes v) _ _ a (ground arith) o (omega arith))
      (pack_loop_lem e n)
pack_loop_lem (string s {fmt = fmt} {args = args} {bytes = bs} h e) n buf k a o r =
    let len_all : length (big_endian 2 (length s) ++ s ++ bs) ≡ 2 + length s + length bs =
      omega (arith, length-append s bs) in
    then_loop (pack_s (behind (str s ∷ args) buf k) (str s ∷ args)) fmt buf k args
      (big_endian 2 (length s) ++ s) bs n a o
      (pack_s_lem s args buf k (length bs + n) a h o (omega (arith, len_all))) (pack_loop_lem e n)

-- `NetPack` writes the values in the wire format: given room, it appends exactly the bytes that
-- stand for them, touches nothing else, and returns their number.
pub pack_lem :
    {fmt : List ℕ} {args : List Arg} {bs : List ℕ}
    → Encodes fmt args bs
    → (buf : Buffer) (n : ℕ) (a : Arena) → Owns a buf
    → HasRoom a buf (length bs + n)
    → (b : Arena) × (buf' : Buffer) × (pack buf fmt args a ≡ ok ((buf', length bs), b))
      × Appended a buf bs b buf'
      × HasRoom b buf' n
unfolding pack
pack_lem {fmt} {args} {bs} e buf n a o r =
    let p : Packs (pack_loop fmt (at args buf 0)) buf 0 [] bs n a = pack_loop_lem e n buf 0 a o r in
    let k : p.count ≡ length bs = omega (arith, p.counted) in
    (p.arena, p.buffer, rw (p.runs, ◌>>=◌) (rw k), p.appended, p.room)
