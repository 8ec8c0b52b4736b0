-- ===== src/Cnet/Pack/Packs.antt =====
-- What a step of `NetPackV` does: it appends bytes and counts them.
use tm.Base.{ℕ, ◌+◌, ◌%◌, ◌≡◌, refl, subst, arith, false}
use tm.Base.{List, [], ◌∷◌, ◌++◌, length, length-append, map, length-map, ok}
use tm.Clib.Arena.{Arena, M, ◌>>=◌}
use tm.Clib.Buffer.{Buffer}
use tm.Clib.Buffer.Contents.{Owns, HasRoom}
use tm.Clib.Buffer.Append.{Appended, Appended-nil, Appended-append, append_char_lem}
use tm.Cnet.Pack.{Arg, Progress, append_chars, put}
use tm.Cnet.Pack.{pack_loop}

abbrev pub low : ℕ → ℕ
low c = c % 256

pub append_chars_lem :
    (cs : List ℕ) (buf : Buffer) (n : ℕ) (a : Arena)
    → Owns a buf
    → HasRoom a buf (length cs + n)
    → (b : Arena) × (buf' : Buffer) × (append_chars buf cs a ≡ ok (buf', b))
      × Appended a buf (map low cs) b buf'
      × HasRoom b buf' n
unfolding append_chars
append_chars_lem [] buf n a o r = (a, buf, refl, Appended-nil a buf o, omega arith)
append_chars_lem (c ∷ cs) buf n a o r =
    let (b, x, e, s, q) = append_char_lem buf c (length cs + n) a o (omega arith) in
    let (d, y, f, t, u) = append_chars_lem cs x n b s.owns q in
    (d, y, rw (e, ◌>>=◌) f, Appended-append (low c ∷ []) (map low cs) o s t, u)

-- The loop's variables between two characters that are not behind a `%`.
abbrev pub at : List Arg → Buffer → ℕ → Progress
at args buf k = record { percent = false; args = args; buf = buf; nbytes_packed = k }

-- What a step or a run of the loop does: it appends `bs`, counts them and leaves room for `n` bytes.
pub record Packs (m : M Progress) (buf : Buffer) (k : ℕ) (args : List Arg) (bs : List ℕ) (n : ℕ)
    (a : Arena) : Type 0 where
  pub arena : Arena
  pub buffer : Buffer
  pub count : ℕ
  pub runs : m a ≡ ok (at args buffer count, arena)
  pub appended : Appended a buf bs arena buffer
  pub room : HasRoom arena buffer n
  pub counted : count ≡ k + length bs

pub put_lem :
    (p : Progress) (args : List Arg) (cs : List ℕ) (n : ℕ) (a : Arena)
    → Owns a p.buf
    → HasRoom a p.buf (length cs + n)
    → Packs (put p args cs) p.buf p.nbytes_packed args (map low cs) n a
unfolding put
put_lem p args cs n a o r =
    let (b, x, e, s, t) = append_chars_lem cs p.buf n a o r in
    record {
      arena = b;
      buffer = x;
      count = p.nbytes_packed + length cs;
      runs = rw (e, ◌>>=◌);
      appended = s;
      room = t;
      counted = omega (arith, length-map cs low);
    }

-- The same bytes, written another way.
pub put_as :
    (p : Progress) (args : List Arg) (cs bs : List ℕ) (n : ℕ) (a : Arena)
    → map low cs ≡ bs
    → Owns a p.buf
    → HasRoom a p.buf (length cs + n)
    → Packs (put p args cs) p.buf p.nbytes_packed args bs n a
put_as p args cs bs n a e o r =
    subst (λ t. Packs (put p args cs) p.buf p.nbytes_packed args t n a) e
      (put_lem p args cs n a o r)

-- What the rest of the loop promises, wherever it starts.
abbrev pub Rest : List ℕ → List Arg → List ℕ → ℕ → Type 0
Rest fmt args ys n =
    (buf : Buffer) (k : ℕ) (a : Arena)
    → Owns a buf
    → HasRoom a buf (length ys + n)
    → Packs (pack_loop fmt (at args buf k)) buf k [] ys n a

-- Behind a step that packs `xs`, the rest of the loop packs the rest.
pub then_loop :
    (m : M Progress) (fmt : List ℕ) (buf : Buffer) (k : ℕ) (args : List Arg) (xs ys : List ℕ)
    (n : ℕ) (a : Arena)
    → Owns a buf
    → Packs m buf k args xs (length ys + n) a
    → Rest fmt args ys n
    → Packs (λ b. (m >>= pack_loop fmt) b) buf k [] (xs ++ ys) n a
then_loop m fmt buf k args xs ys n a o s rest =
    let t : Packs (pack_loop fmt (at args s.buffer s.count)) s.buffer s.count [] ys n s.arena =
      rest s.buffer s.count s.arena s.appended.owns s.room in
    record {
      arena = t.arena;
      buffer = t.buffer;
      count = t.count;
      runs = rw (s.runs, ◌>>=◌) t.runs;
      appended = Appended-append xs ys o s.appended t.appended;
      room = t.room;
      counted = omega (arith, s.counted, t.counted, length-append xs ys);
    }
