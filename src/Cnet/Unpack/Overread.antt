-- ===== src/Cnet/Unpack/Overread.antt =====
-- `NetUnpack` believes the length of a string that stands in the message.
use tm.Base.{ℕ, ◌+◌, ◌-◌, ◌^◌, ◌<◌, ◌≤◌, ◌≢◌, ◌≡◌, refl, subst, inl, arith, some, ok}
use tm.Base.{List, [], ◌∷◌, ◌++◌, length, length-append, take-append, drop-append, ne→==, false}
use tm.Clib.Arena.{Arena, ◌>>=◌}
use tm.Clib.Arena.Blocks.{IsValid}
use tm.Clib.Str
use tm.Clib.Str.{Str}
use tm.Clib.Str.Held.{Made, assign_from_bytes_lem}
use tm.Cnet.Pack.Bytes.{big_endian}
use tm.Cnet.Unpack.{Slot, string, Taken, take_text, take_s, convert, unpack}
use tm.Cnet.Unpack.Reads.{before, read_length, loop_done, go_on}

-- `%s` copies the text whatever is left of the message behind the length, if that is a byte at least.
take_s_believes :
    (str : Str) (slots : List Slot) (s more : List ℕ) (left : ℕ) (a : Arena)
    → length s < 2 ^ 16
    → left ≢ 0
    → IsValid a
    → a.pos + (length s + 1) ≤ a.cap
    → (b : Arena) × (t : Str) × (take_s
          (string str ∷ slots)
          (before (big_endian 2 (length s) ++ s ++ more) (2 + left))
          a
        ≡ ok (
          record { out = string t ∷ []; slots = slots; cur = some (before more (left - length s)) },
          b,
        ))
      × Made a s b t
unfolding take_s take_text
take_s_believes str slots s more left a h ne v fits =
    let room : length s ≤ length (s ++ more) = omega (arith, length-append s more) in
    let (b, t, e, m) = assign_from_bytes_lem str (s ++ more) (length s) a v room h fits in
    (
      b,
      t,
      rw (read_length (length s) (s ++ more) left a h, ◌>>=◌)
          (rw (ne→== left 0 ne) (rw (e, ◌>>=◌) (rw (drop-append (length s) s more refl)))),
      subst (λ x. Made a x b t) (take-append (length s) s more refl) m,
    )

-- Where the length of a string in a message is larger than the rest of the message, which is not
-- empty, `NetUnpack` with the format `%s` copies the bytes that stand behind the message in
-- memory too, given that there are such bytes and room for the copy.
pub unpack-overreads :
    (near beyond more : List ℕ) (a : Arena)
    → 0 < length near
    → 0 < length beyond
    → length (near ++ beyond) < 2 ^ 16
    → IsValid a
    → a.pos + (length (near ++ beyond) + 1) ≤ a.cap
    → (b : Arena) × (t : Str) × (unpack
          (big_endian 2 (length (near ++ beyond)) ++ (near ++ beyond) ++ more)
          (2 + length near)
          (b'%' ∷ b's' ∷ [])
          (string Str.new0 ∷ [])
          a
        ≡ ok (string t ∷ [], b))
      × Made a (near ++ beyond) b t
unfolding unpack convert
unpack-overreads near beyond more a p q h v fits =
    let s : List ℕ = near ++ beyond in
    let left : ℕ = length near in
    let (b, t, e, m) = take_s_believes Str.new0 [] s more left a h (omega arith) v fits in
    let none_left : left - length s ≡ 0 = omega (arith, length-append near beyond) in
    let taken : Taken = record {
      out = string t ∷ [];
      slots = [];
      cur = some (before more (left - length s));
    } in
    (
      b,
      t,
      go_on b's' [] (string Str.new0 ∷ [])
          (before (big_endian 2 (length s) ++ s ++ more) (2 + left)) a taken b (omega arith) e
          (before more (left - length s)) [] b (inl refl) (loop_done [] false [] _ b none_left),
      m,
    )
