-- ===== src/Clib/Ctype.antt =====
-- The functions of the C library on characters and numerals that tm.c calls.
use tm.Base.{ℕ, ◌+◌, ◌-◌, ◌*◌, ◌%◌, ◌^◌, Bool, ◌&&◌, ◌||◌, List, [], ◌∷◌, leb, ◌==◌, if◌then◌else◌}

-- `isalnum` and `isspace`. No byte above 127 is of either kind.
unfoldable pub is_alnum : ℕ → Bool
is_alnum ch =
    (leb b'0' ch && leb ch b'9') || (leb b'A' ch && leb ch b'Z') || (leb b'a' ch && leb ch b'z')

unfoldable pub is_space : ℕ → Bool
is_space ch = (ch == b' ') || (leb 9 ch && leb ch 13)

-- The digits at the front, behind a number `n`.
pub read_digits : ℕ → List ℕ → ℕ
read_digits n [] = n
read_digits n (c ∷ cs) =
    if leb b'0' c && leb c b'9' then read_digits (n * 10 + (c - b'0')) cs else n

-- `atoi`, of a number that an `int` can hold, cut to a `u16`: white space, a sign, and digits.
pub signed_digits : List ℕ → ℕ
signed_digits [] = 0
signed_digits (c ∷ cs) =
    if c == b'-'
    then (2 ^ 16 - read_digits 0 cs % 2 ^ 16) % 2 ^ 16
    else if c == b'+'
    then read_digits 0 cs % 2 ^ 16
    else read_digits 0 (c ∷ cs) % 2 ^ 16

pub atoi_u16 : List ℕ → ℕ
unfolding is_space
atoi_u16 [] = 0
atoi_u16 (c ∷ cs) = if is_space c then atoi_u16 cs else signed_digits (c ∷ cs)
