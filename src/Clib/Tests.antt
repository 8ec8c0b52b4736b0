-- ===== src/Clib/Tests.antt =====
-- Runs of clib.c on concrete inputs.
use tm.Base.{ℕ, ◌≡◌, refl, ◌↔◌, true, inr, arith}
use tm.Base.{List, [], ◌∷◌, ◌++◌, replicate, ok, some}
use tm.Clib.Arena
use tm.Clib.Arena.{Arena, u32_mod}
use tm.Clib.Arena.Reads.{get-push_bytes}
use tm.Clib.Arena.Blocks.{IsValid}
use tm.Clib.Map
use tm.Clib.Map.{Map}
use tm.Clib.Map.Pairs.{Distinct}
use tm.Clib.Map.Laws.{remove_lem}
use tm.Clib.Map.Set.{set_lem}
use tm.Clib.Arena.Blocks.{Extends}
use tm.Base.{◌≢◌, ap, none, length, inl}
use tm.Clib.Array
use tm.Clib.Array.{Array}
use tm.Clib.Array.Items.{Grows, array_append_lem}
use tm.Clib.Static.{c_str, staticstr_copy, staticstr_copy_lem}
use tm.Clib.Buffer
use tm.Clib.Buffer.{Buffer, grow, grow_fuel}
use tm.Clib.Buffer.Grow.{Grown, grow_total}
use tm.Clib.Buffer.Contents.{Owns, HasRoom}
use tm.Clib.Buffer.Append.{Appended}
use tm.Clib.Buffer.Append
use tm.Clib.Str
use tm.Clib.Str.{Str}
use tm.Clib.Str.Held
use tm.Clib.Str.Held.{Holds, Made}
use tm.Clib.Str.Search.{FirstFrom, search_lem, equals_iff}

-- An arena of 64 bytes, of which 16 are handed out: a buffer of 8 that holds two bytes, and a string.
abbrev room : Arena
room = record {
  bs = 7 ∷ 9 ∷ 0 ∷ 0 ∷ 0 ∷ 0 ∷ 0 ∷ 0 ∷ b'h' ∷ b'i' ∷ 0 ∷ replicate 53 0;
  pos = 16;
  cap = 64;
}

room-IsValid : IsValid room
room-IsValid = record { filled = refl; inside = omega arith; small = omega arith }

abbrev two_bytes : Buffer
two_bytes = record { bs = 0; len = 2; cap = 8 }

two_bytes-Owns : Owns room two_bytes
two_bytes-Owns = record {
  valid = room-IsValid;
  inside = omega arith;
  used = omega arith;
  some_cap = omega arith;
}

abbrev hi : Str
hi = record { bs = some 8; len = 2 }

hi-Holds : Holds room hi (b'h' ∷ b'i' ∷ [])
hi-Holds = record { at_ = 8; bs_eq = refl; len_eq = refl; inside = omega arith; ended = refl }

grow_total_example : (c : ℕ) × (grow grow_fuel 20 2 8 ≡ some c) × Grown 20 2 8 c
grow_total_example = grow_total 20 2 8 (omega arith) (omega arith) (omega arith) (omega arith)

append_example :
    (b : Arena) × (buf' : Buffer) × (Buffer.append two_bytes (1 ∷ 2 ∷ 3 ∷ 4 ∷ 5 ∷ 6 ∷ 7 ∷ []) room
      ≡ ok (buf', b))
    × Appended room two_bytes (1 ∷ 2 ∷ 3 ∷ 4 ∷ 5 ∷ 6 ∷ 7 ∷ []) b buf'
    × HasRoom b buf' 1
append_example =
    Append.append_lem two_bytes (1 ∷ 2 ∷ 3 ∷ 4 ∷ 5 ∷ 6 ∷ 7 ∷ []) 1 room two_bytes-Owns
      (omega arith, inr (omega arith))

dup_example :
    (b : Arena) × (s : Str) × (Str.dup hi room ≡ ok (s, b)) × Made room (b'h' ∷ b'i' ∷ []) b s
dup_example = Held.dup_lem hi (b'h' ∷ b'i' ∷ []) room room-IsValid hi-Holds (omega arith)

string_append_example :
    (b : Arena) × (s : Str) × (Str.append hi (b'!' ∷ []) room ≡ ok (s, b))
    × Made room ((b'h' ∷ b'i' ∷ []) ++ (b'!' ∷ [])) b s
string_append_example =
    Held.str_append_lem hi (b'h' ∷ b'i' ∷ []) (b'!' ∷ []) room room-IsValid hi-Holds (omega arith)
      (omega arith)

search_example :
    FirstFrom
      (b'a' ∷ b'b' ∷ b'a' ∷ b'b' ∷ [])
      1
      (b'a' ∷ b'b' ∷ [])
      (Str.search (b'a' ∷ b'b' ∷ b'a' ∷ b'b' ∷ []) 1 (b'a' ∷ b'b' ∷ []))
search_example = search_lem (b'a' ∷ b'b' ∷ b'a' ∷ b'b' ∷ []) 1 (b'a' ∷ b'b' ∷ []) (omega arith)

abbrev ab : List ℕ
ab = b'a' ∷ b'b' ∷ []

equals_example : (Str.equals ab ab ≡ true) ↔ (ab ≡ ab)
equals_example = equals_iff ab ab

abbrev numbers : Array ℕ
numbers = record { items = 3 ∷ 4 ∷ []; itemsize = 4; cap = 2 }

array_append_example :
    (b : Arena) × (arr : Array ℕ) × (Array.append numbers 5 room ≡ ok (arr, b))
    × Grows room numbers 5 b arr
array_append_example = array_append_lem numbers 5 room (record {
  valid = room-IsValid;
  within = omega arith;
  some_cap = omega arith;
  space = inr (omega arith, omega arith);
})

staticstr_copy_example : c_str (staticstr_copy (9 ∷ 9 ∷ 9 ∷ []) 3 (5 ∷ 6 ∷ 7 ∷ [])) ≡ 5 ∷ 6 ∷ []
staticstr_copy_example =
    staticstr_copy_lem (9 ∷ 9 ∷ 9 ∷ []) 3 (5 ∷ 6 ∷ 7 ∷ []) (omega arith) (omega arith)
      (omega arith, (omega arith, (omega arith, tt)))

-- A map of two keys.
abbrev two_keys : Map ℕ
two_keys = record { items = (ab, 1) ∷ (b'c' ∷ [], 2) ∷ []; cap = 8 }

two_keys-Distinct : Distinct two_keys.items
two_keys-Distinct = (((λ e. omega (arith, ap length e)), tt), (tt, tt))

map_set_example :
    (b : Arena) × (m' : Map ℕ) × (Map.set two_keys (b'd' ∷ []) 3 room ≡ ok (m', b))
    × (Map.get m' (b'd' ∷ []) ≡ some 3)
    × ((l : List ℕ) → l ≢ b'd' ∷ [] → Map.get m' l ≡ Map.get two_keys l)
    × Distinct m'.items
    × IsValid b
    × Extends room b
map_set_example =
    set_lem two_keys (b'd' ∷ []) 3 room two_keys-Distinct (record {
      valid = room-IsValid;
      within = omega arith;
      place = inl (omega arith, omega arith);
    })

map_remove_example :
    (Map.get (Map.remove two_keys ab) ab ≡ none)
    × ((l : List ℕ) → l ≢ ab → Map.get (Map.remove two_keys ab) l ≡ Map.get two_keys l)
    × Distinct (Map.remove two_keys ab).items
map_remove_example = remove_lem two_keys ab two_keys-Distinct

get_example :
    (b : Arena) × (Arena.push_bytes (1 ∷ 2 ∷ []) 2 room ≡ ok (16, b))
    × (Arena.get 16 2 b ≡ ok (1 ∷ 2 ∷ [], b))
get_example = get-push_bytes (1 ∷ 2 ∷ []) room room-IsValid (omega arith)
