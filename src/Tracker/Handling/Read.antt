-- ===== src/Tracker/Handling/Read.antt =====
-- What `handle_msg` reads from a `KNOCK`.
use tm.Base.{ℕ, ◌+◌, ◌%◌, ◌^◌, ◌≤◌, ◌<◌, ◌≡◌, refl, ◌∙◌, ap, arith}
use tm.Base.{List, [], ◌∷◌, ◌++◌, length, ok}
use tm.Clib.Arena.{Arena, ◌>>=◌}
use tm.Clib.Arena.Blocks.{IsValid}
use tm.Clib.Static.{NoZero}
use tm.Clib.Str
use tm.Clib.Str.{Str}
use tm.Cnet.Pack.{int, str}
use tm.Cnet.Pack.Bytes.{Encodes, big_endian}
use tm.Cnet.Pack.Bytes
use tm.Cnet.Unpack.{Slot, unpack}
use tm.Cnet.Unpack.Texts.{cstr-ReadsAs}
use tm.Cnet.Unpack.RoundTrip.{unpack_uses}
use tm.Tmcommon.Messages.{knock, knock_fmt}
use tm.Tracker.Handling.{knocked, read_knock}

-- The bytes of a `KNOCK`.
abbrev pub knock_bytes : List ℕ → List ℕ → ℕ → List ℕ
knock_bytes alias hostname port =
    3
    ∷ (big_endian 2 (length alias)
        ++ (alias ++ (big_endian 2 (length hostname) ++ (hostname ++ big_endian 2 port))))

pub knock-Encodes :
    (alias hostname : List ℕ) (port : ℕ)
    → length alias < 2 ^ 16
    → length hostname < 2 ^ 16
    → Encodes knock_fmt
        (int knock ∷ str alias ∷ str hostname ∷ int port ∷ [])
        (knock_bytes alias hostname port)
knock-Encodes alias hostname port h k =
    Bytes.byte 3 (Bytes.string alias h (Bytes.string hostname k (Bytes.word port Bytes.end)))

knock_runs :
    (mem : List ℕ) (n stale port : ℕ) (s t : Str) (v : ℕ) (alias hostname : List ℕ) (a b : Arena)
    → unpack mem n knock_fmt
        (Slot.u8 knock ∷ Slot.string Str.new0 ∷ Slot.string Str.new0 ∷ Slot.u16 stale ∷ [])
        a
      ≡ ok (Slot.u8 v ∷ Slot.string s ∷ Slot.string t ∷ Slot.u16 port ∷ [], b)
    → Str.cstr s b ≡ ok (alias, b)
    → Str.cstr t b ≡ ok (hostname, b)
    → read_knock mem n stale a ≡ ok ((alias, hostname, port), b)
unfolding read_knock knocked
knock_runs mem n stale port s t v alias hostname a b e f g =
    rw (e, ◌>>=◌) (rw (f, ◌>>=◌) (rw (g, ◌>>=◌)))

pub read_knock_lem :
    (alias hostname more : List ℕ) (port stale : ℕ) (a : Arena)
    → NoZero alias
    → NoZero hostname
    → length alias < 2 ^ 16
    → length hostname < 2 ^ 16
    → port < 2 ^ 16
    → IsValid a
    → a.pos + length (knock_bytes alias hostname port) ≤ a.cap
    → (b : Arena) × (read_knock
          (knock_bytes alias hostname port ++ more)
          (length (knock_bytes alias hostname port))
          stale
          a
        ≡ ok ((alias, hostname, port), b))
      × IsValid b
      × (b.pos ≤ a.pos + length (knock_bytes alias hostname port))
      × (b.cap ≡ a.cap)
unfolding knock-Encodes
read_knock_lem alias hostname more port stale a za zh h k hp v fits =
    let slots : List Slot =
      Slot.u8 knock ∷ Slot.string Str.new0 ∷ Slot.string Str.new0 ∷ Slot.u16 stale ∷ [] in
    let u =
      unpack_uses (knock-Encodes alias hostname port h k) slots more a
        (knock, _, refl, (_, refl, (_, refl, (stale, [], refl, refl)))) v fits in
    let (r₁, e₁, (s, r₂, e₂, hs, (t, r₃, e₃, ht, (r₄, e₄, e₅)))) = u.reads in
    let small : port % 2 ^ 16 ≡ port = omega arith in
    let all =
      e₁
      ∙ ap (λ l. Slot.u8 (knock % 2 ^ 8) ∷ l)
          (e₂
            ∙ ap (λ l. Slot.string s ∷ l)
                (e₃
                  ∙ ap (λ l. Slot.string t ∷ l)
                      (e₄ ∙ ap (λ l. Slot.u16 (port % 2 ^ 16) ∷ l) e₅))) in
    let runs =
      knock_runs _ _ stale (port % 2 ^ 16) s t (knock % 2 ^ 8) alias hostname a u.arena
        (u.runs ∙ ap (λ l. ok (l, u.arena)) all) (cstr-ReadsAs s alias u.arena hs za)
        (cstr-ReadsAs t hostname u.arena ht zh) in
    (
      u.arena,
      runs ∙ ap (λ n. ok ((alias, hostname, n), u.arena)) small,
      u.valid,
      u.used,
      u.extends.same_cap,
    )
