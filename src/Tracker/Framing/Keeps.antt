-- ===== src/Tracker/Framing/Keeps.antt =====
-- What the loop that cuts messages keeps, whatever the messages are.
use tm.Base.{
  ℕ, zero, suc, ◌≡◌, ap, subst, true, false, inl, inr, Bool-cases, ok, fault-ok, ok-value,
}
use tm.Base.{List, leb, ◌==◌}
use tm.Clib.Arena.{Arena, M, return, ◌>>=◌, load}
use tm.Clib.Arena.Blocks.{bind_returns}
use tm.Clib.Buffer
use tm.Clib.Buffer.{Buffer}
use tm.Cnet.HostAddr.{htons}
use tm.Tracker.Framing.{Reading, native_u16, read_loop}

-- A relation that every message keeps is kept by the loop.
module _ {S : Type 0} (handle : ℕ → ℕ → S → M S) (R : S → S → Type 0) (stays : (s : S) → R s s)
    (follows : (s t u : S) → R s t → R t u → R s u)
    (handled : (p n : ℕ) (s s' : S) (a b : Arena) → handle p n s a ≡ ok (s', b) → R s s') where
  pub read_loop-keeps :
      (fuel : ℕ) (r r' : Reading) (s s' : S) (a b : Arena)
      → read_loop handle fuel r s a ≡ ok ((r', s'), b)
      → R s s'
  unfolding read_loop
  read_loop-keeps zero r r' s s' a b h = absurd (fault-ok h)
  read_loop-keeps (suc fuel) r r' s s' a b h = elim (Bool-cases (r.msglen == 0)) [
    | inl e ↦ elim (Bool-cases (leb 2 r.readbuf.len)) [
      | inl f ↦
          let shifted : List ℕ → Buffer → M (Reading × S) = λ bs buf.
            read_loop handle fuel (record r { readbuf = buf; msglen = htons (native_u16 bs) }) s in
          let headed : List ℕ → M (Reading × S) = λ bs. elim (htons (native_u16 bs) == 0) [
            | true ↦ return (record r { read_eof = true }, s)
            | false ↦ do buf ← Buffer.shift r.readbuf 2; shifted bs buf
          ] in
          let (bs, a₁, e₁, h₁) =
            bind_returns (load r.readbuf.bs 2) headed a b (r', s') (rw (read_loop, e, f) at h) in
          elim (Bool-cases (htons (native_u16 bs) == 0)) [
            | inl g ↦ subst (λ t. R s t) (ap (λ t. t.1) (ok-value (rw (g) at h₁))) (stays s)
            | inr g ↦
                let (buf, a₂, e₂, h₂) =
                  bind_returns (Buffer.shift r.readbuf 2) (shifted bs) a₁ b (r', s')
                    (rw (g) at h₁) in
                read_loop-keeps fuel (record r { readbuf = buf; msglen = htons (native_u16 bs) }) r'
                  s s' a₂ b h₂
          ]
      | inr f ↦ subst (λ t. R s t) (ap (λ t. t.1) (ok-value (rw (read_loop, e, f) at h))) (stays s)
    ]
    | inr e ↦ elim (Bool-cases (leb r.msglen r.readbuf.len)) [
      | inl f ↦
          let shifted : S → Buffer → M (Reading × S) =
            λ t buf. read_loop handle fuel (record r { readbuf = buf; msglen = 0 }) t in
          let (t, a₁, e₁, h₁) =
            bind_returns (handle r.readbuf.bs r.msglen s)
              (λ t. do buf ← Buffer.shift r.readbuf r.msglen; shifted t buf) a b (r', s')
              (rw (read_loop, e, f) at h) in
          let (buf, a₂, e₂, h₂) =
            bind_returns (Buffer.shift r.readbuf r.msglen) (shifted t) a₁ b (r', s') h₁ in
          follows s t s' (handled r.readbuf.bs r.msglen s t a a₁ e₁)
            (read_loop-keeps fuel (record r { readbuf = buf; msglen = 0 }) r' t s' a₂ b h₂)
      | inr f ↦ subst (λ t. R s t) (ap (λ t. t.1) (ok-value (rw (read_loop, e, f) at h))) (stays s)
    ]
  ]
