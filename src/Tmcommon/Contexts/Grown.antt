-- ===== src/Tmcommon/Contexts/Grown.antt =====
-- Contexts that are written back with the same descriptor, and new ones behind them, which are open.
use tm.Base.{
  ℕ, zero, suc, ◌≡◌, refl, sym, ap, ◌∙◌, true, false, List, [], ◌∷◌, ◌++◌, set, get_elem?, some,
  some-inj, none-some, ok, ◌==◌, ltb, length, ◌-◌, subst, ok-value, Option-cases, inl, inr, ◌⊎◌,
}
use tm.Clib.Arena.{Arena, M, return, ◌>>=◌, ◌>>◌, assert}
use tm.Clib.Arena.Blocks.{bind_returns}
use tm.Clib.Array
use tm.Clib.Array.{Array, remove_at}
use tm.Clib.Array.Items.{append-items, remove-cases}
use tm.Clib.Buffer
use tm.Clib.Buffer.{Buffer}
use tm.Tmcommon.Contexts.{SocketCtx, ctx_new, remove_by_fd, find_by_fd}
use tm.Tmcommon.Contexts.Held.{HasFd, HasFd-last}

-- No context was shut down for reading.
abbrev pub AllOpen : List SocketCtx → Type 0
AllOpen [] = Unit {0}
AllOpen (ctx ∷ ctxs) = (ctx.shut_rd ≡ false) × AllOpen ctxs

pub data Grown : List SocketCtx → List SocketCtx → Type 0 where
  more : (ys : List SocketCtx) → AllOpen ys → Grown [] ys
  next :
      (c d : SocketCtx) (xs ys : List SocketCtx)
      → d.fd ≡ c.fd
      → d.shut_rd ≡ c.shut_rd
      → Grown xs ys
      → Grown (c ∷ xs) (d ∷ ys)

pub Grown-refl : (xs : List SocketCtx) → Grown xs xs
Grown-refl [] = more [] tt
Grown-refl (x ∷ xs) = next x x xs xs refl refl (Grown-refl xs)

open-Grown : (ys zs : List SocketCtx) → AllOpen ys → Grown ys zs → AllOpen zs
open-Grown [] zs h (more _ k) = k
open-Grown (y ∷ ys) [] h g = elim g [ ]
open-Grown (y ∷ ys) (z ∷ zs) (o, h) (next _ _ _ _ e f g) = (f ∙ o, open-Grown ys zs h g)

pub Grown-trans : (xs ys zs : List SocketCtx) → Grown xs ys → Grown ys zs → Grown xs zs
Grown-trans [] ys zs (more _ h) g = more zs (open-Grown ys zs h g)
Grown-trans (x ∷ xs) [] zs g h = elim g [ ]
Grown-trans (x ∷ xs) (y ∷ ys) [] g h = elim h [ ]
Grown-trans (x ∷ xs) (y ∷ ys) (z ∷ zs) (next _ _ _ _ e f g) (next _ _ _ _ e' f' g') =
    next x z xs zs (e' ∙ e) (f' ∙ f) (Grown-trans xs ys zs g g')

pub Grown-append :
    (xs : List SocketCtx) (c : SocketCtx) → c.shut_rd ≡ false → Grown xs (xs ++ (c ∷ []))
Grown-append [] c h = more (c ∷ []) (h, tt)
Grown-append (x ∷ xs) c h = next x x xs (xs ++ (c ∷ [])) refl refl (Grown-append xs c h)

pub Grown-set :
    (xs : List SocketCtx) (i : ℕ) (old new : SocketCtx)
    → get_elem? xs i ≡ some old
    → new.fd ≡ old.fd
    → new.shut_rd ≡ old.shut_rd
    → Grown xs (set xs i new)
Grown-set [] i old new e f g = absurd (none-some e)
Grown-set (x ∷ xs) zero old new e f g =
    let q : x ≡ old = some-inj e in
    next x new xs xs (f ∙ ap (λ c. c.fd) (sym q)) (g ∙ ap (λ c. c.shut_rd) (sym q)) (Grown-refl xs)
Grown-set (x ∷ xs) (suc i) old new e f g =
    next x x xs (set xs i new) refl refl (Grown-set xs i old new e f g)

pub Grown-HasFd : {fd : ℕ} (xs ys : List SocketCtx) → Grown xs ys → HasFd fd xs → HasFd fd ys
Grown-HasFd [] ys g h = elim h [ ]
Grown-HasFd (x ∷ xs) [] g h = elim g [ ]
Grown-HasFd (x ∷ xs) (y ∷ ys) (next _ _ _ _ e f g) (HasFd.here _ _ h) = HasFd.here y ys (e ∙ h)
Grown-HasFd (x ∷ xs) (y ∷ ys) (next _ _ _ _ e f g) (HasFd.there _ _ h) =
    HasFd.there y ys (Grown-HasFd xs ys g h)

pub Grown-fd :
    (xs ys : List SocketCtx) (i : ℕ) (c d : SocketCtx)
    → Grown xs ys
    → get_elem? xs i ≡ some c
    → get_elem? ys i ≡ some d
    → d.fd ≡ c.fd
Grown-fd [] ys i c d g e f = absurd (none-some e)
Grown-fd (x ∷ xs) [] i c d g e f = elim g [ ]
Grown-fd (x ∷ xs) (y ∷ ys) zero c d (next _ _ _ _ k l g) e f =
    ap (λ c. c.fd) (sym (some-inj f)) ∙ k ∙ ap (λ c. c.fd) (some-inj e)
Grown-fd (x ∷ xs) (y ∷ ys) (suc i) c d (next _ _ _ _ k l g) e f = Grown-fd xs ys i c d g e f

-- Some context of the descriptor was shut down for reading.
pub data Shut (fd : ℕ) : List SocketCtx → Type 0 where
  here :
      (ctx : SocketCtx) (ctxs : List SocketCtx)
      → ctx.fd ≡ fd
      → ctx.shut_rd ≡ true
      → Shut fd (ctx ∷ ctxs)
  there : (ctx : SocketCtx) (ctxs : List SocketCtx) → Shut fd ctxs → Shut fd (ctx ∷ ctxs)

open-Shut : {fd : ℕ} (xs : List SocketCtx) → AllOpen xs → Shut fd xs → ⊥
open-Shut [] o h = elim h [ ]
open-Shut (x ∷ xs) (o, os) (Shut.here _ _ e f) = let z : true ≡ false = sym f ∙ o in cc
open-Shut (x ∷ xs) (o, os) (Shut.there _ _ h) = open-Shut xs os h

pub Grown-Shut : {fd : ℕ} (xs ys : List SocketCtx) → Grown xs ys → Shut fd ys → Shut fd xs
Grown-Shut [] ys (more _ o) h = absurd (open-Shut ys o h)
Grown-Shut (x ∷ xs) [] g h = elim g [ ]
Grown-Shut (x ∷ xs) (y ∷ ys) (next _ _ _ _ e f g) (Shut.here _ _ h k) =
    Shut.here x xs (sym e ∙ h) (sym f ∙ k)
Grown-Shut (x ∷ xs) (y ∷ ys) (next _ _ _ _ e f g) (Shut.there _ _ h) =
    Shut.there x xs (Grown-Shut xs ys g h)

pub Shut-HasFd : {fd : ℕ} (xs : List SocketCtx) → Shut fd xs → HasFd fd xs
Shut-HasFd [] h = elim h [ ]
Shut-HasFd (x ∷ xs) (Shut.here _ _ e f) = HasFd.here x xs e
Shut-HasFd (x ∷ xs) (Shut.there _ _ h) = HasFd.there x xs (Shut-HasFd xs h)

pub Shut-item :
    (xs : List SocketCtx) (i : ℕ) (c : SocketCtx)
    → get_elem? xs i ≡ some c
    → c.shut_rd ≡ true
    → Shut c.fd xs
Shut-item [] i c e h = absurd (none-some e)
Shut-item (x ∷ xs) zero c e h =
    let q : x ≡ c = some-inj e in Shut.here x xs (ap (λ d. d.fd) q) (ap (λ d. d.shut_rd) q ∙ h)
Shut-item (x ∷ xs) (suc i) c e h = Shut.there x xs (Shut-item xs i c e h)

pub Shut-set :
    {fd : ℕ} (xs : List SocketCtx) (i : ℕ) (new : SocketCtx)
    → Shut fd (set xs i new)
    → (new.fd ≡ fd) ⊎ Shut fd xs
Shut-set [] i new h = elim h [ ]
Shut-set (x ∷ xs) zero new (Shut.here _ _ e f) = inl e
Shut-set (x ∷ xs) zero new (Shut.there _ _ h) = inr (Shut.there x xs h)
Shut-set (x ∷ xs) (suc i) new (Shut.here _ _ e f) = inr (Shut.here x xs e f)
Shut-set (x ∷ xs) (suc i) new (Shut.there _ _ h) = elim (Shut-set xs i new h) [
  | inl e ↦ inl e
  | inr k ↦ inr (Shut.there x xs k)
]

Shut-remove : {fd : ℕ} (xs : List SocketCtx) (i : ℕ) → Shut fd (remove_at xs i) → Shut fd xs
Shut-remove [] i h = h
Shut-remove (x ∷ xs) zero h = Shut.there x xs h
Shut-remove (x ∷ xs) (suc i) (Shut.here _ _ e f) = Shut.here x xs e f
Shut-remove (x ∷ xs) (suc i) (Shut.there _ _ h) = Shut.there x xs (Shut-remove xs i h)

pub Shut-remove_by_fd :
    {fd : ℕ} (gone : ℕ) (ctxs : Array SocketCtx)
    → Shut fd (remove_by_fd gone ctxs).items
    → Shut fd ctxs.items
unfolding remove_by_fd
Shut-remove_by_fd gone ctxs h = elim (Option-cases (find_by_fd gone 0 ctxs.items)) [
  | inl e ↦ rw (remove_by_fd, e) at h
  | inr (i, e) ↦ elim (remove-cases ctxs i) [
    | inl f ↦ rw (remove_by_fd, e, f) at h
    | inr f ↦ Shut-remove ctxs.items i (rw (remove_by_fd, e, f) at h)
  ]
]

-- `SocketCtx_new` that returns.
pub ctx_new-Grown :
    (fd fromaddr toaddr n m : ℕ) (ctxs ctxs' : Array SocketCtx) (i : ℕ) (a b : Arena)
    → ctx_new fd ctxs fromaddr toaddr n m a ≡ ok ((ctxs', i), b)
    → Grown ctxs.items ctxs'.items × HasFd fd ctxs'.items
unfolding ctx_new
ctx_new-Grown fd fromaddr toaddr n m ctxs ctxs' i a b h =
    let ctx : Buffer → Buffer → SocketCtx = λ x y. record {
      fd = fd;
      fromaddr = fromaddr;
      toaddr = toaddr;
      readbuf = x;
      writebuf = y;
      msglen = 0;
      shut_rd = false;
    } in
    let checked : Array SocketCtx → M (Array SocketCtx × ℕ) = λ r. (do
      assert (ltb 0 (length r.items))
      retctx ← Array.item r (length r.items - 1)
      assert (retctx.fd == fd)
      return (r, length r.items - 1)) in
    let (x, a₁, e₁, h₁) =
      bind_returns (Buffer.new n)
        (λ x. do y ← Buffer.new m; r ← Array.append ctxs (ctx x y); checked r) a b (ctxs', i) h in
    let (y, a₂, e₂, h₂) =
      bind_returns (Buffer.new m) (λ y. do r ← Array.append ctxs (ctx x y); checked r) a₁ b
        (ctxs', i) h₁ in
    let (r, a₃, e₃, h₃) = bind_returns (Array.append ctxs (ctx x y)) checked a₂ b (ctxs', i) h₂ in
    let (u, a₄, e₄, h₄) =
      bind_returns (assert (ltb 0 (length r.items)))
        (λ u. do
          retctx ← Array.item r (length r.items - 1)
          assert (retctx.fd == fd)
          return (r, length r.items - 1))
        a₃ b (ctxs', i) h₃ in
    let (retctx, a₅, e₅, h₅) =
      bind_returns (Array.item r (length r.items - 1))
        (λ retctx. do assert (retctx.fd == fd); return (r, length r.items - 1)) a₄ b (ctxs', i)
        h₄ in
    let (v, a₆, e₆, h₆) =
      bind_returns (assert (retctx.fd == fd)) (λ v. return (r, length r.items - 1)) a₅ b (ctxs', i)
        h₅ in
    let same : r.items ≡ ctxs'.items = ap (λ t. t.0.items) (ok-value h₆) in
    let items : ctxs'.items ≡ ctxs.items ++ (ctx x y ∷ []) =
      sym same ∙ append-items ctxs r (ctx x y) a₂ a₃ e₃ in
    (
      subst (λ l. Grown ctxs.items l) (sym items) (Grown-append ctxs.items (ctx x y) refl),
      subst (λ l. HasFd fd l) (sym items) (HasFd-last ctxs.items (ctx x y)),
    )
