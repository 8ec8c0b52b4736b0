-- ===== src/Tmcommon/Contexts/Held.antt =====
-- Which descriptors have a context, and which keep it.
use tm.Base.{
  arith, ℕ, zero, suc, ◌+◌, ◌≡◌, ◌≢◌, refl, sym, ap, ◌∙◌, inl, inr, Option-cases, Bool-cases,
}
use tm.Base.{List, [], ◌∷◌, ◌++◌, set, get_elem?, some, some-inj, none-some, ◌==◌, ==_iff}
use tm.Clib.Array.Items.{remove-cases}
use tm.Clib.Array.{Array, remove_at}
use tm.Tmcommon.Contexts.{SocketCtx, find_by_fd, remove_by_fd}

-- Some context is that of the descriptor.
pub data HasFd (fd : ℕ) : List SocketCtx → Type 0 where
  here : (ctx : SocketCtx) (ctxs : List SocketCtx) → ctx.fd ≡ fd → HasFd fd (ctx ∷ ctxs)
  there : (ctx : SocketCtx) (ctxs : List SocketCtx) → HasFd fd ctxs → HasFd fd (ctx ∷ ctxs)

pub HasFd-append : {fd : ℕ} (ctxs more : List SocketCtx) → HasFd fd ctxs → HasFd fd (ctxs ++ more)
HasFd-append [] more h = elim h [ ]
HasFd-append (ctx ∷ ctxs) more (here _ _ e) = here ctx (ctxs ++ more) e
HasFd-append (ctx ∷ ctxs) more (there _ _ h) = there ctx (ctxs ++ more) (HasFd-append ctxs more h)

pub HasFd-last : (ctxs : List SocketCtx) (ctx : SocketCtx) → HasFd ctx.fd (ctxs ++ (ctx ∷ []))
HasFd-last [] ctx = here ctx [] refl
HasFd-last (x ∷ ctxs) ctx = there x (ctxs ++ (ctx ∷ [])) (HasFd-last ctxs ctx)

-- A context that is written back with its descriptor.
pub HasFd-set :
    {fd : ℕ} (ctxs : List SocketCtx) (i : ℕ) (old new : SocketCtx)
    → get_elem? ctxs i ≡ some old
    → new.fd ≡ old.fd
    → HasFd fd ctxs
    → HasFd fd (set ctxs i new)
HasFd-set [] i old new e f h = elim h [ ]
HasFd-set (x ∷ ctxs) zero old new e f (here _ _ h) =
    here new ctxs (f ∙ ap (λ c. c.fd) (sym (some-inj e)) ∙ h)
HasFd-set (x ∷ ctxs) zero old new e f (there _ _ h) = there new ctxs h
HasFd-set (x ∷ ctxs) (suc i) old new e f (here _ _ h) = here x (set ctxs i new) h
HasFd-set (x ∷ ctxs) (suc i) old new e f (there _ _ h) =
    there x (set ctxs i new) (HasFd-set ctxs i old new e f h)

-- What `find_by_fd` finds.
found-fd :
    (fd from i : ℕ) (ctxs : List SocketCtx)
    → find_by_fd fd from ctxs ≡ some i
    → (k : ℕ) × (ctx : SocketCtx) × (i ≡ from + k) × (get_elem? ctxs k ≡ some ctx) × (ctx.fd ≡ fd)
unfolding find_by_fd
found-fd fd from i [] h = absurd (none-some h)
found-fd fd from i (ctx ∷ ctxs) h = elim (Bool-cases (ctx.fd == fd)) [
  | inl e ↦
      let k : from ≡ i = some-inj (rw (e) at h) in
      (zero, ctx, omega (arith, k), refl, (==_iff ctx.fd fd).0 e)
  | inr e ↦
      let (k, c, f, g, q) = found-fd fd (from + 1) i ctxs (rw (find_by_fd, e) at h) in
      (suc k, c, omega (arith, f), g, q)
]

HasFd-remove :
    {fd : ℕ} (ctxs : List SocketCtx) (i : ℕ) (ctx : SocketCtx)
    → get_elem? ctxs i ≡ some ctx
    → ctx.fd ≢ fd
    → HasFd fd ctxs
    → HasFd fd (remove_at ctxs i)
HasFd-remove [] i ctx e n h = elim h [ ]
HasFd-remove (x ∷ ctxs) zero ctx e n (here _ _ h) =
    absurd (n (ap (λ c. c.fd) (sym (some-inj e)) ∙ h))
HasFd-remove (x ∷ ctxs) zero ctx e n (there _ _ h) = h
HasFd-remove (x ∷ ctxs) (suc i) ctx e n (here _ _ h) = here x (remove_at ctxs i) h
HasFd-remove (x ∷ ctxs) (suc i) ctx e n (there _ _ h) =
    there x (remove_at ctxs i) (HasFd-remove ctxs i ctx e n h)

-- The other contexts stay where the one of a descriptor is removed.
pub HasFd-remove_by_fd :
    (fd i : ℕ) (ctxs : Array SocketCtx)
    → i ≢ fd
    → HasFd i ctxs.items
    → HasFd i (remove_by_fd fd ctxs).items
unfolding remove_by_fd
HasFd-remove_by_fd fd i ctxs n h = elim (Option-cases (find_by_fd fd 0 ctxs.items)) [
  | inl e ↦ rw (remove_by_fd, e) h
  | inr (k, e) ↦
      let (j, ctx, f, g, q) = found-fd fd 0 k ctxs.items e in
      let p : k ≡ j = omega (arith, f) in
      let kept : HasFd i (remove_at ctxs.items j) =
        HasFd-remove ctxs.items j ctx g (λ r. n (sym r ∙ q)) h in
      elim (remove-cases ctxs j) [
        | inl l ↦ rw (remove_by_fd, e, p, l) h
        | inr l ↦ rw (remove_by_fd, e, p, l) kept
      ]
]

pub found-item :
    (fd i : ℕ) (ctxs : List SocketCtx)
    → find_by_fd fd 0 ctxs ≡ some i
    → (ctx : SocketCtx) × (get_elem? ctxs i ≡ some ctx) × (ctx.fd ≡ fd)
found-item fd i ctxs h =
    let (k, ctx, e, f, g) = found-fd fd 0 i ctxs h in
    let p : i ≡ k = omega (arith, e) in (ctx, ap (λ n. get_elem? ctxs n) p ∙ f, g)
