-- ===== src/Client/Loop/Watched.antt =====
-- The descriptors that the loop of a client watches.
use tm.Base.{
  ℕ, zero, suc, ◌+◌, ◌≤◌, ◌<◌, ◌≡◌, refl, sym, subst, arith, inl, inr, ◌⊎◌, Bool, true, false, ◌&&◌,
}
use tm.Base.{List, [], ◌∷◌, ◌++◌, ok, ok-value, ltb, leb, if◌then◌else◌}
use tm.Base.{Bool-cases, Outcome, Outcome-cases, Fault, fault}
use tm.Clib.Arena.{Arena, M, return, ◌>>=◌}
use tm.Clib.Arena.Blocks.{bind_returns, bind_ok, bind_fault}
use tm.Clib.Array
use tm.Clib.Array.{Array}
use tm.Cnet.Stream.{FdSet, fd_set}
use tm.Tmcommon.Contexts.{SocketCtx}
use tm.Client.Handling.{Client}
use tm.Client.Loop.Follows.{
  Watched, Follows, Follows-Watched, same-Follows, Follows-trans, larger_of, larger-below,
}
use tm.Client.Loop.Steps.{IsSmall, visited, scanned}
use tm.Client.Loop.{
  Round, SelectAnswer, Fixed, Inbox, visit, scan, fd_setsize, listen_loop, start, sizeof_ctx,
}

abbrev pub AllSmall : List SelectAnswer → Type 0
AllSmall [] = Unit {0}
AllSmall (SelectAnswer.nothing ∷ answers) = AllSmall answers
AllSmall (SelectAnswer.broken ∷ answers) = AllSmall answers
AllSmall (SelectAnswer.ready round ∷ answers) = IsSmall round.accept × AllSmall answers

listened :
    (fixed : Fixed) (answers : List SelectAnswer) (s s' : Inbox) (a b : Arena)
    → AllSmall answers
    → listen_loop fixed answers s a ≡ ok (s', b)
    → Follows s s'
unfolding listen_loop
listened fixed [] s s' a b small h = same-Follows s s' (ok-value h)
listened fixed (SelectAnswer.nothing ∷ answers) s s' a b small h =
    listened fixed answers s s' a b small h
listened fixed (SelectAnswer.broken ∷ answers) s s' a b small h = same-Follows s s' (ok-value h)
listened fixed (SelectAnswer.ready round ∷ answers) s s' a b small h =
    let finish : Inbox → M Inbox = λ t. elim t.is_running [
      | true ↦ listen_loop fixed answers t
      | false ↦ return (record t { closed = t.closed ++ (fixed.listenfd ∷ []) })
    ] in
    let (t, a₁, e₁, h₁) = bind_returns (scan fixed round (suc fd_setsize) 0 s) finish a b s' h in
    Follows-trans s t s' (scanned fixed round (suc fd_setsize) 0 s t a a₁ small.0 e₁)
      (elim (Bool-cases t.is_running) [
        | inl e ↦ listened fixed answers t s' a₁ b small.1 (rw (e) at h₁)
        | inr e ↦
            subst (λ u. Follows t u) (ok-value (rw (e) at h₁))
              (record { known = λ j w. inl (w, λ c. c); larger = omega arith; small = λ l. l })
      ])

two_fds : (l p i : ℕ) → fd_set p (fd_set l (λ fd. false)) i ≡ true → (i ≡ l) ⊎ (i ≡ p)
two_fds l p i h = ground arith

started :
    (fixed : Fixed) (client : Client) (s : Inbox) (a b : Arena)
    → fixed.listenfd < fd_setsize
    → fixed.pipefd < fd_setsize
    → start fixed client a ≡ ok (s, b)
    → Watched fixed s
unfolding start
started fixed client s a b hl hp h =
    let set₀ : FdSet = fd_set fixed.pipefd (fd_set fixed.listenfd (λ fd. false)) in
    let max₀ : ℕ = if ltb fixed.listenfd fixed.pipefd then fixed.pipefd else fixed.listenfd in
    let inbox : Array SocketCtx → Inbox = λ ctxs. record {
      client = client;
      ctxs = ctxs;
      readfds = set₀;
      maxfd = max₀;
      closed = [];
      is_running = true;
    } in
    let (ctxs, a₁, e₁, h₁) =
      bind_returns (Array.new 64 sizeof_ctx) (λ c. return (inbox c)) a b s h in
    subst (λ t. Watched fixed t) (ok-value h₁)
      (record {
        known = λ i w. elim (two_fds fixed.listenfd fixed.pipefd i w) [
          | inl e ↦ inl e
          | inr e ↦ inr (inl e)
        ];
        reached = λ i w.
            let (l, p) = larger_of fixed.listenfd fixed.pipefd in
            elim (two_fds fixed.listenfd fixed.pipefd i w) [
              | inl e ↦ subst (λ j. j ≤ max₀) (sym e) l
              | inr e ↦ subst (λ j. j ≤ max₀) (sym e) p
            ];
        small = larger-below fixed.listenfd fixed.pipefd fd_setsize hl hp;
      })

-- The loop of a client from its start on, where the system hands out descriptors below
-- `FD_SETSIZE`: if it returns, each descriptor that `select` watches is the listening socket,
-- the pipe, or a socket with a context, and is within the range that a round visits, which is
-- below `FD_SETSIZE`.
pub listen_loop-Watched :
    (fixed : Fixed) (client : Client) (answers : List SelectAnswer) (s : Inbox) (a b : Arena)
    → fixed.listenfd < fd_setsize
    → fixed.pipefd < fd_setsize
    → AllSmall answers
    → (do t ← start fixed client; listen_loop fixed answers t) a ≡ ok (s, b)
    → Watched fixed s
listen_loop-Watched fixed client answers s a b hl hp small h =
    let (t, a₁, e₁, h₁) =
      bind_returns (start fixed client) (λ t. listen_loop fixed answers t) a b s h in
    Follows-Watched fixed t s (listened fixed answers t s a₁ b small h₁)
      (started fixed client t a a₁ hl hp e₁)

-- `Scans i s a o`: the rounds over the descriptors from `i` on come to `o` after finitely many, the
-- last of which is the first behind `maxfd` or behind the byte in the pipe, or is not left.
pub data Scans (fixed : Fixed) (round : Round)
    : ℕ → Inbox → Arena → Outcome (Inbox × Arena) → Type 0 where
  ends :
      (i : ℕ) (s : Inbox) (a : Arena)
      → (s.maxfd < i) ⊎ (s.is_running ≡ false)
      → Scans fixed round i s a (ok (s, a))
  stops :
      (i : ℕ) (s : Inbox) (a : Arena) (e : Fault)
      → i ≤ s.maxfd
      → s.is_running ≡ true
      → visit fixed round i s a ≡ fault e
      → Scans fixed round i s a (fault e)
  goes :
      (i : ℕ) (s t : Inbox) (a b : Arena) (o : Outcome (Inbox × Arena))
      → i ≤ s.maxfd
      → s.is_running ≡ true
      → visit fixed round i s a ≡ ok (t, b)
      → Scans fixed round (i + 1) t b o
      → Scans fixed round i s a o

within : (i m : ℕ) (r : Bool) → (leb i m && r) ≡ true → (i ≤ m) × (r ≡ true)
within i m true h = (ground arith, refl)
within i m false h = let z : (leb i m && false) ≡ false = ground arith in cc

behind : (i m : ℕ) (r : Bool) → (leb i m && r) ≡ false → (m < i) ⊎ (r ≡ false)
behind i m true h = inl (ground arith)
behind i m false h = inr refl

scan_goes :
    (fixed : Fixed) (round : Round) (fuel i : ℕ) (s : Inbox) (a : Arena)
    → (leb i s.maxfd && s.is_running) ≡ true
    → scan fixed round (suc fuel) i s a
      ≡ (do t ← visit fixed round i s; scan fixed round fuel (i + 1) t) a
unfolding scan
scan_goes fixed round fuel i s a e = rw (scan, e) refl

scan_ends :
    (fixed : Fixed) (round : Round) (fuel i : ℕ) (s : Inbox) (a : Arena)
    → (leb i s.maxfd && s.is_running) ≡ false
    → scan fixed round (suc fuel) i s a ≡ ok (s, a)
unfolding scan
scan_ends fixed round fuel i s a e = rw (scan, e) refl

-- A round of the loop of a client over the descriptors from `i` on, where the system hands out
-- descriptors below `FD_SETSIZE`, with fuel for all descriptors up to `FD_SETSIZE`: it visits
-- one descriptor after the other, and ends after finitely many, behind `maxfd`, behind the byte
-- in the pipe, or at a visit that does not return; it never runs out of the fuel for its rounds.
pub scan_lem :
    (fixed : Fixed) (round : Round) (fuel i : ℕ) (s : Inbox) (a : Arena)
    → IsSmall round.accept
    → s.maxfd < fd_setsize
    → i ≤ fd_setsize
    → fd_setsize < i + fuel
    → Scans fixed round i s a (scan fixed round fuel i s a)
scan_lem fixed round zero i s a small below h k = absurd (omega arith)
scan_lem fixed round (suc fuel) i s a small below h k =
    elim (Bool-cases (leb i s.maxfd && s.is_running)) [
      | inr e ↦
          subst (Scans fixed round i s a) (sym (scan_ends fixed round fuel i s a e))
            (Scans.ends i s a (behind i s.maxfd s.is_running e))
      | inl e ↦
          let (l, r) = within i s.maxfd s.is_running e in
          let next : Inbox → M Inbox = λ t. scan fixed round fuel (i + 1) t in
          subst (Scans fixed round i s a) (sym (scan_goes fixed round fuel i s a e))
            (elim (Outcome-cases (visit fixed round i s a)) [
              | inl ((t, b), f) ↦
                  let g : Follows s t = visited fixed round i s t a b small f in
                  subst (Scans fixed round i s a)
                    (sym (bind_ok (visit fixed round i s) next a b t f))
                    (Scans.goes i s t a b (next t b) l r f (
                      scan_lem fixed round fuel (i + 1) t b small (g.small below) (omega arith)
                        (omega arith)))
              | inr (z, f) ↦
                  subst (Scans fixed round i s a)
                    (sym (bind_fault (visit fixed round i s) next a z f))
                    (Scans.stops i s a z l r f)
            ])
    ]
