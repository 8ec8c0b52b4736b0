-- ===== src/Tracker/Loop/Served.antt =====
-- The descriptors that the loop of the tracker watches, from its start on.
use tm.Base.{ℕ, zero, suc, ◌+◌, ◌≡◌, ap, subst, arith, inl, inr, Bool, true, false, ◌&&◌}
use tm.Base.{List, [], ◌∷◌, map, ok, ok-value, fault-ok, leb, ◌==◌, if◌then◌else◌, Bool-cases}
use tm.Clib.Arena.{Arena, M, return, ◌>>=◌}
use tm.Clib.Arena.Blocks.{bind_returns}
use tm.Clib.Array
use tm.Clib.Array.{Array}
use tm.Clib.Array.Items.{new-items}
use tm.Cnet.Stream.{fd_set}
use tm.Tmcommon.Contexts.{SocketCtx}
use tm.Tmcommon.Peers.{Peers}
use tm.Tmcommon.Sending.{Attempt}
use tm.Tracker.Loop.{
  Round, SelectAnswer, nothing, broken, ready, Server, world, with_world, accept_peer, receive,
  write_out, visit, scan, fd_setsize, serve, sizeof_ctx, start,
}
use tm.Tracker.Loop.Covered.{Covered, empty-Shut}
use tm.Tracker.Loop.Steps.{IsFresh, Serves, accept-Serves, receive-Serves}
use tm.Tracker.Loop.Writes.{write_out-Covered}

-- Whatever contexts there are, `accept` does not answer the descriptor of one of them.
abbrev pub Fresh : Round → Type 0
Fresh round = (ctxs : List SocketCtx) → IsFresh (round.accept (map (λ ctx. ctx.fd) ctxs)) ctxs

abbrev pub AllFresh : List SelectAnswer → Type 0
AllFresh [] = Unit {0}
AllFresh (nothing ∷ answers) = AllFresh answers
AllFresh (broken ∷ answers) = AllFresh answers
AllFresh (ready round ∷ answers) = Fresh round × AllFresh answers

-- The part of a round that reads.
reading-Serves :
    (scratch : Arena) (stale listenfd : ℕ) (round : Round) (i : ℕ) (readable listens : Bool)
    (s s' : Server) (go_on : Bool) (a b : Arena)
    → Fresh round
    → Serves listenfd s
    → (if readable
          then (if listens
              then accept_peer (round.accept (map (λ ctx. ctx.fd) (world s).ctxs.items)) s
              else receive scratch stale i (round.recvs i) s)
          else return (s, true))
        a
      ≡ ok ((s', go_on), b)
    → Serves listenfd s'
reading-Serves scratch stale listenfd round i false listens s s' go_on a b fresh c h =
    subst (λ t. Serves listenfd t) (ap (λ t. t.0) (ok-value h)) c
reading-Serves scratch stale listenfd round i true true s s' go_on a b fresh c h =
    accept-Serves listenfd (round.accept (map (λ ctx. ctx.fd) (world s).ctxs.items)) s s' go_on a b
      (fresh (world s).ctxs.items) c h
reading-Serves scratch stale listenfd round i true false s s' go_on a b fresh c h =
    receive-Serves scratch stale listenfd i (round.recvs i) s s' go_on a b c h

-- The part of a round that writes.
writing-Serves :
    (listenfd : ℕ) (round : Round) (i : ℕ) (writes : Bool) (s s' : Server) (a b : Arena)
    → Serves listenfd s
    → (if writes
          then ◌>>=◌ {B = Server}
              (write_out i (round.sends i) (world s))
              (λ w. return (with_world s w))
          else return s)
        a
      ≡ ok (s', b)
    → Serves listenfd s'
writing-Serves listenfd round i false s s' a b c h = subst (λ t. Serves listenfd t) (ok-value h) c
writing-Serves listenfd round i true s s' a b c h =
    let (w, a₁, e₁, h₁) =
      bind_returns (write_out i (round.sends i) (world s)) (λ w. return (with_world s w)) a b s'
        h in
    subst (λ t. Serves listenfd t) (ok-value h₁)
      (write_out-Covered listenfd s.readfds i (round.sends i) (world s) w a a₁ c e₁)

visit-Serves :
    (scratch : Arena) (stale listenfd : ℕ) (round : Round) (i : ℕ) (s s' : Server) (a b : Arena)
    → Fresh round
    → Serves listenfd s
    → visit scratch stale listenfd round i s a ≡ ok (s', b)
    → Serves listenfd s'
unfolding visit
visit-Serves scratch stale listenfd round i s s' a b fresh c h =
    let reads : M (Server × Bool) =
      if round.readable i
      then (if i == listenfd
          then accept_peer (round.accept (map (λ ctx. ctx.fd) (world s).ctxs.items)) s
          else receive scratch stale i (round.recvs i) s)
      else return (s, true) in
    let writes : Server × Bool → M Server = λ t.
      if t.1 && round.writable i
      then (do w ← write_out i (round.sends i) (world t.0); return (with_world t.0 w))
      else return t.0 in
    let (t, a₁, e₁, h₁) = bind_returns reads writes a b s' h in
    writing-Serves listenfd round i (t.1 && round.writable i) t.0 s' a₁ b
      (reading-Serves scratch stale listenfd round i (round.readable i) (i == listenfd) s t.0 t.1 a
        a₁ fresh c e₁)
      h₁

scan-Serves :
    (scratch : Arena) (stale listenfd : ℕ) (round : Round) (fuel i : ℕ) (s s' : Server)
    (a b : Arena)
    → Fresh round
    → Serves listenfd s
    → scan scratch stale listenfd round fuel i s a ≡ ok (s', b)
    → Serves listenfd s'
unfolding scan
scan-Serves scratch stale listenfd round zero i s s' a b fresh c h = absurd (fault-ok h)
scan-Serves scratch stale listenfd round (suc fuel) i s s' a b fresh c h =
    elim (Bool-cases (leb i (world s).watch.maxfd)) [
      | inr e ↦ subst (λ t. Serves listenfd t) (ok-value (rw (scan, e) at h)) c
      | inl e ↦
          let (t, a₁, e₁, h₁) =
            bind_returns (visit scratch stale listenfd round i s)
              (λ t. scan scratch stale listenfd round fuel (i + 1) t) a b s' (rw (scan, e) at h) in
          scan-Serves scratch stale listenfd round fuel (i + 1) t s' a₁ b fresh
            (visit-Serves scratch stale listenfd round i s t a a₁ fresh c e₁) h₁
    ]

kept-Serves :
    (scratch : Arena) (stale listenfd : ℕ) (answers : List SelectAnswer) (s s' : Server)
    (a b : Arena)
    → AllFresh answers
    → Serves listenfd s
    → serve scratch stale listenfd answers s a ≡ ok (s', b)
    → Serves listenfd s'
unfolding serve
kept-Serves scratch stale listenfd [] s s' a b fresh c h =
    subst (λ t. Serves listenfd t) (ok-value h) c
kept-Serves scratch stale listenfd (nothing ∷ answers) s s' a b fresh c h =
    kept-Serves scratch stale listenfd answers s s' a b fresh c h
kept-Serves scratch stale listenfd (broken ∷ answers) s s' a b fresh c h =
    subst (λ t. Serves listenfd t) (ok-value h) c
kept-Serves scratch stale listenfd (ready round ∷ answers) s s' a b fresh c h =
    let (t, a₁, e₁, h₁) =
      bind_returns (scan scratch stale listenfd round (suc fd_setsize) 0 s)
        (λ t. serve scratch stale listenfd answers t) a b s' h in
    kept-Serves scratch stale listenfd answers t s' a₁ b fresh.1
      (scan-Serves scratch stale listenfd round (suc fd_setsize) 0 s t a a₁ fresh.0 c e₁) h₁

one_fd : (l i : ℕ) → fd_set l (λ fd. false) i ≡ true → i ≡ l
one_fd l i h = ground arith

start-Serves :
    (listenfd : ℕ) (peers : Peers) (peers_arena : Arena) (attempts : List Attempt) (s : Server)
    (a b : Arena)
    → start listenfd peers peers_arena attempts a ≡ ok (s, b)
    → Serves listenfd s
unfolding start
start-Serves listenfd peers peers_arena attempts s a b h =
    let begun : Array SocketCtx → Server = λ ctxs. record {
      tracking = record {
        peers = peers;
        peers_arena = peers_arena;
        world = record {
          ctxs = ctxs;
          watch = record { writefds = λ fd. false; maxfd = listenfd };
          attempts = attempts;
          log = [];
        };
      };
      readfds = fd_set listenfd (λ fd. false);
    } in
    let (ctxs, a₁, e₁, h₁) =
      bind_returns (Array.new 64 sizeof_ctx) (λ ctxs. return (begun ctxs)) a b s h in
    subst (λ t. Serves listenfd t) (ok-value h₁)
      (record {
        known = λ i k. inl (one_fd listenfd i k);
        unshut = λ i k m. empty-Shut ctxs.items (new-items 64 sizeof_ctx ctxs a a₁ e₁) m;
        reached = λ i k. let e : i ≡ listenfd = one_fd listenfd i k in omega arith;
      })

-- The loop of the tracker from its start on, where `accept` never answers a descriptor that has
-- a context: if it returns, each descriptor that is watched for reading is the listening socket
-- or has a context, no context of it was shut down for reading, and a round comes to it.
pub serve-Serves :
    (scratch : Arena) (stale listenfd : ℕ) (peers : Peers) (peers_arena : Arena)
    (attempts : List Attempt) (answers : List SelectAnswer) (s : Server) (a b : Arena)
    → AllFresh answers
    → (do t ← start listenfd peers peers_arena attempts; serve scratch stale listenfd answers t) a
      ≡ ok (s, b)
    → Covered listenfd s.readfds (world s)
serve-Serves scratch stale listenfd peers peers_arena attempts answers s a b fresh h =
    let (t, a₁, e₁, h₁) =
      bind_returns (start listenfd peers peers_arena attempts)
        (λ t. serve scratch stale listenfd answers t) a b s h in
    kept-Serves scratch stale listenfd answers t s a₁ b fresh
      (start-Serves listenfd peers peers_arena attempts t a a₁ e₁) h₁
