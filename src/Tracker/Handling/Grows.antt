-- ===== src/Tracker/Handling/Grows.antt =====
-- What a message does to the contexts and to the range of descriptors, whatever it says.
use tm.Base.{ℕ, ◌≡◌, ap, subst, inl, inr, Bool-cases, ok-value}
use tm.Base.{List, [], ◌∷◌, drop, ok, ◌==◌, if◌then◌else◌}
use tm.Clib.Arena.{Arena, M, return, ◌>>=◌, ◌>>◌, on_arena}
use tm.Clib.Arena.Blocks.{bind_returns}
use tm.Clib.Buffer.{Buffer}
use tm.Cnet.Pack.{int, longlong}
use tm.Tmcommon.Messages.{online_args, peer_offline, knock, bye, peer_online_fmt, peer_offline_fmt}
use tm.Tmcommon.Peers.{Peer, Peers, create_peer, print_peers}
use tm.Tmcommon.Sending.{World, send_msg_to_hostaddr, send_msg_to_peers}
use tm.Tmcommon.Sending.Grows.{
  Grows, Grows-refl, Grows-trans, send_msg_to_hostaddr-Grows, send_msg_to_peers-Grows,
}
use tm.Tracker.Handling.{
  Tracking, read_knock, listen_addr, first_message, next_message, tell_of_peers, handle_knock,
  without_peer, handle_bye, msgno, handle_msg,
}

tell_of_peers-Grows :
    (scratch : Arena) (sendbuf : Buffer) (toaddr : ℕ) (ps : List Peer) (w w' : World) (a b : Arena)
    → tell_of_peers scratch sendbuf toaddr ps w a ≡ ok (w', b)
    → Grows w w'
unfolding tell_of_peers
tell_of_peers-Grows scratch sendbuf toaddr [] w w' a b h =
    subst (λ v. Grows w v) (ok-value h) (Grows-refl w)
tell_of_peers-Grows scratch sendbuf toaddr (p ∷ ps) w w' a b h = elim (Bool-cases p.active) [
  | inr e ↦ tell_of_peers-Grows scratch sendbuf toaddr ps w w' a b (rw (tell_of_peers, e) at h)
  | inl e ↦
      let (t, a₁, e₁, h₁) =
        bind_returns (on_arena scratch (next_message sendbuf p))
          (λ t. do
            r ← send_msg_to_hostaddr t.1 t.0.1 toaddr w
            tell_of_peers t.1 t.0.0 toaddr ps r.0)
          a b w' (rw (tell_of_peers, e) at h) in
      let (r, a₂, e₂, h₂) =
        bind_returns (send_msg_to_hostaddr t.1 t.0.1 toaddr w)
          (λ r. tell_of_peers t.1 t.0.0 toaddr ps r.0) a₁ b w' h₁ in
      Grows-trans w r.0 w' (send_msg_to_hostaddr-Grows t.1 t.0.1 toaddr w r.0 r.1 a₁ a₂ e₂)
        (tell_of_peers-Grows t.1 t.0.0 toaddr ps r.0 w' a₂ b h₂)
]

knock-Grows :
    (scratch : Arena) (fromaddr : ℕ) (bytes : List ℕ) (n listenport : ℕ) (t t' : Tracking)
    (a b : Arena)
    → handle_knock scratch fromaddr bytes n listenport t a ≡ ok (t', b)
    → Grows t.world t'.world
unfolding handle_knock
knock-Grows scratch fromaddr bytes n listenport t t' a b h =
    let after : Peers → Arena → World → Tracking =
      λ peers pa w. record { peers = peers; peers_arena = pa; world = w } in
    let ps : List Peer = t.peers.array.items in
    let made : List ℕ → List ℕ → ℕ → World → M Tracking = λ alias hostname toaddr w. (do
      r ← on_arena t.peers_arena (create_peer t.peers alias hostname fromaddr toaddr)
      print_peers r.0.0
      return (after r.0.0 r.1 w)) in
    let telling : List ℕ → List ℕ → ℕ → (Buffer × List ℕ) × Arena → World → M Tracking =
      λ alias hostname toaddr s w₁. (do
        w₂ ← tell_of_peers s.1 s.0.0 toaddr ps w₁
        made alias hostname toaddr w₂) in
    let sending : List ℕ → List ℕ → ℕ → (Buffer × List ℕ) × Arena → M Tracking =
      λ alias hostname toaddr s. (do
        w₁ ← send_msg_to_peers s.1 s.0.1 ps t.world
        telling alias hostname toaddr s w₁) in
    let (k, a₁, e₁, h₁) =
      bind_returns (on_arena scratch (read_knock bytes n listenport))
        (λ k. do
          s ← on_arena k.1 (
              first_message peer_online_fmt
                (online_args k.0.0 k.0.1 fromaddr (listen_addr fromaddr k.0.2)))
          sending k.0.0 k.0.1 (listen_addr fromaddr k.0.2) s)
        a b t' h in
    let toaddr : ℕ = listen_addr fromaddr k.0.2 in
    let (s, a₂, e₂, h₂) =
      bind_returns
        (on_arena k.1 (first_message peer_online_fmt (online_args k.0.0 k.0.1 fromaddr toaddr)))
        (sending k.0.0 k.0.1 toaddr) a₁ b t' h₁ in
    let (w₁, a₃, e₃, h₃) =
      bind_returns (send_msg_to_peers s.1 s.0.1 ps t.world) (telling k.0.0 k.0.1 toaddr s) a₂ b t'
        h₂ in
    let (w₂, a₄, e₄, h₄) =
      bind_returns (tell_of_peers s.1 s.0.0 toaddr ps w₁) (made k.0.0 k.0.1 toaddr) a₃ b t' h₃ in
    let (r, a₅, e₅, h₅) =
      bind_returns (on_arena t.peers_arena (create_peer t.peers k.0.0 k.0.1 fromaddr toaddr))
        (λ r. do print_peers r.0.0; return (after r.0.0 r.1 w₂)) a₄ b t' h₄ in
    let (u, a₆, e₆, h₆) =
      bind_returns (print_peers r.0.0) (λ u. return (after r.0.0 r.1 w₂)) a₅ b t' h₅ in
    subst (λ u. Grows t.world u) (ap (λ u. u.world) (ok-value h₆))
      (Grows-trans t.world w₁ w₂ (send_msg_to_peers-Grows s.1 s.0.1 ps t.world w₁ a₂ a₃ e₃)
        (tell_of_peers-Grows s.1 s.0.0 toaddr ps w₁ w₂ a₃ a₄ e₄))

bye-Grows :
    (scratch : Arena) (fromaddr : ℕ) (t t' : Tracking) (a b : Arena)
    → handle_bye scratch fromaddr t a ≡ ok (t', b)
    → Grows t.world t'.world
unfolding handle_bye
bye-Grows scratch fromaddr t t' a b h =
    let peers : Peers = without_peer fromaddr t.peers in
    let after : World → Tracking = λ w. record t { peers = peers; world = w } in
    let (v, a₀, e₀, h₀) =
      bind_returns (print_peers peers)
        (λ v. do
          s ←
              on_arena scratch
                (first_message peer_offline_fmt (int peer_offline ∷ longlong fromaddr ∷ []))
          w ← send_msg_to_peers s.1 s.0.1 peers.array.items t.world
          return (after w))
        a b t' h in
    let (s, a₁, e₁, h₁) =
      bind_returns
        (on_arena scratch
          (first_message peer_offline_fmt (int peer_offline ∷ longlong fromaddr ∷ [])))
        (λ s. do w ← send_msg_to_peers s.1 s.0.1 peers.array.items t.world; return (after w)) a₀ b
        t' h₀ in
    let (w, a₂, e₂, h₂) =
      bind_returns (send_msg_to_peers s.1 s.0.1 peers.array.items t.world) (λ w. return (after w))
        a₁ b t' h₁ in
    subst (λ u. Grows t.world u) (ap (λ u. u.world) (ok-value h₂))
      (send_msg_to_peers-Grows s.1 s.0.1 peers.array.items t.world w a₁ a₂ e₂)

pub handle_msg-Grows :
    (scratch : Arena) (fromaddr listenport p n : ℕ) (t t' : Tracking) (a b : Arena)
    → handle_msg scratch fromaddr listenport p n t a ≡ ok (t', b)
    → Grows t.world t'.world
unfolding handle_msg
handle_msg-Grows scratch fromaddr listenport p n t t' a b h =
    let branches : ℕ → M Tracking = λ k.
      if k == knock
      then (λ a. handle_knock scratch fromaddr (drop p a.bs) n listenport t a)
      else if k == bye
      then handle_bye scratch fromaddr t
      else return t in
    let (k, a₁, e₁, h₁) = bind_returns (msgno p) branches a b t' h in
    elim (Bool-cases (k == knock)) [
      | inl e ↦ knock-Grows scratch fromaddr (drop p a₁.bs) n listenport t t' a₁ b (rw (e) at h₁)
      | inr e ↦ elim (Bool-cases (k == bye)) [
        | inl f ↦ bye-Grows scratch fromaddr t t' a₁ b (rw (e, f) at h₁)
        | inr f ↦
            subst (λ u. Grows t.world u) (ap (λ u. u.world) (ok-value (rw (e, f) at h₁)))
              (Grows-refl t.world)
      ]
    ]
