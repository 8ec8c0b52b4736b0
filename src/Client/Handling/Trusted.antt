-- ===== src/Client/Handling/Trusted.antt =====
-- Who may change the table of peers of a client.
use tm.Base.{ℕ, ◌-◌, ◌≡◌, sym, ap, false, inl, inr, ◌⊎◌, Option-cases, Bool-cases, ok-value}
use tm.Base.{List, [], ◌∷◌, ◌++◌, length, drop, ok, ◌==◌}
use tm.Clib.Arena.{Arena, return, in_copy, on_arena}
use tm.Clib.Array.{Array}
use tm.Clib.Arena.Blocks.{bind_returns}
use tm.Cnet.HostAddr.{ipaddr_equals}
use tm.Tmcommon.Messages.{peer_online, peer_offline, chattext}
use tm.Tmcommon.Peers.{find_peer_fromaddr}
use tm.Client.Handling.{
  Client, Locals, idle_open_chatwin, handle_chattext, keep_chattext, append_chattext, read_text,
  on_msgno, msgno, handle_msg, ChatText,
}

-- The table of peers is the same, and no idle call is added but one for a text.
pub record KeepsPeers (c c' : Client) : Type 0 where
  pub peers : c'.peers ≡ c.peers
  pub peers_arena : c'.peers_arena ≡ c.peers_arena
  pub idle :
      (c'.idle ≡ c.idle) ⊎ ((hpeer i : ℕ) × (c'.idle ≡ c.idle ++ (idle_open_chatwin hpeer i ∷ [])))

unchanged : (c c' : Client) → c ≡ c' → KeepsPeers c c'
unchanged c c' e = record {
  peers = ap (λ t. t.peers) (sym e);
  peers_arena = ap (λ t. t.peers_arena) (sym e);
  idle = inl (ap (λ t. t.idle) (sym e));
}

kept-KeepsPeers :
    (now fromaddr : ℕ) (text : List ℕ) (c c' : Client) (a b : Arena)
    → keep_chattext now fromaddr text c a ≡ ok (c', b)
    → KeepsPeers c c'
unfolding keep_chattext
kept-KeepsPeers now fromaddr text c c' a b h =
    elim (Option-cases (find_peer_fromaddr fromaddr c.peers.array.items)) [
      | inl e ↦ unchanged c c' (ok-value (rw (keep_chattext, e) at h))
      | inr (hpeer, e) ↦
          let told : Array ChatText × Arena → Client = λ r. record c {
            chattexts = r.0;
            chats_arena = r.1;
            idle = c.idle ++ (idle_open_chatwin hpeer (length r.0.items - 1) ∷ []);
          } in
          let (r, a₂, e₂, h₂) =
            bind_returns (on_arena c.chats_arena (append_chattext now fromaddr text c.chattexts))
              (λ r. return (told r)) a b c' (rw (keep_chattext, e) at h) in
          let q : told r ≡ c' = ok-value h₂ in
          record {
            peers = ap (λ t. t.peers) (sym q);
            peers_arena = ap (λ t. t.peers_arena) (sym q);
            idle = inr (hpeer, length r.0.items - 1, ap (λ t. t.idle) (sym q));
          }
    ]

chattext-KeepsPeers :
    (now fromaddr n : ℕ) (mem : List ℕ) (c c' : Client) (a b : Arena)
    → handle_chattext now fromaddr mem n c a ≡ ok (c', b)
    → KeepsPeers c c'
unfolding handle_chattext
chattext-KeepsPeers now fromaddr n mem c c' a b h =
    let (text, a₁, e₁, h₁) =
      bind_returns (in_copy (read_text mem n)) (λ t. keep_chattext now fromaddr t c) a b c' h in
    kept-KeepsPeers now fromaddr text c c' a₁ b h₁

foreign-KeepsPeers :
    (tracker_addr now fromaddr n k : ℕ) (l : Locals) (mem : List ℕ) (c c' : Client) (a b : Arena)
    → ipaddr_equals fromaddr tracker_addr ≡ false
    → on_msgno tracker_addr now l fromaddr mem n c k a ≡ ok (c', b)
    → KeepsPeers c c'
unfolding on_msgno
foreign-KeepsPeers tracker_addr now fromaddr n k l mem c c' a b foreign h =
    elim (Bool-cases (k == peer_online)) [
      | inl e ↦ unchanged c c' (ok-value (rw (on_msgno, e, foreign) at h))
      | inr e ↦ elim (Bool-cases (k == peer_offline)) [
        | inl f ↦ unchanged c c' (ok-value (rw (on_msgno, e, f, foreign) at h))
        | inr f ↦ elim (Bool-cases (k == chattext)) [
          | inl g ↦ chattext-KeepsPeers now fromaddr n mem c c' a b (rw (on_msgno, e, f, g) at h)
          | inr g ↦ unchanged c c' (ok-value (rw (on_msgno, e, f, g) at h))
        ]
      ]
    ]

-- `handle_msg` of any message that comes from another IP address than the tracker's: if it
-- returns, the table of peers is as it was, and the thread of the windows is told of nothing but
-- a text.
pub handle_msg-trusted :
    (tracker_addr now fromaddr p n : ℕ) (l : Locals) (c c' : Client) (a b : Arena)
    → ipaddr_equals fromaddr tracker_addr ≡ false
    → handle_msg tracker_addr now l fromaddr p n c a ≡ ok (c', b)
    → KeepsPeers c c'
unfolding handle_msg
handle_msg-trusted tracker_addr now fromaddr p n l c c' a b foreign h =
    let (k, a₁, e₁, h₁) =
      bind_returns (msgno p) (λ k a. on_msgno tracker_addr now l fromaddr (drop p a.bs) n c k a) a b
        c' h in
    foreign-KeepsPeers tracker_addr now fromaddr n k l (drop p a₁.bs) c c' a₁ b foreign h₁
