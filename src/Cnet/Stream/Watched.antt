-- ===== src/Cnet/Stream/Watched.antt =====
-- What `NetSend2` does to the range of descriptors.
use tm.Base.{ℕ, ◌≤◌, ◌≡◌, ap, subst, arith, List, ok, ok-value}
use tm.Clib.Arena.{Arena, return}
use tm.Clib.Arena.Blocks.{bind_returns}
use tm.Clib.Buffer.{Buffer}
use tm.Cnet.Stream.{
  Status, finished, failed, ongoing, SendEvent, Watch, Sent, watch_after, net_send, net_send2,
}

watch_after-larger : (fd : ℕ) (z : Status) (w : Watch) → w.maxfd ≤ (watch_after fd z w).maxfd
unfolding watch_after
watch_after-larger fd finished w = omega arith
watch_after-larger fd failed w = omega arith
watch_after-larger fd ongoing w = ground arith

pub net_send2-larger :
    (fd : ℕ) (events : List SendEvent) (buf : Buffer) (w w' : Watch) (s : Sent) (a b : Arena)
    → net_send2 fd events buf w a ≡ ok ((s, w'), b)
    → w.maxfd ≤ w'.maxfd
unfolding net_send2
net_send2-larger fd events buf w w' s a b h =
    let (r, a₁, e, k) =
      bind_returns (net_send events buf) (λ r. return (r, watch_after fd r.status w)) a b (s, w')
        h in
    subst (λ v. w.maxfd ≤ v.maxfd) (ap (λ t. t.1) (ok-value k)) (watch_after-larger fd r.status w)
