-- ===== src/Cnet/HostAddr.antt =====
-- cnet.c, `HostAddr`: an IPv4 address and a port in one number.
use tm.Base.{ℕ, ◌+◌, ◌*◌, ◌/◌, ◌%◌, ◌^◌, ◌<◌, ◌≡◌, ◌↔◌, arith, Bool, true, false}
use tm.Base.{◌==◌, if◌then◌else◌}

-- `struct sockaddr_in`, its port and address in network byte order.
pub record SockAddr : Type 0 where
  pub sin_family : ℕ
  pub sin_port : ℕ
  pub s_addr : ℕ

abbrev pub af_inet : ℕ
af_inet = 2

-- `HostAddrFromSockAddr`: `((u64) sa->sin_port << 32) + sa->sin_addr.s_addr`.
pub from_sock_addr : SockAddr → ℕ
from_sock_addr sa = (sa.sin_port * 2 ^ 32 % 2 ^ 64 + sa.s_addr) % 2 ^ 64

-- `HostAddr_addr`: the mask of 32 ones is the remainder by 2 ^ 32.
pub addr : ℕ → ℕ
addr hostaddr = hostaddr % 2 ^ 32 % 2 ^ 32

-- `HostAddr_port`: shifted right, and cut to 16 bits.
pub port : ℕ → ℕ
port hostaddr = hostaddr / 2 ^ 32 % 2 ^ 16

-- `SockAddrFromHostAddr`.
pub to_sock_addr : ℕ → SockAddr
unfolding addr port
to_sock_addr hostaddr = record {
  sin_family = af_inet;
  sin_port = port hostaddr;
  s_addr = addr hostaddr;
}

-- `HostAddr_ipaddr_equals`.
pub ipaddr_equals : ℕ → ℕ → Bool
unfolding addr
ipaddr_equals addr1 addr2 = if addr addr1 == addr addr2 then true else false

-- `htons` and `ntohs` on a little-endian machine.
unfoldable pub htons : ℕ → ℕ
htons n = n % 256 * 256 + n / 256 % 256

-- A socket address of the IPv4 family, its port below 2 ^ 16 and its address below 2 ^ 32, comes
-- back from its number.
pub to_sock_addr-from_sock_addr :
    (sa : SockAddr)
    → sa.sin_family ≡ af_inet
    → sa.sin_port < 2 ^ 16
    → sa.s_addr < 2 ^ 32
    → to_sock_addr (from_sock_addr sa) ≡ sa
unfolding to_sock_addr from_sock_addr
to_sock_addr-from_sock_addr sa f p s = ground arith

-- A number below 2 ^ 48, as every number made from a socket address is, comes back too.
pub from_sock_addr-to_sock_addr : (h : ℕ) → h < 2 ^ 48 → from_sock_addr (to_sock_addr h) ≡ h
unfolding to_sock_addr from_sock_addr
from_sock_addr-to_sock_addr h k = omega arith

-- Two numbers made from socket addresses, whose addresses are below 2 ^ 32, are of one IP
-- address exactly if those are equal.
pub ipaddr_equals_iff :
    (x y : SockAddr)
    → x.s_addr < 2 ^ 32
    → y.s_addr < 2 ^ 32
    → (ipaddr_equals (from_sock_addr x) (from_sock_addr y) ≡ true) ↔ (x.s_addr ≡ y.s_addr)
unfolding ipaddr_equals from_sock_addr
ipaddr_equals_iff x y hx hy = ground arith

-- `ntohs` undoes `htons`.
pub htons-htons : (n : ℕ) → n < 2 ^ 16 → htons (htons n) ≡ n
unfolding htons
htons-htons n h = omega arith
