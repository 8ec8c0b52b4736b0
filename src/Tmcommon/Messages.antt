-- ===== src/Tmcommon/Messages.antt =====
-- tmcommon.h, the messages: their numbers, and the formats that tm.c and tmtracker.c pack and unpack
-- them with.
pub mod Composed
pub mod Formats
use tm.Base.{ℕ, List, [], ◌∷◌}
use tm.Clib.Arena.{M, return, ◌>>=◌}
use tm.Clib.Buffer
use tm.Clib.Buffer.{Buffer}
use tm.Cnet.Pack.{Arg, int, longlong, str, pack_len}

abbrev pub peer_online : ℕ
peer_online = 1

abbrev pub peer_offline : ℕ
peer_offline = 2

abbrev pub knock : ℕ
knock = 3

abbrev pub bye : ℕ
bye = 4

abbrev pub chattext : ℕ
chattext = 5

-- `%b%s%s%L%L`, `%b%L`, `%b%s%s%w`, `%b` and `%b%s`.
abbrev pub peer_online_fmt : List ℕ
peer_online_fmt = b'%' ∷ b'b' ∷ b'%' ∷ b's' ∷ b'%' ∷ b's' ∷ b'%' ∷ b'L' ∷ b'%' ∷ b'L' ∷ []

abbrev pub peer_offline_fmt : List ℕ
peer_offline_fmt = b'%' ∷ b'b' ∷ b'%' ∷ b'L' ∷ []

abbrev pub knock_fmt : List ℕ
knock_fmt = b'%' ∷ b'b' ∷ b'%' ∷ b's' ∷ b'%' ∷ b's' ∷ b'%' ∷ b'w' ∷ []

abbrev pub bye_fmt : List ℕ
bye_fmt = b'%' ∷ b'b' ∷ []

abbrev pub chattext_fmt : List ℕ
chattext_fmt = b'%' ∷ b'b' ∷ b'%' ∷ b's' ∷ []

-- What `PEER_ONLINE` is packed from.
abbrev pub online_args : List ℕ → List ℕ → ℕ → ℕ → List Arg
online_args alias hostname fromaddr toaddr =
    int peer_online ∷ str alias ∷ str hostname ∷ longlong fromaddr ∷ longlong toaddr ∷ []

-- `BufferNew` and then `NetPackLen`.
unfoldable pub new_message : ℕ → List ℕ → List Arg → M Buffer
new_message cap fmt args = do
  buf ← Buffer.new cap
  (sendbuf, n) ← pack_len buf fmt args
  return sendbuf
