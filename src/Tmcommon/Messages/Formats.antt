-- ===== src/Tmcommon/Messages/Formats.antt =====
-- The bytes of the messages from the tracker.
use tm.Base.{ℕ, ◌^◌, ◌<◌, List, [], ◌∷◌, ◌++◌, length}
use tm.Cnet.Pack.{int, longlong}
use tm.Cnet.Pack.Bytes.{Encodes, big_endian}
use tm.Cnet.Pack.Bytes
use tm.Tmcommon.Messages.{peer_offline, peer_online_fmt, peer_offline_fmt, online_args}

-- The bytes of `PEER_ONLINE` and of `PEER_OFFLINE`.
abbrev pub online_bytes : List ℕ → List ℕ → ℕ → ℕ → List ℕ
online_bytes alias hostname fromaddr toaddr =
    1
    ∷ (big_endian 2 (length alias)
        ++ (alias
            ++ (big_endian 2 (length hostname)
                ++ (hostname ++ (big_endian 8 fromaddr ++ big_endian 8 toaddr)))))

abbrev pub offline_bytes : ℕ → List ℕ
offline_bytes fromaddr = 2 ∷ big_endian 8 fromaddr

unfoldable pub online-Encodes :
    (alias hostname : List ℕ) (fromaddr toaddr : ℕ)
    → length alias < 2 ^ 16
    → length hostname < 2 ^ 16
    → Encodes peer_online_fmt
        (online_args alias hostname fromaddr toaddr)
        (online_bytes alias hostname fromaddr toaddr)
online-Encodes alias hostname fromaddr toaddr h k = Bytes.byte 1 (
    Bytes.string alias h
      (Bytes.string hostname k (Bytes.quad fromaddr (Bytes.quad toaddr Bytes.end))))

pub offline-Encodes :
    (fromaddr : ℕ)
    → Encodes peer_offline_fmt (int peer_offline ∷ longlong fromaddr ∷ []) (offline_bytes fromaddr)
offline-Encodes fromaddr = Bytes.byte 2 (Bytes.quad fromaddr Bytes.end)
