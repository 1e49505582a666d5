-- ===== src/Dial/State.antt =====
-- src/autoconnect.rs: `state`, the codes of `AUTOCONNECT_STATE`.
use espcan_br.Base.{ℕ}

abbrev pub disabled : ℕ
disabled = 0

abbrev pub connecting : ℕ
connecting = 1

abbrev pub connected : ℕ
connected = 2

abbrev pub dns_fail : ℕ
dns_fail = 3

abbrev pub tcp_fail : ℕ
tcp_fail = 4

abbrev pub tls_fail : ℕ
tls_fail = 5

abbrev pub bad_config : ℕ
bad_config = 6

abbrev pub pin_mismatch : ℕ
pin_mismatch = 7
