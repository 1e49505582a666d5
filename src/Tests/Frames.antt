-- ===== src/Tests/Frames.antt =====
-- Lines and frames of src/slcan.rs and the conversions of src/can.rs, at concrete inputs.
use espcan_br.Base.{
  ◌≤◌, ◌≡◌, refl, arith, true, false, none, some, [], ◌∷◌, ◌++◌, Bytes, length, take, drop,
  replicate, ok, absent, ◌>>=◌, Yields,
}
use espcan_br.Slcan.{
  CanFrame, parse_tx, kind_of, parse_hex, parse_hex_from, nibble, data_field, parse_data,
  format_frame,
}
use espcan_br.Slcan.Frame.{IsFrame, IsParsed, render}
use espcan_br.Slcan.Format.{format_frame-render, length-render}
use espcan_br.Slcan.RoundTrip.{parse_tx-render, parse_tx-format_frame}
use espcan_br.Slcan.Parsed.{parse_tx-Yields}
use espcan_br.Can.{to_esp, from_esp}
use espcan_br.Can.Convert.{from_esp-to_esp}
use espcan_br.Twai.{standard}
use espcan_br.Tests.Bench.{bench, bench_laws, BenchFrame, is_bytes-All}

abbrev pub three_bytes : CanFrame
three_bytes = record {
  id = 0x1abc_def0;
  ext = true;
  rtr = false;
  dlc = 3;
  payload = 0x12 ∷ 0xff ∷ 7 ∷ 0 ∷ 0 ∷ 0 ∷ 0 ∷ 0 ∷ [];
}

pub three_bytes-IsFrame : IsFrame three_bytes
three_bytes-IsFrame = record {
  id_fits = omega arith;
  dlc_le = omega arith;
  whole = refl;
  bytes = is_bytes-All three_bytes.payload refl;
  rest_zero = refl;
}

-- A remote frame with an id of 12 bits: its line is read, and the driver refuses it.
abbrev pub large_id : CanFrame
large_id = record { id = 0x800; ext = false; rtr = true; dlc = 5; payload = replicate 8 0 }

pub large_id-IsParsed : IsParsed large_id
large_id-IsParsed = record {
  id_fits = omega arith;
  dlc_le = omega arith;
  whole = refl;
  bytes = is_bytes-All large_id.payload refl;
  rest_zero = refl;
}

abbrev pub blank : Bytes
blank = replicate 32 0

abbrev pub line : Bytes
line = b't' ∷ b'1' ∷ b'a' ∷ b'F' ∷ b'2' ∷ b'0' ∷ b'1' ∷ b'f' ∷ b'E' ∷ []

parse_tx_line :
    parse_tx line
    ≡ ok (record {
      id = 0x1af;
      ext = false;
      rtr = false;
      dlc = 2;
      payload = 1 ∷ 0xfe ∷ replicate 6 0;
    })
unfolding parse_tx kind_of parse_hex parse_hex_from nibble data_field parse_data
parse_tx_line = refl

parse_tx_short : parse_tx (take 8 line) ≡ absent
unfolding parse_tx kind_of parse_hex parse_hex_from nibble data_field
parse_tx_short = refl

parse_tx-format_frame_example :
    (format_frame three_bytes (some 0xabcd) blank >>= λ c. parse_tx (take c.0 c.1)) ≡ ok three_bytes
parse_tx-format_frame_example =
    parse_tx-format_frame three_bytes (some 0xabcd) blank three_bytes-IsFrame (omega arith)

parse_tx-render_example : parse_tx (render large_id none ++ line) ≡ ok large_id
parse_tx-render_example = parse_tx-render large_id none line large_id-IsParsed

parse_tx-Yields_example : Yields IsParsed (parse_tx line)
parse_tx-Yields_example = parse_tx-Yields line

format_frame-render_example :
    format_frame three_bytes none blank
    ≡ ok (
      length (render three_bytes none),
      render three_bytes none ++ drop (length (render three_bytes none)) blank,
    )
format_frame-render_example =
    format_frame-render three_bytes none blank (omega arith) refl (omega arith)

length-render_example : length (render three_bytes (some 59_999)) ≤ 31
length-render_example = length-render three_bytes (some 59_999) (omega arith)

from_esp-to_esp_example : (to_esp bench three_bytes >>= from_esp bench) ≡ ok three_bytes
from_esp-to_esp_example = from_esp-to_esp bench bench_laws three_bytes three_bytes-IsFrame

abbrev pub two_bytes : BenchFrame
two_bytes = record {
  id = standard (0x123, omega arith);
  remote = false;
  dlc = 2;
  content = 5 ∷ 250 ∷ [];
  small = omega arith;
  bytes = is_bytes-All (5 ∷ 250 ∷ []) refl;
  size = refl;
}
