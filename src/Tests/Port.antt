-- ===== src/Tests/Port.antt =====
-- The CAN manager of src/can.rs, a port of src/transport.rs and the tasks, at concrete inputs.
use espcan_br.Base.{
  ◌<◌, ◌≡◌, refl, arith, Bool, true, false, some, [], ◌∷◌, ◌++◌, length, set, map, replicate, ok,
  Returns,
}
use espcan_br.Slcan.{cr}
use espcan_br.Slcan.Frame.{render, IsFrame-IsParsed}
use espcan_br.Twai.{b500k}
use espcan_br.Can.{Shared, transmit, to_esp, rx_round, new, open_port, open_twai}
use espcan_br.Can.Transmit.{Attempts, Transmits, transmit-Transmits, transmit-Attempts}
use espcan_br.Can.Receive.{pulled, emptied, converted, counted, rx_round-pulled}
use espcan_br.Transport.{
  serial, tcp, now_ms, write_all, flush, count_out, Port, fresh, Ctl, Run, ack, dispatch, open_cmd,
  end_line, feed_byte, feed_all, on_frame,
}
use espcan_br.Transport.Dispatch.{Holds, Answers, dispatch-Answers}
use espcan_br.Transport.Feed.{IsPort, ctl_of}
use espcan_br.Transport.Lines.{view, session_all, Related, feed_all-Related}
use espcan_br.Transport.Forward.{now_ms-lt, on_frame-render}
use espcan_br.Bridge.{
  System, gone, reading, zeros, run_of, connect, read, byte, Reach, start, later,
}
use espcan_br.Bridge.Invariant.{Inv, Reach-Inv}
use espcan_br.Tests.Bench.{bench, bench_laws, BenchFrame, Queue}
use espcan_br.Tests.Frames.{three_bytes, three_bytes-IsFrame, two_bytes, line}

abbrev queue : Queue
queue = record { busy = 2; waiting = two_bytes ∷ [] }

abbrev running : Shared Queue
running = record {
  can = record { twai = some queue; baud = b500k; open_count = 1 };
  counters = zeros;
}

transmit-Transmits_example :
    (r : Shared Queue × Bool) × (transmit bench three_bytes running ≡ ok r)
    × Transmits bench running r
transmit-Transmits_example =
    transmit-Transmits bench bench_laws three_bytes running
      (IsFrame-IsParsed three_bytes three_bytes-IsFrame)

transmit-Attempts_example :
    (e : BenchFrame) × (r : Shared Queue × Bool) × (d' : Queue) × (to_esp bench three_bytes ≡ ok e)
    × (transmit bench three_bytes running ≡ ok r)
    × (r.0.can.twai ≡ some d')
    × Attempts bench e 50 queue (d', r.1)
transmit-Attempts_example =
    transmit-Attempts bench bench_laws three_bytes running queue three_bytes-IsFrame refl

rx_round-pulled_example :
    rx_round bench running
    ≡ ok (
      counted bench bench_laws running
          (emptied bench bench_laws 16 queue)
          (length (pulled bench bench_laws 16 queue)),
      map (converted bench bench_laws) (pulled bench bench_laws 16 queue),
    )
rx_round-pulled_example = rx_round-pulled bench bench_laws running queue refl (omega arith)

abbrev open_port_state : Port
open_port_state = record { line = replicate 64 0; len = 0; is_open = true; timestamp = true }

open_port_state-IsPort : IsPort open_port_state
open_port_state-IsPort = record { whole = refl; within = omega arith }

abbrev ctl : Ctl Queue
ctl = ctl_of open_port_state running

ctl-Holds : Holds ctl
ctl-Holds = record { few = omega arith; counts = omega arith; runs = refl }

dispatch-Answers_example : Returns (Answers ctl) (dispatch bench tcp line ctl)
dispatch-Answers_example = dispatch-Answers bench bench_laws tcp line ctl (omega arith) ctl-Holds

abbrev run : Run Queue
run = run_of bench open_port_state running

feed_all-Related_example :
    Related bench serial
      (feed_all bench serial (line ++ cr ∷ []) run)
      (session_all bench serial (line ++ cr ∷ []) (view run))
feed_all-Related_example =
    feed_all-Related bench serial (line ++ cr ∷ []) run open_port_state-IsPort

now_ms-lt_example : now_ms 123_456 < 60_000
now_ms-lt_example = now_ms-lt 123_456

on_frame-render_example :
    on_frame bench tcp 61_234 three_bytes open_port_state running
    ≡ ok (
      record running { counters = count_out tcp zeros },
      write_all (render three_bytes (some (now_ms 61_234))) ∷ flush ∷ [],
    )
on_frame-render_example =
    on_frame-render bench tcp 61_234 three_bytes open_port_state running three_bytes-IsFrame

-- Two tasks; one of them has a connection and opens its port.
abbrev at_rest : Shared Queue
at_rest = record { can = new bench; counters = zeros }

abbrev typed : Run Queue
typed = record {
  port = record fresh { line = set fresh.line 0 b'O'; len = 1 };
  shared = at_rest;
  effects = [];
  wrote = false;
}

abbrev opened : Run Queue
opened = record {
  port = record fresh { line = set fresh.line 0 b'O'; is_open = true };
  shared = record {
    can = record { twai = some (record { busy = 2; waiting = [] }); baud = b500k; open_count = 1 };
    counters = zeros;
  };
  effects = write_all ack ∷ [];
  wrote = true;
}

typed_lem : feed_byte bench serial b'O' (run_of bench fresh at_rest) ≡ ok typed
unfolding feed_byte
typed_lem = refl

opened_lem : feed_byte bench serial cr (run_of bench typed.port at_rest) ≡ ok opened
unfolding feed_byte end_line dispatch open_cmd open_port open_twai new
opened_lem = refl

abbrev finish : System Queue
finish = record { slots = reading opened.port [] ∷ gone ∷ []; shared = opened.shared }

finish_reached : Reach bench 2 finish
finish_reached =
    later
      (later (later (later start (connect 0 refl)) (read 0 fresh (b'O' ∷ cr ∷ []) refl))
        (byte 0 fresh b'O' (cr ∷ []) serial typed refl typed_lem))
      (byte 0 typed.port cr [] serial opened refl opened_lem)

Reach-Inv_example : Inv bench 2 finish
Reach-Inv_example = Reach-Inv bench bench_laws 2 (omega arith) finish_reached
