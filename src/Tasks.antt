-- ===== src/Tasks.antt =====
-- src/main.rs: the tasks that publish what the LED and the pages show, and subscribe to the received frames: `tcp_port` on both networks,
-- `connection_task`, `gpio0_monitor` and `sta_ip_monitor`; and src/autoconnect.rs: where its task counts its
-- connection. A task is where it waits, and an event is what it waits for.
mod Single
pub mod Clients
use espcan_br.Base.{
  ℕ, ◌+◌, ◌-◌, Bool, true, false, ◌||◌, ltb, if◌then◌else◌, Option, none, some, List, [], ◌∷◌,
  Bytes, Outcome, ok, panic, ◌>>=◌,
}
use espcan_br.Tick.{Sample}
use espcan_br.Dial.Pin.{Published}
use espcan_br.Dial.Task.{client_up, client_down}

-- The published state, with `TCP_CLIENTS`, and how many subscribers `RX_BUS` has.
pub record Counts : Type 0 where
  pub published : Published
  pub subscribers : ℕ

-- The places for subscribers of `RX_BUS`. A subscriber is one until it is dropped, at the end of its block.
abbrev pub max_subscribers : ℕ
max_subscribers = 4

unfoldable pub rx_subscriber : Counts → Outcome Counts
rx_subscriber c =
    if ltb c.subscribers max_subscribers
    then ok (record c { subscribers = c.subscribers + 1 })
    else panic

unfoldable pub unsubscribe : Counts → Counts
unsubscribe c = record c { subscribers = c.subscribers - 1 }

abbrev pub counted_up : Counts → Counts
counted_up c = record c { published = client_up c.published }

abbrev pub counted_down : Counts → Counts
counted_down c = record c { published = client_down c.published }

-- Where `uart_port` is: not polled yet, or in `run_port`.
pub data SerialTask : Type 0 where
  unpolled serving : SerialTask

unfoldable pub uart_port : SerialTask × Counts → Outcome (SerialTask × Counts)
uart_port (unpolled, c) = do c' ← rx_subscriber c; ok (serving, c')
uart_port (serving, c) = ok (serving, c)

-- Where `tcp_port` is: in `accept`, behind an error of it, in `run_port`, or behind that.
pub data PortTask : Type 0 where
  accepting retrying bridging closing : PortTask

pub data PortEvent : Type 0 where
  accept_ok accept_err port_ended time_over : PortEvent

unfoldable pub tcp_port : PortEvent → PortTask × Counts → Outcome (PortTask × Counts)
tcp_port accept_ok (accepting, c) = do c' ← rx_subscriber c; ok (bridging, counted_up c')
tcp_port accept_err (accepting, c) = ok (retrying, c)
tcp_port time_over (retrying, c) = ok (accepting, c)
tcp_port port_ended (bridging, c) = ok (closing, counted_down c)
tcp_port time_over (closing, c) = ok (accepting, unsubscribe c)
tcp_port e (t, c) = ok (t, c)

-- Where `autoconnect_task` is: without a TCP connection, with one, or in the wait behind it.
pub data DialTask : Type 0 where
  unlinked linked waiting : DialTask

pub data DialEvent : Type 0 where
  tcp_connected session_ended wait_over : DialEvent

unfoldable pub autoconnect_task : DialEvent → DialTask × Counts → Outcome (DialTask × Counts)
autoconnect_task tcp_connected (unlinked, c) = do c' ← rx_subscriber c; ok (linked, counted_up c')
autoconnect_task session_ended (linked, c) = ok (waiting, counted_down c)
autoconnect_task wait_over (waiting, c) = ok (unlinked, unsubscribe c)
autoconnect_task e (t, c) = ok (t, c)

-- Where `connection_task` is: in `connect_async`, in `wait_for_event`, behind an error, or it has returned,
-- or was never spawned.
pub data WifiTask : Type 0 where
  connecting associated backing_off returned not_spawned : WifiTask

-- `started` is the answer of `is_started` at the next round.
pub data WifiEvent : Type 0 where
  connect_ok connect_err : WifiEvent
  station_disconnected time_passed : (started : Bool) → WifiEvent

-- The head of the loop.
abbrev pub next_try : Bool → WifiTask
next_try started = if started then connecting else returned

-- With `WIFI_CONNECTED`.
unfoldable pub connection_task : WifiEvent → WifiTask × Bool → WifiTask × Bool
connection_task connect_ok (connecting, up) = (associated, true)
connection_task connect_err (connecting, up) = (backing_off, up)
connection_task (station_disconnected started) (associated, up) = (next_try started, false)
connection_task (time_passed started) (backing_off, up) = (next_try started, up)
connection_task e (t, up) = (t, up)

-- The tasks and the state they share.
pub record Shared : Type 0 where
  pub serial : SerialTask
  pub ap_port : PortTask
  pub sta_port : PortTask
  pub dial : DialTask
  pub wifi : WifiTask
  pub counts : Counts
  pub config_mode : Bool
  pub wifi_connected : Bool
  pub held : Bool
  pub sta_ip : Option Bytes

pub data Event : Type 0 where
  on_uart : Event
  on_ap on_sta : PortEvent → Event
  on_dial : DialEvent → Event
  on_wifi : WifiEvent → Event
  -- `pin.is_low()`
  sampled : Bool → Event
  -- `stack.config_v4()`
  configured : Option Bytes → Event

unfoldable pub react : Event → Shared → Outcome Shared
react on_uart d = do
  (t, c) ← uart_port (d.serial, d.counts)
  ok (record d { serial = t; counts = c })
react (on_ap e) d = do
  (t, c) ← tcp_port e (d.ap_port, d.counts)
  ok (record d { ap_port = t; counts = c })
react (on_sta e) d = do
  (t, c) ← tcp_port e (d.sta_port, d.counts)
  ok (record d { sta_port = t; counts = c })
react (on_dial e) d = do
  (t, c) ← autoconnect_task e (d.dial, d.counts)
  ok (record d { dial = t; counts = c })
react (on_wifi e) d =
    let r = connection_task e (d.wifi, d.wifi_connected) in
    ok (record d { wifi = r.0; wifi_connected = r.1 })
react (sampled low) d = ok (record d { held = low })
react (configured ip) d = ok (record d { sta_ip = ip })

-- The events of all tasks, in the order in which the executor polls them.
unfoldable pub run : List Event → Shared → Outcome Shared
run [] d = ok d
run (e ∷ es) d = do d' ← react e d; run es d'

-- The statics, and the tasks as `main` spawns them; `started` is the answer of the first `is_started`.
unfoldable pub spawned : Bool → Bool → Shared
spawned config_mode started = record {
  serial = unpolled;
  ap_port = accepting;
  sta_port = accepting;
  dial = unlinked;
  wifi = if config_mode then not_spawned else next_try started;
  counts = record {
    published = record { state = 0; server_pubkey = none; tcp_clients = 0 };
    subscribers = 0;
  };
  config_mode = config_mode;
  wifi_connected = false;
  held = false;
  sta_ip = none;
}

-- What the LED tick reads of it.
unfoldable pub sample : ℕ → ℕ → Shared → Sample
sample rx tx d = record {
  rx = rx;
  tx = tx;
  tcp_clients = d.counts.published.tcp_clients;
  config_mode = d.config_mode;
  wifi_connected = d.wifi_connected;
}
