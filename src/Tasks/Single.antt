-- ===== src/Tasks/Single.antt =====
-- src/main.rs: what each task does to the counts and to the flag of the Wi-Fi.
use espcan_br.Base.{
  ℕ, ◌+◌, ◌≤◌, ◌≡◌, refl, sym, ◌∙◌, arith, Bool, true, false, lt→ltb, Returns, Returns-bind,
}
use espcan_br.Dial.Task.{client_up, client_down}
use espcan_br.Tasks.{
  Counts, rx_subscriber, unsubscribe, SerialTask, unpolled, serving, uart_port, PortTask, accepting,
  retrying, bridging, closing, PortEvent, accept_ok, accept_err, port_ended, time_over, tcp_port,
  DialTask, unlinked, linked, waiting, DialEvent, tcp_connected, session_ended, wait_over,
  autoconnect_task, WifiTask, connecting, associated, backing_off, returned, not_spawned, WifiEvent,
  connect_ok, connect_err, station_disconnected, time_passed, next_try, connection_task, Shared,
}

-- Whether a task has a TCP connection, and whether it has a subscriber.
abbrev pub port_links : PortTask → ℕ
port_links bridging = 1
port_links _ = 0

abbrev pub port_holds : PortTask → ℕ
port_holds bridging = 1
port_holds closing = 1
port_holds _ = 0

abbrev pub dial_links : DialTask → ℕ
dial_links linked = 1
dial_links _ = 0

abbrev pub dial_holds : DialTask → ℕ
dial_holds unlinked = 0
dial_holds _ = 1

abbrev pub serial_holds : SerialTask → ℕ
serial_holds unpolled = 0
serial_holds serving = 1

-- How many tasks have a TCP connection, and how many a subscriber.
abbrev pub links : Shared → ℕ
links d = port_links d.ap_port + port_links d.sta_port + dial_links d.dial

abbrev pub holders : Shared → ℕ
holders d = serial_holds d.serial + port_holds d.ap_port + port_holds d.sta_port + dial_holds d.dial

-- Whether the station is associated.
abbrev pub is_up : WifiTask → Bool
is_up associated = true
is_up _ = false

abbrev pub IsSpawned : Bool → WifiTask → Type 0
IsSpawned true t = t ≡ not_spawned
IsSpawned false t = Unit

-- The counts are those of a task with some links and holds, beside `n` and `m` of the others.
abbrev pub Counted : ℕ → ℕ → ℕ → ℕ → Counts → Type 0
Counted links holds n m c = (c.published.tcp_clients ≡ links + n) × (c.subscribers ≡ holds + m)

-- A task with no subscriber, beside at most three, gets one.
rx_subscriber-Counted :
    (c : Counts) (links n m : ℕ)
    → m ≤ 3
    → Counted links 0 n m c
    → Returns (Counted links 1 n m) (rx_subscriber c)
unfolding rx_subscriber
rx_subscriber-Counted c links n m few (k, l) =
    rw (lt→ltb c.subscribers 4 (omega arith)) (k, omega arith)

pub uart_port-counts :
    (t : SerialTask) (c : Counts) (n m : ℕ)
    → m ≤ 3
    → Counted 0 (serial_holds t) n m c
    → Returns (λ r. Counted 0 (serial_holds r.0) n m r.1) (uart_port (t, c))
unfolding uart_port
uart_port-counts unpolled c n m few k =
    Returns-bind (Counted 0 1 n m) (λ r. Counted 0 (serial_holds r.0) n m r.1) (rx_subscriber c) _
      (rx_subscriber-Counted c 0 n m few k) (λ c' h. h)
uart_port-counts serving c n m few k = k

pub tcp_port-counts :
    (e : PortEvent) (t : PortTask) (c : Counts) (n m : ℕ)
    → n ≤ 2
    → m ≤ 3
    → Counted (port_links t) (port_holds t) n m c
    → Returns (λ r. Counted (port_links r.0) (port_holds r.0) n m r.1) (tcp_port e (t, c))
unfolding tcp_port client_up client_down unsubscribe
tcp_port-counts accept_ok accepting c n m h few k =
    Returns-bind (Counted 0 1 n m) (λ r. Counted (port_links r.0) (port_holds r.0) n m r.1)
      (rx_subscriber c) _ (rx_subscriber-Counted c 0 n m few k) (λ c' (i, j). (omega arith, j))
tcp_port-counts accept_ok retrying c n m h few k = k
tcp_port-counts accept_ok bridging c n m h few k = k
tcp_port-counts accept_ok closing c n m h few k = k
tcp_port-counts accept_err accepting c n m h few k = k
tcp_port-counts accept_err retrying c n m h few k = k
tcp_port-counts accept_err bridging c n m h few k = k
tcp_port-counts accept_err closing c n m h few k = k
tcp_port-counts port_ended accepting c n m h few k = k
tcp_port-counts port_ended retrying c n m h few k = k
tcp_port-counts port_ended bridging c n m h few (i, j) = (omega arith, j)
tcp_port-counts port_ended closing c n m h few k = k
tcp_port-counts time_over accepting c n m h few k = k
tcp_port-counts time_over retrying c n m h few k = k
tcp_port-counts time_over bridging c n m h few k = k
tcp_port-counts time_over closing c n m h few (i, j) = (i, omega arith)

pub autoconnect_task-counts :
    (e : DialEvent) (t : DialTask) (c : Counts) (n m : ℕ)
    → n ≤ 2
    → m ≤ 3
    → Counted (dial_links t) (dial_holds t) n m c
    → Returns (λ r. Counted (dial_links r.0) (dial_holds r.0) n m r.1) (autoconnect_task e (t, c))
unfolding autoconnect_task client_up client_down unsubscribe
autoconnect_task-counts tcp_connected unlinked c n m h few k =
    Returns-bind (Counted 0 1 n m) (λ r. Counted (dial_links r.0) (dial_holds r.0) n m r.1)
      (rx_subscriber c) _ (rx_subscriber-Counted c 0 n m few k) (λ c' (i, j). (omega arith, j))
autoconnect_task-counts tcp_connected linked c n m h few k = k
autoconnect_task-counts tcp_connected waiting c n m h few k = k
autoconnect_task-counts session_ended unlinked c n m h few k = k
autoconnect_task-counts session_ended linked c n m h few (i, j) = (omega arith, j)
autoconnect_task-counts session_ended waiting c n m h few k = k
autoconnect_task-counts wait_over unlinked c n m h few k = k
autoconnect_task-counts wait_over linked c n m h few k = k
autoconnect_task-counts wait_over waiting c n m h few (i, j) = (i, omega arith)

pub next_try-is_up : (started : Bool) → is_up (next_try started) ≡ false
next_try-is_up true = refl
next_try-is_up false = refl

pub connection_task-up :
    (e : WifiEvent) (t : WifiTask) (up : Bool)
    → up ≡ is_up t
    → (connection_task e (t, up)).1 ≡ is_up (connection_task e (t, up)).0
unfolding connection_task
connection_task-up connect_ok connecting up k = refl
connection_task-up connect_ok associated up k = k
connection_task-up connect_ok backing_off up k = k
connection_task-up connect_ok returned up k = k
connection_task-up connect_ok not_spawned up k = k
connection_task-up connect_err connecting up k = k
connection_task-up connect_err associated up k = k
connection_task-up connect_err backing_off up k = k
connection_task-up connect_err returned up k = k
connection_task-up connect_err not_spawned up k = k
connection_task-up (station_disconnected started) connecting up k = k
connection_task-up (station_disconnected started) associated up k = sym (next_try-is_up started)
connection_task-up (station_disconnected started) backing_off up k = k
connection_task-up (station_disconnected started) returned up k = k
connection_task-up (station_disconnected started) not_spawned up k = k
connection_task-up (time_passed started) connecting up k = k
connection_task-up (time_passed started) associated up k = k
connection_task-up (time_passed started) backing_off up k = k ∙ sym (next_try-is_up started)
connection_task-up (time_passed started) returned up k = k
connection_task-up (time_passed started) not_spawned up k = k

pub connection_task-spawn :
    (config_mode : Bool) (e : WifiEvent) (t : WifiTask) (up : Bool)
    → IsSpawned config_mode t
    → IsSpawned config_mode (connection_task e (t, up)).0
unfolding connection_task
connection_task-spawn true connect_ok t up k = rw k refl
connection_task-spawn true connect_err t up k = rw k refl
connection_task-spawn true (station_disconnected started) t up k = rw k refl
connection_task-spawn true (time_passed started) t up k = rw k refl
connection_task-spawn false e t up k = tt
