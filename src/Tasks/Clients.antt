-- ===== src/Tasks/Clients.antt =====
-- src/main.rs: what the counter of the TCP clients, the flag of the Wi-Fi and the subscribers of the received
-- frames say of the tasks.
use espcan_br.Base.{
  ℕ, ◌+◌, ◌≤◌, ◌≡◌, refl, sym, arith, Bool, true, false, ◌==◌, ltb, ◌||◌, if◌then◌else◌, List, [],
  ◌∷◌, Returns, Returns-bind, Returns-mono,
}
use espcan_br.Tick.{blue, status_blue}
use espcan_br.Tasks.{
  SerialTask, unpolled, serving, uart_port, PortTask, accepting, retrying, bridging, closing,
  PortEvent, tcp_port, DialTask, unlinked, linked, waiting, DialEvent, autoconnect_task, Shared,
  Event, on_uart, on_ap, on_sta, on_dial, on_wifi, sampled, configured, react, run, spawned, sample,
}
use espcan_br.Tasks.Single.{
  port_links, port_holds, dial_links, dial_holds, serial_holds, links, holders, is_up, IsSpawned,
  Counted, uart_port-counts, tcp_port-counts, autoconnect_task-counts, next_try-is_up,
  connection_task-up, connection_task-spawn,
}

-- What the shared state says is what the tasks do.
pub record Truthful (config_mode : Bool) (d : Shared) : Type 0 where
  pub clients : d.counts.published.tcp_clients ≡ links d
  pub subscribers : d.counts.subscribers ≡ holders d
  pub up : d.wifi_connected ≡ is_up d.wifi
  pub mode : d.config_mode ≡ config_mode
  pub spawn : IsSpawned config_mode d.wifi

port-le : (t : PortTask) → (port_links t ≤ 1) × (port_holds t ≤ 1)
port-le accepting = (omega arith, omega arith)
port-le retrying = (omega arith, omega arith)
port-le bridging = (omega arith, omega arith)
port-le closing = (omega arith, omega arith)

dial-le : (t : DialTask) → (dial_links t ≤ 1) × (dial_holds t ≤ 1)
dial-le unlinked = (omega arith, omega arith)
dial-le linked = (omega arith, omega arith)
dial-le waiting = (omega arith, omega arith)

serial_holds-le : (t : SerialTask) → serial_holds t ≤ 1
serial_holds-le unpolled = omega arith
serial_holds-le serving = omega arith

module _ (config_mode : Bool) (d : Shared) (h : Truthful config_mode d) where
  react_ap-Truthful : (e : PortEvent) → Returns (Truthful config_mode) (react (on_ap e) d)
  unfolding react
  react_ap-Truthful e =
      let n = port_links d.sta_port + dial_links d.dial in
      let m = serial_holds d.serial + port_holds d.sta_port + dial_holds d.dial in
      Returns-bind (λ r. Counted (port_links r.0) (port_holds r.0) n m r.1) (Truthful config_mode)
        (tcp_port e (d.ap_port, d.counts)) _
        (tcp_port-counts e d.ap_port d.counts n m
          (omega (arith, (port-le d.sta_port).0, (dial-le d.dial).0))
          (omega (arith, serial_holds-le d.serial, (port-le d.sta_port).1, (dial-le d.dial).1))
          (omega (arith, h.clients), omega (arith, h.subscribers)))
        (λ (t, c) (i, j). record {
          clients = omega (arith, i);
          subscribers = omega (arith, j);
          up = h.up;
          mode = h.mode;
          spawn = h.spawn;
        })

  react_sta-Truthful : (e : PortEvent) → Returns (Truthful config_mode) (react (on_sta e) d)
  unfolding react
  react_sta-Truthful e =
      let n = port_links d.ap_port + dial_links d.dial in
      let m = serial_holds d.serial + port_holds d.ap_port + dial_holds d.dial in
      Returns-bind (λ r. Counted (port_links r.0) (port_holds r.0) n m r.1) (Truthful config_mode)
        (tcp_port e (d.sta_port, d.counts)) _
        (tcp_port-counts e d.sta_port d.counts n m
          (omega (arith, (port-le d.ap_port).0, (dial-le d.dial).0))
          (omega (arith, serial_holds-le d.serial, (port-le d.ap_port).1, (dial-le d.dial).1))
          (omega (arith, h.clients), omega (arith, h.subscribers)))
        (λ (t, c) (i, j). record {
          clients = omega (arith, i);
          subscribers = omega (arith, j);
          up = h.up;
          mode = h.mode;
          spawn = h.spawn;
        })

  react_dial-Truthful : (e : DialEvent) → Returns (Truthful config_mode) (react (on_dial e) d)
  unfolding react
  react_dial-Truthful e =
      let n = port_links d.ap_port + port_links d.sta_port in
      let m = serial_holds d.serial + port_holds d.ap_port + port_holds d.sta_port in
      Returns-bind (λ r. Counted (dial_links r.0) (dial_holds r.0) n m r.1) (Truthful config_mode)
        (autoconnect_task e (d.dial, d.counts)) _
        (autoconnect_task-counts e d.dial d.counts n m
          (omega (arith, (port-le d.ap_port).0, (port-le d.sta_port).0))
          (omega (arith, serial_holds-le d.serial, (port-le d.ap_port).1, (port-le d.sta_port).1))
          (omega (arith, h.clients), omega (arith, h.subscribers)))
        (λ (t, c) (i, j). record {
          clients = omega (arith, i);
          subscribers = omega (arith, j);
          up = h.up;
          mode = h.mode;
          spawn = h.spawn;
        })

  react_uart-Truthful : Returns (Truthful config_mode) (react on_uart d)
  unfolding react
  react_uart-Truthful =
      let n = links d in
      let m = port_holds d.ap_port + port_holds d.sta_port + dial_holds d.dial in
      Returns-bind (λ r. Counted 0 (serial_holds r.0) n m r.1) (Truthful config_mode)
        (uart_port (d.serial, d.counts)) _
        (uart_port-counts d.serial d.counts n m
          (omega (arith, (port-le d.ap_port).1, (port-le d.sta_port).1, (dial-le d.dial).1))
          (omega (arith, h.clients), omega (arith, h.subscribers)))
        (λ (t, c) (i, j). record {
          clients = omega (arith, i);
          subscribers = omega (arith, j);
          up = h.up;
          mode = h.mode;
          spawn = h.spawn;
        })

react-Truthful :
    (config_mode : Bool) (e : Event) (d : Shared)
    → Truthful config_mode d
    → Returns (Truthful config_mode) (react e d)
unfolding react
react-Truthful config_mode on_uart d h = react_uart-Truthful config_mode d h
react-Truthful config_mode (on_ap e) d h = react_ap-Truthful config_mode d h e
react-Truthful config_mode (on_sta e) d h = react_sta-Truthful config_mode d h e
react-Truthful config_mode (on_dial e) d h = react_dial-Truthful config_mode d h e
react-Truthful config_mode (on_wifi e) d h = record {
  clients = h.clients;
  subscribers = h.subscribers;
  up = connection_task-up e d.wifi d.wifi_connected h.up;
  mode = h.mode;
  spawn = connection_task-spawn config_mode e d.wifi d.wifi_connected h.spawn;
}
react-Truthful config_mode (sampled low) d h = record {
  clients = h.clients;
  subscribers = h.subscribers;
  up = h.up;
  mode = h.mode;
  spawn = h.spawn;
}
react-Truthful config_mode (configured ip) d h = record {
  clients = h.clients;
  subscribers = h.subscribers;
  up = h.up;
  mode = h.mode;
  spawn = h.spawn;
}

spawned-Truthful : (config_mode started : Bool) → Truthful config_mode (spawned config_mode started)
unfolding spawned
spawned-Truthful true started = record {
  clients = refl;
  subscribers = refl;
  up = refl;
  mode = refl;
  spawn = refl;
}
spawned-Truthful false started = record {
  clients = refl;
  subscribers = refl;
  up = sym (next_try-is_up started);
  mode = refl;
  spawn = tt;
}

run-from :
    (config_mode : Bool) (es : List Event) (d : Shared)
    → Truthful config_mode d
    → Returns (Truthful config_mode) (run es d)
unfolding run
run-from config_mode [] d h = h
run-from config_mode (e ∷ es) d h =
    Returns-bind (Truthful config_mode) (Truthful config_mode) (react e d) (run es)
      (react-Truthful config_mode e d h) (λ d' k. run-from config_mode es d' k)

-- Whatever the order of the events of the tasks: no task panics for want of a place among the subscribers of
-- the received frames, and each of their places belongs to one task; the counter of the TCP clients is the
-- number of the tasks that have a connection; the flag of the Wi-Fi is set exactly while the station is
-- associated; and in configuration mode, which does not change, there is no task that associates.
pub run-Truthful :
    (config_mode started : Bool) (es : List Event)
    → Returns (Truthful config_mode) (run es (spawned config_mode started))
run-Truthful config_mode started es =
    run-from config_mode es (spawned config_mode started) (spawned-Truthful config_mode started)

-- The blue LED, from the tasks alone: mostly on with a TCP connection, a short blink in configuration
-- mode or while the station is associated, and off otherwise.
unfoldable pub indicated : Bool → ℕ → Shared → ℕ
indicated config_mode idx d =
    if ltb 0 (links d)
    then (if idx == 0 then 0 else status_blue)
    else if config_mode || is_up d.wifi
    then (if idx == 0 then status_blue else 0)
    else 0

-- Whatever the order of the events of the tasks: they do not panic, and the blue LED shows at the next tick
-- what they are at.
pub blue-indicated :
    (config_mode started : Bool) (es : List Event) (idx rx tx : ℕ)
    → Returns
        (λ d. blue idx (sample rx tx d) ≡ indicated config_mode idx d)
        (run es (spawned config_mode started))
unfolding blue indicated sample
blue-indicated config_mode started es idx rx tx =
    Returns-mono (Truthful config_mode)
      (λ d. blue idx (sample rx tx d) ≡ indicated config_mode idx d)
      (run es (spawned config_mode started)) (run-Truthful config_mode started es)
      (λ d h. rw (h.clients, h.up, h.mode) refl)
