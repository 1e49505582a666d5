-- ===== src/Tests/Shared.antt =====
-- The tasks that share state, the mDNS responder, the polled UART and the JSON, at concrete inputs.
use espcan_br.Base.{
  ◌≡◌, refl, arith, true, false, Option, none, some, List, [], ◌∷◌, ◌++◌, Bytes, codes, replicate,
  ok, Returns,
}
use espcan_br.Tick.{blue, status_blue}
use espcan_br.Tasks.{
  on_uart, uart_port, rx_subscriber, Event, on_ap, on_sta, on_dial, on_wifi, accept_ok, port_ended,
  tcp_connected, connect_ok, tcp_port, connection_task, autoconnect_task, react, run, spawned,
  sample,
}
use espcan_br.Tasks.Clients.{Truthful, indicated, run-Truthful, blue-indicated}
use espcan_br.Mdns.{build_response}
use espcan_br.Mdns.Answer.{answer}
use espcan_br.Mdns.Asked.{message, build_response-message}
use espcan_br.Mdns.Responder.{
  datagram, receive_error, Served, responder_task, await_ip, responder_task-Served,
}
use espcan_br.Config.Device.{name_str}
use espcan_br.Config.Device as Device
use espcan_br.Dial.Task.{ipv4, ipv6, client_up, client_down}
use espcan_br.Uart.{Chunks, read_all, read_all-received}
use espcan_br.Http.Escape.{json_escape}
use espcan_br.Http.Escape.Json.{json_text, json_escape-json_text}

-- A client of each network, the station, and the auto-connection, beside the UART; the first client leaves.
abbrev events : List Event
events =
    on_uart
    ∷ on_ap accept_ok
    ∷ on_wifi connect_ok
    ∷ on_sta accept_ok
    ∷ on_dial tcp_connected
    ∷ on_ap port_ended
    ∷ []

run-Truthful_example : Returns (Truthful false) (run events (spawned false true))
run-Truthful_example = run-Truthful false true events

blue-indicated_example :
    Returns (λ d. blue 3 (sample 0 0 d) ≡ indicated false 3 d) (run events (spawned false true))
blue-indicated_example = blue-indicated false true events 3 0 0

-- All four places are taken, and the LED is on.
all_places_taken :
    Returns
      (λ d. (d.counts.subscribers ≡ 4) × (blue 3 (sample 0 0 d) ≡ status_blue))
      (run events (spawned false true))
unfolding blue sample run react spawned tcp_port connection_task client_down autoconnect_task
    client_up uart_port rx_subscriber
all_places_taken = (refl, refl)

abbrev host : Bytes
host = codes "espcan-br"

abbrev ip : Bytes
ip = 192 ∷ 168 ∷ 1 ∷ 7 ∷ []

abbrev labels : List Bytes
labels = codes "ESPCAN-BR" ∷ codes "local" ∷ []

build_response-message_example :
    build_response (message 7 0 1 (replicate 6 0) labels 255 0x8001 []) ip host
    ≡ ok (answer (0 ∷ 7 ∷ []) ip host)
build_response-message_example =
    build_response-message 7 0 1 (replicate 6 0) labels 255 0x8001 [] ip host (omega arith)
      (omega arith) refl ((omega arith, omega arith), ((omega arith, omega arith), tt))
      (omega arith) (omega arith) refl (omega arith)

abbrev bus : Device.DeviceConfig
bus = record {
  magic = Device.device_config_magic;
  name = host ++ replicate 23 0;
  name_len = 9;
  padding = replicate 3 0;
  baud = 115_200;
}

responder_task-Served_example :
    Returns
      (Served ip host (
        receive_error
        ∷ datagram (message 7 0 1 (replicate 6 0) labels 1 1 []) (ipv4 ip)
        ∷ datagram [] ipv6
        ∷ []))
      (responder_task true true ((false, none) ∷ (true, none) ∷ (true, some ip) ∷ []) bus (
        receive_error
        ∷ datagram (message 7 0 1 (replicate 6 0) labels 1 1 []) (ipv4 ip)
        ∷ datagram [] ipv6
        ∷ []))
unfolding await_ip name_str
responder_task-Served_example =
    responder_task-Served ((false, none) ∷ (true, none) ∷ (true, some ip) ∷ []) bus
      (receive_error
        ∷ datagram (message 7 0 1 (replicate 6 0) labels 1 1 []) (ipv4 ip)
        ∷ datagram [] ipv6
        ∷ [])
      ip host refl refl (omega arith) refl

abbrev polls : List (Option Bytes)
polls = some [] ∷ some (codes "O\r") ∷ none ∷ some (codes "t10") ∷ some [] ∷ []

read_all-received_example : Chunks polls (read_all 5 polls)
read_all-received_example = read_all-received 5 polls (omega arith)

json_escape-json_text_example :
    json_text 0 (json_escape (codes "a\"\\\n" ++ 7 ∷ []) ++ b'"' ∷ codes ",")
    ≡ some (codes "a\"\\\n" ++ 7 ∷ [], codes ",")
json_escape-json_text_example = json_escape-json_text (codes "a\"\\\n" ++ 7 ∷ []) (codes ",")
