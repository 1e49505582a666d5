-- ===== src/Lib.antt =====
-- The firmware of an SLCAN adapter: ports over a UART and TCP share one CAN controller.
--
-- src/slcan.rs, the line format: Slcan (the code), Slcan/Frame (the frames of the protocol and the
-- line of each), Slcan/Hex, Slcan/Format, Slcan/RoundTrip and Slcan/Parsed (proofs). `parse_tx`,
-- `format_frame` and their helpers keep their names; `CanFrame.data` is `payload`.
-- src/can.rs, the CAN manager that all ports share: Can (the code), Can/Convert, Can/Transmit
-- and Can/Receive (proofs). `CanManager::open` and `close` are `open_port` and
-- `close_port`; the static `CAN` and the static counters are one record `Shared`. What the file uses
-- of `esp_hal::twai` and `embedded_can` is a parameter, the record `Twai` of Twai, with its documented
-- behaviour as `Documented`; Tests/Bench has an instance.
-- src/transport.rs, a port: Transport (the code), Transport/Dispatch, Transport/Feed, Transport/Lines
-- (the protocol's view of a port) and Transport/Forward. The arms of `dispatch` are functions of their
-- own; what is written to a connection is a list of effects.
-- src/main.rs and src/autoconnect.rs start the ports: Bridge has the tasks as slots of a list, and
-- their steps, in any order, as a relation; Bridge/Invariant is about the states that can be reached.
-- src/uart_poll.rs: Uart, the adapter between the polled UART driver and a port; what the driver
-- answers at each poll is a parameter.
-- The other tasks of src/main.rs: Tasks has `tcp_port` on both networks, `connection_task`,
-- `gpio0_monitor`, `sta_ip_monitor` and `uart_port`, and where `autoconnect_task` counts its
-- connection, each as the place where it waits, with the subscribers of `RX_BUS`, of which there are
-- four at most; `react` handles one event of one of them, `run` the events of all in the order of the
-- executor. Tasks/Single is about each task, and Tasks/Clients says what the shared state and the blue
-- LED tell of them. Boot has what `main` does with the stored configurations: `load_all` (into memory)
-- and `boot` (the mode, the radio, the bitrate, the tasks). Boot/Restart compares the configurations
-- in memory with those that a boot loads; Boot/Forms and Boot/Answers say what a connection to the web
-- interface leaves; Boot/Life has the states over connections, resets and power cuts as a relation,
-- `Reach`; Boot/Serving is about the accept loop, and when it meets text that is not UTF-8; Boot/Station and Boot/Renamed the boot behind the
-- forms of the Wi-Fi and of the device.
-- src/led.rs: Led (the code), Led/Level and Led/Pulses. The loop at the end of `main` in src/main.rs
-- that drives it: Tick, Tick/Ring (its buckets) and Tick/Window.
-- src/config.rs: Config/Wifi, Config/Device, Config/AutoConnect and Config/Auth, one for each of the
-- four configurations, and Config/Login about the login check. The setters are named after their
-- configuration (`set_device`, `set_autoconnect`, `set_auth`). Config/Codec has `as_bytes` and
-- `from_bytes` for any structure given by its fields, Config/Layout the fields of the four with their
-- padding, and Config/Flash loading and saving: `load_slot` and `save_slot` are the four functions of
-- each kind, by their slot. The flash, its partition table and the NVS partition are the parameter
-- `Nvs` of Config/Flash, with their documented behaviour as `DocumentedNvs`; Tests/Web has an
-- instance.
-- src/http.rs: Http has the decoders of credentials and form fields (Http/Base64; Http/Form and
-- Http/Form/Pairs, on what browsers send); Http/Fetch the loop that reads a request; Http/Request the
-- request line, the headers, the login and the form; Http/Escape the escapes (Http/Escape/Html and
-- Http/Escape/Json read them back); Http/Pages the two pages; Http/Save the four save handlers, on a
-- record `Site` of the configurations in memory and the flash; Http/Serve `handle_request` behind its
-- loop; Http/Serve/Server the accept loop. The save handlers of the device, auto-connect and login
-- forms have `_form` behind their names.
-- src/autoconnect.rs: Dial/Url has the URL and the key in it; Dial/Pin the verifier of a TLS server;
-- Dial/Task one round of `autoconnect_task`, from the configuration to the link, which it hands to
-- `run_port`; Dial/Task/Session, Dial/Task/Links and Dial/Task/Rounds have its proofs. The statics
-- `AUTOCONNECT_STATE`, `SERVER_PUBKEY` and `TCP_CLIENTS` are the record `Published`. The digest and
-- ECDSA are the parameter `Crypto` of Dial/Pin. The resolver, the TCP connection,
-- `TlsConnection::open` and whether `can::rx_subscriber` finds a place (or panics) are the parameter
-- `Network` of Dial/Task; Dial/Task/Course says what `open`
-- documents of its calls of the verifier, `Documented`. Tests/Dial has an instance of each.
-- src/mdns.rs: Mdns has the answers of the responder, Mdns/Responder its task, on what its socket
-- receives; Mdns/Answer, Mdns/Question and Mdns/Asked are about the answers.
--
-- A call that may panic or return `None` has a result in `Outcome` of Base/Outcomes: `ok`, `absent` or
-- `panic`. Words are natural numbers with their wrap-around written out. The loops over a fixed range
-- and the retries of `try_transmit` recurse on the number of rounds left, so no fuel is chosen. The
-- walk over the labels of an mDNS query has as many rounds as the query has bytes, and panics when it
-- is out of them, which the absence of panics excludes. A state over restarts is one in which no save
-- has failed, since what a failed write leaves on the flash is not documented; two connections of the
-- web interface do not interleave.
--
-- A text is its bytes, and `from_utf8` a parameter that tests them. Where the source reads the
-- characters of a text that `from_utf8_unchecked` has made (the request, and the SSID, the name and the
-- user in the pages), bytes that are not UTF-8 are undefined behaviour. This counts as a panic:
-- `from_utf8_unchecked` of Base/Outcomes stands in front of the functions that read the characters,
-- `parse_request_line`, `html_escape` and `json_escape`, which are bytewise on the UTF-8 behind it.
-- Where the source only copies, compares or measures such a text, or looks for an ASCII character in
-- it, any bytes do. White space, in `trim` and
-- `split_whitespace`, is that of ASCII; the source also takes the white space of Unicode. A digit
-- sequence is parsed from the left and refused as soon as it is too large. The `%` of a form field and
-- the `usize` of `Content-Length`, which has 32 bits, are as the source has them.
--
-- Not modelled: the timeouts of the sockets; the random numbers and the socket options of
-- src/autoconnect.rs; the set-up of the peripherals and the networks in src/main.rs, and its
-- `dhcp_server` and `net_task`, which only call libraries; what the RX_BUS channel delivers and the
-- sleep of `can_rx_task`; the executor, the network stack, the TLS record layer and the UART
-- (libraries, or input and output alone); and the Python programs of tools/.
pub mod Base
pub mod Slcan
pub mod Twai
pub mod Can
pub mod Transport
pub mod Bridge
pub mod Led
pub mod Uart
pub mod Tasks
pub mod Tick
pub mod Config
pub mod Http
pub mod Mdns
pub mod Boot
pub mod Dial
pub mod Tests
