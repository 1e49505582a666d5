-- ===== src/Mdns/Responder.antt =====
-- src/mdns.rs: `responder_task`. What `embassy-net` does is a parameter: whether the group is joined, whether
-- the socket is bound, and the datagrams that `recv_from` returns.
use espcan_br.Base.{
  slice-append, ℕ, ◌≤◌, ◌≡◌, refl, arith, min, Bool, true, false, not, ltb, if◌then◌else◌, Option,
  none, some, List, [], ◌∷◌, ◌++◌, Bytes, length, length-replicate, le→leb, take_all, drop,
  replicate, take, All, All-append, Outcome, ok, absent, panic, ◌>>=◌, slice, Returns, Returns-bind,
  Returns-if, Yields,
}
use espcan_br.Config.Device.{DeviceConfig, name_str}
use espcan_br.Config.{copy_front}
use espcan_br.Dial.Task.{IpAddress, ipv4, ipv6}
use espcan_br.Mdns.{build_announcement, build_response}
use espcan_br.Mdns.Answer.{answer, answer_from-ok, build_response-Yields}
use mathlib.Core.List.{Memᴰ}

abbrev pub name_max : ℕ
name_max = 32

-- What is sent to an address, at the port of mDNS.
pub record Sent : Type 0 where
  pub to : Bytes
  pub payload : Bytes

abbrev pub multicast : Bytes
multicast = 224 ∷ 0 ∷ 0 ∷ 251 ∷ []

-- The first loop: what it finds each second of `WIFI_CONNECTED` and `STA_IP`.
unfoldable pub await_ip : List (Bool × Option Bytes) → Option Bytes
await_ip [] = none
await_ip ((true, some ip) ∷ later) = some ip
await_ip ((true, none) ∷ later) = await_ip later
await_ip ((false, ip) ∷ later) = await_ip later

-- `host`: the name in its buffer.
unfoldable pub host_of : DeviceConfig → Outcome Bytes
host_of cfg = do
  n ← name_str cfg
  let len = min (length n) name_max
  name_buf ← copy_front (replicate name_max 0) len n
  slice name_buf 0 len

pub data Received : Type 0 where
  datagram : Bytes → IpAddress → Received
  receive_error : Received

abbrev pub reply : Bytes → Outcome Bytes → Outcome (List Sent)
reply src (ok resp) = ok (record { to = src; payload = resp } ∷ [])
reply src absent = ok []
reply src panic = panic

-- One round of the second loop.
unfoldable pub respond_to : Bytes → Bytes → Received → Outcome (List Sent)
respond_to octets host receive_error = ok []
respond_to octets host (datagram query ipv6) = ok []
respond_to octets host (datagram query (ipv4 src)) =
    if ltb (length query) 12 then ok [] else reply src (build_response query octets host)

unfoldable pub respond_all : Bytes → Bytes → List Received → Outcome (List Sent)
respond_all octets host [] = ok []
respond_all octets host (r ∷ rs) = do
  sent ← respond_to octets host r
  more ← respond_all octets host rs
  ok (sent ++ more)

-- The task, up to what it has received; nothing is sent until there is an address.
unfoldable pub responder_task :
    (joins binds : Bool)
    → List (Bool × Option Bytes)
    → DeviceConfig
    → List Received
    → Outcome (List Sent)
responder_task joins binds seconds cfg received = elim (await_ip seconds) [
  | none ↦ ok []
  | some octets ↦ (do
    host ← host_of cfg
    if not joins then ok [] else if not binds then ok [] else (do
      first ← reply multicast (build_announcement octets host)
      more ← respond_all octets host received
      ok (first ++ more)))
]

-- A reply goes to the source of a datagram, with the id of that and the host's record.
pub record IsReply (octets host : Bytes) (received : List Received) (m : Sent) : Type 0 where
  pub query : Bytes
  pub asked : Memᴰ (datagram query (ipv4 m.to)) received
  pub record_sent : m.payload ≡ answer (take 2 query) octets host

-- What the task sends: an announcement to the group, and then replies.
pub record Served (octets host : Bytes) (received : List Received) (sent : List Sent) : Type 0 where
  pub replies : List Sent
  pub first :
      sent ≡ record { to = multicast; payload = answer (0x00 ∷ 0x00 ∷ []) octets host } ∷ replies
  pub each : All (IsReply octets host received) replies

reply-IsReply :
    (octets host query src : Bytes) (rs : List Received) (m : Outcome Bytes)
    → Yields (λ r. r ≡ answer (take 2 query) octets host) m
    → Returns (All (IsReply octets host (datagram query (ipv4 src) ∷ rs))) (reply src m)
reply-IsReply octets host query src rs (ok r) h =
    (record { query = query; asked = Memᴰ.head refl; record_sent = h }, tt)
reply-IsReply octets host query src rs absent h = tt
reply-IsReply octets host query src rs panic h = elim h [ ]

respond_to-IsReply :
    (octets host : Bytes) (r : Received) (rs : List Received)
    → Returns (All (IsReply octets host (r ∷ rs))) (respond_to octets host r)
unfolding respond_to
respond_to-IsReply octets host receive_error rs = tt
respond_to-IsReply octets host (datagram query ipv6) rs = tt
respond_to-IsReply octets host (datagram query (ipv4 src)) rs =
    Returns-if (All (IsReply octets host (datagram query (ipv4 src) ∷ rs))) (ltb (length query) 12)
      _ _ (λ _. tt)
      (λ _. reply-IsReply octets host query src rs _ (build_response-Yields query octets host))

later-IsReply :
    (octets host : Bytes) (r : Received) (rs : List Received) (sent : List Sent)
    → All (IsReply octets host rs) sent
    → All (IsReply octets host (r ∷ rs)) sent
later-IsReply octets host r rs [] h = tt
later-IsReply octets host r rs (m ∷ ms) (k, h) = (
  record { query = k.query; asked = Memᴰ.tail k.asked; record_sent = k.record_sent },
  later-IsReply octets host r rs ms h,
)

respond_all-IsReply :
    (octets host : Bytes) (rs : List Received)
    → Returns (All (IsReply octets host rs)) (respond_all octets host rs)
unfolding respond_all
respond_all-IsReply octets host [] = tt
respond_all-IsReply octets host (r ∷ rs) =
    Returns-bind (All (IsReply octets host (r ∷ rs))) (All (IsReply octets host (r ∷ rs)))
      (respond_to octets host r) _ (respond_to-IsReply octets host r rs)
      (λ sent h.
        Returns-bind (All (IsReply octets host rs)) (All (IsReply octets host (r ∷ rs)))
          (respond_all octets host rs) _ (respond_all-IsReply octets host rs)
          (λ more k.
            All-append (IsReply octets host (r ∷ rs)) sent more h
              (later-IsReply octets host r rs more k)))

host_of-ok :
    (cfg : DeviceConfig) (name : Bytes)
    → name_str cfg ≡ ok name
    → length name ≤ 32
    → host_of cfg ≡ ok name
unfolding host_of
host_of-ok cfg name e short =
    let whole : take (min (length name) name_max) name ≡ name = take_all _ name (omega arith) in
    rw
      (
        e,
        le→leb (min (length name) name_max) (length {A = ℕ} (replicate name_max 0))
            (omega (arith, length-replicate {A = ℕ} name_max 0)),
        le→leb (min (length name) name_max) (length name) (omega arith),
        whole,
      )
      (slice-append (name ++ drop (min (length name) name_max) (replicate name_max 0)) [] name
        (drop (min (length name) name_max) (replicate name_max 0)) 0 (min (length name) name_max)
        refl refl (omega arith))

-- Once there is an address, and the group is joined and the socket bound: whatever datagrams arrive, the task
-- does not panic. It announces the host's record to the group, and then sends only replies, each to the
-- source of a datagram, with its id and the same record. The name has at most 32 bytes, and the address four.
pub responder_task-Served :
    (seconds : List (Bool × Option Bytes)) (cfg : DeviceConfig) (received : List Received)
    (octets name : Bytes)
    → await_ip seconds ≡ some octets
    → name_str cfg ≡ ok name
    → length name ≤ 32
    → length octets ≡ 4
    → Returns (Served octets name received) (responder_task true true seconds cfg received)
unfolding responder_task build_announcement
responder_task-Served seconds cfg received octets name e f short k =
    rw
      (
        e,
        host_of-ok cfg name f short,
        responder_task,
        answer_from-ok (0x00 ∷ 0x00 ∷ []) octets name refl k (omega arith),
      )
      (Returns-bind (All (IsReply octets name received)) (Served octets name received)
        (respond_all octets name received)
        (λ more.
          ok (record { to = multicast; payload = answer (0x00 ∷ 0x00 ∷ []) octets name } ∷ more))
        (respond_all-IsReply octets name received)
        (λ more h. record { replies = more; first = refl; each = h }))
