-- ===== src/Transport/Feed.antt =====
-- src/transport.rs: what one byte of input does to a port.
use espcan_br.Base.{
  ℕ, ◌+◌, ◌-◌, ◌<◌, ◌≤◌, ◌≡◌, refl, ◌∙◌, arith, true, ◌==◌, ltb, ltb→lt, length, length-set,
  length-take, take, drop, ok, ◌>>=◌, slice, slice-ok, write_at, Returns, Returns-bind, Returns-if,
  Returns-of,
}
use espcan_br.Slcan.{cr}
use espcan_br.Twai.{Twai, Documented}
use espcan_br.Can.{Shared}
use espcan_br.Transport.{Iface, Port, Ctl, Run, dispatch, end_line, feed_byte}
use espcan_br.Transport.Dispatch.{Holds, Settles, Answers, dispatch-Answers}

-- The line buffer has its 64 bytes, and `len` stays within it.
pub record IsPort (p : Port) : Type 0 where
  pub whole : length p.line ≡ 64
  pub within : p.len ≤ 64

-- The part of the manager's state that a port settles.
abbrev pub ctl_of : {Driver : Type 0} → Port → Shared Driver → Ctl Driver
ctl_of p s = record { is_open = p.is_open; timestamp = p.timestamp; shared = s }

pub record Feeds {Driver : Type 0} (r r' : Run Driver) : Type 0 where
  pub port : IsPort r'.port
  pub settles : Settles (ctl_of r.port r.shared) (ctl_of r'.port r'.shared)

module _ (h : Twai) (laws : Documented h) (iface : Iface) where
  open h use {Driver}

  module _ (r : Run Driver) (p : IsPort r.port) (v : Holds (ctl_of r.port r.shared)) where
    still : Settles (ctl_of r.port r.shared) (ctl_of r.port r.shared)
    still = record { balance = refl; runs = v.runs; rate = λ _. refl }

    end_line-Feeds : 0 < r.port.len → Returns (Feeds r) (end_line h iface r)
    unfolding end_line
    end_line-Feeds k =
        Returns-bind (λ l. 0 < length l) (Feeds r) (slice r.port.line 0 r.port.len) _
          (Returns-of (λ l. 0 < length l) _
            (slice-ok r.port.line 0 r.port.len (omega arith) (omega (arith, p.whole, p.within)))
            long)
          λ l k'.
            Returns-bind (Answers (ctl_of r.port r.shared)) (Feeds r)
              (dispatch h iface l (ctl_of r.port r.shared)) _
              (dispatch-Answers h laws iface l (ctl_of r.port r.shared) k' v)
              λ (c, reply) a. record {
                port = record { whole = p.whole; within = omega arith };
                settles = record {
                  balance = a.settles.balance;
                  runs = a.settles.runs;
                  rate = a.settles.rate;
                };
              }
      where
        long : 0 < length (take (r.port.len - 0) (drop 0 r.port.line))
        long = omega (arith, length-take (r.port.len - 0) r.port.line, p.whole, p.within)

    -- A byte of input is handled without a panic; the port's buffer stays within bounds, and the port
    -- settles its share of the manager's state. Before, the buffer is within bounds, fewer than 2 ^ 32 - 1
    -- ports are open, this one among them if it is, and the controller runs exactly if one is.
    pub feed_byte-Feeds : (b : ℕ) → Returns (Feeds r) (feed_byte h iface b r)
    unfolding feed_byte
    feed_byte-Feeds b =
        Returns-if (Feeds r) (b == cr) _ _
          (λ _.
            Returns-if (Feeds r) (ltb 0 r.port.len) _ _
              (λ k. end_line-Feeds (ltb→lt 0 r.port.len k))
              (λ _. record { port = p; settles = still }))
          λ _.
            Returns-if (Feeds r) (b == b'\n') _ _ (λ _. record { port = p; settles = still })
              λ _. Returns-if (Feeds r) (ltb r.port.len (length r.port.line)) _ _ room (λ _.
                record {
                  port = record { whole = p.whole; within = omega arith };
                  settles = record { balance = refl; runs = v.runs; rate = λ _. refl };
                })
      where
        room :
            ltb r.port.len (length r.port.line) ≡ true
            → Returns (Feeds r) (
                write_at r.port.line r.port.len b >>= λ line.
                ok (record r { port = record r.port { line = line; len = r.port.len + 1 } }))
        room k = rw k (record {
          port = record {
            whole = length-set r.port.line r.port.len b ∙ p.whole;
            within = omega (arith, ltb→lt r.port.len (length r.port.line) k, p.whole);
          };
          settles = record { balance = refl; runs = v.runs; rate = λ _. refl };
        })
