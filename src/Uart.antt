-- ===== src/Uart.antt =====
-- src/uart_poll.rs: `PolledUart`. The blocking driver is a parameter: what `read_buffered` answers at each
-- poll (an error, or bytes, none if the FIFO is empty), and the answers of its `write` and `flush`.
use espcan_br.Base.{
  ℕ, zero, suc, ◌+◌, ◌≤◌, ◌<◌, ◌≡◌, refl, sym, ap, ◌∙◌, arith, Option, none, some, List, [], ◌∷◌,
  ◌++◌, Bytes, length, All, Outcome, ok,
}
use espcan_br.Config.Codec.{joined}

abbrev pub poll_ms : ℕ
poll_ms = 1

-- What one call of `read` comes to: the bytes, the milliseconds that it has slept, and the polls of later
-- calls; or it still polls.
pub data Read : Type 0 where
  returned : (bytes : Bytes) (ms : ℕ) (later : List (Option Bytes)) → Read
  polling : (ms : ℕ) → Read

-- The loop of `read`, having slept for `ms`.
unfoldable pub read_from : ℕ → List (Option Bytes) → Read
read_from ms [] = polling ms
read_from ms (none ∷ polls) = read_from (ms + poll_ms) polls
read_from ms (some [] ∷ polls) = read_from (ms + poll_ms) polls
read_from ms (some (b ∷ bs) ∷ polls) = returned (b ∷ bs) ms polls

unfoldable pub read : List (Option Bytes) → Read
read polls = read_from 0 polls

-- `self.tx.write(buf).unwrap_or(0)`
unfoldable pub write : Option ℕ → Outcome ℕ
write none = ok 0
write (some n) = ok n

-- Its error is dropped.
unfoldable pub flush : Option (Unit {0}) → Outcome (Unit {0})
flush _ = ok tt

-- What the driver has received, over some polls.
abbrev pub received : List (Option Bytes) → Bytes
received [] = []
received (none ∷ polls) = received polls
received (some bs ∷ polls) = bs ++ received polls

-- What a call of `read` promises of the polls: it returns at least one byte, and these are the next ones
-- received; or nothing was received. It sleeps once for each poll before.
abbrev pub Reads : ℕ → List (Option Bytes) → Read → Type 0
Reads ms polls (returned bytes slept later) =
    (0 < length bytes)
    × (received polls ≡ bytes ++ received later)
    × (slept + length later + 1 ≡ ms + length polls)
Reads ms polls (polling slept) = (received polls ≡ []) × (slept ≡ ms + length polls)

Reads-poll :
    (ms : ℕ) (p : Option Bytes) (polls : List (Option Bytes)) (r : Read)
    → received (p ∷ polls) ≡ received polls
    → Reads (ms + poll_ms) polls r
    → Reads ms (p ∷ polls) r
Reads-poll ms p polls (returned bytes slept later) e (h, k, l) = (h, (e ∙ k), omega (arith, l))
Reads-poll ms p polls (polling slept) e (k, l) = ((e ∙ k), omega (arith, l))

read_from-Reads : (ms : ℕ) (polls : List (Option Bytes)) → Reads ms polls (read_from ms polls)
unfolding read_from
read_from-Reads ms [] = (refl, omega arith)
read_from-Reads ms (none ∷ polls) =
    Reads-poll ms none polls (read_from (ms + poll_ms) polls) refl
      (read_from-Reads (ms + poll_ms) polls)
read_from-Reads ms (some [] ∷ polls) =
    Reads-poll ms (some []) polls (read_from (ms + poll_ms) polls) refl
      (read_from-Reads (ms + poll_ms) polls)
read_from-Reads ms (some (b ∷ bs) ∷ polls) = (omega arith, refl, omega arith)

-- What at most so many calls of `read` return, one after the other.
unfoldable pub read_all : ℕ → List (Option Bytes) → List Bytes
read_all zero polls = []
read_all (suc n) polls = elim (read polls) [
  | returned bytes ms later ↦ bytes ∷ read_all n later
  | polling ms ↦ []
]

-- None of the chunks is empty, and together they are the bytes received.
pub record Chunks (polls : List (Option Bytes)) (chunks : List Bytes) : Type 0 where
  pub nonempty : All (λ bytes. 0 < length bytes) chunks
  pub whole : joined chunks ≡ received polls

read_all-step :
    (n : ℕ) (polls : List (Option Bytes)) (r : Read)
    → Reads 0 polls r
    → ((later : List (Option Bytes))
        → length later < length polls
        → Chunks later (read_all n later))
    → Chunks polls (elim r [ returned bytes ms later ↦ bytes ∷ read_all n later | polling ms ↦ [] ])
read_all-step n polls (returned bytes ms later) (h, k, l) rest =
    let c = rest later (omega (arith, l)) in
    record { nonempty = (h, c.nonempty); whole = ap (λ t. bytes ++ t) c.whole ∙ sym k }
read_all-step n polls (polling ms) (k, l) rest = record { nonempty = tt; whole = sym k }

-- Whatever the polls answer, errors and empty FIFOs among them: no call of `read` that returns does so
-- without a byte, which would end the port; the calls return all the bytes that the driver has received,
-- in their order, and there are at most as many calls that return as polls.
pub read_all-received :
    (n : ℕ) (polls : List (Option Bytes)) → length polls ≤ n → Chunks polls (read_all n polls)
unfolding read_all read
read_all-received zero [] h = record { nonempty = tt; whole = refl }
read_all-received zero (p ∷ polls) h = absurd (omega arith)
read_all-received (suc n) polls h =
    read_all-step n polls (read_from 0 polls) (read_from-Reads 0 polls)
      (λ later less. read_all-received n later (omega arith))

-- A call of `read` never returns without a byte, which would end the port: it returns the next bytes that
-- the driver has received, or polls on where there are none; it sleeps a millisecond for each poll in vain.
pub read-Reads : (polls : List (Option Bytes)) → Reads 0 polls (read polls)
unfolding read
read-Reads polls = read_from-Reads 0 polls
