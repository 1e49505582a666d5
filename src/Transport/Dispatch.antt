-- ===== src/Transport/Dispatch.antt =====
-- src/transport.rs: `dispatch` answers every command once, and keeps the port's share of the manager.
use espcan_br.Base.{
  ℕ, ◌+◌, ◌-◌, ◌^◌, ◌<◌, ◌≤◌, ◌≡◌, refl, sym, ◌∙◌, ap, subst, arith, Bool, true, false, not, ◌==◌,
  ◌||◌, ltb, if◌then◌else◌, inl, inr, Bool-cases, Option, none, some, [], ◌∷◌, ◌++◌, Bytes, length,
  get_elem?, Outcome, ok, absent, panic, index, index-lt, Yields, Returns, Returns-bind,
  Returns-mono, Returns-if, Returns-of,
}
use espcan_br.Slcan.{CanFrame, cr, parse_tx}
use espcan_br.Slcan.Frame.{IsParsed}
use espcan_br.Slcan.Parsed.{parse_tx-Yields}
use espcan_br.Twai.{Twai, Documented}
use espcan_br.Can.{Shared, set_bitrate, open_port, close_port, transmit}
use espcan_br.Can.Transmit.{on_bus, Transmits, transmit-Transmits}
use espcan_br.Transport.{
  Iface, Ctl, count_in, with_can, flags_cmd, stamp_cmd, rate_cmd, open_cmd, close_cmd, send_frame,
  send_cmd, dispatch, ack, nak,
}

-- One reply: BEL alone, or bytes that end in CR.
pub data IsReply : Bytes → Type 0 where
  refused : IsReply nak
  accepted : (bytes : Bytes) → IsReply (bytes ++ ack)

-- A port's share of the number of open ports.
abbrev pub share : Bool → ℕ
share true = 1
share false = 0

-- The manager as one port sees it: it counts this port, and the controller runs while a port is open.
pub record Holds {Driver : Type 0} (c : Ctl Driver) : Type 0 where
  pub few : c.shared.can.open_count < 2 ^ 32 - 1
  pub counts : share c.is_open ≤ c.shared.can.open_count
  pub runs : on_bus c.shared.can.twai ≡ ltb 0 c.shared.can.open_count

-- What one command may do to the manager: the number of open ports changes as the port's own state
-- does, and while a port is open the bitrate stays.
pub record Settles {Driver : Type 0} (c c' : Ctl Driver) : Type 0 where
  pub balance :
      c'.shared.can.open_count + share c.is_open ≡ c.shared.can.open_count + share c'.is_open
  pub runs : on_bus c'.shared.can.twai ≡ ltb 0 c'.shared.can.open_count
  pub rate : 0 < c.shared.can.open_count → c'.shared.can.baud ≡ c.shared.can.baud

pub record Answers {Driver : Type 0} (c : Ctl Driver) (r : Ctl Driver × Bytes) : Type 0 where
  pub reply : IsReply r.1
  pub settles : Settles c r.0

module _ (h : Twai) where
  open h use {Driver}

  same : (c : Ctl Driver) → Holds c → Settles c c
  same c v = record { balance = refl; runs = v.runs; rate = λ _. refl }

  stamp_cmd-Answers : (o : Option ℕ) (c : Ctl Driver) → Holds c → Answers c (stamp_cmd h o c)
  unfolding stamp_cmd
  stamp_cmd-Answers none c v = record { reply = refused; settles = same c v }
  stamp_cmd-Answers (some d) c v = elim (Bool-cases (d == b'0')) [
    | inl off ↦ rw off (record {
      reply = accepted [];
      settles = record { balance = refl; runs = v.runs; rate = λ _. refl };
    })
    | inr rest ↦ rw rest (elim (Bool-cases (d == b'1')) [
      | inl on ↦ rw on (record {
        reply = accepted [];
        settles = record { balance = refl; runs = v.runs; rate = λ _. refl };
      })
      | inr bad ↦ rw bad (record { reply = refused; settles = same c v })
    ])
  ]

  open_cmd-Settles : (only : Bool) (c : Ctl Driver) → Holds c → Settles c (open_cmd h only c).0
  unfolding open_cmd open_port
  open_cmd-Settles only c v = ground arith

  close_cmd-Settles : (c : Ctl Driver) → Holds c → Settles c (close_cmd h c).0
  unfolding close_cmd close_port
  close_cmd-Settles c v = ground arith

  rate_cmd-Settles : (o : Option ℕ) (c : Ctl Driver) → Holds c → Settles c (rate_cmd h o c).0
  unfolding rate_cmd set_bitrate
  rate_cmd-Settles o c v = ground arith

  open_cmd-ack : (only : Bool) (c : Ctl Driver) → (open_cmd h only c).1 ≡ ack
  unfolding open_cmd
  open_cmd-ack only c = elim (Bool-cases c.is_open) [ inl e ↦ rw e | inr e ↦ rw e ]

  close_cmd-ack : (c : Ctl Driver) → (close_cmd h c).1 ≡ ack
  unfolding close_cmd
  close_cmd-ack c = elim (Bool-cases c.is_open) [ inl e ↦ rw e | inr e ↦ rw e ]

  choice : (b : Bool) → IsReply (if b then ack else nak)
  choice true = accepted []
  choice false = refused

  rate_cmd-IsReply : (o : Option ℕ) (c : Ctl Driver) → IsReply (rate_cmd h o c).1
  unfolding rate_cmd
  rate_cmd-IsReply none c = refused
  rate_cmd-IsReply (some d) c = choice (set_bitrate h d c.shared.can).1

  Transmits-Settles :
      (c : Ctl Driver) (r : Shared Driver × Bool)
      → Holds c
      → Transmits h c.shared r
      → Settles c (with_can h c r.0)
  Transmits-Settles c r v t = record {
    balance = omega (arith, t.open_count);
    runs = t.on ∙ v.runs ∙ ap (ltb 0) (sym t.open_count);
    rate = λ _. t.baud;
  }

  confirmed :
      (cmd : ℕ) (b : Bool)
      → IsReply (if b then (if cmd == b'T' || cmd == b'R' then b'Z' else b'z') ∷ cr ∷ [] else nak)
  confirmed cmd true = accepted ((if cmd == b'T' || cmd == b'R' then b'Z' else b'z') ∷ [])
  confirmed cmd false = refused

  module _ (laws : Documented h) where
    send_frame-Answers :
        (cmd : ℕ) (f : CanFrame) (c : Ctl Driver)
        → IsParsed f
        → Holds c
        → Returns (Answers c) (send_frame h cmd f c)
    unfolding send_frame
    send_frame-Answers cmd f c k v =
        Returns-if (Answers c) (not c.is_open) _ _
          (λ _. record { reply = refused; settles = same c v })
          λ _.
            let (r, e, t) = transmit-Transmits h laws f c.shared k in
            Returns-bind (Transmits h c.shared) (Answers c) (transmit h f c.shared) _
              (Returns-of (Transmits h c.shared) r e t)
              λ (s, done) t'. record {
                reply = confirmed cmd done;
                settles = Transmits-Settles c (s, done) v t';
              }

    send_cmd-Answers :
        (iface : Iface) (cmd : ℕ) (line : Bytes) (c : Ctl Driver)
        → Holds c
        → Returns (Answers c) (send_cmd h iface cmd line c)
    unfolding send_cmd
    send_cmd-Answers iface cmd line c v = go (parse_tx line) (parse_tx-Yields line) refl
      where
        counted : Ctl Driver
        counted = with_can h c (record c.shared { counters = count_in iface c.shared.counters })

        recast : (r : Ctl Driver × Bytes) → Answers counted r → Answers c r
        recast r a = record {
          reply = a.reply;
          settles = record {
            balance = a.settles.balance;
            runs = a.settles.runs;
            rate = a.settles.rate;
          };
        }

        go :
            (o : Outcome CanFrame)
            → Yields IsParsed o
            → parse_tx line ≡ o
            → Returns (Answers c) (send_cmd h iface cmd line c)
        go absent k e = rw (e, send_cmd) (record { reply = refused; settles = same c v })
        go panic k e = elim k [ ]
        go (ok f) k e =
            rw (e, send_cmd)
              (Returns-mono (Answers counted) (Answers c) (send_frame h cmd f counted)
                (send_frame-Answers cmd f counted k
                  (record { few = v.few; counts = v.counts; runs = v.runs }))
                recast)

    -- Whatever the command, `dispatch` returns on every line of one byte or more, with one reply: BEL
    -- alone, or bytes that end in CR. The number of open ports grows by one exactly if the command opens
    -- the port and falls by one exactly if it closes it; afterwards the controller runs exactly if a port
    -- is open; and the bitrate is unchanged if a port was open before. Before, fewer than 2 ^ 32 - 1 ports
    -- are open, this one among them if it is, and the controller runs exactly if one is.
    pub dispatch-Answers :
        (iface : Iface) (line : Bytes) (c : Ctl Driver)
        → 0 < length line
        → Holds c
        → Returns (Answers c) (dispatch h iface line c)
    unfolding dispatch
    dispatch-Answers iface line c k v =
        let (cmd, e) = index-lt line 0 k in
        Returns-bind (λ a. Unit) (Answers c) (index line 0) _ (Returns-of (λ _. Unit) cmd e tt)
          λ b _.
            Returns-if (Answers c) (b == b'V') _ _
              (λ _. fixed (b'V' ∷ b'1' ∷ b'0' ∷ b'1' ∷ b'3' ∷ []))
              λ _.
                Returns-if (Answers c) (b == b'N') _ _
                  (λ _. fixed (b'N' ∷ b'1' ∷ b'2' ∷ b'3' ∷ b'4' ∷ []))
                  λ _.
                    Returns-if (Answers c) (b == b'F') _ _ (λ _. flags)
                      λ _.
                        Returns-if (Answers c) (b == b'M' || b == b'm' || b == b'A') _ _
                          (λ _. fixed [])
                          λ _.
                            Returns-if (Answers c) (b == b'Z') _ _
                              (λ _. stamp_cmd-Answers (get_elem? line 1) c v)
                              λ _.
                                Returns-if (Answers c) (b == b'S') _ _ (λ _. rated)
                                  λ _.
                                    Returns-if (Answers c) (b == b's') _ _ (λ _. refusal)
                                      λ _.
                                        Returns-if (Answers c) (b == b'O' || b == b'L') _ _
                                          (λ _. opened (b == b'L'))
                                          λ _.
                                            Returns-if (Answers c) (b == b'C') _ _ (λ _. closed)
                                              λ _.
                                                Returns-if (Answers c)
                                                  (b == b't' || b == b'T' || b == b'r' || b == b'R')
                                                  _ _ (λ _. send_cmd-Answers iface b line c v)
                                                  (λ _. refusal)
      where
        fixed : (bytes : Bytes) → Answers c (c, bytes ++ ack)
        fixed bytes = record { reply = accepted bytes; settles = same c v }

        refusal : Answers c (c, nak)
        refusal = record { reply = refused; settles = same c v }

        flags : Answers c (flags_cmd h c)
        flags =
            unfold flags_cmd in record { reply = accepted (b'F' ∷ _ ∷ _ ∷ []); settles = same c v }

        rated : Answers c (rate_cmd h (get_elem? line 1) c)
        rated = record {
          reply = rate_cmd-IsReply (get_elem? line 1) c;
          settles = rate_cmd-Settles (get_elem? line 1) c v;
        }

        opened : (only : Bool) → Answers c (open_cmd h only c)
        opened only = record {
          reply = subst IsReply (sym (open_cmd-ack only c)) (accepted []);
          settles = open_cmd-Settles only c v;
        }

        closed : Answers c (close_cmd h c)
        closed = record {
          reply = subst IsReply (sym (close_cmd-ack c)) (accepted []);
          settles = close_cmd-Settles c v;
        }
