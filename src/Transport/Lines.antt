-- ===== src/Transport/Lines.antt =====
-- src/transport.rs: the line buffer and its length stand for the bytes since the last line end.
use espcan_br.Base.{
  ℕ, suc, ◌+◌, ◌-◌, ◌≡◌, refl, sym, ◌∙◌, ap, subst, arith, Bool, true, false, ◌==◌, ltb, ltb→lt,
  if◌then◌else◌, List, [], ◌∷◌, ◌++◌, Bytes, length, length-set, length-take, take, set, take-set,
  Outcome, ok, absent, panic, ◌>>=◌, slice-ok, write_at,
}
use espcan_br.Slcan.{cr}
use espcan_br.Twai.{Twai}
use espcan_br.Transport.{
  Iface, Ctl, Run, Effect, write_all, dispatch, end_line, feed_byte, feed_all, nak,
}
use espcan_br.Transport.Feed.{IsPort}

-- A port without its buffer: the bytes of the line so far.
pub record Session (Driver : Type 0) : Type 0 where
  pub pending : Bytes
  pub ctl : Ctl Driver
  pub effects : List Effect
  pub wrote : Bool

abbrev pub view : {Driver : Type 0} → Run Driver → Session Driver
view r = record {
  pending = take r.port.len r.port.line;
  ctl = record { is_open = r.port.is_open; timestamp = r.port.timestamp; shared = r.shared };
  effects = r.effects;
  wrote = r.wrote;
}

module _ (h : Twai) (iface : Iface) where
  open h use {Driver}

  abbrev pub answered : Session Driver → Ctl Driver × Bytes → Session Driver
  answered s (c, reply) = record {
    pending = [];
    ctl = c;
    effects = s.effects ++ write_all reply ∷ [];
    wrote = true;
  }

  -- The protocol's view of one byte: CR ends a line, LF is passed over, and a line of more than 64
  -- bytes is dropped with BEL, the byte that did not fit with it.
  pub session_byte : ℕ → Session Driver → Outcome (Session Driver)
  session_byte b s =
      if b == cr
      then (if ltb 0 (length s.pending)
          then (do r ← dispatch h iface s.pending s.ctl; ok (answered s r))
          else ok s)
      else if b == b'\n'
      then ok s
      else if ltb (length s.pending) 64
      then ok (record s { pending = s.pending ++ b ∷ [] })
      else ok (record s { pending = []; effects = s.effects ++ write_all nak ∷ []; wrote = true })

  pub session_all : Bytes → Session Driver → Outcome (Session Driver)
  session_all [] s = ok s
  session_all (b ∷ bs) s = do s' ← session_byte b s; session_all bs s'

  -- The same result, seen through `view`.
  abbrev pub Related : Outcome (Run Driver) → Outcome (Session Driver) → Type 0
  Related (ok r) (ok s) = IsPort r.port × (view r ≡ s)
  Related absent absent = Unit
  Related panic panic = Unit
  Related _ _ = ⊥

  Related-bind :
      (m : Outcome (Ctl Driver × Bytes)) (f : Ctl Driver × Bytes → Outcome (Run Driver))
      (g : Ctl Driver × Bytes → Outcome (Session Driver))
      → ((r : Ctl Driver × Bytes) → Related (f r) (g r))
      → Related (m >>= f) (m >>= g)
  Related-bind (ok r) f g k = k r
  Related-bind absent f g k = tt
  Related-bind panic f g k = tt

  Related-then :
      (m : Outcome (Run Driver)) (n : Outcome (Session Driver))
      (f : Run Driver → Outcome (Run Driver)) (g : Session Driver → Outcome (Session Driver))
      → Related m n
      → ((r : Run Driver) → IsPort r.port → Related (f r) (g (view r)))
      → Related (m >>= f) (n >>= g)
  Related-then (ok r) (ok s) f g (p, e) k = subst (λ t. Related (f r) (g t)) e (k r p)
  Related-then absent absent f g e k = tt
  Related-then panic panic f g e k = tt
  Related-then (ok r) absent f g e k = elim e [ ]
  Related-then (ok r) panic f g e k = elim e [ ]
  Related-then absent (ok s) f g e k = elim e [ ]
  Related-then absent panic f g e k = elim e [ ]
  Related-then panic (ok s) f g e k = elim e [ ]
  Related-then panic absent f g e k = elim e [ ]

  Related-if :
      (b : Bool) {b' : Bool} (x x' : Outcome (Run Driver)) (y y' : Outcome (Session Driver))
      → b' ≡ b
      → (b ≡ true → Related x y)
      → (b ≡ false → Related x' y')
      → Related (if b then x else x') (if b' then y else y')
  Related-if true x x' y y' e k l = rw e (k refl)
  Related-if false x x' y y' e k l = rw e (l refl)

  module _ (r : Run Driver) (p : IsPort r.port) where
    size : length (take r.port.len r.port.line) ≡ r.port.len
    size = omega (arith, length-take r.port.len r.port.line, p.whole, p.within)

    end_line-Related : Related (end_line h iface r) (
        dispatch h iface (take r.port.len r.port.line) (view r).ctl >>= λ a.
        ok (answered (view r) a))
    unfolding end_line
    end_line-Related =
        rw
          (
            slice-ok r.port.line 0 r.port.len (omega arith) (omega (arith, p.whole, p.within)),
            whole,
          )
          (Related-bind (dispatch h iface (take r.port.len r.port.line) (view r).ctl) _ _
            λ (c, reply). (record { whole = p.whole; within = omega arith }, refl))
      where
        whole : r.port.len - 0 ≡ r.port.len
        whole = omega arith

    feed_byte-Related : (b : ℕ) → Related (feed_byte h iface b r) (session_byte b (view r))
    unfolding feed_byte session_byte
    feed_byte-Related b =
        Related-if (b == cr) _ _ _ _ refl
          (λ _.
            Related-if (ltb 0 r.port.len) _ _ _ _ (ap (ltb 0) size) (λ _. end_line-Related)
              (λ _. (p, refl)))
          λ _.
            Related-if (b == b'\n') _ _ _ _ refl (λ _. (p, refl))
              λ _.
                Related-if (ltb r.port.len (length r.port.line)) _ _ _ _
                  (ap (λ n. ltb n 64) size ∙ ap (ltb r.port.len) (sym p.whole)) room
                  (λ _. (record { whole = p.whole; within = omega arith }, refl))
      where
        longer : Run Driver
        longer = record r {
          port = record r.port { line = set r.port.line r.port.len b; len = r.port.len + 1 };
        }

        room :
            ltb r.port.len (length r.port.line) ≡ true
            → Related
                (write_at r.port.line r.port.len b >>= λ line.
                  ok (record r { port = record r.port { line = line; len = r.port.len + 1 } }))
                (ok (record (view r) { pending = (view r).pending ++ b ∷ [] }))
        room k =
            let lt = ltb→lt r.port.len (length r.port.line) k in
            let next : r.port.len + 1 ≡ suc r.port.len = omega arith in
            let grown : take (r.port.len + 1) (set r.port.line r.port.len b)
                ≡ take r.port.len r.port.line ++ b ∷ [] =
              rw next (take-set r.port.line r.port.len b lt) in
            rw k (
              record {
                whole = length-set r.port.line r.port.len b ∙ p.whole;
                within = omega (arith, p.whole);
              },
              λ j. record (view r) { pending = grown j },
            )

  -- The bytes of a read, one after another: the port with its 64-byte buffer does what the protocol's
  -- view of it does, step by step, panics of `dispatch` included; and its buffer stays within bounds if
  -- it is so before.
  pub feed_all-Related :
      (bs : Bytes) (r : Run Driver)
      → IsPort r.port
      → Related (feed_all h iface bs r) (session_all bs (view r))
  unfolding feed_all session_all
  feed_all-Related [] r p = (p, refl)
  feed_all-Related (b ∷ bs) r p =
      Related-then (feed_byte h iface b r) (session_byte b (view r)) _ _ (feed_byte-Related r p b)
        λ r' p'. feed_all-Related bs r' p'
