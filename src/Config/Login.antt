-- ===== src/Config/Login.antt =====
-- src/config.rs: which logins `AuthConfig` accepts.
use espcan_br.Base.{
  ℕ, zero, suc, ◌+◌, ◌≡◌, refl, sym, ◌∙◌, ap, arith, u8, min, bit_or, bit_xor, bit_or-==0,
  bit_xor-==0, Bool, true, false, Bool-cases, inl, inr, not, ◌&&◌, ◌||◌, ◌==◌, ltb, if◌then◌else◌,
  [], ◌∷◌, ◌++◌, append_assoc, Bytes, eq_bytes, length, length-append, take, ok, ◌>>=◌, index-at,
}
use espcan_br.Config.Copied.{Copied, copy_front-Copied}
use espcan_br.Config.Auth.{
  AuthConfig, is_set, is_valid, ct_from, ct_eq, draw_salt, salted_hash, set_auth, verify,
}

-- The loop over the rest of two texts ends with 0 exactly if it began with 0 and they are equal.
Finds : ℕ → ℕ → Bytes → Bytes → Bytes → Bytes → Type 0
Finds n diff pa xs pb ys =
    (d : ℕ) × (ct_from n (length pa) diff (pa ++ xs) (pb ++ ys) ≡ ok d)
    × ((d == 0) ≡ ((diff == 0) && eq_bytes xs ys))

ct_from-Finds :
    (n diff : ℕ) (pa xs pb ys : Bytes)
    → length pa ≡ length pb
    → length xs ≡ n
    → length ys ≡ n
    → Finds n diff pa xs pb ys
unfolding Finds
ct_from-Finds zero diff pa [] pb [] at hx hy = (diff, (unfold ct_from in refl), ground arith)
ct_from-Finds zero diff pa [] pb (y ∷ ys) at hx hy = absurd (omega arith)
ct_from-Finds zero diff pa (x ∷ xs) pb ys at hx hy = absurd (omega arith)
ct_from-Finds (suc n) diff pa [] pb ys at hx hy = absurd (omega arith)
ct_from-Finds (suc n) diff pa (x ∷ xs) pb [] at hx hy = absurd (omega arith)
ct_from-Finds (suc n) diff pa (x ∷ xs) pb (y ∷ ys) at hx hy =
    let (d, rest, found) =
      ct_from-Finds n (bit_or diff (bit_xor x y)) (pa ++ x ∷ []) xs (pb ++ y ∷ []) ys
        (omega (arith, at, length-append pa (x ∷ []), length-append pb (y ∷ []))) (omega arith)
        (omega arith) in
    (
      d,
      step ∙ shift ∙ rest,
      found
          ∙ (rw (bit_or-==0 diff (bit_xor x y), bit_xor-==0 x y)
              (and_assoc (diff == 0) (x == y) (eq_bytes xs ys))),
    )
  where
    step :
        ct_from (suc n) (length pa) diff (pa ++ x ∷ xs) (pb ++ y ∷ ys)
        ≡ ct_from n (length pa + 1) (bit_or diff (bit_xor x y)) (pa ++ x ∷ xs) (pb ++ y ∷ ys)
    step =
        unfold ct_from in
        rw (index-at pa xs x (length pa) refl, index-at pb ys y (length pa) at) refl

    longer : length pa + 1 ≡ length (pa ++ x ∷ [])
    longer = omega (arith, length-append pa (x ∷ []))

    shift :
        ct_from n (length pa + 1) (bit_or diff (bit_xor x y)) (pa ++ x ∷ xs) (pb ++ y ∷ ys)
        ≡ ct_from n
            (length (pa ++ x ∷ []))
            (bit_or diff (bit_xor x y))
            ((pa ++ x ∷ []) ++ xs)
            ((pb ++ y ∷ []) ++ ys)
    shift = λ j.
        ct_from n (longer j) (bit_or diff (bit_xor x y)) (sym (append_assoc pa (x ∷ []) xs) j)
          (sym (append_assoc pb (y ∷ []) ys) j)

    and_assoc : (p q r : Bool) → ((p && q) && r) ≡ (p && (q && r))
    and_assoc true q r = refl
    and_assoc false q r = refl

-- On two hashes of 32 bytes, the comparison without an early exit returns what equality says.
pub ct_eq-eq_bytes : (a b : Bytes) → length a ≡ 32 → length b ≡ 32 → ct_eq a b ≡ ok (eq_bytes a b)
unfolding ct_eq Finds
ct_eq-eq_bytes a b ha hb =
    let (d, ends, found) = ct_from-Finds 32 0 [] a [] b refl ha hb in
    ap (λ m. m >>= λ diff. ok (diff == 0)) ends ∙ ap ok found

module _ (sha256 : Bytes → Bytes) (digest : (bs : Bytes) → length (sha256 bs) ≡ 32) where
  -- After a new login is set, and whatever was there before: with an empty user or password every
  -- login is accepted; otherwise exactly those whose user is the new one, up to its 32nd byte, and
  -- whose password has the salted hash of the new one. The digest has 32 bytes, and so has the field of
  -- the user.
  pub verify-set_auth :
      (random : ℕ → ℕ) (user password : Bytes) (c : AuthConfig)
      → length c.user ≡ 32
      → (u p : Bytes)
      → (set_auth sha256 random user password c >>= verify sha256 u p)
        ≡ ok (
            if length user == 0 || length password == 0
            then true
            else eq_bytes u (take 32 user)
              && eq_bytes (sha256 (draw_salt random ++ p)) (sha256 (draw_salt random ++ password)))
  unfolding set_auth verify is_set is_valid salted_hash
  verify-set_auth random user password c whole u p =
      elim (Bool-cases (length user == 0 || length password == 0)) [
        | inl blank ↦ rw blank refl
        | inr given ↦
            let nonempty : ltb 0 user_len ≡ true = ground arith in
            rw (given, s.made, nonempty, s.front, same_hash) (answer (eq_bytes u (take 32 user)))
      ]
    where
      user_len : ℕ
      user_len = u8 (min (length user) 32)

      s : Copied c.user user 32 user_len
      s = copy_front-Copied c.user user 32 user_len whole (omega arith)

      hashed : Bytes → Bytes
      hashed bs = sha256 (draw_salt random ++ bs)

      same_hash : ct_eq (hashed p) (hashed password) ≡ ok (eq_bytes (hashed p) (hashed password))
      same_hash = ct_eq-eq_bytes (hashed p) (hashed password) (digest _) (digest _)

      answer :
          (b : Bool)
          → (if not b then ok false else ok (eq_bytes (hashed p) (hashed password)))
            ≡ ok (b && eq_bytes (hashed p) (hashed password))
      answer true = refl
      answer false = refl
