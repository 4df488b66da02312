-- ===== src/Auth/PlainPayload.antt =====
-- auth/sasl_plain.go, ParsePlain: the payloads it accepts, and the payload that upstream/conn.go
-- builds.
use kroxy.Base.{
  ◌≡◌, refl, ℕ, suc, ◌+◌, ◌-◌, ap, ◌∙◌, false, Option, none, some, [], ◌∷◌, ◌++◌, Bytes, take, drop,
  length, ok, err, arith, take-append,
}
use kroxy.Auth.Plain.{malformed, nul_indices, parse_plain, plain_payload}
use kroxy.Auth.Scram.{contains}

nul_indices-append :
    (a r : Bytes) (i : ℕ) (first : Option ℕ)
    → contains a 0 ≡ false
    → nul_indices (a ++ r) i first ≡ nul_indices r (length a + i) first
unfolding nul_indices contains
nul_indices-append [] r i first h = ground arith
nul_indices-append (b ∷ a) r i first h = ground (arith, nul_indices-append a r (suc i) first)

nul_indices-none :
    (a : Bytes) (i : ℕ) (first : Option ℕ)
    → contains a 0 ≡ false
    → nul_indices a i first ≡ (first, none)
unfolding nul_indices contains
nul_indices-none [] i first h = refl
nul_indices-none (b ∷ a) i first h = ground (arith, nul_indices-none a (suc i) first)

plain_indices :
    (a u p : Bytes)
    → contains a 0 ≡ false
    → contains u 0 ≡ false
    → nul_indices (a ++ (0 ∷ (u ++ (0 ∷ p)))) 0 none
      ≡ (some (length a), some (length a + suc (length u)))
unfolding nul_indices
plain_indices a u p ha hu =
    rw (nul_indices-append a (0 ∷ (u ++ (0 ∷ p))) 0 none ha)
      (ground (arith, nul_indices-append u (0 ∷ p) (suc (length a + 0)) (some (length a + 0)) hu))

drop-append_past : (xs ys : Bytes) (n : ℕ) → drop (length xs + n) (xs ++ ys) ≡ drop n ys
drop-append_past [] ys n = ap (λ m. drop m ys) (omega arith)
drop-append_past (x ∷ xs) ys n = ap (λ m. drop m (x ∷ (xs ++ ys))) past ∙ drop-append_past xs ys n
  where
    past : suc (length xs) + n ≡ suc (length xs + n)
    past = omega arith

drop_second : (a u p : Bytes) → drop (length a + suc (length u) + 1) (a ++ (0 ∷ (u ++ (0 ∷ p)))) ≡ p
drop_second a u p =
    ap (λ m. drop m (a ++ (0 ∷ (u ++ (0 ∷ p))))) place
    ∙ drop-append_past a (0 ∷ (u ++ (0 ∷ p))) (suc (length u + 1))
    ∙ drop-append_past u (0 ∷ p) 1
  where
    place : length a + suc (length u) + 1 ≡ length a + suc (length u + 1)
    place = omega arith

between :
    (a u p : Bytes)
    → take
        (length a + suc (length u) - (length a + 1))
        (drop (length a + 1) (a ++ (0 ∷ (u ++ (0 ∷ p)))))
      ≡ u
between a u p =
    ap (λ n. take n (drop (length a + 1) (a ++ (0 ∷ (u ++ (0 ∷ p)))))) size
    ∙ ap (take (length u)) (drop-append_past a (0 ∷ (u ++ (0 ∷ p))) 1)
    ∙ take-append u (0 ∷ p)
  where
    size : length a + suc (length u) - (length a + 1) ≡ length u
    size = omega arith

-- A payload of three parts, the first two without a NUL, is parsed into these parts, whatever
-- bytes the password has.
pub parse_plain_parts :
    (authzid username password : Bytes)
    → contains authzid 0 ≡ false
    → contains username 0 ≡ false
    → parse_plain (authzid ++ (0 ∷ (username ++ (0 ∷ password))))
      ≡ ok (record { authzid = authzid; username = username; password = password })
unfolding parse_plain
parse_plain_parts a u p ha hu =
    rw (plain_indices a u p ha hu)
      (ground (arith, take-append a (0 ∷ (u ++ (0 ∷ p))), between a u p, drop_second a u p))

-- A payload with fewer than two NUL bytes is refused.
pub parse_plain_malformed :
    (a u : Bytes)
    → contains a 0 ≡ false
    → contains u 0 ≡ false
    → (parse_plain a ≡ err malformed) × (parse_plain (a ++ (0 ∷ u)) ≡ err malformed)
unfolding parse_plain nul_indices
parse_plain_malformed a u ha hu = (
  rw (nul_indices-none a 0 none ha) refl,
  rw
      (
        nul_indices-append a (0 ∷ u) 0 none ha,
        nul_indices-none u (suc (length a + 0)) (some (length a + 0)) hu,
      )
      refl,
)

-- The payload that the proxy sends upstream carries the credentials it was given, if the username
-- has no NUL.
pub parse_plain-plain_payload :
    (username password : Bytes)
    → contains username 0 ≡ false
    → parse_plain (plain_payload username password)
      ≡ ok (record { authzid = []; username = username; password = password })
unfolding plain_payload contains
parse_plain-plain_payload u p hu = parse_plain_parts [] u p refl hu
