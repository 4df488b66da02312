-- ===== src/Auth/PlainUser.antt =====
-- auth/sasl_plain.go, ParsePlain: exactly which payloads it accepts, and as which credentials.
use mathlib.Core.Path.{subst}
use kroxy.Base.{
  ◌≡◌, ◌↔◌, refl, sym, arith, ap, ◌∙◌, ℕ, suc, false, Option, none, some, [], ◌∷◌, ◌++◌, Bytes,
  ◌==◌, Result, ok, err, Bool-cases, inl, inr,
}
use kroxy.Auth.Plain.{PlainCredentials, PlainError, nul_indices, credentials_at, parse_plain}
use kroxy.Auth.PlainPayload.{parse_plain_parts}
use kroxy.Auth.Scram.{contains}

-- A part without NUL, a NUL, and the rest.
abbrev Split : Bytes → Type 0
Split bs = (part : Bytes) × (rest : Bytes) × (bs ≡ part ++ (0 ∷ rest)) × (contains part 0 ≡ false)

second-Split : (bs : Bytes) (i f g s : ℕ) → nul_indices bs i (some f) ≡ (some g, some s) → Split bs
unfolding nul_indices contains
second-Split [] i f g s e = absurd (ground (arith, e))
second-Split (b ∷ bs) i f g s e = elim (Bool-cases (b == 0)) [
  | inl z ↦ ([], bs, ground (arith, z), refl)
  | inr z ↦
      let (part, rest, same, clean) = second-Split bs (suc i) f g s (ground (arith, e, z)) in
      (b ∷ part, rest, ap (λ x. b ∷ x) same, ground (arith, z, clean))
]

-- Two such parts.
abbrev Splits : Bytes → Type 0
Splits bs =
    (a : Bytes) × (u : Bytes) × (p : Bytes) × (bs ≡ a ++ (0 ∷ (u ++ (0 ∷ p))))
    × (contains a 0 ≡ false)
    × (contains u 0 ≡ false)

first-Splits : (bs : Bytes) (i f s : ℕ) → nul_indices bs i none ≡ (some f, some s) → Splits bs
unfolding nul_indices contains
first-Splits [] i f s e = absurd (ground (arith, e))
first-Splits (b ∷ bs) i f s e = elim (Bool-cases (b == 0)) [
  | inl z ↦
      let (u, p, same, clean) = second-Split bs (suc i) i f s (ground (arith, e, z)) in
      ([], u, p, ground (arith, z, same), refl, clean)
  | inr z ↦
      let (a, u, p, same, clean, clean') = first-Splits bs (suc i) f s (ground (arith, e, z)) in
      (b ∷ a, u, p, ap (λ x. b ∷ x) same, ground (arith, z, clean), clean')
]

both_found :
    (payload : Bytes) (found : Option ℕ × Option ℕ) (c : PlainCredentials)
    → credentials_at payload found ≡ ok c
    → (f : ℕ) × (s : ℕ) × (found ≡ (some f, some s))
both_found payload (some f, some s) c e = (f, s, refl)
both_found payload (some f, none) c e = absurd (cc)
both_found payload (none, o) c e = absurd (cc)

abbrev pub payload_of : PlainCredentials → Bytes
payload_of c = c.authzid ++ (0 ∷ (c.username ++ (0 ∷ c.password)))

pub record IsPayload (payload : Bytes) (c : PlainCredentials) : Type 0 where
  pub parts : payload ≡ payload_of c
  pub authzid : contains c.authzid 0 ≡ false
  pub username : contains c.username 0 ≡ false

ok_injective :
    {a b : PlainCredentials} → ◌≡◌ {A = Result PlainError PlainCredentials} (ok a) (ok b) → a ≡ b
ok_injective {a = a} e = ap (λ r. elim r [ ok x ↦ x | err x ↦ a ]) e

parsed-IsPayload :
    (payload : Bytes) (c : PlainCredentials) → parse_plain payload ≡ ok c → IsPayload payload c
unfolding parse_plain
parsed-IsPayload payload c e =
    let (f, s, found) = both_found payload (nul_indices payload 0 none) c e in
    let (a, u, p, same, clean, clean') = first-Splits payload 0 f s found in
    let parsed = parse_plain_parts a u p clean clean' in
    let read : PlainCredentials = record { authzid = a; username = u; password = p } in
    let both : ok read ≡ ok c = sym parsed ∙ ap parse_plain (sym same) ∙ e in
    subst (IsPayload payload) (ok_injective both)
      (record { parts = same; authzid = clean; username = clean' })

-- ParsePlain returns credentials exactly for the payload that consists of their three parts, with a
-- NUL behind each of the first two and none inside these.
pub parse_plain_iff :
    (payload : Bytes) (c : PlainCredentials) → (parse_plain payload ≡ ok c) ↔ IsPayload payload c
parse_plain_iff payload c = (
  parsed-IsPayload payload c,
  λ h.
      ap parse_plain h.parts
      ∙ parse_plain_parts c.authzid c.username c.password h.authzid h.username,
)
