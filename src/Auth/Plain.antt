-- ===== src/Auth/Plain.antt =====
-- auth/sasl_plain.go, ParsePlain.
use kroxy.Base.{
  ℕ, suc, ◌+◌, ◌-◌, true, false, Option, none, some, [], ◌∷◌, ◌++◌, Bytes, take, drop, ◌==◌, Result,
  ok, err, codes,
}

abbrev pub mechanism_plain : Bytes
mechanism_plain = codes "PLAIN"

pub record PlainCredentials : Type 0 where
  pub authzid : Bytes
  pub username : Bytes
  pub password : Bytes

pub data PlainError : Type 0 where
  malformed : PlainError

-- The indices `first` and `second`; none stands for -1. The list is what the loop has not reached,
-- from index `i` on.
unfoldable pub nul_indices : Bytes → ℕ → Option ℕ → Option ℕ × Option ℕ
nul_indices [] i first = (first, none)
nul_indices (b ∷ bs) i first = elim (b == 0) [
  | false ↦ nul_indices bs (suc i) first
  | true ↦ elim first [ none ↦ nul_indices bs (suc i) (some i) | some f ↦ (some f, some i) ]
]

abbrev pub credentials_at : Bytes → Option ℕ × Option ℕ → Result PlainError PlainCredentials
credentials_at payload (some first, some second) = ok (record {
  authzid = take first payload;
  username = take (second - (first + 1)) (drop (first + 1) payload);
  password = drop (second + 1) payload;
})
credentials_at payload _ = err malformed

unfoldable pub parse_plain : Bytes → Result PlainError PlainCredentials
unfolding nul_indices
parse_plain payload = credentials_at payload (nul_indices payload 0 none)

-- The payload that upstream/conn.go builds in plainAuthenticate.
unfoldable pub plain_payload : Bytes → Bytes → Bytes
plain_payload username password = 0 ∷ (username ++ (0 ∷ password))
