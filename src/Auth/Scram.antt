-- ===== src/Auth/Scram.antt =====
-- auth/sasl_scram.go.
use kroxy.Base.{
  ℕ, ◌+◌, Bool, false, ◌||◌, not, Option, none, some, [], ◌∷◌, ◌++◌, Bytes, take, drop, ◌==◌,
  Result, ok, err, ◌>>=◌, ◌>>◌, guard, codes, str_eq, has_prefix, index_byte, is_empty,
  if◌then◌else◌,
}

abbrev pub mechanism_scram_sha256 : Bytes
mechanism_scram_sha256 = codes "SCRAM-SHA-256"

abbrev pub mechanism_scram_sha512 : Bytes
mechanism_scram_sha512 = codes "SCRAM-SHA-512"

unfoldable pub is_scram_mechanism : Bytes → Bool
is_scram_mechanism mech = str_eq mech mechanism_scram_sha256 || str_eq mech mechanism_scram_sha512

pub data ScramError : Type 0 where
  missing_separator channel_binding invalid_cbind_flag missing_authzid_separator : ScramError
  malformed_mext missing_username missing_nonce empty_username : ScramError
  unescaped_comma truncated_escape invalid_escape : ScramError

-- strings.ContainsRune for an ASCII rune.
unfoldable pub contains : Bytes → ℕ → Bool
contains [] c = false
contains (b ∷ bs) c = b == c || contains bs c

-- The two parts round the first `sep`, or none for `found == false`.
unfoldable pub cut_byte : Bytes → ℕ → Option (Bytes × Bytes)
cut_byte s sep = elim (index_byte s sep) [ none ↦ none | some i ↦ some (take i s, drop (i + 1) s) ]

-- The loop of decodeSASLname over what is left of the name; `out` is the builder.
unfoldable pub decode_loop : Bytes → Bytes → Result ScramError Bytes
decode_loop [] out = ok out
decode_loop (c ∷ []) out =
    if c == b','
    then err unescaped_comma
    else if c == b'='
    then err truncated_escape
    else ok (out ++ (c ∷ []))
decode_loop (c ∷ x ∷ []) out =
    let rest = decode_loop (x ∷ []) (out ++ (c ∷ [])) in
    if c == b',' then err unescaped_comma else if c == b'=' then err truncated_escape else rest
decode_loop (c ∷ x ∷ y ∷ cs) out =
    let rest = decode_loop (x ∷ y ∷ cs) (out ++ (c ∷ [])) in
    let comma = decode_loop cs (out ++ (b',' ∷ [])) in
    let equals = decode_loop cs (out ++ (b'=' ∷ [])) in
    if c == b','
    then err unescaped_comma
    else if c == b'='
    then (if str_eq (x ∷ y ∷ []) (codes "2C")
        then comma
        else if str_eq (x ∷ y ∷ []) (codes "3D")
        then equals
        else err invalid_escape)
    else rest

unfoldable pub decode_sasl_name : Bytes → Result ScramError Bytes
unfolding decode_loop contains
decode_sasl_name raw =
    if not (contains raw b'=')
    then (if contains raw b',' then err unescaped_comma else ok raw)
    else decode_loop raw []

-- The gs2 cbind flag: only "n" is accepted.
abbrev pub check_cbind : Bytes → Result ScramError (Unit {0})
check_cbind cb =
    if str_eq cb (codes "n")
    then ok tt
    else if str_eq cb (codes "y") || has_prefix cb (codes "p=")
    then err channel_binding
    else err invalid_cbind_flag

abbrev pub cut_or : ScramError → Bytes → Result ScramError (Bytes × Bytes)
cut_or e s = elim (cut_byte s b',') [ none ↦ err e | some parts ↦ ok parts ]

-- Skips a leading reserved-mext attribute.
unfoldable pub skip_mext : Bytes → Result ScramError Bytes
skip_mext bare =
    if has_prefix bare (codes "m=")
    then (do (_, after) ← cut_or malformed_mext bare; ok after)
    else ok bare

-- The username attribute at the front of client-first-message-bare.
unfoldable pub read_username : Bytes → Result ScramError Bytes
read_username bare = do
  guard (has_prefix bare (codes "n=")) missing_username
  (raw_name, _) ← cut_or missing_nonce (drop 2 bare)
  guard (not (is_empty raw_name)) empty_username
  decode_sasl_name raw_name

unfoldable pub parse_scram_client_first_username : Bytes → Result ScramError Bytes
unfolding cut_byte skip_mext read_username decode_sasl_name
parse_scram_client_first_username s = do
  (cb, rest) ← cut_or missing_separator s
  check_cbind cb
  (authzid, bare) ← cut_or missing_authzid_separator rest
  bare' ← skip_mext bare
  read_username bare'
