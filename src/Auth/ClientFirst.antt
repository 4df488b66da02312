-- ===== src/Auth/ClientFirst.antt =====
-- auth/sasl_scram.go, ParseSCRAMClientFirstUsername, on the messages that RFC 5802 allows.
use kroxy.Base.{
  ◌≡◌, refl, ℕ, suc, ◌+◌, ap, ◌∙◌, false, Option, none, some, [], ◌∷◌, ◌++◌, Bytes, drop, length,
  take-append, ok, err, arith, codes, str_eq, has_prefix, index_byte, is_empty,
}
use kroxy.Auth.Scram.{
  channel_binding, contains, cut_byte, skip_mext, read_username, parse_scram_client_first_username,
}
use kroxy.Auth.SaslName.{encode_sasl_name, decode_sasl_name-encode, encode-no_comma}

index_byte-append :
    (a r : Bytes) (c : ℕ) → contains a c ≡ false → index_byte (a ++ (c ∷ r)) c ≡ some (length a)
unfolding index_byte contains
index_byte-append [] r c h = ground arith
index_byte-append (x ∷ a) r c h = ground (arith, index_byte-append a r c)

drop_past : (a : Bytes) (c : ℕ) (r : Bytes) → drop (length a + 1) (a ++ (c ∷ r)) ≡ r
drop_past [] c r = refl
drop_past (x ∷ a) c r = ap (λ n. drop n (x ∷ (a ++ (c ∷ r)))) past ∙ drop_past a c r
  where
    past : suc (length a) + 1 ≡ suc (length a + 1)
    past = omega arith

cut_byte-append :
    (a r : Bytes) (c : ℕ) → contains a c ≡ false → cut_byte (a ++ (c ∷ r)) c ≡ some (a, r)
unfolding cut_byte
cut_byte-append a r c h =
    rw (cut_byte, index_byte-append a r c h, take-append a (c ∷ r), drop_past a c r) refl

-- The reserved-mext attribute, if there is one.
abbrev pub with_mext : Option Bytes → Bytes → Bytes
with_mext none bare = bare
with_mext (some m) bare = codes "m=" ++ (m ++ (b',' ∷ bare))

abbrev pub HasNoComma : Option Bytes → Type 0
HasNoComma none = Unit
HasNoComma (some m) = contains m b',' ≡ false

-- client-first-message-bare, from the username on.
abbrev pub bare_message : Bytes → Bytes → Bytes
bare_message name rest = codes "n=" ++ (encode_sasl_name name ++ (b',' ∷ rest))

skip_mext-with_mext :
    (m : Option Bytes) (name rest : Bytes)
    → HasNoComma m
    → skip_mext (with_mext m (bare_message name rest)) ≡ ok (bare_message name rest)
unfolding skip_mext has_prefix contains
skip_mext-with_mext none name rest h = refl
skip_mext-with_mext (some m) name rest h =
    ground (arith, cut_byte-append (codes "m=" ++ m) (bare_message name rest) b',' h)

encode-non_empty : (name : Bytes) → is_empty name ≡ false → is_empty (encode_sasl_name name) ≡ false
unfolding encode_sasl_name
encode-non_empty [] h = h
encode-non_empty (c ∷ cs) h = ground arith

read_username-bare_message :
    (name rest : Bytes) → is_empty name ≡ false → read_username (bare_message name rest) ≡ ok name
unfolding read_username has_prefix
read_username-bare_message name rest h = ground (
  arith,
  cut_byte-append (encode_sasl_name name) rest b',' (encode-no_comma name),
  encode-non_empty name h,
  decode_sasl_name-encode name,
)

-- From a client-first message without channel binding, with any authorization id and any extension
-- that have no comma, and with a non-empty name in RFC 5802's encoding, the parser reads exactly
-- that name, whatever follows it.
pub client_first_username :
    (authzid : Bytes) (m : Option Bytes) (name rest : Bytes)
    → contains authzid b',' ≡ false
    → HasNoComma m
    → is_empty name ≡ false
    → parse_scram_client_first_username
        (codes "n," ++ (authzid ++ (b',' ∷ with_mext m (bare_message name rest))))
      ≡ ok name
unfolding parse_scram_client_first_username str_eq contains
client_first_username authzid m name rest ha hm hn = ground (
  arith,
  cut_byte-append (codes "n") (authzid ++ (b',' ∷ with_mext m (bare_message name rest))) b','
      no_comma,
  cut_byte-append authzid (with_mext m (bare_message name rest)) b',' ha,
  skip_mext-with_mext m name rest hm,
  read_username-bare_message name rest hn,
)
  where
    no_comma : contains (codes "n") b',' ≡ false
    no_comma = refl

-- A message that asks for channel binding, or says that the client could have used it, is refused
-- as such, whatever follows the flag; the name of the binding has no comma.
pub client_first_channel_binding :
    (name rest : Bytes)
    → contains name b',' ≡ false
    → (parse_scram_client_first_username (codes "y," ++ rest) ≡ err channel_binding)
      × (parse_scram_client_first_username (codes "p=" ++ (name ++ (b',' ∷ rest)))
          ≡ err channel_binding)
unfolding parse_scram_client_first_username str_eq contains has_prefix
client_first_channel_binding name rest h = (
  ground (arith, cut_byte-append (codes "y") rest b',' refl),
  ground (arith, cut_byte-append (codes "p=" ++ name) rest b',' h),
)
