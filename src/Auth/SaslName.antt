-- ===== src/Auth/SaslName.antt =====
-- auth/sasl_scram.go, decodeSASLname: the encoding that it inverts.
use kroxy.Base.{
  append-nil, append_assoc, ◌≡◌, ◌↔◌, refl, ℕ, true, false, [], ◌∷◌, ◌++◌, Bytes, ◌==◌, ok, arith,
  codes, str_eq, if◌then◌else◌, sym, ap, Bool-cases, ◌⊎◌, inl, inr, ◌∙◌,
}
use kroxy.Auth.Scram.{contains, decode_loop, decode_sasl_name}

-- RFC 5802's saslname: a comma is written "=2C" and an equals sign "=3D".
unfoldable pub encode_sasl_name : Bytes → Bytes
encode_sasl_name [] = []
encode_sasl_name (c ∷ cs) =
    if c == b','
    then b'=' ∷ b'2' ∷ b'C' ∷ encode_sasl_name cs
    else if c == b'='
    then b'=' ∷ b'3' ∷ b'D' ∷ encode_sasl_name cs
    else c ∷ encode_sasl_name cs

-- A plain byte is copied to the output.
decode_loop_plain :
    (c : ℕ) (cs out : Bytes)
    → c == b',' ≡ false
    → c == b'=' ≡ false
    → decode_loop (c ∷ cs) out ≡ decode_loop cs (out ++ (c ∷ []))
unfolding decode_loop
decode_loop_plain c [] out h k = ground arith
decode_loop_plain c (x ∷ []) out h k = ground arith
decode_loop_plain c (x ∷ y ∷ cs) out h k = ground arith

-- An escape is replaced by what it stands for.
decode_loop_comma :
    (cs out : Bytes)
    → decode_loop (b'=' ∷ b'2' ∷ b'C' ∷ cs) out ≡ decode_loop cs (out ++ (b',' ∷ []))
unfolding decode_loop str_eq
decode_loop_comma cs out = refl

decode_loop_equals :
    (cs out : Bytes)
    → decode_loop (b'=' ∷ b'3' ∷ b'D' ∷ cs) out ≡ decode_loop cs (out ++ (b'=' ∷ []))
unfolding decode_loop str_eq
decode_loop_equals cs out = refl

decode_loop-encode : (name out : Bytes) → decode_loop (encode_sasl_name name) out ≡ ok (out ++ name)
unfolding encode_sasl_name decode_loop
decode_loop-encode [] out = ap ok (sym (append-nil out))
decode_loop-encode (c ∷ cs) out = ground (
  arith,
  decode_loop_comma (encode_sasl_name cs) out,
  decode_loop_equals (encode_sasl_name cs) out,
  decode_loop_plain c (encode_sasl_name cs) out,
  decode_loop-encode cs (out ++ (c ∷ [])),
  append_assoc out (c ∷ []) cs,
)

pub encode-no_comma : (name : Bytes) → contains (encode_sasl_name name) b',' ≡ false
unfolding encode_sasl_name contains
encode-no_comma [] = refl
encode-no_comma (c ∷ cs) = ground (arith, encode-no_comma cs)

encode-no_equals :
    (name : Bytes) → contains (encode_sasl_name name) b'=' ≡ false → encode_sasl_name name ≡ name
unfolding encode_sasl_name contains
encode-no_equals [] h = refl
encode-no_equals (c ∷ cs) h = ground (arith, encode-no_equals cs)

-- Decoding inverts RFC 5802's encoding of a name.
pub decode_sasl_name-encode : (name : Bytes) → decode_sasl_name (encode_sasl_name name) ≡ ok name
unfolding decode_sasl_name
decode_sasl_name-encode name =
    ground (arith, encode-no_comma name, encode-no_equals name, decode_loop-encode name [])

plain-encode :
    (raw : Bytes)
    → contains raw b',' ≡ false
    → contains raw b'=' ≡ false
    → encode_sasl_name raw ≡ raw
unfolding encode_sasl_name contains
plain-encode [] h k = refl
plain-encode (c ∷ cs) h k = ground (arith, plain-encode cs)

-- The output `r` is `out` followed by a name whose encoding is `raw`.
abbrev Decoded : Bytes → Bytes → Bytes → Type 0
Decoded raw out r = (name : Bytes) × (r ≡ out ++ name) × (encode_sasl_name name ≡ raw)

Decoded-extend :
    (c : ℕ) (raw cs out r : Bytes)
    → ((name : Bytes) → encode_sasl_name name ≡ cs → encode_sasl_name (c ∷ name) ≡ raw)
    → Decoded cs (out ++ (c ∷ [])) r
    → Decoded raw out r
Decoded-extend c raw cs out r h (name, e, k) =
    (c ∷ name, e ∙ append_assoc out (c ∷ []) name, h name k)

Decoded-plain :
    (c : ℕ) (cs out r : Bytes)
    → c == b',' ≡ false
    → c == b'=' ≡ false
    → Decoded cs (out ++ (c ∷ [])) r
    → Decoded (c ∷ cs) out r
unfolding encode_sasl_name
Decoded-plain c cs out r p q d = Decoded-extend c (c ∷ cs) cs out r (λ name k. ground arith) d

Decoded-escape :
    (c x y k : ℕ) (cs out r : Bytes)
    → c == b'=' ≡ true
    → ((k ≡ b',') × (str_eq (x ∷ y ∷ []) (codes "2C") ≡ true))
      ⊎ ((k ≡ b'=') × (str_eq (x ∷ y ∷ []) (codes "3D") ≡ true))
    → Decoded cs (out ++ (k ∷ [])) r
    → Decoded (c ∷ x ∷ y ∷ cs) out r
unfolding encode_sasl_name str_eq
Decoded-escape c x y k cs out r p (inl q) d =
    Decoded-extend k (c ∷ x ∷ y ∷ cs) cs out r (λ name e. ground (arith, q)) d
Decoded-escape c x y k cs out r p (inr q) d =
    Decoded-extend k (c ∷ x ∷ y ∷ cs) cs out r (λ name e. ground (arith, q)) d

decode_loop-eq-ok : (raw out r : Bytes) → decode_loop raw out ≡ ok r → Decoded raw out r
unfolding decode_loop encode_sasl_name
decode_loop-eq-ok [] out r e = ([], ground (arith, append-nil out), refl)
decode_loop-eq-ok (c ∷ []) out r e =
    Decoded-plain c [] out r (ground arith) (ground arith)
      ([], ground (arith, append-nil (out ++ (c ∷ []))), refl)
decode_loop-eq-ok (c ∷ x ∷ []) out r e =
    Decoded-plain c (x ∷ []) out r (ground arith) (ground arith)
      (decode_loop-eq-ok (x ∷ []) (out ++ (c ∷ [])) r (ground arith))
decode_loop-eq-ok (c ∷ x ∷ y ∷ cs) out r e = elim (Bool-cases (c == b'=')) [
  | inr q ↦
      Decoded-plain c (x ∷ y ∷ cs) out r (ground arith) q
        (decode_loop-eq-ok (x ∷ y ∷ cs) (out ++ (c ∷ [])) r (ground arith))
  | inl q ↦ elim (Bool-cases (str_eq (x ∷ y ∷ []) (codes "2C"))) [
    | inl k ↦
        Decoded-escape c x y b',' cs out r q (inl (refl, k))
          (decode_loop-eq-ok cs (out ++ (b',' ∷ [])) r (ground arith))
    | inr k ↦
        Decoded-escape c x y b'=' cs out r q (inr (refl, ground arith))
          (decode_loop-eq-ok cs (out ++ (b'=' ∷ [])) r (ground arith))
  ]
]

-- A raw name is decoded to a name exactly if it is RFC 5802's encoding of that name; every other
-- one is refused.
pub decode_sasl_name_iff :
    (raw name : Bytes) → (decode_sasl_name raw ≡ ok name) ↔ (raw ≡ encode_sasl_name name)
unfolding decode_sasl_name
decode_sasl_name_iff raw name = (
  λ e. elim (Bool-cases (contains raw b'=')) [
    | inr q ↦ ground (arith, plain-encode raw)
    | inl q ↦ let (n, r, k) = decode_loop-eq-ok raw [] name (ground arith) in ground (arith, r, k)
  ],
  λ e. rw e (decode_sasl_name-encode name),
)
