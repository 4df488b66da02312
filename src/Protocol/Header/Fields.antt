-- ===== src/Protocol/Header/Fields.antt =====
-- A well-formed request header is read back, and it ends where the body begins.
use kroxy.Base.{
  false, ℕ, ◌+◌, ◌≤◌, ◌<◌, ◌^◌, ℤ, pos, to_signed, ◌≡◌, refl, sym, ap, ◌∙◌, List, [], ◌∷◌, ◌++◌,
  Bytes, length, length-append, append_assoc, take-append, ok, arith, All,
}
use kroxy.Protocol.Header.{
  skip_tag, skip_tags, add_int, read_client_id, read_tagged_fields, skip_tagged_fields, lt_int,
  parse_request_header, request_header_version, lt_int,
}
use kroxy.Protocol.Header.Sizes.{add_int_small}
use kroxy.Protocol.Header.Reading.{Encodes, skip_tag_step, slice_from-append}
use kroxy.Protocol.Header.Varint.{write_uvarint, write_uvarint-Encodes, length-write_groups}
use kroxy.Protocol.Words.{be_u16, be_u32}

-- A tagged field, with its tag.
pub record Field : Type 0 where
  pub number : ℕ
  pub payload : Bytes

abbrev tag_of : Field → Bytes
tag_of f = write_uvarint f.number

abbrev size_of : Field → Bytes
size_of f = write_uvarint (length f.payload)

-- The field as a client writes it: the varints of the tag and of the payload's size, and the
-- payload.
abbrev pub field_bytes : Field → Bytes
field_bytes f = tag_of f ++ (size_of f ++ f.payload)

abbrev pub fields_bytes : List Field → Bytes
fields_bytes [] = []
fields_bytes (f ∷ fs) = field_bytes f ++ fields_bytes fs

abbrev pub IsField : Field → Type 0
IsField f = f.number < 2 ^ 64

small_signed :
    (off tag size n : ℕ)
    → off + tag + size + n < 2 ^ 61
    → add_int (pos (off + tag + size)) (to_signed 64 n) ≡ pos (off + tag + size + n)
small_signed off tag size n h = ground arith

length-field_bytes :
    (f : Field) → length (field_bytes f) ≡ length (tag_of f) + length (size_of f) + length f.payload
length-field_bytes f = omega (
  arith,
  length-append (tag_of f) ((size_of f) ++ f.payload),
  length-append (size_of f) f.payload,
)

length-frame :
    (front more : Bytes) (f : Field)
    → length (front ++ (field_bytes f ++ more))
      ≡ length front + length (field_bytes f) + length more
length-frame front more f =
    omega (arith, length-append front (field_bytes f ++ more), length-append (field_bytes f) more)

not_behind : (n m : ℕ) → m ≤ n → lt_int n (pos m) ≡ false
not_behind n m h = ground arith

field_step :
    (f : Field) (front more : Bytes)
    → IsField f
    → length (front ++ (field_bytes f ++ more)) < 2 ^ 61
    → skip_tag (front ++ (field_bytes f ++ more)) (pos (length front))
      ≡ ok (pos (length front + length (field_bytes f)))
field_step f front more v short =
    let total = length-frame front more f in
    let own = length-field_bytes f in
    let grouped : front ++ (field_bytes f ++ more)
        ≡ front ++ ((tag_of f) ++ ((size_of f) ++ (f.payload ++ more))) =
      simp append_assoc in
    rw grouped (
      skip_tag_step front (tag_of f) (size_of f) (f.payload ++ more) f.number (length f.payload)
        (length front) _ refl (omega (arith, total)) (omega (arith, total, own))
        (write_uvarint-Encodes _ v) (write_uvarint-Encodes _ (omega (arith, total, own)))
        (small_signed (length front) (length (tag_of f)) (length (size_of f)) (length f.payload)
            (omega (arith, total, own))
          ∙ ap pos (omega (arith, own)))
        (rw (← grouped) (not_behind _ _ (omega (arith, total)))))

skip_tags-fields :
    (fs : List Field) (front rest : Bytes)
    → All IsField fs
    → length (front ++ (fields_bytes fs ++ rest)) < 2 ^ 61
    → skip_tags (length fs) (front ++ (fields_bytes fs ++ rest)) (pos (length front))
      ≡ ok (pos (length front + length (fields_bytes fs)))
unfolding skip_tags
skip_tags-fields [] front rest v short = ground arith
skip_tags-fields (f ∷ fs) front rest v short =
    let more = fields_bytes fs ++ rest in
    let grouped : front ++ (fields_bytes (f ∷ fs) ++ rest) ≡ front ++ (field_bytes f ++ more) =
      ap (◌++◌ front) (append_assoc (field_bytes f) (fields_bytes fs) rest) in
    let moved : front ++ (field_bytes f ++ more) ≡ (front ++ field_bytes f) ++ more =
      sym (append_assoc front (field_bytes f) more) in
    let at : length (front ++ field_bytes f) ≡ length front + length (field_bytes f) =
      length-append front (field_bytes f) in
    rw grouped (
      rw (field_step f front more v.0 (rw grouped at short)) (
        rw (moved, ← at)
          (skip_tags-fields fs (front ++ field_bytes f) rest v.1 (rw (grouped, moved) at short)
            ∙ ap (λ n. ok (pos n))
                (omega (arith, at, length-append (field_bytes f) (fields_bytes fs))))))

read_tagged_fields_lem :
    (front count rest : Bytes) (fs : List Field)
    → Encodes (length fs) count
    → All IsField fs
    → length (front ++ (count ++ (fields_bytes fs ++ rest))) < 2 ^ 61
    → read_tagged_fields (front ++ (count ++ (fields_bytes fs ++ rest))) (pos (length front))
      ≡ ok (pos (length front + length count + length (fields_bytes fs)))
unfolding read_tagged_fields
read_tagged_fields_lem front count rest fs c v short =
    let more = fields_bytes fs ++ rest in
    let at = length-append front count in
    let moved : front ++ (count ++ more) ≡ (front ++ count) ++ more =
      sym (append_assoc front count more) in
    let total = length-append (front ++ count) more in
    rw (slice_from-append (length front) front (count ++ more) refl) (
      rw (c more) (
        rw (add_int_small (length front) (length count) (omega (arith, at, total, ap length moved)))
          (rw (moved, ← at) (skip_tags-fields fs (front ++ count) rest v (rw moved at short)))))

length-fields_bytes : (fs : List Field) → length fs ≤ length (fields_bytes fs)
length-fields_bytes [] = omega arith
length-fields_bytes (f ∷ fs) = omega (
  arith,
  length-fields_bytes fs,
  length-append (field_bytes f) (fields_bytes fs),
  length-field_bytes f,
  length-write_groups 9 f.number,
)

few_fields :
    (front count rest : Bytes) (fs : List Field)
    → length (front ++ (count ++ (fields_bytes fs ++ rest))) < 2 ^ 61
    → length fs < 2 ^ 64
few_fields front count rest fs short = omega (
  arith,
  short,
  length-fields_bytes fs,
  length-append front (count ++ (fields_bytes fs ++ rest)),
  length-append count (fields_bytes fs ++ rest),
  length-append (fields_bytes fs) rest,
)

read_client_id_lem :
    (version a b : ℕ) (client_id rest : Bytes)
    → 1 ≤ version
    → be_u16 a b ≡ length client_id
    → length client_id < 2 ^ 15
    → read_client_id version (a ∷ b ∷ (client_id ++ rest)) ≡ ok (client_id, length client_id + 2)
unfolding read_client_id
read_client_id_lem version a b client_id rest h e short =
    ground (arith, length-append client_id rest, take-append client_id rest)

-- The eight bytes at the front of a request.
pub record FixedBytes : Type 0 where
  pub k1 : ℕ
  pub k2 : ℕ
  pub v1 : ℕ
  pub v2 : ℕ
  pub c1 : ℕ
  pub c2 : ℕ
  pub c3 : ℕ
  pub c4 : ℕ

abbrev pub key_of : FixedBytes → ℤ
key_of x = to_signed 16 (be_u16 x.k1 x.k2)

abbrev pub version_of : FixedBytes → ℤ
version_of x = to_signed 16 (be_u16 x.v1 x.v2)

abbrev pub correlation_of : FixedBytes → ℤ
correlation_of x = to_signed 32 (be_u32 x.c1 x.c2 x.c3 x.c4)

-- A request's bytes up to the client id's end.
abbrev pub head_bytes : FixedBytes → ℕ → ℕ → Bytes → Bytes
head_bytes x a b client_id =
    x.k1 ∷ x.k2 ∷ x.v1 ∷ x.v2 ∷ x.c1 ∷ x.c2 ∷ x.c3 ∷ x.c4 ∷ a ∷ b ∷ client_id

module _ (x : FixedBytes) (a b : ℕ) (client_id : Bytes) (named : be_u16 a b ≡ length client_id)
    (short : length client_id < 2 ^ 15) where
  -- Of a request whose header has no tagged fields the parser returns the fields as they were
  -- written, and the size of the header: the body is what stands behind it. The client id has its
  -- length in front and less than 2^15 bytes.
  pub parse_request_header_plain :
      (body : Bytes)
      → request_header_version (key_of x) (version_of x) ≡ 1
      → parse_request_header (head_bytes x a b client_id ++ body)
        ≡ ok (record {
          api_key = key_of x;
          api_version = version_of x;
          correlation_id = correlation_of x;
          client_id = client_id;
          header_version = 1;
          header_size = pos (length (head_bytes x a b client_id));
        })
  unfolding parse_request_header skip_tagged_fields
  parse_request_header_plain body v =
      rw v (rw (read_client_id_lem 1 a b client_id body (omega arith) named short) (ground arith))

  -- Of a flexible request with any tagged fields whose tags are below 2^64 the parser returns the
  -- fields as they were written, and the size of the header: the body is what stands behind it. The
  -- client id has its length in front and less than 2^15 bytes; the number of tagged fields, their
  -- tags and their sizes are written as varints; and the frame is shorter than 2^61 bytes.
  pub parse_request_header_flexible :
      (body : Bytes) (fs : List Field)
      → request_header_version (key_of x) (version_of x) ≡ 2
      → All IsField fs
      → length
          (head_bytes x a b client_id ++ (write_uvarint (length fs) ++ (fields_bytes fs ++ body)))
        < 2 ^ 61
      → parse_request_header
          (head_bytes x a b client_id ++ (write_uvarint (length fs) ++ (fields_bytes fs ++ body)))
        ≡ ok (record {
          api_key = key_of x;
          api_version = version_of x;
          correlation_id = correlation_of x;
          client_id = client_id;
          header_version = 2;
          header_size = pos (
              length (head_bytes x a b client_id)
              + length (write_uvarint (length fs))
              + length (fields_bytes fs));
        })
  unfolding parse_request_header skip_tagged_fields
  parse_request_header_flexible body fs v valid fits = rw v (
      rw (read_client_id_lem 2 a b client_id _ (omega arith) named short) (
        rw end (
          rw (
            read_tagged_fields_lem (head_bytes x a b client_id) (write_uvarint (length fs)) body fs
              counted valid fits))))
    where
      end : length client_id + 2 + 8 ≡ length (head_bytes x a b client_id)
      end = omega arith

      counted : Encodes (length fs) (write_uvarint (length fs))
      counted =
          write_uvarint-Encodes (length fs) (few_fields (head_bytes x a b client_id) _ body fs fits)
