-- ===== src/Protocol/Header/Sizes.antt =====
-- Where the header ends: within the frame, except that a tagged field's length can wrap around.
use kroxy.Base.{
  length-drop, ℕ, zero, suc, ◌+◌, ◌*◌, ◌≤◌, ◌<◌, ◌^◌, ◌%◌, ℤ, pos, to_signed, ◌≡◌, ap, false, [],
  ◌∷◌, Bytes, length, drop, ok, >>=-eq-ok, arith,
}
use kroxy.Protocol.Header.{
  RequestHeader, uvarint_loop, read_uvarint, skip_tag, skip_tags, slice_from, add_int, lt_int,
  read_client_id, client_id_of, skip_tagged_fields, read_tagged_fields, parse_request_header,
  request_header_version, fixed_of, Fixed,
}
use Prim.Native.Nat.{bit_and, bit_or}

uvarint_loop_takes :
    (bs : Bytes) (i x s v c : ℕ)
    → uvarint_loop bs i x s ≡ ok (v, c)
    → (i < c) × (c ≤ i + length bs) × (c ≤ 10)
unfolding uvarint_loop
uvarint_loop_takes [] i x s v c e = cc
uvarint_loop_takes (b ∷ bs) i x s v c e =
    ground (
      arith,
      uvarint_loop_takes bs (i + 1) (bit_or x (bit_and b 0x7f * 2 ^ s % 2 ^ 64)) (s + 7) v c,
    )

-- A varint that is read takes 1 to 10 bytes, all of them in the buffer.
pub read_uvarint_takes :
    (buf : Bytes) (v c : ℕ) → read_uvarint buf ≡ ok (v, c) → (1 ≤ c) × (c ≤ length buf) × (c ≤ 10)
unfolding read_uvarint
read_uvarint_takes buf v c e = ground (arith, uvarint_loop_takes buf 0 0 0 v c)

-- The offset lies in the frame or at its end, or is negative.
abbrev pub NotBehind : Bytes → ℤ → Type 0
NotBehind frame off = lt_int (length frame) off ≡ false

skip_tag-NotBehind :
    (frame : Bytes) (off : ℤ) {off' : ℤ} → skip_tag frame off ≡ ok off' → NotBehind frame off'
unfolding skip_tag
skip_tag-NotBehind frame off e = ground arith

skip_tags-NotBehind :
    (n : ℕ) (frame : Bytes) (off : ℤ) {off' : ℤ}
    → NotBehind frame off
    → skip_tags n frame off ≡ ok off'
    → NotBehind frame off'
unfolding skip_tags
skip_tags-NotBehind zero frame off h e = ground arith
skip_tags-NotBehind (suc n) frame off h e =
    let (off1, e1, r1) = >>=-eq-ok (skip_tag frame off) (skip_tags n frame) e in
    skip_tags-NotBehind n frame off1 (skip_tag-NotBehind frame off e1) r1

length-fixed_of :
    (frame : Bytes) {f : Fixed} → fixed_of frame ≡ ok f → length frame ≡ length f.behind + 8
length-fixed_of (k1 ∷ k2 ∷ v1 ∷ v2 ∷ c1 ∷ c2 ∷ c3 ∷ c4 ∷ behind) e = ground arith
length-fixed_of _ e = cc

client_id_of_takes :
    (n : ℤ) (rest client_id : Bytes) (used : ℕ)
    → client_id_of n rest ≡ ok (client_id, used)
    → (2 ≤ used) × (used ≤ length rest + 2)
client_id_of_takes n rest client_id used e = ground arith

read_client_id_takes :
    (version : ℕ) (behind client_id : Bytes) (used : ℕ)
    → 1 ≤ version
    → read_client_id version behind ≡ ok (client_id, used)
    → (2 ≤ used) × (used ≤ length behind)
unfolding read_client_id
read_client_id_takes version [] client_id used h e = ground arith
read_client_id_takes version (a ∷ []) client_id used h e = ground arith
read_client_id_takes version (a ∷ b ∷ rest) client_id used h e =
    ground (arith, client_id_of_takes (to_signed 16 (a * 256 + b)) rest client_id used)

pub request_header_version_range :
    (key version : ℤ)
    → (1 ≤ request_header_version key version) × (request_header_version key version ≤ 2)
unfolding request_header_version
request_header_version_range key version = ground arith

pub add_int_small : (a b : ℕ) → a + b < 2 ^ 63 → add_int (pos a) (pos b) ≡ pos (a + b)
add_int_small a b h = ground arith

slice_from_takes :
    (frame : Bytes) (off : ℕ) {buf : Bytes}
    → slice_from frame (pos off) ≡ ok buf
    → (off ≤ length frame) × (buf ≡ drop off frame)
slice_from_takes frame off e = ground arith

read_tagged_fields-NotBehind :
    (frame : Bytes) (off : ℕ) {size : ℤ}
    → length frame < 2 ^ 62
    → read_tagged_fields frame (pos off) ≡ ok size
    → NotBehind frame size
unfolding read_tagged_fields
read_tagged_fields-NotBehind frame off small e =
    let (buf, e1, r1) = >>=-eq-ok (slice_from frame (pos off)) _ e in
    let ((n, c), e2, r2) = >>=-eq-ok (read_uvarint buf) _ r1 in
    let (fits, is_drop) = slice_from_takes frame off e1 in
    let in_frame : off + c ≤ length frame =
      omega (arith, read_uvarint_takes buf n c e2, ap length is_drop, length-drop off frame) in
    skip_tags-NotBehind n frame _
      (rw (add_int_small off c (omega arith)) (ground (arith, in_frame))) r2

skip_tagged_fields_size :
    (version : ℕ) (frame : Bytes) (off : ℕ) {size : ℤ}
    → length frame < 2 ^ 62
    → off ≤ length frame
    → skip_tagged_fields version frame (pos off) ≡ ok size
    → NotBehind frame size × (version ≡ 1 → size ≡ pos off)
unfolding skip_tagged_fields
skip_tagged_fields_size version frame off {size} small h e =
    ground (arith, read_tagged_fields-NotBehind frame off {size = size} small)

-- A header that is read does not end behind its frame; and where it has no tagged fields, it ends
-- at an offset of the frame, behind its first ten bytes; for frames shorter than 2^62 bytes.
pub parse_request_header_size :
    (frame : Bytes) {h : RequestHeader}
    → length frame < 2 ^ 62
    → parse_request_header frame ≡ ok h
    → NotBehind frame h.header_size
      × (h.header_version ≡ 1 → (n : ℕ) × (h.header_size ≡ pos n) × (10 ≤ n) × (n ≤ length frame))
unfolding parse_request_header
parse_request_header_size frame small e =
    let (f, e1, r1) = >>=-eq-ok (fixed_of frame) _ e in
    let version = request_header_version f.key f.version in
    let ((client_id, used), e2, r2) = >>=-eq-ok (read_client_id version f.behind) _ r1 in
    let (size, e3, r3) = >>=-eq-ok (skip_tagged_fields version frame (pos (used + 8))) _ r2 in
    let (at_least, at_most) =
      read_client_id_takes version f.behind client_id used
        (request_header_version_range f.key f.version).0 e2 in
    let fits : used + 8 ≤ length frame = omega (arith, length-fixed_of frame e1) in
    let (behind, plain) = skip_tagged_fields_size version frame (used + 8) small fits e3 in
    (ground arith, λ one. (used + 8, ground arith, omega arith, fits))
