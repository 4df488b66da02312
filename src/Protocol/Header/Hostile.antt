-- ===== src/Protocol/Header/Hostile.antt =====
-- Tagged fields whose size wraps around: the header's end moves back, or does not move.
use kroxy.Base.{
  append_assoc, ◌-◌, ℕ, zero, suc, ◌+◌, ◌<◌, ◌^◌, pos, negsuc, to_signed, ◌≡◌, refl, sym, [], ◌∷◌,
  ◌++◌, Bytes, length, length-append, ok, arith,
}
use kroxy.Protocol.Header.{
  RequestHeader, read_uvarint, skip_tag, skip_tags, add_int, read_client_id, read_tagged_fields,
  skip_tagged_fields, parse_request_header, request_header_version,
}
use kroxy.Protocol.Header.Reading.{Encodes, skip_tag_step, slice_from-append}
use kroxy.Protocol.Words.{be_u16, be_u32}

zero-Encodes : Encodes 0 (0 ∷ [])
unfolding read_uvarint
zero-Encodes rest = refl

one-Encodes : Encodes 1 (1 ∷ [])
unfolding read_uvarint
one-Encodes rest = refl

-- The varints of 2^64 - 128 and 2^64 - 11, which are -128 and -11 as ints.
abbrev pub minus_128 : Bytes
minus_128 = 0x80 ∷ 0xff ∷ 0xff ∷ 0xff ∷ 0xff ∷ 0xff ∷ 0xff ∷ 0xff ∷ 0xff ∷ 1 ∷ []

abbrev pub minus_11 : Bytes
minus_11 = 0xf5 ∷ 0xff ∷ 0xff ∷ 0xff ∷ 0xff ∷ 0xff ∷ 0xff ∷ 0xff ∷ 0xff ∷ 1 ∷ []

minus_128-Encodes : Encodes (2 ^ 64 - 128) minus_128
unfolding read_uvarint
minus_128-Encodes rest = refl

minus_11-Encodes : Encodes (2 ^ 64 - 11) minus_11
unfolding read_uvarint
minus_11-Encodes rest = refl

back_by_11 :
    (off : ℕ) → off < 2 ^ 61 → add_int (pos (off + 1 + 10)) (to_signed 64 (2 ^ 64 - 11)) ≡ pos off
back_by_11 off h = ground arith

-- A tagged field of size -11 ends where it begins.
spin_step :
    (front rest : Bytes)
    → length front < 2 ^ 61
    → skip_tag (front ++ (0 ∷ (minus_11 ++ rest))) (pos (length front)) ≡ ok (pos (length front))
spin_step front rest h =
    skip_tag_step front (0 ∷ []) minus_11 rest 0 (2 ^ 64 - 11) (length front) _ refl h (omega arith)
      zero-Encodes minus_11-Encodes (back_by_11 (length front) h)
      (ground (arith, length-append front (0 ∷ (minus_11 ++ rest))))

-- On one such field at the offset the loop over any number of fields succeeds, and ends where it
-- began. The field stands below 2^61.
pub skip_tags_spin :
    (n : ℕ) (front rest : Bytes)
    → length front < 2 ^ 61
    → skip_tags n (front ++ (0 ∷ (minus_11 ++ rest))) (pos (length front)) ≡ ok (pos (length front))
unfolding skip_tags
skip_tags_spin zero front rest h = refl
skip_tags_spin (suc n) front rest h = rw (spin_step front rest h) (skip_tags_spin n front rest h)

negative_step :
    (front rest : Bytes)
    → length front ≡ 10
    → read_tagged_fields (front ++ (1 ∷ 0 ∷ (minus_128 ++ rest))) (pos 10) ≡ ok (negsuc 105)
unfolding read_tagged_fields skip_tags
negative_step front rest h =
    rw (slice_from-append 10 front _ (sym h)) (rw (one-Encodes (0 ∷ (minus_128 ++ rest))) (rw step))
  where
    frame : Bytes
    frame = front ++ (1 ∷ 0 ∷ (minus_128 ++ rest))

    step : skip_tag frame (pos 11) ≡ ok (negsuc 105)
    step = rw (← append_assoc front (1 ∷ []) (0 ∷ (minus_128 ++ rest))) (
        skip_tag_step (front ++ (1 ∷ [])) (0 ∷ []) minus_128 rest 0 (2 ^ 64 - 128) 11 _
          (omega (arith, length-append front (1 ∷ []))) (omega arith) (omega arith) zero-Encodes
          minus_128-Encodes refl refl)

-- Whatever the key and the version of a flexible request, the correlation id and the bytes behind
-- the header are: if there is no client id and the only tagged field declares a size of 2^64 - 128,
-- then the header is accepted, and its size is -106.
pub parse_request_header_negative :
    (k1 k2 v1 v2 c1 c2 c3 c4 : ℕ) (rest : Bytes)
    → request_header_version (to_signed 16 (be_u16 k1 k2)) (to_signed 16 (be_u16 v1 v2)) ≡ 2
    → (h : RequestHeader) × (parse_request_header
          (k1 ∷ k2 ∷ v1 ∷ v2 ∷ c1 ∷ c2 ∷ c3 ∷ c4 ∷ 0 ∷ 0 ∷ 1 ∷ 0 ∷ (minus_128 ++ rest))
        ≡ ok h)
      × (h.header_size ≡ negsuc 105)
unfolding parse_request_header
parse_request_header_negative k1 k2 v1 v2 c1 c2 c3 c4 rest flexible = (
  record {
    api_key = to_signed 16 (be_u16 k1 k2);
    api_version = to_signed 16 (be_u16 v1 v2);
    correlation_id = to_signed 32 (be_u32 c1 c2 c3 c4);
    client_id = [];
    header_version = 2;
    header_size = negsuc 105;
  },
  rw (flexible, no_client_id)
      (unfold skip_tagged_fields in
        rw (negative_step (k1 ∷ k2 ∷ v1 ∷ v2 ∷ c1 ∷ c2 ∷ c3 ∷ c4 ∷ 0 ∷ 0 ∷ []) rest refl)),
  refl,
)
  where
    no_client_id : read_client_id 2 (0 ∷ 0 ∷ 1 ∷ 0 ∷ (minus_128 ++ rest)) ≡ ok ([], 2)
    no_client_id = unfold read_client_id in ground arith
