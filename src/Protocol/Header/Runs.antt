-- ===== src/Protocol/Header/Runs.antt =====
-- Headers read by evaluation.
use kroxy.Base.{pos, negsuc, ◌≡◌, refl, [], ◌∷◌, Bytes, ok, codes}
use kroxy.Protocol.Header.{
  parse_request_header, read_tagged_fields, skip_tags, skip_tag, read_uvarint,
}
use kroxy.Protocol.Keys.{is_flexible_request}

-- Metadata v9 with client id "ab" and no tagged field.
metadata_v9 :
    parse_request_header (0 ∷ 3 ∷ 0 ∷ 9 ∷ 0 ∷ 0 ∷ 0 ∷ 7 ∷ 0 ∷ 2 ∷ b'a' ∷ b'b' ∷ 0 ∷ 99 ∷ [])
    ≡ ok (record {
      api_key = pos 3;
      api_version = pos 9;
      correlation_id = pos 7;
      client_id = codes "ab";
      header_version = 2;
      header_size = pos 13;
    })
unfolding parse_request_header read_tagged_fields skip_tags skip_tag read_uvarint
    is_flexible_request
metadata_v9 = refl

uvarint_300 : read_uvarint (0xac ∷ 0x02 ∷ 5 ∷ []) ≡ ok (300, 2)
unfolding read_uvarint
uvarint_300 = refl

abbrev hostile : Bytes
hostile =
    0 ∷ 3 ∷ 0 ∷ 9 ∷ 0 ∷ 0 ∷ 0 ∷ 7 ∷ 0 ∷ 0 ∷ 1 ∷ 0 ∷ 0x80 ∷ 0xff ∷ 0xff ∷ 0xff ∷ 0xff ∷ 0xff ∷ 0xff
    ∷ 0xff ∷ 0xff ∷ 1 ∷ []

hostile_size :
    parse_request_header hostile
    ≡ ok (record {
      api_key = pos 3;
      api_version = pos 9;
      correlation_id = pos 7;
      client_id = [];
      header_version = 2;
      header_size = negsuc 105;
    })
unfolding parse_request_header read_tagged_fields skip_tags skip_tag read_uvarint
    is_flexible_request
hostile_size = refl
