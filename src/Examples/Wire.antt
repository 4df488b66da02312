-- ===== src/Examples/Wire.antt =====
-- Frames and headers as bytes.
use kroxy.Base.{Bytes, ◌≡◌, ◌↔◌, ◌≤◌, ℕ, refl, pos, negsuc, [], ◌∷◌, ◌++◌, codes, ok, err, arith}
use kroxy.Protocol.Framing.{closed, io, eof, read_frame, write_frame}
use kroxy.Protocol.Frames.{AtBoundary, read_frame-write_frame, read_frame-eof_iff}
use kroxy.Protocol.Header.{RequestHeader, parse_request_header, request_header_version}
use kroxy.Protocol.Header.Fields.{
  Field, FixedBytes, head_bytes, fields_bytes, parse_request_header_plain,
  parse_request_header_flexible,
}
use kroxy.Protocol.Header.Hostile.{minus_128, parse_request_header_negative}
use kroxy.Protocol.Header.Varint.{write_groups, write_uvarint}
use kroxy.Protocol.Header.Sizes.{NotBehind, parse_request_header_size}
use kroxy.Protocol.Keys.{is_flexible_request}

frame_of_two :
    read_frame (record { bytes = 0 ∷ 0 ∷ 0 ∷ 2 ∷ 7 ∷ 8 ∷ 9 ∷ []; ending = closed })
    ≡ ok (7 ∷ 8 ∷ [], record { bytes = 9 ∷ []; ending = closed })
unfolding write_frame
frame_of_two = read_frame-write_frame (7 ∷ 8 ∷ []) (9 ∷ []) closed (omega arith) (omega arith)

read_frame-eof_iff_example :
    (read_frame (record { bytes = 0 ∷ 0 ∷ 0 ∷ 2 ∷ []; ending = closed }) ≡ err (io eof))
    ↔ ((closed ≡ closed) × AtBoundary (0 ∷ 0 ∷ 0 ∷ 2 ∷ []))
read_frame-eof_iff_example = read_frame-eof_iff (0 ∷ 0 ∷ 0 ∷ 2 ∷ []) closed

abbrev metadata_v9 : FixedBytes
metadata_v9 = record { k1 = 0; k2 = 3; v1 = 0; v2 = 9; c1 = 0; c2 = 0; c3 = 0; c4 = 7 }

abbrev metadata_v1 : FixedBytes
metadata_v1 = record { k1 = 0; k2 = 3; v1 = 0; v2 = 1; c1 = 0; c2 = 0; c3 = 0; c4 = 7 }

-- Its payload takes a size of two bytes.
abbrev half : Bytes
half = codes "sixty-five bytes, which are one half of a payload of 130 bytes..."

abbrev tag_300 : Field
tag_300 = record { number = 300; payload = half ++ half }

abbrev tag_five : Field
tag_five = record { number = 5; payload = 42 ∷ [] }

parse_request_header_flexible_example :
    parse_request_header (
      head_bytes metadata_v9 0 2 (codes "ab")
      ++ (write_uvarint 2 ++ (fields_bytes (tag_five ∷ tag_300 ∷ []) ++ (99 ∷ []))))
    ≡ ok (record {
      api_key = pos 3;
      api_version = pos 9;
      correlation_id = pos 7;
      client_id = codes "ab";
      header_version = 2;
      header_size = pos 150;
    })
unfolding request_header_version is_flexible_request write_groups
parse_request_header_flexible_example =
    parse_request_header_flexible metadata_v9 0 2 (codes "ab") refl (omega arith) (99 ∷ [])
      (tag_five ∷ tag_300 ∷ []) refl (omega arith) (omega arith)

abbrev header_v1 : RequestHeader
header_v1 = record {
  api_key = pos 3;
  api_version = pos 1;
  correlation_id = pos 7;
  client_id = codes "ab";
  header_version = 1;
  header_size = pos 12;
}

header_read :
    parse_request_header (head_bytes metadata_v1 0 2 (codes "ab") ++ (99 ∷ [])) ≡ ok header_v1
unfolding request_header_version is_flexible_request
header_read =
    parse_request_header_plain metadata_v1 0 2 (codes "ab") refl (omega arith) (99 ∷ []) refl

parse_request_header_size_example :
    NotBehind (head_bytes metadata_v1 0 2 (codes "ab") ++ (99 ∷ [])) (pos 12)
    × (◌≡◌ {A = ℕ} 1 1 → (n : ℕ) × (pos 12 ≡ pos n) × (10 ≤ n) × (n ≤ 13))
parse_request_header_size_example =
    parse_request_header_size (head_bytes metadata_v1 0 2 (codes "ab") ++ (99 ∷ [])) {h = header_v1}
      (omega arith) header_read

parse_request_header_negative_example :
    (h : RequestHeader) × (parse_request_header
        (0 ∷ 3 ∷ 0 ∷ 9 ∷ 0 ∷ 0 ∷ 0 ∷ 7 ∷ 0 ∷ 0 ∷ 1 ∷ 0 ∷ (minus_128 ++ (1 ∷ [])))
      ≡ ok h)
    × (h.header_size ≡ negsuc 105)
unfolding request_header_version is_flexible_request
parse_request_header_negative_example = parse_request_header_negative 0 3 0 9 0 0 0 7 (1 ∷ []) refl
