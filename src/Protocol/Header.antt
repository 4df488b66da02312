-- ===== src/Protocol/Header.antt =====
-- protocol/header.go. An int is a 64-bit integer, with its wrap-around; `slice_panic` is the
-- run-time panic of a slice expression that is out of range, which is no error value in Go.
use kroxy.Base.{
  ℕ, zero, suc, ◌+◌, ◌*◌, ◌%◌, ◌^◌, ℤ, pos, negsuc, to_signed, to_unsigned, eq_num, ge_num, Bool,
  true, false, not, List, [], ◌∷◌, Bytes, length, take, drop, ltb, leb, if◌then◌else◌, Result, ok,
  err, ◌>>=◌, ◌>>◌, guard,
}
pub mod Sizes
pub mod Reading
pub mod Hostile
pub mod Fields
pub mod Runs
pub mod Varint
use kroxy.Protocol.Keys.{api_versions_key, is_flexible_request}
use kroxy.Protocol.Words.{be_u16, be_u32}
use Prim.Native.Nat.{bit_and, bit_or}

pub record RequestHeader : Type 0 where
  pub api_key : ℤ
  pub api_version : ℤ
  pub correlation_id : ℤ
  pub client_id : Bytes
  pub header_version : ℕ
  pub header_size : ℤ

pub data HeaderError : Type 0 where
  short_frame truncated_client_id_length truncated_client_id : HeaderError
  uvarint_overflow uvarint_truncated truncated_tagged_field slice_panic : HeaderError

unfoldable pub request_header_version : ℤ → ℤ → ℕ
request_header_version key version =
    if eq_num key api_versions_key
    then (if ge_num version 3 then 2 else 1)
    else if is_flexible_request key version
    then 2
    else 1

unfoldable pub response_header_version : ℤ → ℤ → ℕ
response_header_version key version =
    if eq_num key api_versions_key then 0 else if is_flexible_request key version then 1 else 0

-- `x << s` on a uint64.
abbrev shl64 : ℕ → ℕ → ℕ
shl64 x s = x * 2 ^ s % 2 ^ 64

-- The loop of readUvarint over what is left of `buf`, at index `i`.
unfoldable pub uvarint_loop : Bytes → ℕ → ℕ → ℕ → Result HeaderError (ℕ × ℕ)
uvarint_loop [] i x s = err uvarint_truncated
uvarint_loop (b ∷ bs) i x s =
    let more = uvarint_loop bs (i + 1) (bit_or x (shl64 (bit_and b 0x7f) s)) (s + 7) in
    if leb 10 i
    then err uvarint_overflow
    else if ltb b 0x80
    then ok (bit_or x (shl64 b s), i + 1)
    else more

unfoldable pub read_uvarint : Bytes → Result HeaderError (ℕ × ℕ)
unfolding uvarint_loop
read_uvarint buf = uvarint_loop buf 0 0 0

-- `a + b` on ints.
abbrev pub add_int : ℤ → ℤ → ℤ
add_int a b = to_signed 64 (to_unsigned 64 a + to_unsigned 64 b)

-- `n < a`, for a length `n`.
abbrev pub lt_int : ℕ → ℤ → Bool
lt_int n (pos m) = ltb n m
lt_int n (negsuc m) = false

-- `frame[off:]`
abbrev pub slice_from : Bytes → ℤ → Result HeaderError Bytes
slice_from frame (pos n) = if leb n (length frame) then ok (drop n frame) else err slice_panic
slice_from frame (negsuc n) = err slice_panic

-- One tagged field at offset `off`: its tag, its size and as many bytes; the offset behind them.
unfoldable pub skip_tag : Bytes → ℤ → Result HeaderError ℤ
skip_tag frame off = do
  buf ← slice_from frame off
  (tag, c1) ← read_uvarint buf
  let off1 = add_int off (pos c1)
  buf1 ← slice_from frame off1
  (size, c2) ← read_uvarint buf1
  let off2 = add_int off1 (pos c2)
  guard (not (lt_int (length frame) (add_int off2 (to_signed 64 size)))) truncated_tagged_field
  ok (add_int off2 (to_signed 64 size))

-- The loop over `n` tagged fields.
unfoldable pub skip_tags : ℕ → Bytes → ℤ → Result HeaderError ℤ
skip_tags zero frame off = ok off
skip_tags (suc n) frame off = do off' ← skip_tag frame off; skip_tags n frame off'

-- The client id behind its length, with the bytes that both take. A length that is not positive
-- stands for no client id.
abbrev pub client_id_of : ℤ → Bytes → Result HeaderError (Bytes × ℕ)
client_id_of (pos n) rest =
    if leb n (length rest) then ok (take n rest, n + 2) else err truncated_client_id
client_id_of (negsuc n) rest = ok ([], 2)

-- On what stands behind the first eight bytes of the frame.
unfoldable pub read_client_id : ℕ → Bytes → Result HeaderError (Bytes × ℕ)
read_client_id header_version (a ∷ b ∷ rest) =
    if leb 1 header_version then client_id_of (to_signed 16 (be_u16 a b)) rest else ok ([], 0)
read_client_id header_version rest =
    if leb 1 header_version then err truncated_client_id_length else ok ([], 0)

-- The number of tagged fields at offset `off`, and the fields.
unfoldable pub read_tagged_fields : Bytes → ℤ → Result HeaderError ℤ
read_tagged_fields frame off = do
  buf ← slice_from frame off
  (n, consumed) ← read_uvarint buf
  skip_tags n frame (add_int off (pos consumed))

unfoldable pub skip_tagged_fields : ℕ → Bytes → ℤ → Result HeaderError ℤ
unfolding read_tagged_fields
skip_tagged_fields header_version frame off =
    if leb 2 header_version then read_tagged_fields frame off else ok off

-- The fields in the first eight bytes of a frame, and the bytes behind those.
pub record Fixed : Type 0 where
  pub key : ℤ
  pub version : ℤ
  pub correlation : ℤ
  pub behind : Bytes

abbrev pub fixed_of : Bytes → Result HeaderError Fixed
fixed_of (k1 ∷ k2 ∷ v1 ∷ v2 ∷ c1 ∷ c2 ∷ c3 ∷ c4 ∷ behind) = ok (record {
  key = to_signed 16 (be_u16 k1 k2);
  version = to_signed 16 (be_u16 v1 v2);
  correlation = to_signed 32 (be_u32 c1 c2 c3 c4);
  behind = behind;
})
fixed_of _ = err short_frame

unfoldable pub parse_request_header : Bytes → Result HeaderError RequestHeader
unfolding read_client_id skip_tagged_fields request_header_version
parse_request_header frame = do
  h ← fixed_of frame
  let header_version = request_header_version h.key h.version
  (client_id, used) ← read_client_id header_version h.behind
  header_size ← skip_tagged_fields header_version frame (pos (used + 8))
  ok (record {
    api_key = h.key;
    api_version = h.version;
    correlation_id = h.correlation;
    client_id = client_id;
    header_version = header_version;
    header_size = header_size;
  })
