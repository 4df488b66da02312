-- ===== src/Protocol/Response.antt =====
-- protocol/response.go. What a response's AppendTo appends is a parameter, `body`.
use kroxy.Base.{ℕ, ℤ, Bytes, [], ◌∷◌, ◌++◌, leb, to_unsigned, if◌then◌else◌}
use kroxy.Protocol.Header.{response_header_version}
use kroxy.Protocol.Words.{put_u32}

unfoldable pub append_response_header : Bytes → ℤ → ℕ → Bytes
append_response_header dst correlation_id header_version =
    let dst' = dst ++ put_u32 (to_unsigned 32 correlation_id) in
    if leb 1 header_version then dst' ++ (0 ∷ []) else dst'

unfoldable pub encode_response : Bytes → ℤ → ℤ → ℤ → Bytes
unfolding append_response_header
encode_response body correlation_id key version =
    append_response_header [] correlation_id (response_header_version key version) ++ body
