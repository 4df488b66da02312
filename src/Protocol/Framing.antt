-- ===== src/Protocol/Framing.antt =====
-- protocol/framing.go. A reader is the bytes that are still to come and what ends them.
use kroxy.Base.{
  ℕ, ◌*◌, ◌%◌, ◌^◌, Bool, true, false, [], ◌∷◌, ◌++◌, Bytes, length, take, drop, ltb, leb, ◌==◌,
  if◌then◌else◌, Result, ok, err, ◌>>=◌, wrap,
}
use kroxy.Protocol.Words.{be_u32, put_u32}

-- After its bytes a connection ends: closed by the peer, or by another error (a deadline, a reset).
pub data Ending : Type 0 where
  closed broken : Ending

pub record Reader : Type 0 where
  pub bytes : Bytes
  pub ending : Ending

-- What io.ReadFull returns: io.EOF, io.ErrUnexpectedEOF, or the connection's error.
pub data IoError : Type 0 where
  eof unexpected_eof other : IoError

pub data FrameError : Type 0 where
  io : IoError → FrameError
  zero_length : FrameError
  too_large : ℕ → FrameError

-- errors.Is(err, io.EOF): wrapping keeps the cause.
abbrev pub is_eof : FrameError → Bool
is_eof (io eof) = true
is_eof _ = false

abbrev pub max_frame_size : ℕ
max_frame_size = 100 * 1024 * 1024

abbrev pub short_read : Bytes → Ending → IoError
short_read got broken = other
short_read [] closed = eof
short_read (b ∷ bs) closed = unexpected_eof

-- io.ReadFull into a buffer of `n` bytes, `n` not 0.
abbrev pub read_full : ℕ → Reader → Result IoError (Bytes × Reader)
read_full n r =
    if leb n (length r.bytes)
    then ok (take n r.bytes, record r { bytes = drop n r.bytes })
    else err (short_read r.bytes r.ending)

-- The size that the four bytes of a frame's header give.
abbrev pub size_of : Bytes → ℕ
size_of (a ∷ b ∷ c ∷ d ∷ _) = be_u32 a b c d
size_of _ = 0

-- The part of ReadFrame behind the header.
unfoldable pub read_body : ℕ → Reader → Result FrameError (Bytes × Reader)
read_body size r =
    if size == 0
    then err zero_length
    else if ltb max_frame_size size
    then err (too_large size)
    else wrap io (read_full size r)

unfoldable pub read_frame : Reader → Result FrameError (Bytes × Reader)
unfolding read_body
read_frame r = do (hdr, r') ← wrap io (read_full 4 r); read_body (size_of hdr) r'

-- The bytes that WriteFrame hands to a writer that accepts them all.
unfoldable pub write_frame : Bytes → Bytes
write_frame body = put_u32 (length body % 2 ^ 32) ++ body
