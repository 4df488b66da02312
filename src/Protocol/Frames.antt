-- ===== src/Protocol/Frames.antt =====
-- Frames written and read back, and when a reader reports the end of the connection.
use kroxy.Base.{
  take-append-drop, length-take, ℕ, ◌≤◌, ◌<◌, ◌^◌, ◌%◌, ◌≡◌, ◌↔◌, refl, ap, ◌∙◌, [], ◌∷◌, ◌++◌,
  Bytes, length, take, drop, drop-append, take-append, length-append, ok, err, arith,
}
use kroxy.Protocol.Framing.{
  Ending, closed, Reader, eof, io, max_frame_size, read_full, read_body, read_frame, write_frame,
}
use kroxy.Protocol.Words.{be_u32, put_u32, be_u32-put_u32}

read_full-append :
    (n : ℕ) (xs ys : Bytes) (ending : Ending)
    → n ≡ length xs
    → read_full n (record { bytes = xs ++ ys; ending = ending })
      ≡ ok (xs, record { bytes = ys; ending = ending })
read_full-append n xs ys ending e =
    rw e (ground (arith, length-append xs ys, take-append xs ys, drop-append xs ys))

read_body-append :
    (size : ℕ) (body rest : Bytes) (ending : Ending)
    → size ≡ length body
    → 0 < size
    → size ≤ max_frame_size
    → read_body size (record { bytes = body ++ rest; ending = ending })
      ≡ ok (body, record { bytes = rest; ending = ending })
unfolding read_body
read_body-append size body rest ending e positive small =
    ground (arith, read_full-append size body rest ending e)

-- ReadFrame gives back the body that WriteFrame wrote, and leaves what stands behind it, for every
-- body of 1 to MaxFrameSize bytes.
pub read_frame-write_frame :
    (body rest : Bytes) (ending : Ending)
    → 0 < length body
    → length body ≤ max_frame_size
    → read_frame (record { bytes = write_frame body ++ rest; ending = ending })
      ≡ ok (body, record { bytes = rest; ending = ending })
unfolding read_frame write_frame
read_frame-write_frame body rest ending positive small =
    let size = be_u32-put_u32 (length body % 2 ^ 32) in
    rw (read_full-append 4 (put_u32 (length body % 2 ^ 32)) (body ++ rest) ending refl) (
      rw size (
        read_body-append (length body % 2 ^ 32 % 2 ^ 32) body rest ending (omega arith)
          (omega arith) (omega arith)))

read_body_takes :
    (size : ℕ) (r r' : Reader) (body : Bytes)
    → read_body size r ≡ ok (body, r')
    → (0 < size)
      × (size ≤ max_frame_size)
      × (size ≤ length r.bytes)
      × (body ≡ take size r.bytes)
      × (r'.bytes ≡ drop size r.bytes)
      × (r'.ending ≡ r.ending)
unfolding read_body
read_body_takes size r r' body e = ground arith

-- A frame that is read has 1 to MaxFrameSize bytes; it is what stood behind four bytes that give
-- its size, and the reader goes on behind it.
pub read_frame_takes :
    (a b c d : ℕ) (behind body : Bytes) (ending : Ending) (r : Reader)
    → read_frame (record { bytes = a ∷ b ∷ c ∷ d ∷ behind; ending = ending }) ≡ ok (body, r)
    → (length body ≡ be_u32 a b c d)
      × (0 < length body)
      × (length body ≤ max_frame_size)
      × (body ++ r.bytes ≡ behind)
      × (r.ending ≡ ending)
unfolding read_frame
read_frame_takes a b c d behind body ending r e =
    let header = read_full-append 4 (a ∷ b ∷ c ∷ d ∷ []) behind ending refl in
    let (positive, small, fits, is_take, is_drop, same) =
      read_body_takes (be_u32 a b c d) (record { bytes = behind; ending = ending }) r body
        (rw header at e) in
    let size = ap length is_take ∙ length-take (be_u32 a b c d) behind fits in
    (
      size,
      omega (arith, size),
      omega (arith, size),
      rw (is_take, is_drop) (take-append-drop (be_u32 a b c d) behind),
      same,
    )

-- The reader stands at the end of a frame, or directly behind the four bytes of a valid size.
abbrev pub AtBoundary : Bytes → Type 0
AtBoundary [] = Unit
AtBoundary (a ∷ b ∷ c ∷ d ∷ []) = (0 < be_u32 a b c d) × (be_u32 a b c d ≤ max_frame_size)
AtBoundary _ = ⊥

eof_of_boundary :
    (bytes : Bytes)
    → AtBoundary bytes
    → read_frame (record { bytes = bytes; ending = closed }) ≡ err (io eof)
unfolding read_frame read_body
eof_of_boundary [] h = ground arith
eof_of_boundary (a ∷ b ∷ c ∷ d ∷ []) h = ground arith
eof_of_boundary _ h = elim h [ ]

boundary_of_eof :
    (bytes : Bytes) (ending : Ending)
    → read_frame (record { bytes = bytes; ending = ending }) ≡ err (io eof)
    → (ending ≡ closed) × AtBoundary bytes
unfolding read_frame read_body
boundary_of_eof [] ending e = ground arith
boundary_of_eof (a ∷ b ∷ c ∷ d ∷ []) ending e = ground arith
boundary_of_eof _ ending e = ground arith

-- ReadFrame reports io.EOF, the error that the connection's loop takes for a client that closed
-- its connection cleanly, exactly if the connection is closed and either nothing has been sent
-- since the last frame, or exactly the four bytes of a valid size have been.
pub read_frame-eof_iff :
    (bytes : Bytes) (ending : Ending)
    → (read_frame (record { bytes = bytes; ending = ending }) ≡ err (io eof))
      ↔ ((ending ≡ closed) × AtBoundary bytes)
read_frame-eof_iff bytes ending =
    (boundary_of_eof bytes ending, λ h. rw h.0 (eof_of_boundary bytes h.1))
