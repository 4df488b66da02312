-- ===== src/Protocol/Header/Reading.antt =====
-- What the parser reads from a frame that was built for it, and from one that was built against it.
use kroxy.Base.{
  ℕ, ◌+◌, ◌<◌, ◌^◌, ℤ, pos, to_signed, ◌≡◌, false, ◌++◌, Bytes, length, drop-append, length-append,
  append_assoc, ok, arith,
}
use kroxy.Protocol.Header.{read_uvarint, skip_tag, slice_from, add_int, lt_int}
use kroxy.Protocol.Header.Sizes.{add_int_small}

pub slice_from-append :
    (n : ℕ) (xs ys : Bytes) → n ≡ length xs → slice_from (xs ++ ys) (pos n) ≡ ok ys
slice_from-append n xs ys e = rw e (ground (arith, length-append xs ys, drop-append xs ys))

-- A varint at the front of a buffer, whatever stands behind it.
abbrev pub Encodes : ℕ → Bytes → Type 0
Encodes v code = (rest : Bytes) → read_uvarint (code ++ rest) ≡ ok (v, length code)

-- One round of the loop on a tag and a size that stand at the offset: it ends at `behind`, unless
-- that lies behind the frame.
pub skip_tag_step :
    (front tag size tail : Bytes) (t n off : ℕ) (behind : ℤ)
    → off ≡ length front
    → off < 2 ^ 61
    → length tag + length size < 2 ^ 61
    → Encodes t tag
    → Encodes n size
    → add_int (pos (off + length tag + length size)) (to_signed 64 n) ≡ behind
    → lt_int (length (front ++ (tag ++ (size ++ tail)))) behind ≡ false
    → skip_tag (front ++ (tag ++ (size ++ tail))) (pos off) ≡ ok behind
unfolding skip_tag
skip_tag_step front tag size tail t n off behind at small short et es ends fits =
    rw (slice_from-append off front (tag ++ (size ++ tail)) at) (
      rw (et (size ++ tail)) (
        rw (add_int_small off (length tag) (omega arith)) (
          rw second (
            rw (es tail) (
              rw (add_int_small (off + length tag) (length size) (omega arith))
                (rw (ends, fits)))))))
  where
    second :
        slice_from (front ++ (tag ++ (size ++ tail))) (pos (off + length tag)) ≡ ok (size ++ tail)
    second = rw (← append_assoc front tag (size ++ tail)) (
        slice_from-append (off + length tag) (front ++ tag) (size ++ tail)
          (omega (arith, length-append front tag)))
