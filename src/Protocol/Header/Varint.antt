-- ===== src/Protocol/Header/Varint.antt =====
-- Varints as Kafka's protocol writes them, and that readUvarint in protocol/header.go reads them.
use kroxy.Base.{
  ℕ, zero, suc, ◌+◌, ◌*◌, ◌/◌, ◌%◌, ◌≤◌, ◌<◌, ◌^◌, ◌≡◌, ap, ap₂, ◌∙◌, inl, inr, Bool-cases, [], ◌∷◌,
  ◌++◌, Bytes, length, ltb, ok, arith, if◌then◌else◌, bit_or_shifted, bit_and_low,
}
use kroxy.Protocol.Header.{uvarint_loop, read_uvarint}
use kroxy.Protocol.Header.Reading.{Encodes}
use native.Mathlib.Nat.{div-add-mod, mul-le-mul_right, pow-suc}
use native.Mathlib.Numerals.{towards_suc}
use Prim.Native.Nat.{bit_and, bit_or}

-- The groups of seven bits of a number, the lowest first, all but the last with the top bit set; at
-- most `k` groups before the last.
unfoldable pub write_groups : ℕ → ℕ → Bytes
write_groups zero n = n ∷ []
write_groups (suc k) n =
    let rest = write_groups k (n / 128) in if ltb n 128 then n ∷ [] else (128 + n % 128) ∷ rest

-- A number below 2^64 has at most ten groups.
abbrev pub write_uvarint : ℕ → Bytes
write_uvarint = write_groups 9

pow_seven : (s : ℕ) → 2 ^ (s + 7) ≡ 128 * 2 ^ s
pow_seven s = simp towards_suc (omega arith)

groups : (n s : ℕ) → n * 2 ^ s ≡ n % 128 * 2 ^ s + n / 128 * 2 ^ (s + 7)
groups n s = omega (
  arith,
  ap (λ (t : ℕ). t * 2 ^ s) (div-add-mod n 128),
  ap (λ (t : ℕ). n / 128 * t) (pow_seven s),
)

-- `x | g << s` on a uint64 that does not overflow.
or_group :
    (g x s : ℕ) → x < 2 ^ s → x + g * 2 ^ s < 2 ^ 64 → bit_or x (g * 2 ^ s % 2 ^ 64) ≡ x + g * 2 ^ s
or_group g x s low fits =
    ap (bit_or x) (small_mod (g * 2 ^ s) (omega (arith, fits))) ∙ bit_or_shifted s x g low
  where
    small_mod : (y : ℕ) → y < 2 ^ 64 → y % 2 ^ 64 ≡ y
    small_mod y h = omega (arith, h)

last_group :
    (n i x s : ℕ) (rest : Bytes)
    → n < 128
    → i ≤ 9
    → x < 2 ^ s
    → x + n * 2 ^ s < 2 ^ 64
    → uvarint_loop (n ∷ rest) i x s ≡ ok (x + n * 2 ^ s, i + 1)
unfolding uvarint_loop
last_group n i x s rest small first low fits = ground (arith, or_group n x s low fits)

inner_group :
    (g i x s : ℕ) (rest : Bytes)
    → g < 128
    → i ≤ 9
    → x < 2 ^ s
    → x + g * 2 ^ s < 2 ^ 64
    → uvarint_loop ((128 + g) ∷ rest) i x s ≡ uvarint_loop rest (i + 1) (x + g * 2 ^ s) (s + 7)
unfolding uvarint_loop
inner_group g i x s rest small first low fits =
    let masked : bit_and (128 + g) 0x7f ≡ g = bit_and_low (128 + g) ∙ omega arith in
    let joined : bit_or x (bit_and (128 + g) 0x7f * 2 ^ s % 2 ^ 64) ≡ x + g * 2 ^ s =
      ap (λ y. bit_or x (y * 2 ^ s % 2 ^ 64)) masked ∙ or_group g x s low fits in
    rw joined (ground arith)

group_fits : (g x s : ℕ) → g < 128 → x < 2 ^ s → x + g * 2 ^ s < 2 ^ (s + 7)
group_fits g x s small low =
    omega (arith, pow_seven s, mul-le-mul_right {m = g} {n = 127} (2 ^ s) (omega (arith, small)))

uvarint_loop-write_groups :
    (k n i x s : ℕ) (rest : Bytes)
    → n < 128 ^ suc k
    → i + k ≤ 9
    → x < 2 ^ s
    → x + n * 2 ^ s < 2 ^ 64
    → uvarint_loop (write_groups k n ++ rest) i x s
      ≡ ok (x + n * 2 ^ s, i + length (write_groups k n))
unfolding write_groups
uvarint_loop-write_groups zero n i x s rest short first low fits =
    last_group n i x s rest (omega (arith, short)) (omega arith) low fits
uvarint_loop-write_groups (suc k) n i x s rest short first low fits =
    elim (Bool-cases (ltb n 128)) [
      | inl e ↦ rw e (last_group n i x s rest (ground (arith, e)) (omega arith) low fits)
      | inr e ↦
          let g = n % 128 in
          let parts = groups n s in
          let more : x + g * 2 ^ s + n / 128 * 2 ^ (s + 7) ≡ x + n * 2 ^ s = omega (arith, parts) in
          rw e (
            inner_group g i x s (write_groups k (n / 128) ++ rest) (omega arith) (omega arith) low
              (omega (arith, more, fits))
            ∙ uvarint_loop-write_groups k (n / 128) (i + 1) (x + g * 2 ^ s) (s + 7) rest
                (omega (arith, short, pow-suc 128 (suc k))) (omega (arith, first))
                (group_fits g x s (omega arith) low) (omega (arith, more, fits))
            ∙ ap₂ (λ a b. ok (a, b)) more (omega arith))
    ]

pub length-write_groups : (k n : ℕ) → 1 ≤ length (write_groups k n)
unfolding write_groups
length-write_groups zero n = omega arith
length-write_groups (suc k) n = ground arith

-- Every number below 2^64 is read back from its varint, whatever stands behind it.
pub write_uvarint-Encodes : (n : ℕ) → n < 2 ^ 64 → Encodes n (write_uvarint n)
unfolding read_uvarint
write_uvarint-Encodes n h rest =
    uvarint_loop-write_groups 9 n 0 0 0 rest (omega (arith, h)) (omega arith) (omega arith)
      (omega (arith, h))
    ∙ ap₂ (λ a b. ok (a, b)) (omega arith) (omega arith)
