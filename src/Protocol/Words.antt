-- ===== src/Protocol/Words.antt =====
-- encoding/binary's big-endian words, as package protocol and package upstream use them.
use kroxy.Base.{ℕ, ◌+◌, ◌*◌, ◌/◌, ◌%◌, ◌^◌, ◌<◌, ◌≡◌, [], ◌∷◌, Bytes, arith}

abbrev pub IsByte : ℕ → Type 0
IsByte b = b < 256

abbrev pub be_u16 : ℕ → ℕ → ℕ
be_u16 a b = a * 256 + b

abbrev pub be_u32 : ℕ → ℕ → ℕ → ℕ → ℕ
be_u32 a b c d = a * 16777216 + b * 65536 + c * 256 + d

-- binary.BigEndian.PutUint32 of the low 32 bits.
abbrev pub put_u32 : ℕ → Bytes
put_u32 n = n / 16777216 % 256 ∷ n / 65536 % 256 ∷ n / 256 % 256 ∷ n % 256 ∷ []

pub be_u32-put_u32 :
    (n : ℕ) → be_u32 (n / 16777216 % 256) (n / 65536 % 256) (n / 256 % 256) (n % 256) ≡ n % 2 ^ 32
be_u32-put_u32 n = omega arith
