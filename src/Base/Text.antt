-- ===== src/Base/Text.antt =====
-- Go strings and byte slices as lists of byte values, and the functions of package strings that
-- the program calls.
use Prim.Native.Char.{code}
use Prim.Native.Nat.{ℕ, suc}
use Prim.Native.String.{String}
use mathlib.Core.Path.{◌≡◌, refl}
use mathlib.Core.Bool.{Bool, true, false, ◌&&◌}
use mathlib.Core.Logic.{◌↔◌, ◌⊎◌, inl, inr}
use mathlib.Core.List.{List, [], ◌∷◌, ◌++◌}
use mathlib.Core.Option.{Option, none, some}
use native.Mathlib.Omega.{arith}
use kroxy.Base.Tests.{◌==◌, if◌then◌else◌}
use kroxy.Base.Lists.{length, drop, drop-append}

abbrev pub Bytes : Type 0
Bytes = List ℕ

-- The bytes of an ASCII text.
abbrev pub codes : String → Bytes
codes String.[] = []
codes (String.◌∷◌ c s) = code c ∷ codes s

abbrev pub is_empty : Bytes → Bool
is_empty [] = true
is_empty (x ∷ xs) = false

-- Go's `==` on strings.
unfoldable pub str_eq : Bytes → Bytes → Bool
str_eq [] [] = true
str_eq [] (y ∷ ys) = false
str_eq (x ∷ xs) [] = false
str_eq (x ∷ xs) (y ∷ ys) = x == y && str_eq xs ys

pub str_eq_iff : (a b : Bytes) → (str_eq a b ≡ true) ↔ (a ≡ b)
unfolding str_eq
str_eq_iff [] [] = ground arith
str_eq_iff [] (y ∷ ys) = ground arith
str_eq_iff (x ∷ xs) [] = ground arith
str_eq_iff (x ∷ xs) (y ∷ ys) = ground (arith, str_eq_iff xs ys)

pub str_eq_refl : (a : Bytes) → str_eq a a ≡ true
str_eq_refl a = (str_eq_iff a a).1 refl

-- strings.HasPrefix(s, prefix)
unfoldable pub has_prefix : Bytes → Bytes → Bool
has_prefix s [] = true
has_prefix [] (p ∷ ps) = false
has_prefix (c ∷ s) (p ∷ ps) = c == p && has_prefix s ps

-- strings.TrimPrefix(s, prefix)
unfoldable pub trim_prefix : Bytes → Bytes → Bytes
unfolding has_prefix
trim_prefix s prefix = if has_prefix s prefix then drop (length prefix) s else s

pub has_prefix-append : (p s : Bytes) → has_prefix (p ++ s) p ≡ true
unfolding has_prefix
has_prefix-append [] s = refl
has_prefix-append (x ∷ p) s = ground (arith, has_prefix-append p s)

-- A text with the prefix is the prefix followed by what is behind it.
pub append-drop-has_prefix : (s p : Bytes) → has_prefix s p ≡ true → p ++ drop (length p) s ≡ s
unfolding has_prefix
append-drop-has_prefix s [] h = refl
append-drop-has_prefix [] (x ∷ p) h = ground arith
append-drop-has_prefix (c ∷ s) (x ∷ p) h = ground (arith, append-drop-has_prefix s p)

-- Two prefixes of one text: one of them is a prefix of the other.
pub has_prefix_total :
    (p q s t : Bytes) → p ++ s ≡ q ++ t → (has_prefix p q ≡ true) ⊎ (has_prefix q p ≡ true)
unfolding has_prefix
has_prefix_total p [] s t e = inl refl
has_prefix_total [] (y ∷ q) s t e = inr refl
has_prefix_total (x ∷ p) (y ∷ q) s t e = ground (arith, has_prefix_total p q s t)

pub has_prefix_trans :
    (s q p : Bytes) → has_prefix s q ≡ true → has_prefix q p ≡ true → has_prefix s p ≡ true
unfolding has_prefix
has_prefix_trans s q [] h k = refl
has_prefix_trans s [] (x ∷ p) h k = ground arith
has_prefix_trans [] (y ∷ q) (x ∷ p) h k = ground arith
has_prefix_trans (c ∷ s) (y ∷ q) (x ∷ p) h k = ground (arith, has_prefix_trans s q p)

pub trim_prefix-append : (p s : Bytes) → trim_prefix (p ++ s) p ≡ s
unfolding trim_prefix
trim_prefix-append p s = ground (arith, has_prefix-append p s, drop-append p s)

-- strings.IndexByte(s, sep), with no place for -1
unfoldable pub index_byte : Bytes → ℕ → Option ℕ
index_byte [] sep = none
index_byte (c ∷ s) sep =
    let rest = index_byte s sep in
    if c == sep then some 0 else elim rest [ none ↦ none | some i ↦ some (suc i) ]

pub append-trim_prefix : (s p : Bytes) → has_prefix s p ≡ true → p ++ trim_prefix s p ≡ s
unfolding trim_prefix
append-trim_prefix s p h = rw h (append-drop-has_prefix s p h)

-- A text without the prefix is left alone.
pub trim_prefix-eq_self : (s p : Bytes) → has_prefix s p ≡ false → trim_prefix s p ≡ s
unfolding trim_prefix
trim_prefix-eq_self s p h = rw h
