-- ===== src/Rewrite/RoundTrip.antt =====
-- The name functions undo one another.
use kroxy.Base.{Option, none, some, [], ◌∷◌, ◌≡◌, refl, Bytes, trim_prefix, trim_prefix-append}
use kroxy.Rewrite.Names.{prefix_in, prefix_in_ptr, strip_out, strip_out_ptr}

trim_prefix_nil : (x : Bytes) → trim_prefix [] x ≡ []
unfolding trim_prefix
trim_prefix_nil [] = refl
trim_prefix_nil (c ∷ x) = refl

-- Stripping a prefixed name gives the tenant's name back, for every prefix and every name.
pub strip_out-prefix_in : (prefix name : Bytes) → strip_out prefix (prefix_in prefix name) ≡ name
unfolding strip_out prefix_in
strip_out-prefix_in [] name = refl
strip_out-prefix_in (c ∷ p) [] = trim_prefix_nil (c ∷ p)
strip_out-prefix_in (c ∷ p) (x ∷ name) = trim_prefix-append (c ∷ p) (x ∷ name)

-- The same for nullable names: nil stays nil.
pub strip_out_ptr-prefix_in_ptr :
    (prefix : Bytes) (name : Option Bytes) → strip_out_ptr prefix (prefix_in_ptr prefix name) ≡ name
unfolding strip_out_ptr prefix_in_ptr
strip_out_ptr-prefix_in_ptr prefix none = refl
strip_out_ptr-prefix_in_ptr [] (some []) = refl
strip_out_ptr-prefix_in_ptr [] (some (x ∷ name)) = refl
strip_out_ptr-prefix_in_ptr (c ∷ p) (some []) = cc (trim_prefix_nil (c ∷ p))
strip_out_ptr-prefix_in_ptr (c ∷ p) (some (x ∷ name)) = cc (trim_prefix-append (c ∷ p) (x ∷ name))
