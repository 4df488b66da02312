-- ===== src/Rewrite/Isolation.antt =====
-- Which names belong to a tenant, and how the namespaces of two tenants meet.
use kroxy.Base.{
  Bytes, [], append-trim_prefix, has_prefix, has_prefix-append, has_prefix_total, inl, inr, refl,
  trim_prefix, trim_prefix-append, true, ◌++◌, ◌↔◌, ◌∷◌, ◌≡◌, ◌≢◌, ◌⊎◌,
}
use kroxy.Rewrite.Names.{prefix_in, strip_out, belongs_to_tenant}

-- A name that may be sent upstream for the tenant: it is empty, or lies under the prefix.
abbrev pub Scoped : Bytes → Bytes → Type 0
Scoped prefix name = (name ≡ []) ⊎ (belongs_to_tenant prefix name ≡ true)

pub prefix_in-Scoped : (prefix name : Bytes) → Scoped prefix (prefix_in prefix name)
unfolding prefix_in belongs_to_tenant
prefix_in-Scoped [] name = inr refl
prefix_in-Scoped (c ∷ p) [] = inl refl
prefix_in-Scoped (c ∷ p) (x ∷ name) = inr (has_prefix-append (c ∷ p) (x ∷ name))

-- A name belongs to the tenant exactly when it is the prefix with something behind it; and then
-- `strip_out` returns that something.
pub belongs_iff-strip_out :
    (prefix name : Bytes)
    → (belongs_to_tenant prefix name ≡ true) ↔ (prefix ++ strip_out prefix name ≡ name)
unfolding belongs_to_tenant strip_out
belongs_iff-strip_out [] name = (λ _. refl, λ _. refl)
belongs_iff-strip_out (c ∷ p) name = (
  append-trim_prefix name (c ∷ p),
  λ e. rw e at (has_prefix-append (c ∷ p) (trim_prefix name (c ∷ p))),
)

-- Two tenants produce the same upstream name from non-empty names only if one of the two prefixes
-- begins with the other.
pub prefix_in_meet :
    (p q n m : Bytes)
    → n ≢ []
    → m ≢ []
    → prefix_in p n ≡ prefix_in q m
    → (has_prefix p q ≡ true) ⊎ (has_prefix q p ≡ true)
unfolding prefix_in
prefix_in_meet p q [] m hn hm e = absurd (hn refl)
prefix_in_meet p q (x ∷ n) [] hn hm e = absurd (hm refl)
prefix_in_meet [] q (x ∷ n) (y ∷ m) hn hm e = inr (unfold has_prefix in refl)
prefix_in_meet (c ∷ p) [] (x ∷ n) (y ∷ m) hn hm e = inl (unfold has_prefix in refl)
prefix_in_meet (c ∷ p) (d ∷ q) (x ∷ n) (y ∷ m) hn hm e =
    has_prefix_total (c ∷ p) (d ∷ q) (x ∷ n) (y ∷ m) e

pub belongs-append : (prefix name : Bytes) → belongs_to_tenant prefix (prefix ++ name) ≡ true
unfolding belongs_to_tenant
belongs-append [] name = refl
belongs-append (c ∷ p) name = has_prefix-append (c ∷ p) name

pub strip_out-append : (prefix name : Bytes) → strip_out prefix (prefix ++ name) ≡ name
unfolding strip_out
strip_out-append [] name = refl
strip_out-append (c ∷ p) name = trim_prefix-append (c ∷ p) name

-- Every name that is not empty goes upstream behind the prefix.
pub prefix_in-append : (prefix name : Bytes) → name ≢ [] → prefix_in prefix name ≡ prefix ++ name
unfolding prefix_in
prefix_in-append prefix [] ne = absurd (ne refl)
prefix_in-append [] (x ∷ name) ne = refl
prefix_in-append (c ∷ p) (x ∷ name) ne = refl
