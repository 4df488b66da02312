-- ===== src/Rewrite/Message/Gather.antt =====
-- Collecting the names that a list of entries carries, and how that meets a map over the entries.
use kroxy.Base.{
  sym, ◌≡◌, refl, ap, ap₂, ◌∙◌, Option, none, some, List, [], ◌∷◌, ◌++◌, map, Bytes, append_assoc,
  if◌then◌else◌, inl, inr, Option-cases,
}
use kroxy.Rewrite.Compact.{compact, keep, compact-keep}
use kroxy.Rewrite.Names.{belongs_to_tenant, strip_out}
use mathlib.Core.List.{map-append}

abbrev pub gather {ℓ} : {A : Type ℓ} → (A → List Bytes) → List A → List Bytes
gather names [] = []
gather names (x ∷ xs) = names x ++ gather names xs

-- The names of an optional name.
abbrev pub named : Option Bytes → List Bytes
named none = []
named (some n) = n ∷ []

pub gather-map {ℓ} :
    {A : Type ℓ} (names : A → List Bytes) (f : Bytes → Bytes) (rename : A → A)
    → ((x : A) → names (rename x) ≡ map f (names x))
    → (xs : List A) → gather names (map rename xs) ≡ map f (gather names xs)
gather-map names f rename h [] = refl
gather-map names f rename h (x ∷ xs) =
    ap₂ ◌++◌ (h x) (gather-map names f rename h xs) ∙ sym (map-append f (names x) (gather names xs))

-- What a tenant is shown of a name of the cluster: its own name without the prefix, or nothing.
unfoldable pub shown : Bytes → Bytes → Option Bytes
shown prefix name = if belongs_to_tenant prefix name then some (strip_out prefix name) else none

keep-append {ℓ} :
    {A : Type ℓ} (f : A → Option A) (xs ys : List A) → keep f (xs ++ ys) ≡ keep f xs ++ keep f ys
unfolding keep
keep-append f [] ys = refl
keep-append f (x ∷ xs) ys = elim (Option-cases (f x)) [
  | inl skip ↦ rw (keep, skip) (keep-append f xs ys)
  | inr (x', kept) ↦ rw (keep, kept) (ap (◌∷◌ x') (keep-append f xs ys))
]

gather-append {ℓ} :
    {A : Type ℓ} (names : A → List Bytes) (xs ys : List A)
    → gather names (xs ++ ys) ≡ gather names xs ++ gather names ys
gather-append names [] ys = refl
gather-append names (x ∷ xs) ys =
    ap (◌++◌ (names x)) (gather-append names xs ys)
    ∙ sym (append_assoc (names x) (gather names xs) (gather names ys))

module _ {ℓ} {A : Type ℓ} (names : A → List Bytes) (f : Bytes → Option Bytes) (step : A → Option A)
    (h : (x : A) → gather names (keep step (x ∷ [])) ≡ keep f (names x)) where
  gather-keep : (xs : List A) → gather names (keep step xs) ≡ keep f (gather names xs)
  gather-keep [] = unfold keep in refl
  gather-keep (x ∷ xs) =
      ap (gather names) (keep-append step (x ∷ []) xs)
      ∙ gather-append names (keep step (x ∷ [])) (keep step xs)
      ∙ ap₂ ◌++◌ (h x) (gather-keep xs)
      ∙ sym (keep-append f (names x) (gather names xs))

  -- A filter of entries that filters the names of each entry filters the names of all.
  pub gather-compact : (xs : List A) → gather names (compact step xs) ≡ keep f (gather names xs)
  gather-compact xs = rw compact-keep (gather-keep xs)
