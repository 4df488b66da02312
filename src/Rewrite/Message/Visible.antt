-- ===== src/Rewrite/Message/Visible.antt =====
-- What a tenant sees of the cluster: exactly its own names, and of an echo of its request the names
-- that it asked for.
use kroxy.Base.{
  Option-cases, ◌≡◌, ◌≢◌, ◌⊎◌, ◌↔◌, inl, inr, refl, sym, ap, ap₂, ◌∙◌, true, some, List, [], ◌∷◌,
  ◌++◌, map, Bytes, ℤ, All, arith, Bool-cases,
}
use kroxy.Rewrite.Compact.{keep}
use kroxy.Rewrite.Isolation.{
  belongs-append, strip_out-append, prefix_in-append, belongs_iff-strip_out,
}
use kroxy.Rewrite.Members.{MemberCodec, IsCodec}
use kroxy.Rewrite.Message.{Api, ResponseOf, rewrite_response}
use kroxy.Rewrite.Message.Gather.{shown}
use kroxy.Rewrite.Message.ResponseNames.{response_names, is_filtered, visible}
use kroxy.Rewrite.Message.Responses.{response_names-rewrite_response}
use kroxy.Rewrite.Names.{prefix_in, strip_out}
use kroxy.Rewrite.RoundTrip.{strip_out-prefix_in}

-- The name stands in the list.
abbrev pub Listed : Bytes → List Bytes → Type 0
Listed n [] = ⊥
Listed n (x ∷ xs) = (n ≡ x) ⊎ Listed n xs

module _ (prefix : Bytes) where
  -- A name of the cluster is shown as `n` exactly if it is the prefix followed by `n`.
  shown_iff : (m n : Bytes) → (shown prefix m ≡ some n) ↔ (prefix ++ n ≡ m)
  unfolding shown
  shown_iff m n = (
    λ e. ground (arith, (belongs_iff-strip_out prefix m).0),
    λ e. rw (← e) (rw (belongs-append, strip_out-append) refl),
  )

  Listed-keep :
      (n : Bytes) (ms : List Bytes) → Listed n (keep (shown prefix) ms) ↔ Listed (prefix ++ n) ms
  unfolding keep
  Listed-keep n [] = (λ h. h, λ h. h)
  Listed-keep n (m ∷ ms) = elim (Option-cases (shown prefix m)) [
    | inl hidden ↦
        rw (keep, hidden)
          (
            λ h. inr ((Listed-keep n ms).0 h),
            elim [ inl e ↦ cc (hidden, (shown_iff m n).1 e) | inr h ↦ (Listed-keep n ms).1 h ],
          )
    | inr (m', seen) ↦
        rw (keep, seen)
          (
            elim [
              | inl e ↦ inl ((shown_iff m n).0 (seen ∙ ap some (sym e)))
              | inr h ↦ inr ((Listed-keep n ms).0 h)
            ],
            elim [
              | inl e ↦ inl (cc (seen, (shown_iff m n).1 e))
              | inr h ↦ inr ((Listed-keep n ms).1 h)
            ],
          )
  ]

  strip-prefix_in : (ns : List Bytes) → map (strip_out prefix) (map (prefix_in prefix) ns) ≡ ns
  strip-prefix_in [] = refl
  strip-prefix_in (n ∷ ns) = ap₂ ◌∷◌ (strip_out-prefix_in prefix n) (strip-prefix_in ns)

  keep-prefix_in :
      (ns : List Bytes)
      → All (λ n. n ≢ []) ns
      → keep (shown prefix) (map (prefix_in prefix) ns) ≡ ns
  unfolding keep
  keep-prefix_in [] h = refl
  keep-prefix_in (n ∷ ns) h =
      rw (prefix_in-append prefix n h.0)
        (rw (keep, (shown_iff (prefix ++ n) n).1 refl) (ap (◌∷◌ n) (keep-prefix_in ns h.1)))

  visible-prefix_in :
      (a : Api) (ns : List Bytes)
      → All (λ n. n ≢ []) ns
      → visible a prefix (map (prefix_in prefix) ns) ≡ ns
  visible-prefix_in a ns h = elim (Bool-cases (is_filtered a)) [
    | inl e ↦ rw e (keep-prefix_in ns h)
    | inr e ↦ rw e (strip-prefix_in ns)
  ]

module _ {R : Type 0} (c : MemberCodec R) (law : IsCodec c) (prefix host : Bytes) (port : ℤ) where
  -- In the responses that are filtered (Metadata, ListGroups, DescribeConfigs), a tenant sees
  -- exactly its own names: `n` is listed to the client if and only if the prefix followed by `n` is
  -- in the cluster's response. Provided that kmsg reads back a struct that it has read
  -- and that got names that fit.
  pub rewrite_response-Listed :
      (a : Api) (resp : ResponseOf R a) (n : Bytes)
      → is_filtered a ≡ true
      → Listed n (response_names c a (rewrite_response c a prefix host port resp))
        ↔ Listed (prefix ++ n) (response_names c a resp)
  rewrite_response-Listed a resp n f =
      rw (response_names-rewrite_response c law prefix host port a resp, f)
        (Listed-keep prefix n (response_names c a resp))

  -- If the cluster answers for the names that the proxy sent upstream for the client's names `ns`,
  -- none of them empty, the client receives `ns`; for every API, provided that kmsg reads
  -- back a struct that it has read and that got names that fit.
  pub rewrite_response_echo :
      (a : Api) (resp : ResponseOf R a) (ns : List Bytes)
      → All (λ n. n ≢ []) ns
      → response_names c a resp ≡ map (prefix_in prefix) ns
      → response_names c a (rewrite_response c a prefix host port resp) ≡ ns
  rewrite_response_echo a resp ns h e =
      response_names-rewrite_response c law prefix host port a resp
      ∙ ap (visible a prefix) e
      ∙ visible-prefix_in prefix a ns h
