-- ===== src/Rewrite/Message/Fitting.antt =====
-- Names without the tenant's prefix fit into a member blob: they are no longer than before.
use kroxy.Base.{
  inl, inr, ap, Option, none, some, List, [], ◌∷◌, Bytes, All, length, length-append, ◌≤◌,
  Bool-cases, arith, has_prefix, trim_prefix-eq_self, append-trim_prefix, trim_prefix,
}
use kroxy.Rewrite.Members.{Subscription, Assignment, Fits, FitsSubscription, FitsAssignment}
use kroxy.Rewrite.Kmsg.{Topic}
use kroxy.Rewrite.Names.{strip_out}

trim_length : (n p : Bytes) → length (trim_prefix n p) ≤ length n
trim_length n p = elim (Bool-cases (has_prefix n p)) [
  | inl h ↦ omega (arith, length-append p (trim_prefix n p), ap length (append-trim_prefix n p h))
  | inr h ↦ rw (trim_prefix-eq_self n p h) (omega arith)
]

strip_out-Fits : (prefix n : Bytes) → Fits (strip_out prefix) n
unfolding strip_out
strip_out-Fits [] n = inl (omega arith)
strip_out-Fits (p ∷ ps) n = inl (trim_length n (p ∷ ps))

all_Fits : (prefix : Bytes) (ns : List Bytes) → All (Fits (strip_out prefix)) ns
all_Fits prefix [] = tt
all_Fits prefix (n ∷ ns) = (strip_out-Fits prefix n, all_Fits prefix ns)

module _ {R : Type 0} (prefix : Bytes) where
  topics_Fit : (ts : List (Topic R)) → All (λ t. Fits (strip_out prefix) t.topic) ts
  topics_Fit [] = tt
  topics_Fit (t ∷ ts) = (strip_out-Fits prefix t.topic, topics_Fit ts)

  pub strip_out-FitsSubscription :
      (m : Option (Subscription R)) → FitsSubscription (strip_out prefix) m
  strip_out-FitsSubscription none = tt
  strip_out-FitsSubscription (some m) = (all_Fits prefix m.topics, topics_Fit m.owned_partitions)

  pub strip_out-FitsAssignment : (a : Option (Assignment R)) → FitsAssignment (strip_out prefix) a
  strip_out-FitsAssignment none = tt
  strip_out-FitsAssignment (some a) = topics_Fit a.topics
