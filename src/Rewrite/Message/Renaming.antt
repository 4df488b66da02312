-- ===== src/Rewrite/Message/Renaming.antt =====
-- How renaming the entries of a message renames the names that they carry.
use kroxy.Base.{
  ◌≢◌, ◌≡◌, refl, ap, sym, ◌∙◌, some, List, [], ◌∷◌, ◌++◌, map, Bytes, inl, inr, Option-cases,
}
use kroxy.Rewrite.Kmsg.{Topic, GroupTopics, TransactionTopics, rename_topics, rename_topic}
use kroxy.Rewrite.Groups.{rename_group_topics, rename_groups}
use kroxy.Rewrite.Transactions.{rename_transaction, rename_transactions}
use kroxy.Rewrite.Members.{
  Subscription, Assignment, MemberCodec, IsCodec, rewrite_consumer_subscription,
  rewrite_consumer_assignment, rename_subscription, FitsSubscription, FitsAssignment,
}
use kroxy.Rewrite.Message.Gather.{gather-map}
use kroxy.Rewrite.Message.RequestNames.{
  topic_name, group_topics_name, transaction_name, subscribed, assigned, topic_names,
  group_topics_names, transaction_names, subscription_names, assignment_names,
}
use mathlib.Core.List.{map-append}
use mathlib.Core.Path.{subst}

module _ {R : Type 0} (f : Bytes → Bytes) where
  pub topic_names-rename :
      (ts : List (Topic R)) → topic_names (rename_topics f ts) ≡ map f (topic_names ts)
  topic_names-rename = gather-map topic_name f (rename_topic f) (λ t. refl)

  pub group_topics_names-rename :
      (gs : List (GroupTopics R))
      → group_topics_names (rename_groups f gs) ≡ map f (group_topics_names gs)
  group_topics_names-rename =
      gather-map group_topics_name f (rename_group_topics f)
        (λ g. ap (◌∷◌ (f g.group)) (topic_names-rename g.topics))

  pub transaction_names-rename :
      (txs : List (TransactionTopics R))
      → transaction_names (rename_transactions f txs) ≡ map f (transaction_names txs)
  transaction_names-rename =
      gather-map transaction_name f (rename_transaction f)
        (λ tx. ap (◌∷◌ (f tx.transactional_id)) (topic_names-rename tx.topics))

  subscribed-rename :
      (m : Subscription R)
      → subscribed (some (rename_subscription f m)) ≡ map f (subscribed (some m))
  subscribed-rename m =
      ap (◌++◌ (map f m.topics)) (topic_names-rename m.owned_partitions)
      ∙ sym (map-append f m.topics (topic_names m.owned_partitions))

  module _ (c : MemberCodec R) (law : IsCodec c) where
    subscription_names-read :
        (blob : Bytes) (m : Subscription R)
        → blob ≢ []
        → c.read_subscription blob ≡ some m
        → subscription_names c blob ≡ subscribed (some m)
    subscription_names-read [] m ne e = absurd (ne refl)
    subscription_names-read (b ∷ bs) m ne e = ap subscribed e

    assignment_names-read :
        (blob : Bytes) (a : Assignment R)
        → blob ≢ []
        → c.read_assignment blob ≡ some a
        → assignment_names c blob ≡ assigned (some a)
    assignment_names-read [] m ne e = absurd (ne refl)
    assignment_names-read (b ∷ bs) m ne e = ap assigned e

    pub subscription_names-rewrite :
        (blob : Bytes)
        → FitsSubscription f (c.read_subscription blob)
        → subscription_names c (rewrite_consumer_subscription c blob f)
          ≡ map f (subscription_names c blob)
    unfolding rewrite_consumer_subscription
    subscription_names-rewrite [] fit = refl
    subscription_names-rewrite (b ∷ bs) fit = elim (Option-cases (c.read_subscription (b ∷ bs))) [
      | inl bad ↦ simp bad
      | inr (m, good) ↦ simp good (
          subscription_names-read _ _ (law.subscription_ne_nil _)
            (law.read-append_subscription f _ m good (subst (FitsSubscription f) good fit))
          ∙ subscribed-rename m)
    ]

    pub assignment_names-rewrite :
        (blob : Bytes)
        → FitsAssignment f (c.read_assignment blob)
        → assignment_names c (rewrite_consumer_assignment c blob f)
          ≡ map f (assignment_names c blob)
    unfolding rewrite_consumer_assignment
    assignment_names-rewrite [] fit = refl
    assignment_names-rewrite (b ∷ bs) fit = elim (Option-cases (c.read_assignment (b ∷ bs))) [
      | inl bad ↦ simp bad
      | inr (a, good) ↦ simp good (
          assignment_names-read _ _ (law.assignment_ne_nil _)
            (law.read-append_assignment f _ a good (subst (FitsAssignment f) good fit))
          ∙ topic_names-rename a.topics)
    ]
