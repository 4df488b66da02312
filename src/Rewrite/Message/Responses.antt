-- ===== src/Rewrite/Message/Responses.antt =====
-- What `rewrite_response` does to the names of a response.
use kroxy.Base.{
  ◌≡◌, refl, ap, ap₂, sym, ◌∙◌, Option, none, some, List, [], ◌∷◌, ◌++◌, map, Bytes, ℤ, inl, inr,
  Bool-cases, is_empty, arith, str_eq, map_id,
}
use kroxy.Rewrite.Compact.{keep}
use kroxy.Rewrite.Kmsg.{Resource, MetadataTopic, GroupMessage, rename_topic_ptr}
use kroxy.Rewrite.Groups.{coordinator_out, listed_group_out, strip_group}
use kroxy.Rewrite.Metadata.{metadata_topic_out}
use kroxy.Rewrite.TopicsAdmin.{resource_out}
use kroxy.Rewrite.Members.{
  MemberCodec, IsCodec, consumer_protocol_type, other_protocol, JoinGroupResponse,
  SyncGroupResponse, DescribedMember, DescribedGroup, join_member_out, described_member_out,
  described_group_out, join_group_response_out, sync_group_response_out,
}
use kroxy.Rewrite.Message.{Api, ResponseOf, rewrite_response}
use kroxy.Rewrite.Message.Fitting.{strip_out-FitsSubscription, strip_out-FitsAssignment}
use kroxy.Rewrite.Message.Gather.{gather, named, gather-map, gather-compact, shown}
use kroxy.Rewrite.Message.RequestNames.{topic_ptr_name, resource_name_of}
use kroxy.Rewrite.Message.Renaming.{
  topic_names-rename, group_topics_names-rename, transaction_names-rename,
  subscription_names-rewrite, assignment_names-rewrite,
}
use kroxy.Rewrite.Names.{strip_out, strip_out_ptr}
use mathlib.Core.List.{map-append}
use kroxy.Rewrite.Message.ResponseNames.{
  metadata_name, coordinator_name, group_name, join_member_names, described_member_names,
  described_group_names, response_names, visible,
}

strip_nil : (n : Bytes) → strip_out [] n ≡ n
unfolding strip_out
strip_nil n = refl

map_both :
    (f : Bytes → Bytes) (xs ys : List Bytes) {xs' ys' : List Bytes}
    → xs' ≡ map f xs
    → ys' ≡ map f ys
    → xs' ++ ys' ≡ map f (xs ++ ys)
map_both f xs ys p q = ap₂ ◌++◌ p q ∙ sym (map-append f xs ys)

module _ (prefix : Bytes) where
  named-strip_out_ptr :
      (n : Option Bytes) → named (strip_out_ptr prefix n) ≡ map (strip_out prefix) (named n)
  unfolding strip_out_ptr strip_out
  named-strip_out_ptr none = refl
  named-strip_out_ptr (some n) = elim (Bool-cases (is_empty prefix)) [
    | inl e ↦ simp e
    | inr e ↦ simp e
  ]

  module _ {R : Type 0} where
    metadata_step :
        (t : MetadataTopic R)
        → gather metadata_name (keep (metadata_topic_out prefix) (t ∷ []))
          ≡ keep (shown prefix) (metadata_name t)
    unfolding metadata_topic_out keep shown strip_out_ptr strip_out
    metadata_step t = ground arith

    listed_group_step :
        (g : GroupMessage R)
        → gather group_name (keep (listed_group_out prefix) (g ∷ []))
          ≡ keep (shown prefix) (group_name g)
    unfolding listed_group_out keep shown
    listed_group_step g = ground arith

    resource_step :
        (r : Resource R)
        → gather resource_name_of (keep (resource_out prefix) (r ∷ []))
          ≡ keep (shown prefix) (resource_name_of r)
    unfolding resource_out keep shown
    resource_step r = ground arith

module _ {R : Type 0} (c : MemberCodec R) (law : IsCodec c) where
  described_member_step :
      (prefix : Bytes) (m : DescribedMember R)
      → described_member_names c (described_member_out c prefix m)
        ≡ map (strip_out prefix) (described_member_names c m)
  described_member_step prefix m =
      map_both (strip_out prefix) _ _
        (subscription_names-rewrite (strip_out prefix) c law m.protocol_metadata
          (strip_out-FitsSubscription prefix _))
        (assignment_names-rewrite (strip_out prefix) c law m.member_assignment
          (strip_out-FitsAssignment prefix _))

  described_group_step :
      (prefix : Bytes) (g : DescribedGroup R)
      → described_group_names c (described_group_out c prefix g)
        ≡ map (strip_out prefix) (described_group_names c g)
  unfolding described_group_out
  described_group_step [] g =
      ap (◌∷◌ (strip_out [] g.group)) (sym (map_id (strip_out []) strip_nil _))
  described_group_step (p ∷ ps) g =
      let prefix = p ∷ ps in
      let members =
        gather-map (described_member_names c) (strip_out prefix) (described_member_out c prefix)
          (described_member_step prefix) g.members in
      elim (Bool-cases (is_empty g.protocol_type)) [
        | inl e ↦ simp e (ap (◌∷◌ (strip_out prefix g.group)) members)
        | inr e ↦ elim (Bool-cases (str_eq g.protocol_type consumer_protocol_type)) [
          | inl k ↦ simp (e, k) (ap (◌∷◌ (strip_out prefix g.group)) members)
          | inr k ↦ simp (e, k)
        ]
      ]

  join_group_step :
      (prefix : Bytes) (resp : JoinGroupResponse R)
      → response_names c Api.join_group (join_group_response_out c prefix resp)
        ≡ map (strip_out prefix) (response_names c Api.join_group resp)
  unfolding join_group_response_out response_names
  join_group_step [] resp = sym (map_id (strip_out []) strip_nil _)
  join_group_step (p ∷ ps) resp = elim (Bool-cases (other_protocol resp.protocol_type)) [
    | inl k ↦ simp k
    | inr k ↦ simp k (
        gather-map (join_member_names c) (strip_out (p ∷ ps)) (join_member_out c (p ∷ ps))
          (λ m.
            subscription_names-rewrite (strip_out (p ∷ ps)) c law m.protocol_metadata
              (strip_out-FitsSubscription (p ∷ ps) _))
          resp.members)
  ]

  sync_group_step :
      (prefix : Bytes) (resp : SyncGroupResponse R)
      → response_names c Api.sync_group (sync_group_response_out c prefix resp)
        ≡ map (strip_out prefix) (response_names c Api.sync_group resp)
  unfolding sync_group_response_out response_names
  sync_group_step [] resp = sym (map_id (strip_out []) strip_nil _)
  sync_group_step (p ∷ ps) resp = elim (Bool-cases (other_protocol resp.protocol_type)) [
    | inl k ↦ simp k
    | inr k ↦ simp k (
        assignment_names-rewrite (strip_out (p ∷ ps)) c law resp.member_assignment
          (strip_out-FitsAssignment (p ∷ ps) _))
  ]

  module _ (prefix host : Bytes) (port : ℤ) where
    -- The names that a client receives are the cluster's names without the prefix, in their order;
    -- Metadata, ListGroups and DescribeConfigs leave out the names that are not the tenant's. For
    -- every API, provided that kmsg reads back a struct that it has read and that got names
    -- that fit; names without the prefix do.
    pub response_names-rewrite_response :
        (a : Api) (resp : ResponseOf R a)
        → response_names c a (rewrite_response c a prefix host port resp)
          ≡ visible a prefix (response_names c a resp)
    unfolding rewrite_response response_names
    response_names-rewrite_response Api.metadata resp =
        gather-compact metadata_name _ _ (metadata_step prefix) resp.topics
    response_names-rewrite_response Api.produce resp =
        topic_names-rename (strip_out prefix) resp.topics
    response_names-rewrite_response Api.fetch resp =
        topic_names-rename (strip_out prefix) resp.topics
    response_names-rewrite_response Api.list_offsets resp =
        topic_names-rename (strip_out prefix) resp.topics
    response_names-rewrite_response Api.find_coordinator resp =
        gather-map coordinator_name (strip_out prefix) (coordinator_out prefix host port)
          (λ k. refl) resp.coordinators
    response_names-rewrite_response Api.offset_commit resp =
        topic_names-rename (strip_out prefix) resp.topics
    response_names-rewrite_response Api.offset_fetch resp =
        map_both (strip_out prefix) _ _ (topic_names-rename (strip_out prefix) resp.topics)
          (group_topics_names-rename (strip_out prefix) resp.groups)
    response_names-rewrite_response Api.offset_delete resp =
        topic_names-rename (strip_out prefix) resp.topics
    response_names-rewrite_response Api.join_group resp = join_group_step prefix resp
    response_names-rewrite_response Api.sync_group resp = sync_group_step prefix resp
    response_names-rewrite_response Api.heartbeat resp = refl
    response_names-rewrite_response Api.leave_group resp = refl
    response_names-rewrite_response Api.describe_groups resp =
        gather-map (described_group_names c) (strip_out prefix) (described_group_out c prefix)
          (described_group_step prefix) resp.groups
    response_names-rewrite_response Api.list_groups resp =
        gather-compact group_name _ _ (listed_group_step prefix) resp.groups
    response_names-rewrite_response Api.delete_groups resp =
        gather-map group_name (strip_out prefix) (strip_group prefix) (λ g. refl) resp.groups
    response_names-rewrite_response Api.init_producer_id resp = refl
    response_names-rewrite_response Api.add_partitions_to_txn resp =
        map_both (strip_out prefix) _ _ (topic_names-rename (strip_out prefix) resp.topics)
          (transaction_names-rename (strip_out prefix) resp.transactions)
    response_names-rewrite_response Api.add_offsets_to_txn resp = refl
    response_names-rewrite_response Api.end_txn resp = refl
    response_names-rewrite_response Api.txn_offset_commit resp =
        topic_names-rename (strip_out prefix) resp.topics
    response_names-rewrite_response Api.create_topics resp =
        topic_names-rename (strip_out prefix) resp.topics
    response_names-rewrite_response Api.delete_topics resp =
        gather-map topic_ptr_name (strip_out prefix) (rename_topic_ptr (strip_out_ptr prefix))
          (λ t. named-strip_out_ptr prefix t.topic) resp.topics
    response_names-rewrite_response Api.describe_configs resp =
        gather-compact resource_name_of _ _ (resource_step prefix) resp.resources
