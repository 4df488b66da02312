-- ===== src/Rewrite/Message/Requests.antt =====
-- What `rewrite_request` does to the names of a request.
use kroxy.Base.{
  ◌≡◌, refl, ap, ap₂, sym, ◌∙◌, Option, none, some, List, [], ◌∷◌, ◌++◌, map, Bytes, inl, inr,
  Bool-cases, is_empty, not, ◌||◌, str_eq, All,
}
use kroxy.Rewrite.Isolation.{Scoped, prefix_in-Scoped}
use kroxy.Rewrite.Kmsg.{
  TopicPtr, Resource, FindCoordinatorRequest, rename_topic_ptrs, rename_topic_ptr,
}
use kroxy.Rewrite.Groups.{is_group_or_transaction, find_coordinator_request_in}
use kroxy.Rewrite.TopicsAdmin.{is_topic_or_group, resource_in}
use kroxy.Rewrite.Members.{
  MemberCodec, consumer_protocol_type, other_protocol, JoinGroupRequest, SyncGroupRequest,
  join_group_request_in, sync_group_request_in,
}
use kroxy.Rewrite.Message.{Api, RequestOf, rewrite_request}
use kroxy.Rewrite.Message.Gather.{gather, named, gather-map}
use kroxy.Rewrite.Message.Renaming.{
  topic_names-rename, group_topics_names-rename, transaction_names-rename,
}
use kroxy.Rewrite.Message.RequestNames.{
  topic_ptr_name, resource_name_of, topic_ptr_names, request_names, left_names, other_resource,
}
use kroxy.Rewrite.Names.{prefix_in, prefix_in_ptr}
use mathlib.Core.List.{map-append}

named-prefix_in_ptr :
    (prefix : Bytes) (n : Option Bytes)
    → named (prefix_in_ptr prefix n) ≡ map (prefix_in prefix) (named n)
unfolding prefix_in_ptr prefix_in
named-prefix_in_ptr prefix none = refl
named-prefix_in_ptr [] (some []) = refl
named-prefix_in_ptr [] (some (x ∷ n)) = refl
named-prefix_in_ptr (p ∷ ps) (some []) = refl
named-prefix_in_ptr (p ∷ ps) (some (x ∷ n)) = refl

map_both :
    (f : Bytes → Bytes) (xs ys : List Bytes) {xs' ys' : List Bytes}
    → xs' ≡ map f xs
    → ys' ≡ map f ys
    → xs' ++ ys' ≡ map f (xs ++ ys)
map_both f xs ys p q = ap₂ ◌++◌ p q ∙ sym (map-append f xs ys)

map-Scoped : (prefix : Bytes) (ns : List Bytes) → All (Scoped prefix) (map (prefix_in prefix) ns)
map-Scoped prefix [] = tt
map-Scoped prefix (n ∷ ns) = (prefix_in-Scoped prefix n, map-Scoped prefix ns)

prefix_in_nil : (name : Bytes) → prefix_in [] name ≡ name
unfolding prefix_in
prefix_in_nil name = refl

module _ {R : Type 0} (prefix : Bytes) where
  topic_ptr_names-prefix :
      (ts : List (TopicPtr R))
      → topic_ptr_names (rename_topic_ptrs (prefix_in_ptr prefix) ts)
        ≡ map (prefix_in prefix) (topic_ptr_names ts)
  topic_ptr_names-prefix =
      gather-map topic_ptr_name _ (rename_topic_ptr (prefix_in_ptr prefix))
        (λ t. named-prefix_in_ptr prefix t.topic)

  resource_name_of-prefix :
      (r : Resource R)
      → resource_name_of (resource_in prefix r) ≡ map (prefix_in prefix) (resource_name_of r)
  unfolding resource_in
  resource_name_of-prefix r = elim (Bool-cases (is_topic_or_group r.resource_type)) [
    | inl e ↦ simp e
    | inr e ↦ simp e
  ]

  find_coordinator_names :
      (req : FindCoordinatorRequest R)
      → request_names R Api.find_coordinator (find_coordinator_request_in prefix req)
        ≡ map (prefix_in prefix) (request_names R Api.find_coordinator req)
  unfolding find_coordinator_request_in request_names
  find_coordinator_names req = elim (Bool-cases (is_group_or_transaction req.coordinator_type)) [
    | inl e ↦ simp e
    | inr e ↦ simp e
  ]

  find_coordinator_left :
      (req : FindCoordinatorRequest R)
      → left_names R Api.find_coordinator (find_coordinator_request_in prefix req)
        ≡ left_names R Api.find_coordinator req
  unfolding find_coordinator_request_in left_names
  find_coordinator_left req = elim (Bool-cases (is_group_or_transaction req.coordinator_type)) [
    | inl e ↦ simp e
    | inr e ↦ simp e
  ]

  other_resource-in : (r : Resource R) → other_resource (resource_in prefix r) ≡ other_resource r
  unfolding resource_in
  other_resource-in r = elim (Bool-cases (is_topic_or_group r.resource_type)) [
    | inl e ↦ simp e
    | inr e ↦ simp e
  ]

  other_resources-in :
      (rs : List (Resource R))
      → gather other_resource (map (resource_in prefix) rs) ≡ gather other_resource rs
  other_resources-in [] = refl
  other_resources-in (r ∷ rs) = ap₂ ◌++◌ (other_resource-in r) (other_resources-in rs)

module _ {R : Type 0} (c : MemberCodec R) (prefix : Bytes) where
  join_group_names :
      (req : JoinGroupRequest R)
      → (join_group_request_in c prefix req).group ∷ [] ≡ prefix_in prefix req.group ∷ []
  unfolding join_group_request_in
  join_group_names req =
      elim (Bool-cases (is_empty prefix || not (str_eq req.protocol_type consumer_protocol_type))) [
        | inl e ↦ simp e
        | inr e ↦ simp e
      ]

  sync_group_names :
      (req : SyncGroupRequest R)
      → (sync_group_request_in c prefix req).group ∷ [] ≡ prefix_in prefix req.group ∷ []
  unfolding sync_group_request_in
  sync_group_names req = elim (Bool-cases (is_empty prefix || other_protocol req.protocol_type)) [
    | inl e ↦ simp e
    | inr e ↦ simp e
  ]

  names-prefix :
      (a : Api) (req : RequestOf R a)
      → request_names R a (rewrite_request c a prefix req)
        ≡ map (prefix_in prefix) (request_names R a req)
  unfolding rewrite_request request_names join_group_request_in sync_group_request_in
  names-prefix Api.metadata req = topic_ptr_names-prefix prefix req.topics
  names-prefix Api.produce req = topic_names-rename (prefix_in prefix) req.topics
  names-prefix Api.fetch req = topic_names-rename (prefix_in prefix) req.topics
  names-prefix Api.list_offsets req = topic_names-rename (prefix_in prefix) req.topics
  names-prefix Api.find_coordinator req = find_coordinator_names prefix req
  names-prefix Api.offset_commit req =
      ap (◌∷◌ (prefix_in prefix req.group)) (topic_names-rename (prefix_in prefix) req.topics)
  names-prefix Api.offset_fetch req = ap (◌∷◌ (prefix_in prefix req.group)) (
      map_both (prefix_in prefix) _ _ (topic_names-rename (prefix_in prefix) req.topics)
        (group_topics_names-rename (prefix_in prefix) req.groups))
  names-prefix Api.offset_delete req =
      ap (◌∷◌ (prefix_in prefix req.group)) (topic_names-rename (prefix_in prefix) req.topics)
  names-prefix Api.join_group req = join_group_names req
  names-prefix Api.sync_group req = sync_group_names req
  names-prefix Api.heartbeat req = refl
  names-prefix Api.leave_group req = refl
  names-prefix Api.describe_groups req = refl
  names-prefix Api.list_groups req = refl
  names-prefix Api.delete_groups req = refl
  names-prefix Api.init_producer_id req = named-prefix_in_ptr prefix req.transactional_id
  names-prefix Api.add_partitions_to_txn req = ap (◌∷◌ (prefix_in prefix req.transactional_id)) (
      map_both (prefix_in prefix) _ _ (topic_names-rename (prefix_in prefix) req.topics)
        (transaction_names-rename (prefix_in prefix) req.transactions))
  names-prefix Api.add_offsets_to_txn req = refl
  names-prefix Api.end_txn req = refl
  names-prefix Api.txn_offset_commit req =
      ap (λ l. prefix_in prefix req.transactional_id ∷ prefix_in prefix req.group ∷ l)
        (topic_names-rename (prefix_in prefix) req.topics)
  names-prefix Api.create_topics req = topic_names-rename (prefix_in prefix) req.topics
  names-prefix Api.delete_topics req =
      map_both (prefix_in prefix) _ _ refl (topic_ptr_names-prefix prefix req.topics)
  names-prefix Api.describe_configs req =
      gather-map resource_name_of (prefix_in prefix) (resource_in prefix)
        (resource_name_of-prefix prefix) req.resources

  left :
      (a : Api) (req : RequestOf R a)
      → left_names R a (rewrite_request c a prefix req) ≡ left_names R a req
  unfolding rewrite_request left_names
  left Api.produce req = refl
  left Api.fetch req = refl
  left Api.find_coordinator req = find_coordinator_left prefix req
  left Api.describe_configs req = other_resources-in prefix req.resources
  left _ req = refl

  -- For every API: the names that a request carries upstream are the client's names, each with the
  -- tenant's prefix, in their order; but those of left_names, the transactional id of a Produce and
  -- the forgotten topics of a Fetch among them, are upstream the client's own, without a prefix.
  -- Names in the member blobs of JoinGroup and SyncGroup do not count as names here.
  pub request_names-rewrite_request :
      (a : Api) (req : RequestOf R a)
      → (request_names R a (rewrite_request c a prefix req)
          ≡ map (prefix_in prefix) (request_names R a req))
        × (left_names R a (rewrite_request c a prefix req) ≡ left_names R a req)
  request_names-rewrite_request a req = (names-prefix a req, left a req)

  -- Isolation: every name that a rewritten request carries upstream is empty or belongs to the
  -- tenant, for every API, but for the names that are left and those in member blobs.
  pub rewrite_request-Scoped :
      (a : Api) (req : RequestOf R a)
      → All (Scoped prefix) (request_names R a (rewrite_request c a prefix req))
  rewrite_request-Scoped a req = rw (names-prefix a req) (map-Scoped prefix (request_names R a req))
