-- ===== src/Rewrite/Message/RequestNames.antt =====
-- The names that a request carries: those that rewrite_request prefixes, and those that it leaves.
use kroxy.Base.{Option, none, some, List, [], ◌∷◌, ◌++◌, Bytes, if◌then◌else◌, is_empty, str_eq}
use kroxy.Rewrite.Kmsg.{
  Topic, TopicPtr, GroupTopics, TransactionTopics, Resource, FindCoordinatorRequest,
}
use kroxy.Rewrite.Groups.{is_group_or_transaction}
use kroxy.Rewrite.TopicsAdmin.{is_topic_or_group}
use kroxy.Rewrite.Members.{
  MemberCodec, Subscription, Assignment, Protocol, GroupAssignment, consumer_protocol_type,
  other_protocol,
}
use kroxy.Rewrite.Message.{Api, RequestOf}
use kroxy.Rewrite.Message.Gather.{gather, named}

module _ {R : Type 0} where
  abbrev pub topic_name : Topic R → List Bytes
  topic_name t = t.topic ∷ []

  abbrev pub topic_names : List (Topic R) → List Bytes
  topic_names = gather topic_name

  abbrev pub topic_ptr_name : TopicPtr R → List Bytes
  topic_ptr_name t = named t.topic

  abbrev pub topic_ptr_names : List (TopicPtr R) → List Bytes
  topic_ptr_names = gather topic_ptr_name

  abbrev pub group_topics_name : GroupTopics R → List Bytes
  group_topics_name g = g.group ∷ topic_names g.topics

  abbrev pub group_topics_names : List (GroupTopics R) → List Bytes
  group_topics_names = gather group_topics_name

  abbrev pub transaction_name : TransactionTopics R → List Bytes
  transaction_name tx = tx.transactional_id ∷ topic_names tx.topics

  abbrev pub transaction_names : List (TransactionTopics R) → List Bytes
  transaction_names = gather transaction_name

  -- Only topic and group resources have names of the tenant's.
  abbrev pub resource_name_of : Resource R → List Bytes
  resource_name_of r = if is_topic_or_group r.resource_type then r.resource_name ∷ [] else []

  abbrev pub resource_names : List (Resource R) → List Bytes
  resource_names = gather resource_name_of

  -- The topics in a decoded blob, and none where it did not decode.
  abbrev pub subscribed : Option (Subscription R) → List Bytes
  subscribed none = []
  subscribed (some m) = m.topics ++ topic_names m.owned_partitions

  abbrev pub assigned : Option (Assignment R) → List Bytes
  assigned none = []
  assigned (some a) = topic_names a.topics

  module _ (c : MemberCodec R) where
    -- The program does not look into an empty blob.
    abbrev pub subscription_names : Bytes → List Bytes
    subscription_names blob = if is_empty blob then [] else subscribed (c.read_subscription blob)

    abbrev pub assignment_names : Bytes → List Bytes
    assignment_names blob = if is_empty blob then [] else assigned (c.read_assignment blob)

    abbrev pub protocol_names : Protocol R → List Bytes
    protocol_names p = subscription_names p.metadata

    abbrev pub group_assignment_names : GroupAssignment R → List Bytes
    group_assignment_names g = assignment_names g.member_assignment

    -- The topics in the member blobs of a request, which are rewritten for consumer groups only.
    unfoldable pub member_names : (a : Api) → RequestOf R a → List Bytes
    member_names Api.join_group req =
        if str_eq req.protocol_type consumer_protocol_type
        then gather protocol_names req.protocols
        else []
    member_names Api.sync_group req =
        if other_protocol req.protocol_type
        then []
        else gather group_assignment_names req.group_assignment
    member_names _ req = []

  -- The keys of coordinators of other types, and the names of other resources.
  abbrev other_keys : FindCoordinatorRequest R → List Bytes
  other_keys req =
      if is_group_or_transaction req.coordinator_type
      then []
      else req.coordinator_key ∷ req.coordinator_keys

  abbrev pub other_resource : Resource R → List Bytes
  other_resource r = if is_topic_or_group r.resource_type then [] else r.resource_name ∷ []

module _ (R : Type 0) where
  -- The names that the program reads as the tenant's, but for those in member blobs.
  unfoldable pub request_names : (a : Api) → RequestOf R a → List Bytes
  request_names Api.metadata req = topic_ptr_names req.topics
  request_names Api.produce req = topic_names req.topics
  request_names Api.fetch req = topic_names req.topics
  request_names Api.list_offsets req = topic_names req.topics
  request_names Api.find_coordinator req =
      if is_group_or_transaction req.coordinator_type
      then req.coordinator_key ∷ req.coordinator_keys
      else []
  request_names Api.offset_commit req = req.group ∷ topic_names req.topics
  request_names Api.offset_fetch req =
      req.group ∷ (topic_names req.topics ++ group_topics_names req.groups)
  request_names Api.offset_delete req = req.group ∷ topic_names req.topics
  request_names Api.join_group req = req.group ∷ []
  request_names Api.sync_group req = req.group ∷ []
  request_names Api.heartbeat req = req.group ∷ []
  request_names Api.leave_group req = req.group ∷ []
  request_names Api.describe_groups req = req.groups
  request_names Api.list_groups req = []
  request_names Api.delete_groups req = req.groups
  request_names Api.init_producer_id req = named req.transactional_id
  request_names Api.add_partitions_to_txn req =
      req.transactional_id ∷ (topic_names req.topics ++ transaction_names req.transactions)
  request_names Api.add_offsets_to_txn req = req.transactional_id ∷ req.group ∷ []
  request_names Api.end_txn req = req.transactional_id ∷ []
  request_names Api.txn_offset_commit req =
      req.transactional_id ∷ req.group ∷ topic_names req.topics
  request_names Api.create_topics req = topic_names req.topics
  request_names Api.delete_topics req = req.topic_names ++ topic_ptr_names req.topics
  request_names Api.describe_configs req = resource_names req.resources

  -- The names of a request that the program does not rewrite: the transactional id of a Produce,
  -- the forgotten topics of a Fetch, and the names of what is neither topic, group nor transaction.
  unfoldable pub left_names : (a : Api) → RequestOf R a → List Bytes
  left_names Api.produce req = named req.transactional_id
  left_names Api.fetch req = topic_names req.forgotten_topics
  left_names Api.find_coordinator req = other_keys req
  left_names Api.describe_configs req = gather other_resource req.resources
  left_names _ req = []
