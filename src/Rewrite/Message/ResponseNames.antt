-- ===== src/Rewrite/Message/ResponseNames.antt =====
-- The names that a response carries, and those of them that a tenant should see.
use kroxy.Base.{
  List, [], ◌∷◌, ◌++◌, map, Bytes, Bool, true, false, if◌then◌else◌, is_empty, ◌||◌, str_eq,
}
use kroxy.Rewrite.Compact.{keep}
use kroxy.Rewrite.Kmsg.{MetadataTopic, Coordinator, GroupMessage}
use kroxy.Rewrite.Members.{
  MemberCodec, consumer_protocol_type, other_protocol, JoinGroupMember, DescribedMember,
  DescribedGroup,
}
use kroxy.Rewrite.Message.{Api, ResponseOf}
use kroxy.Rewrite.Message.Gather.{gather, named, shown}
use kroxy.Rewrite.Message.RequestNames.{
  topic_names, topic_ptr_names, group_topics_names, transaction_names, resource_names,
  subscription_names, assignment_names,
}
use kroxy.Rewrite.Names.{strip_out}

-- DescribeGroups leaves a blob alone if the group has a protocol type that is not "consumer".
abbrev pub is_described_consumer : Bytes → Bool
is_described_consumer p = is_empty p || str_eq p consumer_protocol_type

module _ {R : Type 0} where
  abbrev pub metadata_name : MetadataTopic R → List Bytes
  metadata_name t = named t.topic

  abbrev pub coordinator_name : Coordinator R → List Bytes
  coordinator_name k = k.key ∷ []

  abbrev pub group_name : GroupMessage R → List Bytes
  group_name g = g.group ∷ []

  module _ (c : MemberCodec R) where
    abbrev pub join_member_names : JoinGroupMember R → List Bytes
    join_member_names m = subscription_names c m.protocol_metadata

    abbrev pub described_member_names : DescribedMember R → List Bytes
    described_member_names m =
        subscription_names c m.protocol_metadata ++ assignment_names c m.member_assignment

    abbrev pub described_group_names : DescribedGroup R → List Bytes
    described_group_names g =
        g.group
        ∷ (if is_described_consumer g.protocol_type
            then gather described_member_names g.members
            else [])

    unfoldable pub response_names : (a : Api) → ResponseOf R a → List Bytes
    response_names Api.metadata resp = gather metadata_name resp.topics
    response_names Api.produce resp = topic_names resp.topics
    response_names Api.fetch resp = topic_names resp.topics
    response_names Api.list_offsets resp = topic_names resp.topics
    response_names Api.find_coordinator resp = gather coordinator_name resp.coordinators
    response_names Api.offset_commit resp = topic_names resp.topics
    response_names Api.offset_fetch resp = topic_names resp.topics ++ group_topics_names resp.groups
    response_names Api.offset_delete resp = topic_names resp.topics
    response_names Api.join_group resp =
        if other_protocol resp.protocol_type then [] else gather join_member_names resp.members
    response_names Api.sync_group resp =
        if other_protocol resp.protocol_type then [] else assignment_names c resp.member_assignment
    response_names Api.heartbeat resp = []
    response_names Api.leave_group resp = []
    response_names Api.describe_groups resp = gather described_group_names resp.groups
    response_names Api.list_groups resp = gather group_name resp.groups
    response_names Api.delete_groups resp = gather group_name resp.groups
    response_names Api.init_producer_id resp = []
    response_names Api.add_partitions_to_txn resp =
        topic_names resp.topics ++ transaction_names resp.transactions
    response_names Api.add_offsets_to_txn resp = []
    response_names Api.end_txn resp = []
    response_names Api.txn_offset_commit resp = topic_names resp.topics
    response_names Api.create_topics resp = topic_names resp.topics
    response_names Api.delete_topics resp = topic_ptr_names resp.topics
    response_names Api.describe_configs resp = resource_names resp.resources

-- The APIs whose responses are filtered, and what the tenant should see of a list of names.
abbrev pub is_filtered : Api → Bool
is_filtered Api.metadata = true
is_filtered Api.list_groups = true
is_filtered Api.describe_configs = true
is_filtered _ = false

abbrev pub visible : Api → Bytes → List Bytes → List Bytes
visible a prefix names =
    if is_filtered a then keep (shown prefix) names else map (strip_out prefix) names
