-- ===== src/Rewrite/Message.antt =====
-- The APIs with a rewrite handler in proxy/conn.go (rewriteHandler), the messages of each, and the
-- call of package rewrite that its handler makes on the request and on the response.
pub mod Fitting
pub mod Gather
pub mod MemberNames
pub mod RequestNames
pub mod Renaming
pub mod Requests
pub mod ResponseNames
pub mod Responses
pub mod Visible
use kroxy.Base.{Bytes, ℤ}
use kroxy.Rewrite.Kmsg.{
  TopicsMessage, ProduceRequest, FetchRequest, MetadataRequest, MetadataResponse,
  DeleteTopicsRequest, DeleteTopicsResponse, ResourcesMessage, FindCoordinatorRequest,
  FindCoordinatorResponse, GroupTopicsRequest, OffsetFetchRequest, OffsetFetchResponse,
  GroupMessage, GroupNames, GroupsMessage, InitProducerIdRequest, AddPartitionsToTxnRequest,
  AddPartitionsToTxnResponse, AddOffsetsToTxnRequest, EndTxnRequest, TxnOffsetCommitRequest,
}
use kroxy.Rewrite.ProduceFetch.{
  produce_request_in, produce_response_out, fetch_request_in, fetch_response_out,
  list_offsets_request_in, list_offsets_response_out,
}
use kroxy.Rewrite.Metadata.{metadata_request_in, metadata_response_out}
use kroxy.Rewrite.TopicsAdmin.{
  create_topics_request_in, create_topics_response_out, delete_topics_request_in,
  delete_topics_response_out, describe_configs_request_in, describe_configs_response_out,
}
use kroxy.Rewrite.Groups.{
  find_coordinator_request_in, find_coordinator_response_out, offset_commit_request_in,
  offset_commit_response_out, offset_fetch_request_in, offset_fetch_response_out,
  offset_delete_request_in, offset_delete_response_out, heartbeat_request_in,
  leave_group_request_in, describe_groups_request_in, list_groups_response_out,
  delete_groups_request_in, delete_groups_response_out,
}
use kroxy.Rewrite.Members.{
  MemberCodec, JoinGroupRequest, JoinGroupResponse, SyncGroupRequest, SyncGroupResponse,
  DescribeGroupsResponse, join_group_request_in, join_group_response_out, sync_group_request_in,
  sync_group_response_out, describe_groups_response_out,
}
use kroxy.Rewrite.Transactions.{
  init_producer_id_request_in, add_partitions_to_txn_request_in, add_partitions_to_txn_response_out,
  add_offsets_to_txn_request_in, end_txn_request_in, txn_offset_commit_request_in,
  txn_offset_commit_response_out,
}

pub data Api : Type 0 where
  metadata produce fetch list_offsets find_coordinator offset_commit offset_fetch : Api
  offset_delete join_group sync_group heartbeat leave_group describe_groups : Api
  list_groups delete_groups init_producer_id add_partitions_to_txn : Api
  add_offsets_to_txn end_txn txn_offset_commit create_topics delete_topics : Api
  describe_configs : Api

-- A message with no name in it is just its other fields.
abbrev pub RequestOf : Type 0 → Api → Type 0
RequestOf R metadata = MetadataRequest R
RequestOf R produce = ProduceRequest R
RequestOf R fetch = FetchRequest R
RequestOf R list_offsets = TopicsMessage R
RequestOf R find_coordinator = FindCoordinatorRequest R
RequestOf R offset_commit = GroupTopicsRequest R
RequestOf R offset_fetch = OffsetFetchRequest R
RequestOf R offset_delete = GroupTopicsRequest R
RequestOf R join_group = JoinGroupRequest R
RequestOf R sync_group = SyncGroupRequest R
RequestOf R heartbeat = GroupMessage R
RequestOf R leave_group = GroupMessage R
RequestOf R describe_groups = GroupNames R
RequestOf R list_groups = R
RequestOf R delete_groups = GroupNames R
RequestOf R init_producer_id = InitProducerIdRequest R
RequestOf R add_partitions_to_txn = AddPartitionsToTxnRequest R
RequestOf R add_offsets_to_txn = AddOffsetsToTxnRequest R
RequestOf R end_txn = EndTxnRequest R
RequestOf R txn_offset_commit = TxnOffsetCommitRequest R
RequestOf R create_topics = TopicsMessage R
RequestOf R delete_topics = DeleteTopicsRequest R
RequestOf R describe_configs = ResourcesMessage R

abbrev pub ResponseOf : Type 0 → Api → Type 0
ResponseOf R metadata = MetadataResponse R
ResponseOf R produce = TopicsMessage R
ResponseOf R fetch = TopicsMessage R
ResponseOf R list_offsets = TopicsMessage R
ResponseOf R find_coordinator = FindCoordinatorResponse R
ResponseOf R offset_commit = TopicsMessage R
ResponseOf R offset_fetch = OffsetFetchResponse R
ResponseOf R offset_delete = TopicsMessage R
ResponseOf R join_group = JoinGroupResponse R
ResponseOf R sync_group = SyncGroupResponse R
ResponseOf R heartbeat = R
ResponseOf R leave_group = R
ResponseOf R describe_groups = DescribeGroupsResponse R
ResponseOf R list_groups = GroupsMessage R
ResponseOf R delete_groups = GroupsMessage R
ResponseOf R init_producer_id = R
ResponseOf R add_partitions_to_txn = AddPartitionsToTxnResponse R
ResponseOf R add_offsets_to_txn = R
ResponseOf R end_txn = R
ResponseOf R txn_offset_commit = TopicsMessage R
ResponseOf R create_topics = TopicsMessage R
ResponseOf R delete_topics = DeleteTopicsResponse R
ResponseOf R describe_configs = ResourcesMessage R

module _ {R : Type 0} (c : MemberCodec R) where
  -- What of a request goes upstream as it came, names among it, is in left_names of RequestNames.
  unfoldable pub rewrite_request : (a : Api) → Bytes → RequestOf R a → RequestOf R a
  unfolding metadata_request_in produce_request_in fetch_request_in list_offsets_request_in
      find_coordinator_request_in offset_commit_request_in offset_fetch_request_in
      offset_delete_request_in join_group_request_in sync_group_request_in heartbeat_request_in
      leave_group_request_in describe_groups_request_in delete_groups_request_in
      init_producer_id_request_in add_partitions_to_txn_request_in add_offsets_to_txn_request_in
      end_txn_request_in txn_offset_commit_request_in create_topics_request_in
      delete_topics_request_in describe_configs_request_in
  rewrite_request metadata prefix req = metadata_request_in prefix req
  rewrite_request produce prefix req = produce_request_in prefix req
  rewrite_request fetch prefix req = fetch_request_in prefix req
  rewrite_request list_offsets prefix req = list_offsets_request_in prefix req
  rewrite_request find_coordinator prefix req = find_coordinator_request_in prefix req
  rewrite_request offset_commit prefix req = offset_commit_request_in prefix req
  rewrite_request offset_fetch prefix req = offset_fetch_request_in prefix req
  rewrite_request offset_delete prefix req = offset_delete_request_in prefix req
  rewrite_request join_group prefix req = join_group_request_in c prefix req
  rewrite_request sync_group prefix req = sync_group_request_in c prefix req
  rewrite_request heartbeat prefix req = heartbeat_request_in prefix req
  rewrite_request leave_group prefix req = leave_group_request_in prefix req
  rewrite_request describe_groups prefix req = describe_groups_request_in prefix req
  rewrite_request list_groups prefix req = req
  rewrite_request delete_groups prefix req = delete_groups_request_in prefix req
  rewrite_request init_producer_id prefix req = init_producer_id_request_in prefix req
  rewrite_request add_partitions_to_txn prefix req = add_partitions_to_txn_request_in prefix req
  rewrite_request add_offsets_to_txn prefix req = add_offsets_to_txn_request_in prefix req
  rewrite_request end_txn prefix req = end_txn_request_in prefix req
  rewrite_request txn_offset_commit prefix req = txn_offset_commit_request_in prefix req
  rewrite_request create_topics prefix req = create_topics_request_in prefix req
  rewrite_request delete_topics prefix req = delete_topics_request_in prefix req
  rewrite_request describe_configs prefix req = describe_configs_request_in prefix req

  -- The host and the port are the proxy's advertised address.
  unfoldable pub rewrite_response : (a : Api) → Bytes → Bytes → ℤ → ResponseOf R a → ResponseOf R a
  unfolding metadata_response_out produce_response_out fetch_response_out list_offsets_response_out
      find_coordinator_response_out offset_commit_response_out offset_fetch_response_out
      offset_delete_response_out join_group_response_out sync_group_response_out
      describe_groups_response_out list_groups_response_out delete_groups_response_out
      add_partitions_to_txn_response_out txn_offset_commit_response_out create_topics_response_out
      delete_topics_response_out describe_configs_response_out
  rewrite_response metadata prefix host port resp = metadata_response_out prefix host port resp
  rewrite_response produce prefix host port resp = produce_response_out prefix resp
  rewrite_response fetch prefix host port resp = fetch_response_out prefix resp
  rewrite_response list_offsets prefix host port resp = list_offsets_response_out prefix resp
  rewrite_response find_coordinator prefix host port resp =
      find_coordinator_response_out prefix host port resp
  rewrite_response offset_commit prefix host port resp = offset_commit_response_out prefix resp
  rewrite_response offset_fetch prefix host port resp = offset_fetch_response_out prefix resp
  rewrite_response offset_delete prefix host port resp = offset_delete_response_out prefix resp
  rewrite_response join_group prefix host port resp = join_group_response_out c prefix resp
  rewrite_response sync_group prefix host port resp = sync_group_response_out c prefix resp
  rewrite_response heartbeat prefix host port resp = resp
  rewrite_response leave_group prefix host port resp = resp
  rewrite_response describe_groups prefix host port resp =
      describe_groups_response_out c prefix resp
  rewrite_response list_groups prefix host port resp = list_groups_response_out prefix resp
  rewrite_response delete_groups prefix host port resp = delete_groups_response_out prefix resp
  rewrite_response init_producer_id prefix host port resp = resp
  rewrite_response add_partitions_to_txn prefix host port resp =
      add_partitions_to_txn_response_out prefix resp
  rewrite_response add_offsets_to_txn prefix host port resp = resp
  rewrite_response end_txn prefix host port resp = resp
  rewrite_response txn_offset_commit prefix host port resp =
      txn_offset_commit_response_out prefix resp
  rewrite_response create_topics prefix host port resp = create_topics_response_out prefix resp
  rewrite_response delete_topics prefix host port resp = delete_topics_response_out prefix resp
  rewrite_response describe_configs prefix host port resp =
      describe_configs_response_out prefix resp
