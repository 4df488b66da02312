-- ===== src/Rewrite/Kmsg.antt =====
-- The message structs of franz-go's package kmsg, as far as package rewrite reads or writes them.
-- A struct's other fields stay together in `rest`, of a type `R` that is left open: the program
-- neither reads nor writes them.
use kroxy.Base.{Option, List, Bytes, ℤ, map}

pub record Topic (R : Type 0) : Type 0 where
  pub topic : Bytes
  pub rest : R

pub record TopicPtr (R : Type 0) : Type 0 where
  pub topic : Option Bytes
  pub rest : R

-- An entry that names a group and topics of it, and one that names a transaction and topics.
pub record GroupTopics (R : Type 0) : Type 0 where
  pub group : Bytes
  pub topics : List (Topic R)
  pub rest : R

pub record TransactionTopics (R : Type 0) : Type 0 where
  pub transactional_id : Bytes
  pub topics : List (Topic R)
  pub rest : R

-- A message whose only names are those of a list of topics.
pub record TopicsMessage (R : Type 0) : Type 0 where
  pub topics : List (Topic R)
  pub rest : R

-- The transactional id is on the wire from version 3 on.
pub record ProduceRequest (R : Type 0) : Type 0 where
  pub transactional_id : Option Bytes
  pub acks : ℤ
  pub topics : List (Topic R)
  pub rest : R

-- The forgotten topics are on the wire from version 7 on.
pub record FetchRequest (R : Type 0) : Type 0 where
  pub topics : List (Topic R)
  pub forgotten_topics : List (Topic R)
  pub rest : R

pub record MetadataRequest (R : Type 0) : Type 0 where
  pub topics : List (TopicPtr R)
  pub rest : R

pub record Broker : Type 0 where
  pub node_id : ℤ
  pub host : Bytes
  pub port : ℤ
  pub rack : Option Bytes

pub record Partition (R : Type 0) : Type 0 where
  pub leader : ℤ
  pub replicas : List ℤ
  pub isr : List ℤ
  pub offline_replicas : List ℤ
  pub rest : R

pub record MetadataTopic (R : Type 0) : Type 0 where
  pub topic : Option Bytes
  pub partitions : List (Partition R)
  pub rest : R

pub record MetadataResponse (R : Type 0) : Type 0 where
  pub brokers : List Broker
  pub controller_id : ℤ
  pub topics : List (MetadataTopic R)
  pub rest : R

pub record DeleteTopicsRequest (R : Type 0) : Type 0 where
  pub topic_names : List Bytes
  pub topics : List (TopicPtr R)
  pub rest : R

pub record DeleteTopicsResponse (R : Type 0) : Type 0 where
  pub topics : List (TopicPtr R)
  pub rest : R

pub record Resource (R : Type 0) : Type 0 where
  pub resource_type : ℤ
  pub resource_name : Bytes
  pub rest : R

-- DescribeConfigs, the request and the response.
pub record ResourcesMessage (R : Type 0) : Type 0 where
  pub resources : List (Resource R)
  pub rest : R

pub record FindCoordinatorRequest (R : Type 0) : Type 0 where
  pub coordinator_type : ℤ
  pub coordinator_key : Bytes
  pub coordinator_keys : List Bytes
  pub rest : R

pub record Coordinator (R : Type 0) : Type 0 where
  pub key : Bytes
  pub node_id : ℤ
  pub host : Bytes
  pub port : ℤ
  pub rest : R

pub record FindCoordinatorResponse (R : Type 0) : Type 0 where
  pub node_id : ℤ
  pub host : Bytes
  pub port : ℤ
  pub coordinators : List (Coordinator R)
  pub rest : R

-- OffsetCommit and OffsetDelete.
pub record GroupTopicsRequest (R : Type 0) : Type 0 where
  pub group : Bytes
  pub topics : List (Topic R)
  pub rest : R

pub record OffsetFetchRequest (R : Type 0) : Type 0 where
  pub group : Bytes
  pub topics : List (Topic R)
  pub groups : List (GroupTopics R)
  pub rest : R

pub record OffsetFetchResponse (R : Type 0) : Type 0 where
  pub topics : List (Topic R)
  pub groups : List (GroupTopics R)
  pub rest : R

-- A message whose only name is one group: Heartbeat, LeaveGroup.
pub record GroupMessage (R : Type 0) : Type 0 where
  pub group : Bytes
  pub rest : R

-- DescribeGroups and DeleteGroups requests.
pub record GroupNames (R : Type 0) : Type 0 where
  pub groups : List Bytes
  pub rest : R

-- ListGroups and DeleteGroups responses.
pub record GroupsMessage (R : Type 0) : Type 0 where
  pub groups : List (GroupMessage R)
  pub rest : R

pub record InitProducerIdRequest (R : Type 0) : Type 0 where
  pub transactional_id : Option Bytes
  pub rest : R

pub record AddPartitionsToTxnRequest (R : Type 0) : Type 0 where
  pub transactional_id : Bytes
  pub topics : List (Topic R)
  pub transactions : List (TransactionTopics R)
  pub rest : R

pub record AddPartitionsToTxnResponse (R : Type 0) : Type 0 where
  pub topics : List (Topic R)
  pub transactions : List (TransactionTopics R)
  pub rest : R

pub record AddOffsetsToTxnRequest (R : Type 0) : Type 0 where
  pub transactional_id : Bytes
  pub group : Bytes
  pub rest : R

pub record EndTxnRequest (R : Type 0) : Type 0 where
  pub transactional_id : Bytes
  pub rest : R

pub record TxnOffsetCommitRequest (R : Type 0) : Type 0 where
  pub transactional_id : Bytes
  pub group : Bytes
  pub topics : List (Topic R)
  pub rest : R

abbrev pub rename_topic : {R : Type 0} → (Bytes → Bytes) → Topic R → Topic R
rename_topic f t = record t { topic = f t.topic }

abbrev pub rename_topic_ptr : {R : Type 0} → (Option Bytes → Option Bytes) → TopicPtr R → TopicPtr R
rename_topic_ptr f t = record t { topic = f t.topic }

-- `for i := range x.Topics { x.Topics[i].Topic = f(x.Topics[i].Topic) }`
abbrev pub rename_topics : {R : Type 0} → (Bytes → Bytes) → List (Topic R) → List (Topic R)
rename_topics f = map (rename_topic f)

abbrev pub rename_topic_ptrs :
    {R : Type 0} → (Option Bytes → Option Bytes) → List (TopicPtr R) → List (TopicPtr R)
rename_topic_ptrs f = map (rename_topic_ptr f)
