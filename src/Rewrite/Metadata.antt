-- ===== src/Rewrite/Metadata.antt =====
-- rewrite/metadata.go
use kroxy.Base.{Bytes, ℤ, pos, map, [], ◌∷◌, List, Option, none, some, if◌then◌else◌}
use kroxy.Rewrite.Compact.{compact}
use kroxy.Rewrite.Kmsg.{
  MetadataRequest, MetadataResponse, MetadataTopic, Partition, Broker, rename_topic_ptrs,
}
use kroxy.Rewrite.Names.{prefix_in_ptr, strip_out_ptr, belongs_to_tenant}

-- The rack of the first broker, if there is one.
abbrev pub first_rack : List Broker → Option Bytes
first_rack [] = none
first_rack (b ∷ bs) = b.rack

module _ {R : Type 0} where
  unfoldable pub metadata_request_in : Bytes → MetadataRequest R → MetadataRequest R
  metadata_request_in prefix req = record req {
    topics = rename_topic_ptrs (prefix_in_ptr prefix) req.topics;
  }

  -- The body of the loop over the partitions: every broker id becomes 0.
  abbrev pub collapse : Partition R → Partition R
  collapse p = record p {
    leader = pos 0;
    replicas = map (λ _. pos 0) p.replicas;
    isr = map (λ _. pos 0) p.isr;
    offline_replicas = map (λ _. pos 0) p.offline_replicas;
  }

  -- The body of the loop over the topics: none for `continue`.
  abbrev pub metadata_topic_name : Bytes → MetadataTopic R → Option Bytes → Option (MetadataTopic R)
  metadata_topic_name prefix t none = none
  metadata_topic_name prefix t (some name) =
      if belongs_to_tenant prefix name
      then some (record t {
        topic = strip_out_ptr prefix (some name);
        partitions = map collapse t.partitions;
      })
      else none

  unfoldable pub metadata_topic_out : Bytes → MetadataTopic R → Option (MetadataTopic R)
  metadata_topic_out prefix t = metadata_topic_name prefix t t.topic

  unfoldable pub metadata_response_out : Bytes → Bytes → ℤ → MetadataResponse R → MetadataResponse R
  metadata_response_out prefix host port resp = record resp {
    brokers =
        record { node_id = pos 0; host = host; port = port; rack = first_rack resp.brokers } ∷ [];
    controller_id = pos 0;
    topics = compact (metadata_topic_out prefix) resp.topics;
  }
