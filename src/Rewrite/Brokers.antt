-- ===== src/Rewrite/Brokers.antt =====
-- The virtual broker: whatever brokers the cluster names, a client is sent back to the proxy.
use kroxy.Base.{◌≡◌, refl, List, [], ◌∷◌, map, Bytes, ℤ, pos, All, some, arith}
use kroxy.Rewrite.Compact.{compact-All}
use kroxy.Rewrite.Groups.{find_coordinator_response_out, coordinator_out}
use kroxy.Rewrite.Kmsg.{
  MetadataResponse, MetadataTopic, Partition, Broker, FindCoordinatorResponse, Coordinator,
}
use kroxy.Rewrite.Metadata.{metadata_response_out, metadata_topic_out, collapse}

abbrev IsZero : ℤ → Type 0
IsZero n = n ≡ pos 0

-- Every broker id of the partition is that of the virtual broker.
pub record IsCollapsed {R : Type 0} (p : Partition R) : Type 0 where
  pub leader : IsZero p.leader
  pub replicas : All IsZero p.replicas
  pub isr : All IsZero p.isr
  pub offline_replicas : All IsZero p.offline_replicas

abbrev pub IsCollapsedTopic : {R : Type 0} → MetadataTopic R → Type 0
IsCollapsedTopic t = All IsCollapsed t.partitions

-- The proxy is the only broker and the controller, and no partition names another broker.
pub record PointsAtProxy {R : Type 0} (host : Bytes) (port : ℤ) (resp : MetadataResponse R)
    : Type 0 where
  pub only_broker : map (λ (b : Broker). b.host) resp.brokers ≡ host ∷ []
  pub only_port : map (λ (b : Broker). b.port) resp.brokers ≡ port ∷ []
  pub only_id : map (λ (b : Broker). b.node_id) resp.brokers ≡ pos 0 ∷ []
  pub controller : IsZero resp.controller_id
  pub collapsed : All IsCollapsedTopic resp.topics

zeros : (xs : List ℤ) → All IsZero (map (λ _. pos 0) xs)
zeros [] = tt
zeros (x ∷ xs) = (refl, zeros xs)

collapse-IsCollapsed : {R : Type 0} (p : Partition R) → IsCollapsed (collapse p)
collapse-IsCollapsed p = record {
  leader = refl;
  replicas = zeros p.replicas;
  isr = zeros p.isr;
  offline_replicas = zeros p.offline_replicas;
}

collapse-All : {R : Type 0} (ps : List (Partition R)) → All IsCollapsed (map collapse ps)
collapse-All [] = tt
collapse-All (p ∷ ps) = (collapse-IsCollapsed p, collapse-All ps)

partitions_out :
    {R : Type 0} (prefix : Bytes) (t t' : MetadataTopic R)
    → metadata_topic_out prefix t ≡ some t'
    → t'.partitions ≡ map collapse t.partitions
unfolding metadata_topic_out
partitions_out prefix t t' e = ground arith

topic-IsCollapsed :
    {R : Type 0} (prefix : Bytes) (t t' : MetadataTopic R)
    → metadata_topic_out prefix t ≡ some t'
    → IsCollapsedTopic t'
topic-IsCollapsed prefix t t' e = rw (partitions_out prefix t t' e) (collapse-All t.partitions)

-- A client that asks for metadata is told of one broker, node 0 at the advertised address, which is
-- the controller too; no leader, replica, in-sync or offline replica of a listed partition is
-- another node.
pub metadata_response_out-PointsAtProxy :
    {R : Type 0} (prefix host : Bytes) (port : ℤ) (resp : MetadataResponse R)
    → PointsAtProxy host port (metadata_response_out prefix host port resp)
unfolding metadata_response_out
metadata_response_out-PointsAtProxy prefix host port resp = record {
  only_broker = refl;
  only_port = refl;
  only_id = refl;
  controller = refl;
  collapsed = compact-All IsCollapsedTopic _ (topic-IsCollapsed prefix) resp.topics;
}

-- The coordinator stands at the address.
pub record IsAt {R : Type 0} (host : Bytes) (port : ℤ) (k : Coordinator R) : Type 0 where
  pub node : IsZero k.node_id
  pub at_host : k.host ≡ host
  pub at_port : k.port ≡ port

pub record CoordinatesAtProxy {R : Type 0} (host : Bytes) (port : ℤ)
    (resp : FindCoordinatorResponse R) : Type 0 where
  pub node : IsZero resp.node_id
  pub at_host : resp.host ≡ host
  pub at_port : resp.port ≡ port
  pub all_at : All (IsAt host port) resp.coordinators

coordinators-IsAt :
    {R : Type 0} (prefix host : Bytes) (port : ℤ) (ks : List (Coordinator R))
    → All (IsAt host port) (map (coordinator_out prefix host port) ks)
coordinators-IsAt prefix host port [] = tt
coordinators-IsAt prefix host port (k ∷ ks) =
    (record { node = refl; at_host = refl; at_port = refl }, coordinators-IsAt prefix host port ks)

-- A client that looks for a coordinator is sent to node 0 at the advertised address, by the
-- single-key fields and by every entry of the batch form.
pub find_coordinator_response_out-CoordinatesAtProxy :
    {R : Type 0} (prefix host : Bytes) (port : ℤ) (resp : FindCoordinatorResponse R)
    → CoordinatesAtProxy host port (find_coordinator_response_out prefix host port resp)
unfolding find_coordinator_response_out
find_coordinator_response_out-CoordinatesAtProxy prefix host port resp = record {
  node = refl;
  at_host = refl;
  at_port = refl;
  all_at = coordinators-IsAt prefix host port resp.coordinators;
}
