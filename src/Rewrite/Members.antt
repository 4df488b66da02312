-- ===== src/Rewrite/Members.antt =====
-- rewrite/groups.go, the member blobs of JoinGroup, SyncGroup and DescribeGroups. How kmsg decodes
-- and encodes a blob is a parameter.
use kroxy.Base.{
  Bytes, codes, is_empty, str_eq, Bool, false, not, ◌||◌, ◌&&◌, map, List, Option, none, some, ◌≡◌,
  ◌≢◌, [], if◌then◌else◌, ◌⊎◌, ◌≤◌, ◌<◌, ◌^◌, length, All,
}
use kroxy.Rewrite.Kmsg.{Topic, rename_topics}
use kroxy.Rewrite.Names.{prefix_in, strip_out}

-- kmsg's ConsumerMemberMetadata and ConsumerMemberAssignment.
pub record Subscription (R : Type 0) : Type 0 where
  pub topics : List Bytes
  pub owned_partitions : List (Topic R)
  pub rest : R

pub record Assignment (R : Type 0) : Type 0 where
  pub topics : List (Topic R)
  pub rest : R

-- ReadFrom (none for an error) and AppendTo(nil) of the two structs.
pub record MemberCodec (R : Type 0) : Type 0 where
  pub read_subscription : Bytes → Option (Subscription R)
  pub append_subscription : Subscription R → Bytes
  pub read_assignment : Bytes → Option (Assignment R)
  pub append_assignment : Assignment R → Bytes

-- A new name that is no longer than the old one, or that fits a string's length of 16 bits.
abbrev pub Fits : (Bytes → Bytes) → Bytes → Type 0
Fits f n = (length (f n) ≤ length n) ⊎ (length (f n) < 2 ^ 15)

abbrev pub FitsSubscription : {R : Type 0} → (Bytes → Bytes) → Option (Subscription R) → Type 0
FitsSubscription f none = Unit
FitsSubscription f (some m) = All (Fits f) m.topics × All (λ t. Fits f t.topic) m.owned_partitions

abbrev pub FitsAssignment : {R : Type 0} → (Bytes → Bytes) → Option (Assignment R) → Type 0
FitsAssignment f none = Unit
FitsAssignment f (some a) = All (λ t. Fits f t.topic) a.topics

abbrev pub rename_subscription : {R : Type 0} → (Bytes → Bytes) → Subscription R → Subscription R
rename_subscription fn m = record m {
  topics = map fn m.topics;
  owned_partitions = rename_topics fn m.owned_partitions;
}

abbrev pub rename_assignment : {R : Type 0} → (Bytes → Bytes) → Assignment R → Assignment R
rename_assignment fn a = record a { topics = rename_topics fn a.topics }

-- kmsg writes a struct that it has read, under the version that it was read with, so that it reads
-- it back, with other names too, as long as they fit. A written blob begins with its version, so it
-- is not empty. (A struct that was not read from a blob need not read back: the owned partitions
-- are written from version 1 on only.)
pub record IsCodec {R : Type 0} (c : MemberCodec R) : Type 0 where
  pub read-append_subscription :
      (f : Bytes → Bytes) (blob : Bytes) (m : Subscription R)
      → c.read_subscription blob ≡ some m
      → FitsSubscription f (some m)
      → c.read_subscription (c.append_subscription (rename_subscription f m))
        ≡ some (rename_subscription f m)
  pub subscription_ne_nil : (m : Subscription R) → c.append_subscription m ≢ []
  pub read-append_assignment :
      (f : Bytes → Bytes) (blob : Bytes) (a : Assignment R)
      → c.read_assignment blob ≡ some a
      → FitsAssignment f (some a)
      → c.read_assignment (c.append_assignment (rename_assignment f a))
        ≡ some (rename_assignment f a)
  pub assignment_ne_nil : (a : Assignment R) → c.append_assignment a ≢ []

pub record Protocol (R : Type 0) : Type 0 where
  pub metadata : Bytes
  pub rest : R

pub record JoinGroupRequest (R : Type 0) : Type 0 where
  pub group : Bytes
  pub protocol_type : Bytes
  pub protocols : List (Protocol R)
  pub rest : R

pub record JoinGroupMember (R : Type 0) : Type 0 where
  pub protocol_metadata : Bytes
  pub rest : R

pub record JoinGroupResponse (R : Type 0) : Type 0 where
  pub protocol_type : Option Bytes
  pub members : List (JoinGroupMember R)
  pub rest : R

pub record GroupAssignment (R : Type 0) : Type 0 where
  pub member_assignment : Bytes
  pub rest : R

pub record SyncGroupRequest (R : Type 0) : Type 0 where
  pub group : Bytes
  pub protocol_type : Option Bytes
  pub group_assignment : List (GroupAssignment R)
  pub rest : R

pub record SyncGroupResponse (R : Type 0) : Type 0 where
  pub protocol_type : Option Bytes
  pub member_assignment : Bytes
  pub rest : R

pub record DescribedMember (R : Type 0) : Type 0 where
  pub protocol_metadata : Bytes
  pub member_assignment : Bytes
  pub rest : R

pub record DescribedGroup (R : Type 0) : Type 0 where
  pub group : Bytes
  pub protocol_type : Bytes
  pub members : List (DescribedMember R)
  pub rest : R

pub record DescribeGroupsResponse (R : Type 0) : Type 0 where
  pub groups : List (DescribedGroup R)
  pub rest : R

abbrev pub consumer_protocol_type : Bytes
consumer_protocol_type = codes "consumer"

-- `p != nil && *p != consumerProtocolType`
abbrev pub other_protocol : Option Bytes → Bool
other_protocol none = false
other_protocol (some p) = not (str_eq p consumer_protocol_type)

unfoldable pub rewrite_consumer_subscription :
    {R : Type 0} → MemberCodec R → Bytes → (Bytes → Bytes) → Bytes
rewrite_consumer_subscription c meta fn =
    if is_empty meta then meta else elim (c.read_subscription meta) [
      | none ↦ meta
      | some m ↦ c.append_subscription (rename_subscription fn m)
    ]

unfoldable pub rewrite_consumer_assignment :
    {R : Type 0} → MemberCodec R → Bytes → (Bytes → Bytes) → Bytes
rewrite_consumer_assignment c asg fn = if is_empty asg then asg else elim (c.read_assignment asg) [
  | none ↦ asg
  | some a ↦ c.append_assignment (rename_assignment fn a)
]

module _ {R S : Type 0} (c : MemberCodec R) where
  abbrev pub protocol_in : Bytes → Protocol S → Protocol S
  protocol_in prefix p = record p {
    metadata = rewrite_consumer_subscription c p.metadata (prefix_in prefix);
  }

  unfoldable pub join_group_request_in : Bytes → JoinGroupRequest S → JoinGroupRequest S
  join_group_request_in prefix req =
      let grouped = record req { group = prefix_in prefix req.group } in
      if is_empty prefix || not (str_eq req.protocol_type consumer_protocol_type)
      then grouped
      else record grouped { protocols = map (protocol_in prefix) req.protocols }

  abbrev pub join_member_out : Bytes → JoinGroupMember S → JoinGroupMember S
  join_member_out prefix m = record m {
    protocol_metadata = rewrite_consumer_subscription c m.protocol_metadata (strip_out prefix);
  }

  unfoldable pub join_group_response_out : Bytes → JoinGroupResponse S → JoinGroupResponse S
  join_group_response_out prefix resp =
      if is_empty prefix || other_protocol resp.protocol_type
      then resp
      else record resp { members = map (join_member_out prefix) resp.members }

  abbrev pub group_assignment_in : Bytes → GroupAssignment S → GroupAssignment S
  group_assignment_in prefix a = record a {
    member_assignment = rewrite_consumer_assignment c a.member_assignment (prefix_in prefix);
  }

  unfoldable pub sync_group_request_in : Bytes → SyncGroupRequest S → SyncGroupRequest S
  sync_group_request_in prefix req =
      let grouped = record req { group = prefix_in prefix req.group } in
      if is_empty prefix || other_protocol req.protocol_type then grouped else record grouped {
        group_assignment = map (group_assignment_in prefix) req.group_assignment;
      }

  unfoldable pub sync_group_response_out : Bytes → SyncGroupResponse S → SyncGroupResponse S
  sync_group_response_out prefix resp =
      if is_empty prefix || other_protocol resp.protocol_type then resp else record resp {
        member_assignment = rewrite_consumer_assignment c resp.member_assignment (strip_out prefix);
      }

  abbrev pub described_member_out : Bytes → DescribedMember S → DescribedMember S
  described_member_out prefix m = record m {
    protocol_metadata = rewrite_consumer_subscription c m.protocol_metadata (strip_out prefix);
    member_assignment = rewrite_consumer_assignment c m.member_assignment (strip_out prefix);
  }

  unfoldable pub described_group_out : Bytes → DescribedGroup S → DescribedGroup S
  described_group_out prefix g =
      let named = record g { group = strip_out prefix g.group } in
      if is_empty prefix
        || not (is_empty g.protocol_type) && not (str_eq g.protocol_type consumer_protocol_type)
      then named
      else record named { members = map (described_member_out prefix) g.members }

  unfoldable pub describe_groups_response_out :
      Bytes → DescribeGroupsResponse S → DescribeGroupsResponse S
  unfolding described_group_out
  describe_groups_response_out prefix resp = record resp {
    groups = map (described_group_out prefix) resp.groups;
  }
