-- ===== src/Rewrite/Message/MemberNames.antt =====
-- What `rewrite_request` does to the topics in the member blobs of JoinGroup and SyncGroup.
use kroxy.Base.{
  ◌≡◌, refl, sym, List, [], ◌∷◌, ◌++◌, map, ap₂, ◌∙◌, Bytes, inl, inr, Bool-cases, str_eq, map_id,
  All,
}
use kroxy.Rewrite.Members.{
  protocol_in, group_assignment_in, MemberCodec, IsCodec, Protocol, GroupAssignment,
  consumer_protocol_type, other_protocol, JoinGroupRequest, SyncGroupRequest, join_group_request_in,
  sync_group_request_in, FitsSubscription, FitsAssignment,
}
use kroxy.Rewrite.Message.{Api, RequestOf, rewrite_request}
use kroxy.Rewrite.Message.Gather.{gather}
use kroxy.Rewrite.Message.Renaming.{subscription_names-rewrite, assignment_names-rewrite}
use kroxy.Rewrite.Message.RequestNames.{protocol_names, group_assignment_names, member_names}
use kroxy.Rewrite.Names.{prefix_in}
use mathlib.Core.List.{map-append}

prefix_in_nil : (name : Bytes) → prefix_in [] name ≡ name
unfolding prefix_in
prefix_in_nil name = refl

module _ {R : Type 0} (c : MemberCodec R) where
  -- The prefixed topics of each decoded blob fit it.
  abbrev pub FitsRequest : Bytes → (a : Api) → RequestOf R a → Type 0
  FitsRequest prefix Api.join_group req =
      All (λ p. FitsSubscription (prefix_in prefix) (c.read_subscription p.metadata)) req.protocols
  FitsRequest prefix Api.sync_group req =
      All (λ g. FitsAssignment (prefix_in prefix) (c.read_assignment g.member_assignment))
        req.group_assignment
  FitsRequest prefix _ req = Unit

  module _ (law : IsCodec c) (prefix : Bytes) where
    protocol_names-prefix :
        (ps : List (Protocol R))
        → All (λ p. FitsSubscription (prefix_in prefix) (c.read_subscription p.metadata)) ps
        → gather (protocol_names c) (map (protocol_in c prefix) ps)
          ≡ map (prefix_in prefix) (gather (protocol_names c) ps)
    protocol_names-prefix [] fit = refl
    protocol_names-prefix (p ∷ ps) (fit, fits) =
        ap₂ ◌++◌ (subscription_names-rewrite (prefix_in prefix) c law p.metadata fit)
          (protocol_names-prefix ps fits)
        ∙ sym (map-append (prefix_in prefix) (protocol_names c p) (gather (protocol_names c) ps))

    assignment_names-prefix :
        (gs : List (GroupAssignment R))
        → All (λ g. FitsAssignment (prefix_in prefix) (c.read_assignment g.member_assignment)) gs
        → gather (group_assignment_names c) (map (group_assignment_in c prefix) gs)
          ≡ map (prefix_in prefix) (gather (group_assignment_names c) gs)
    assignment_names-prefix [] fit = refl
    assignment_names-prefix (g ∷ gs) (fit, fits) =
        ap₂ ◌++◌ (assignment_names-rewrite (prefix_in prefix) c law g.member_assignment fit)
          (assignment_names-prefix gs fits)
        ∙ sym (
            map-append (prefix_in prefix) (group_assignment_names c g)
              (gather (group_assignment_names c) gs))

  module _ (law : IsCodec c) where
    join_group_members :
        (prefix : Bytes) (req : JoinGroupRequest R)
        → All
            (λ p. FitsSubscription (prefix_in prefix) (c.read_subscription p.metadata))
            req.protocols
        → member_names c Api.join_group (join_group_request_in c prefix req)
          ≡ map (prefix_in prefix) (member_names c Api.join_group req)
    unfolding join_group_request_in member_names
    join_group_members [] req fit = sym (map_id (prefix_in []) prefix_in_nil _)
    join_group_members (p ∷ ps) req fit =
        elim (Bool-cases (str_eq req.protocol_type consumer_protocol_type)) [
          | inl k ↦ simp k (protocol_names-prefix law (p ∷ ps) req.protocols fit)
          | inr k ↦ simp k
        ]

    sync_group_members :
        (prefix : Bytes) (req : SyncGroupRequest R)
        → All
            (λ g. FitsAssignment (prefix_in prefix) (c.read_assignment g.member_assignment))
            req.group_assignment
        → member_names c Api.sync_group (sync_group_request_in c prefix req)
          ≡ map (prefix_in prefix) (member_names c Api.sync_group req)
    unfolding sync_group_request_in member_names
    sync_group_members [] req fit = sym (map_id (prefix_in []) prefix_in_nil _)
    sync_group_members (p ∷ ps) req fit = elim (Bool-cases (other_protocol req.protocol_type)) [
      | inl k ↦ simp k
      | inr k ↦ simp k (assignment_names-prefix law (p ∷ ps) req.group_assignment fit)
    ]

    -- The topics in the member blobs of a consumer group's JoinGroup and SyncGroup requests go
    -- upstream each with the tenant's prefix, in their order; provided that kmsg reads back a
    -- struct that it has read and that got other names that fit, and that the prefixed topics fit
    -- a string's length of 16 bits.
    pub member_names-rewrite_request :
        (prefix : Bytes) (a : Api) (req : RequestOf R a)
        → FitsRequest prefix a req
        → member_names c a (rewrite_request c a prefix req)
          ≡ map (prefix_in prefix) (member_names c a req)
    unfolding rewrite_request member_names
    member_names-rewrite_request prefix Api.join_group req fit = join_group_members prefix req fit
    member_names-rewrite_request prefix Api.sync_group req fit = sync_group_members prefix req fit
    member_names-rewrite_request prefix _ req fit = refl
