-- ===== src/Rewrite/Groups.antt =====
-- rewrite/groups.go, the messages that name groups and their offsets.
use kroxy.Base.{
  Bytes, Bool, ◌||◌, not, ℤ, pos, map, List, Option, none, some, eq_num, if◌then◌else◌,
}
use kroxy.Rewrite.Compact.{compact}
use kroxy.Rewrite.Kmsg.{
  TopicsMessage, GroupTopics, FindCoordinatorRequest, FindCoordinatorResponse, Coordinator,
  GroupTopicsRequest, OffsetFetchRequest, OffsetFetchResponse, GroupMessage, GroupNames,
  GroupsMessage, rename_topics,
}
use kroxy.Rewrite.Names.{prefix_in, strip_out, belongs_to_tenant}

-- CoordinatorTypeGroup is 0 and CoordinatorTypeTransaction 1.
abbrev pub is_group_or_transaction : ℤ → Bool
is_group_or_transaction t = eq_num t 0 || eq_num t 1

module _ {R : Type 0} where
  unfoldable pub find_coordinator_request_in :
      Bytes → FindCoordinatorRequest R → FindCoordinatorRequest R
  find_coordinator_request_in prefix req =
      if not (is_group_or_transaction req.coordinator_type) then req else record req {
        coordinator_key = prefix_in prefix req.coordinator_key;
        coordinator_keys = map (prefix_in prefix) req.coordinator_keys;
      }

  abbrev pub coordinator_out : Bytes → Bytes → ℤ → Coordinator R → Coordinator R
  coordinator_out prefix host port c = record c {
    node_id = pos 0;
    host = host;
    port = port;
    key = strip_out prefix c.key;
  }

  unfoldable pub find_coordinator_response_out :
      Bytes → Bytes → ℤ → FindCoordinatorResponse R → FindCoordinatorResponse R
  find_coordinator_response_out prefix host port resp = record resp {
    node_id = pos 0;
    host = host;
    port = port;
    coordinators = map (coordinator_out prefix host port) resp.coordinators;
  }

  unfoldable pub offset_commit_request_in : Bytes → GroupTopicsRequest R → GroupTopicsRequest R
  offset_commit_request_in prefix req = record req {
    group = prefix_in prefix req.group;
    topics = rename_topics (prefix_in prefix) req.topics;
  }

  unfoldable pub offset_commit_response_out : Bytes → TopicsMessage R → TopicsMessage R
  offset_commit_response_out prefix resp = record resp {
    topics = rename_topics (strip_out prefix) resp.topics;
  }

  abbrev pub rename_group_topics : (Bytes → Bytes) → GroupTopics R → GroupTopics R
  rename_group_topics f g = record g { group = f g.group; topics = rename_topics f g.topics }

  -- The loops over the groups of a v8+ request or response.
  abbrev pub rename_groups : (Bytes → Bytes) → List (GroupTopics R) → List (GroupTopics R)
  rename_groups f = map (rename_group_topics f)

  unfoldable pub offset_fetch_request_in : Bytes → OffsetFetchRequest R → OffsetFetchRequest R
  offset_fetch_request_in prefix req = record req {
    group = prefix_in prefix req.group;
    topics = rename_topics (prefix_in prefix) req.topics;
    groups = rename_groups (prefix_in prefix) req.groups;
  }

  unfoldable pub offset_fetch_response_out : Bytes → OffsetFetchResponse R → OffsetFetchResponse R
  offset_fetch_response_out prefix resp = record resp {
    topics = rename_topics (strip_out prefix) resp.topics;
    groups = rename_groups (strip_out prefix) resp.groups;
  }

  unfoldable pub offset_delete_request_in : Bytes → GroupTopicsRequest R → GroupTopicsRequest R
  offset_delete_request_in prefix req = record req {
    group = prefix_in prefix req.group;
    topics = rename_topics (prefix_in prefix) req.topics;
  }

  unfoldable pub offset_delete_response_out : Bytes → TopicsMessage R → TopicsMessage R
  offset_delete_response_out prefix resp = record resp {
    topics = rename_topics (strip_out prefix) resp.topics;
  }

  unfoldable pub heartbeat_request_in : Bytes → GroupMessage R → GroupMessage R
  heartbeat_request_in prefix req = record req { group = prefix_in prefix req.group }

  unfoldable pub leave_group_request_in : Bytes → GroupMessage R → GroupMessage R
  leave_group_request_in prefix req = record req { group = prefix_in prefix req.group }

  unfoldable pub describe_groups_request_in : Bytes → GroupNames R → GroupNames R
  describe_groups_request_in prefix req = record req { groups = map (prefix_in prefix) req.groups }

  -- The body of the loop of ListGroupsResponseOut: none for `continue`.
  unfoldable pub listed_group_out : Bytes → GroupMessage R → Option (GroupMessage R)
  listed_group_out prefix g =
      if belongs_to_tenant prefix g.group
      then some (record g { group = strip_out prefix g.group })
      else none

  unfoldable pub list_groups_response_out : Bytes → GroupsMessage R → GroupsMessage R
  list_groups_response_out prefix resp = record resp {
    groups = compact (listed_group_out prefix) resp.groups;
  }

  unfoldable pub delete_groups_request_in : Bytes → GroupNames R → GroupNames R
  delete_groups_request_in prefix req = record req { groups = map (prefix_in prefix) req.groups }

  abbrev pub strip_group : Bytes → GroupMessage R → GroupMessage R
  strip_group prefix g = record g { group = strip_out prefix g.group }

  unfoldable pub delete_groups_response_out : Bytes → GroupsMessage R → GroupsMessage R
  delete_groups_response_out prefix resp = record resp {
    groups = map (strip_group prefix) resp.groups;
  }
