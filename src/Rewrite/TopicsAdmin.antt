-- ===== src/Rewrite/TopicsAdmin.antt =====
-- rewrite/topics_admin.go
use kroxy.Base.{Bytes, Bool, ◌||◌, ℤ, map, Option, none, some, eq_num, if◌then◌else◌}
use kroxy.Rewrite.Compact.{compact}
use kroxy.Rewrite.Kmsg.{
  TopicsMessage, DeleteTopicsRequest, DeleteTopicsResponse, Resource, ResourcesMessage,
  rename_topics, rename_topic_ptrs,
}
use kroxy.Rewrite.Names.{prefix_in, prefix_in_ptr, strip_out, strip_out_ptr, belongs_to_tenant}

-- `case configResourceTypeTopic, configResourceTypeGroup` (2 and 32). kmsg's ConfigResourceType is
-- an int8, so the conversion in the source changes nothing.
abbrev pub is_topic_or_group : ℤ → Bool
is_topic_or_group t = eq_num t 2 || eq_num t 32

module _ {R : Type 0} where
  unfoldable pub create_topics_request_in : Bytes → TopicsMessage R → TopicsMessage R
  create_topics_request_in prefix req = record req {
    topics = rename_topics (prefix_in prefix) req.topics;
  }

  unfoldable pub create_topics_response_out : Bytes → TopicsMessage R → TopicsMessage R
  create_topics_response_out prefix resp = record resp {
    topics = rename_topics (strip_out prefix) resp.topics;
  }

  unfoldable pub delete_topics_request_in : Bytes → DeleteTopicsRequest R → DeleteTopicsRequest R
  delete_topics_request_in prefix req = record req {
    topic_names = map (prefix_in prefix) req.topic_names;
    topics = rename_topic_ptrs (prefix_in_ptr prefix) req.topics;
  }

  unfoldable pub delete_topics_response_out :
      Bytes → DeleteTopicsResponse R → DeleteTopicsResponse R
  delete_topics_response_out prefix resp = record resp {
    topics = rename_topic_ptrs (strip_out_ptr prefix) resp.topics;
  }

  unfoldable pub resource_in : Bytes → Resource R → Resource R
  resource_in prefix r =
      if is_topic_or_group r.resource_type
      then record r { resource_name = prefix_in prefix r.resource_name }
      else r

  unfoldable pub describe_configs_request_in : Bytes → ResourcesMessage R → ResourcesMessage R
  unfolding resource_in
  describe_configs_request_in prefix req = record req {
    resources = map (resource_in prefix) req.resources;
  }

  -- The body of the loop over the resources: none for `continue`.
  unfoldable pub resource_out : Bytes → Resource R → Option (Resource R)
  resource_out prefix r =
      if is_topic_or_group r.resource_type
      then (if belongs_to_tenant prefix r.resource_name
          then some (record r { resource_name = strip_out prefix r.resource_name })
          else none)
      else some r

  unfoldable pub describe_configs_response_out : Bytes → ResourcesMessage R → ResourcesMessage R
  describe_configs_response_out prefix resp = record resp {
    resources = compact (resource_out prefix) resp.resources;
  }
