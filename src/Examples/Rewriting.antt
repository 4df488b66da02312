-- ===== src/Examples/Rewriting.antt =====
-- Requests and responses of one tenant, whose prefix is "acme.".
use kroxy.Base.{
  inr, arith, ◌≡◌, ◌⊎◌, ◌↔◌, refl, pos, true, none, [], ◌∷◌, map, Bytes, codes, has_prefix,
}
use kroxy.Examples.Blobs.{
  codec, codec-IsCodec, put_names, put_name, take_names, add_to_first, topic_of,
}
use kroxy.Rewrite.Brokers.{PointsAtProxy, metadata_response_out-PointsAtProxy}
use kroxy.Rewrite.Isolation.{prefix_in_meet}
use kroxy.Rewrite.Kmsg.{TopicsMessage, FetchRequest, GroupsMessage, MetadataResponse}
use kroxy.Rewrite.Message.{Api, rewrite_request, rewrite_response}
use kroxy.Rewrite.Members.{JoinGroupRequest}
use kroxy.Rewrite.Metadata.{metadata_response_out}
use kroxy.Rewrite.Message.RequestNames.{request_names, left_names, member_names}
use kroxy.Rewrite.Message.MemberNames.{member_names-rewrite_request}
use kroxy.Rewrite.Message.Requests.{request_names-rewrite_request}
use kroxy.Rewrite.Message.ResponseNames.{response_names}
use kroxy.Rewrite.Message.Responses.{response_names-rewrite_response}
use kroxy.Rewrite.Message.ResponseNames.{visible}
use kroxy.Rewrite.Message.Visible.{Listed, rewrite_response-Listed, rewrite_response_echo}
use kroxy.Rewrite.Names.{prefix_in}

abbrev acme : Bytes
acme = codes "acme."

-- Another topic is to be forgotten by the fetch session.
abbrev fetch_orders : FetchRequest (Unit {0})
fetch_orders = record {
  topics = record { topic = codes "orders"; rest = tt } ∷ [];
  forgotten_topics = record { topic = codes "old"; rest = tt } ∷ [];
  rest = tt;
}

abbrev subscription : Bytes
subscription = put_names (codes "orders" ∷ []) (put_names [] [])

abbrev join_consumers : JoinGroupRequest (Unit {0})
join_consumers = record {
  group = codes "g";
  protocol_type = codes "consumer";
  protocols = record { metadata = subscription; rest = tt } ∷ [];
  rest = tt;
}

abbrev fetched_orders : TopicsMessage (Unit {0})
fetched_orders = record {
  topics = record { topic = codes "acme.orders"; rest = tt } ∷ [];
  rest = tt;
}

abbrev two_groups : GroupsMessage (Unit {0})
two_groups = record {
  groups =
      record { group = codes "acme.g"; rest = tt }
      ∷ record { group = codes "other.g"; rest = tt }
      ∷ [];
  rest = tt;
}

request_names-rewrite_request_example :
    (request_names (Unit {0}) Api.fetch (rewrite_request codec Api.fetch acme fetch_orders)
      ≡ map (prefix_in acme) (request_names (Unit {0}) Api.fetch fetch_orders))
    × (left_names (Unit {0}) Api.fetch (rewrite_request codec Api.fetch acme fetch_orders)
        ≡ left_names (Unit {0}) Api.fetch fetch_orders)
request_names-rewrite_request_example =
    request_names-rewrite_request codec acme Api.fetch fetch_orders

member_names-rewrite_request_example :
    member_names codec Api.join_group (rewrite_request codec Api.join_group acme join_consumers)
    ≡ map (prefix_in acme) (member_names codec Api.join_group join_consumers)
unfolding prefix_in put_names put_name take_names add_to_first topic_of
member_names-rewrite_request_example =
    member_names-rewrite_request codec codec-IsCodec acme Api.join_group join_consumers
      (((inr (omega arith), tt), tt), tt)

response_names-rewrite_response_example :
    response_names codec Api.list_groups
      (rewrite_response codec Api.list_groups acme (codes "h") (pos 9092) two_groups)
    ≡ visible Api.list_groups acme (response_names codec Api.list_groups two_groups)
response_names-rewrite_response_example =
    response_names-rewrite_response codec codec-IsCodec acme (codes "h") (pos 9092) Api.list_groups
      two_groups

rewrite_response-Listed_example :
    Listed (codes "g") (
      response_names codec Api.list_groups
        (rewrite_response codec Api.list_groups acme (codes "h") (pos 9092) two_groups))
    ↔ Listed (codes "acme.g") (response_names codec Api.list_groups two_groups)
rewrite_response-Listed_example =
    rewrite_response-Listed codec codec-IsCodec acme (codes "h") (pos 9092) Api.list_groups
      two_groups (codes "g") refl

rewrite_response_echo_example :
    response_names codec Api.fetch
      (rewrite_response codec Api.fetch acme (codes "h") (pos 9092) fetched_orders)
    ≡ codes "orders" ∷ []
unfolding response_names prefix_in
rewrite_response_echo_example =
    rewrite_response_echo codec codec-IsCodec acme (codes "h") (pos 9092) Api.fetch fetched_orders
      (codes "orders" ∷ []) (λ e. cc, tt) refl

-- The prefixes "a" and "ab" share the upstream name "abc".
prefix_in_meet_example :
    (has_prefix (codes "a") (codes "ab") ≡ true) ⊎ (has_prefix (codes "ab") (codes "a") ≡ true)
unfolding prefix_in
prefix_in_meet_example =
    prefix_in_meet (codes "a") (codes "ab") (codes "bc") (codes "c") (λ e. cc) (λ e. cc) refl

abbrev cluster : MetadataResponse (Unit {0})
cluster = record {
  brokers = record { node_id = pos 4; host = codes "b4"; port = pos 9094; rack = none } ∷ [];
  controller_id = pos 4;
  topics = [];
  rest = tt;
}

metadata_response_out-PointsAtProxy_example :
    PointsAtProxy (codes "h") (pos 9092) (metadata_response_out acme (codes "h") (pos 9092) cluster)
metadata_response_out-PointsAtProxy_example =
    metadata_response_out-PointsAtProxy acme (codes "h") (pos 9092) cluster
