-- ===== src/Proxy/Handlers.antt =====
-- proxy/rewrite.go, rewrite_groups.go and rewrite_admin.go: the handlers of the APIs whose names are
-- rewritten. Each decodes the request, rewrites it, sends it upstream, decodes the response,
-- rewrites it and answers the client; the rewriting is that of Rewrite.Message.
use kroxy.Base.{ℤ, Option, none, some, [], Bytes, eq_num, to_signed, to_unsigned, if◌then◌else◌}
use kroxy.Protocol.Header.{RequestHeader}
use kroxy.Proxy.Conn.{
  Dial, Conn, Packages, Answers, rewritten, requested, Step, fail, emit, write_response,
  decode_failed, round_trip_failed, address_failed, acks_unsupported,
}
use kroxy.Rewrite.Message.{Api, RequestOf, ResponseOf, rewrite_request, rewrite_response}

module _ {R : Type 0} (P : Packages R) (w : Answers) (c : Conn) (d : Dial) where
  -- The advertised host and port; the port is cut to an int32.
  abbrev pub advertised : Option (Bytes × ℤ)
  advertised = elim (P.split_host_port c.cfg.advertised) [
    | none ↦ none
    | some hp ↦ elim (P.atoi hp.1) [
      | none ↦ none
      | some port ↦ some (hp.0, to_signed 32 (to_unsigned 32 port))
    ]
  ]

  -- roundTripTyped, and then the rest of its caller.
  abbrev pub round_trip_typed : (a : Api) → ℤ → RequestOf R a → (ResponseOf R a → Step R) → Step R
  round_trip_typed a version req rest = emit (requested d a req) (elim w.round_trip [
    | none ↦ fail c round_trip_failed
    | some body ↦ elim (P.read_response a version body) [
      | none ↦ fail c decode_failed
      | some resp ↦ rest resp
    ]
  ])

  -- The start that the handlers share: decode the request and rewrite it.
  abbrev pub decode_and_rewrite :
      (a : Api) → RequestHeader → Bytes → (RequestOf R a → Step R) → Step R
  decode_and_rewrite a hdr body rest = elim (P.read_request a hdr.api_version body) [
    | none ↦ fail c decode_failed
    | some req ↦ rest (rewrite_request P.members a c.tenant.topic_prefix req)
  ]

  -- The end that they share: rewrite the response, for which only two handlers have an advertised
  -- address, and answer the client.
  abbrev pub rewrite_and_write : (a : Api) → Bytes → ℤ → ResponseOf R a → Step R
  rewrite_and_write a host port resp =
      write_response w c
        (rewritten a (rewrite_response P.members a c.tenant.topic_prefix host port resp))

  -- A handler that needs no advertised address.
  abbrev pub exchange : Api → RequestHeader → Bytes → Step R
  exchange a hdr body =
      decode_and_rewrite a hdr body
        λ req. round_trip_typed a hdr.api_version req (rewrite_and_write a [] (ℤ.pos 0))

  -- A handler whose response names brokers.
  abbrev pub exchange_address : Api → RequestHeader → Bytes → Step R
  exchange_address a hdr body = decode_and_rewrite a hdr body λ req.
      round_trip_typed a hdr.api_version req λ resp. elim advertised [
        | none ↦ fail c address_failed
        | some hp ↦ rewrite_and_write a hp.0 hp.1 resp
      ]

  -- Acks 0 has no response, so it is refused before anything is sent.
  unfoldable pub handle_produce : RequestHeader → Bytes → Step R
  handle_produce hdr body = decode_and_rewrite Api.produce hdr body λ req.
      if eq_num req.acks 0
      then fail c acks_unsupported
      else round_trip_typed Api.produce hdr.api_version req
          (rewrite_and_write Api.produce [] (ℤ.pos 0))

  unfoldable pub handle_metadata : RequestHeader → Bytes → Step R
  handle_metadata = exchange_address Api.metadata

  unfoldable pub handle_fetch : RequestHeader → Bytes → Step R
  handle_fetch = exchange Api.fetch

  unfoldable pub handle_list_offsets : RequestHeader → Bytes → Step R
  handle_list_offsets = exchange Api.list_offsets

  unfoldable pub handle_find_coordinator : RequestHeader → Bytes → Step R
  handle_find_coordinator = exchange_address Api.find_coordinator

  unfoldable pub handle_offset_commit : RequestHeader → Bytes → Step R
  handle_offset_commit = exchange Api.offset_commit

  unfoldable pub handle_offset_fetch : RequestHeader → Bytes → Step R
  handle_offset_fetch = exchange Api.offset_fetch

  unfoldable pub handle_offset_delete : RequestHeader → Bytes → Step R
  handle_offset_delete = exchange Api.offset_delete

  unfoldable pub handle_join_group : RequestHeader → Bytes → Step R
  handle_join_group = exchange Api.join_group

  unfoldable pub handle_sync_group : RequestHeader → Bytes → Step R
  handle_sync_group = exchange Api.sync_group

  unfoldable pub handle_heartbeat : RequestHeader → Bytes → Step R
  handle_heartbeat = exchange Api.heartbeat

  unfoldable pub handle_leave_group : RequestHeader → Bytes → Step R
  handle_leave_group = exchange Api.leave_group

  unfoldable pub handle_describe_groups : RequestHeader → Bytes → Step R
  handle_describe_groups = exchange Api.describe_groups

  unfoldable pub handle_list_groups : RequestHeader → Bytes → Step R
  handle_list_groups = exchange Api.list_groups

  unfoldable pub handle_delete_groups : RequestHeader → Bytes → Step R
  handle_delete_groups = exchange Api.delete_groups

  unfoldable pub handle_init_producer_id : RequestHeader → Bytes → Step R
  handle_init_producer_id = exchange Api.init_producer_id

  unfoldable pub handle_add_partitions_to_txn : RequestHeader → Bytes → Step R
  handle_add_partitions_to_txn = exchange Api.add_partitions_to_txn

  unfoldable pub handle_add_offsets_to_txn : RequestHeader → Bytes → Step R
  handle_add_offsets_to_txn = exchange Api.add_offsets_to_txn

  unfoldable pub handle_end_txn : RequestHeader → Bytes → Step R
  handle_end_txn = exchange Api.end_txn

  unfoldable pub handle_txn_offset_commit : RequestHeader → Bytes → Step R
  handle_txn_offset_commit = exchange Api.txn_offset_commit

  unfoldable pub handle_create_topics : RequestHeader → Bytes → Step R
  handle_create_topics = exchange Api.create_topics

  unfoldable pub handle_delete_topics : RequestHeader → Bytes → Step R
  handle_delete_topics = exchange Api.delete_topics

  unfoldable pub handle_describe_configs : RequestHeader → Bytes → Step R
  handle_describe_configs = exchange Api.describe_configs

  -- The handler of each API, and its call in forwardRewritten.
  unfoldable pub handle : Api → RequestHeader → Bytes → Step R
  unfolding handle_metadata handle_produce handle_fetch handle_list_offsets handle_find_coordinator
      handle_offset_commit handle_offset_fetch handle_offset_delete handle_join_group
      handle_sync_group handle_heartbeat handle_leave_group handle_describe_groups
      handle_list_groups handle_delete_groups handle_init_producer_id handle_add_partitions_to_txn
      handle_add_offsets_to_txn handle_end_txn handle_txn_offset_commit handle_create_topics
      handle_delete_topics handle_describe_configs
  handle Api.metadata = handle_metadata
  handle Api.produce = handle_produce
  handle Api.fetch = handle_fetch
  handle Api.list_offsets = handle_list_offsets
  handle Api.find_coordinator = handle_find_coordinator
  handle Api.offset_commit = handle_offset_commit
  handle Api.offset_fetch = handle_offset_fetch
  handle Api.offset_delete = handle_offset_delete
  handle Api.join_group = handle_join_group
  handle Api.sync_group = handle_sync_group
  handle Api.heartbeat = handle_heartbeat
  handle Api.leave_group = handle_leave_group
  handle Api.describe_groups = handle_describe_groups
  handle Api.list_groups = handle_list_groups
  handle Api.delete_groups = handle_delete_groups
  handle Api.init_producer_id = handle_init_producer_id
  handle Api.add_partitions_to_txn = handle_add_partitions_to_txn
  handle Api.add_offsets_to_txn = handle_add_offsets_to_txn
  handle Api.end_txn = handle_end_txn
  handle Api.txn_offset_commit = handle_txn_offset_commit
  handle Api.create_topics = handle_create_topics
  handle Api.delete_topics = handle_delete_topics
  handle Api.describe_configs = handle_describe_configs
