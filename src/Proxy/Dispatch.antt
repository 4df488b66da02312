-- ===== src/Proxy/Dispatch.antt =====
-- proxy/conn.go: dispatch, the table of rewrite handlers, and one round of serve.
use kroxy.Base.{[], ◌∷◌, ◌++◌, ℤ, not, Option, none, some, Bytes, eq_num, if◌then◌else◌, ok, err}
use kroxy.Protocol.Header.{RequestHeader, parse_request_header, slice_from}
use kroxy.Protocol.Keys.{
  api_versions_key, sasl_handshake_key, sasl_authenticate_key, metadata_key, produce_key, fetch_key,
  list_offsets_key, find_coordinator_key, offset_commit_key, offset_fetch_key, offset_delete_key,
  join_group_key, sync_group_key, heartbeat_key, leave_group_key, describe_groups_key,
  list_groups_key, delete_groups_key, init_producer_id_key, add_partitions_to_txn_key,
  add_offsets_to_txn_key, end_txn_key, txn_offset_commit_key, create_topics_key, delete_topics_key,
  describe_configs_key,
}
use kroxy.Proxy.Conn.{
  Conn, Packages, Answers, api_versions, raw, passed, counted, Step, fail, emit, write_response,
  ensure_upstream, before_auth, round_trip_failed, header_failed, panicked,
}
use kroxy.Proxy.Counts.{requests, tenant_label}
use kroxy.Proxy.Handlers.{handle}
use kroxy.Proxy.Sasl.{is_authenticated, handle_sasl_handshake, handle_sasl_authenticate}
use kroxy.Resolver.Memory.{MemoryResolver}
use kroxy.Rewrite.Message.{Api}

-- None stands for a nil handler: the frame is passed on as it is.
unfoldable pub rewrite_handler : ℤ → Option Api
rewrite_handler key =
    if eq_num key metadata_key
    then some Api.metadata
    else if eq_num key produce_key
    then some Api.produce
    else if eq_num key fetch_key
    then some Api.fetch
    else if eq_num key list_offsets_key
    then some Api.list_offsets
    else if eq_num key find_coordinator_key
    then some Api.find_coordinator
    else if eq_num key offset_commit_key
    then some Api.offset_commit
    else if eq_num key offset_fetch_key
    then some Api.offset_fetch
    else if eq_num key offset_delete_key
    then some Api.offset_delete
    else if eq_num key join_group_key
    then some Api.join_group
    else if eq_num key sync_group_key
    then some Api.sync_group
    else if eq_num key heartbeat_key
    then some Api.heartbeat
    else if eq_num key leave_group_key
    then some Api.leave_group
    else if eq_num key describe_groups_key
    then some Api.describe_groups
    else if eq_num key list_groups_key
    then some Api.list_groups
    else if eq_num key delete_groups_key
    then some Api.delete_groups
    else if eq_num key init_producer_id_key
    then some Api.init_producer_id
    else if eq_num key add_partitions_to_txn_key
    then some Api.add_partitions_to_txn
    else if eq_num key add_offsets_to_txn_key
    then some Api.add_offsets_to_txn
    else if eq_num key end_txn_key
    then some Api.end_txn
    else if eq_num key txn_offset_commit_key
    then some Api.txn_offset_commit
    else if eq_num key create_topics_key
    then some Api.create_topics
    else if eq_num key delete_topics_key
    then some Api.delete_topics
    else if eq_num key describe_configs_key
    then some Api.describe_configs
    else none

module _ {R : Type 0} (P : Packages R) (w : Answers) (r : MemoryResolver) (c : Conn) where
  unfoldable pub forward_rewritten : Api → RequestHeader → Bytes → Step R
  forward_rewritten a hdr body = ensure_upstream w c λ c' d. handle P w c' d a hdr body

  -- The frame is handed to RoundTrip, which sends a copy with its own correlation id in it and puts
  -- the client's id back into the answer (Upstream.RoundTrip).
  unfoldable pub forward_passthrough : Bytes → Step R
  forward_passthrough frame = ensure_upstream w c λ c' d. emit (passed d frame) (elim w.round_trip [
    | none ↦ fail c' round_trip_failed
    | some resp ↦ write_response w c' (raw resp)
  ])

  abbrev pub forward : RequestHeader → Bytes → Bytes → Step R
  forward hdr frame body = elim (rewrite_handler hdr.api_key) [
    | none ↦ forward_passthrough frame
    | some a ↦ forward_rewritten a hdr body
  ]

  unfoldable pub dispatch : RequestHeader → Bytes → Bytes → Step R
  unfolding forward_passthrough forward_rewritten rewrite_handler
  dispatch hdr frame body =
      if eq_num hdr.api_key api_versions_key
      then write_response w c api_versions
      else if eq_num hdr.api_key sasl_handshake_key
      then handle_sasl_handshake P w r c hdr body
      else if eq_num hdr.api_key sasl_authenticate_key
      then handle_sasl_authenticate P w r c hdr body
      else if not (is_authenticated c.state)
      then fail c before_auth
      else forward hdr frame body

  -- The request is observed under the tenant that the connection has afterwards, whether or not
  -- dispatch failed.
  abbrev pub observe_request : RequestHeader → Step R → Step R
  observe_request hdr s = record {
    conn = s.conn;
    events = s.events ++ (counted (requests hdr.api_key (tenant_label s.conn.tenant.id)) ∷ []);
    error = s.error;
  }

  -- One round of the loop of serve on a frame that was read: a header that cannot be read
  -- ends the connection, and one whose size is not a position of the frame makes the slice
  -- expression panic, which ends the process.
  unfoldable pub serve_frame : Bytes → Step R
  unfolding dispatch
  serve_frame frame = elim (parse_request_header frame) [
    | err _ ↦ fail c header_failed
    | ok hdr ↦ elim (slice_from frame hdr.header_size) [
      | err _ ↦ fail c panicked
      | ok body ↦ observe_request hdr (dispatch hdr frame body)
    ]
  ]
