-- ===== src/Proxy/Outgoing.antt =====
-- proxy/rewrite*.go: what a handler does to the connection and what it sends upstream.
use kroxy.Base.{
  ◌≡◌, refl, inl, inr, ℤ, Bool, true, false, Option, none, some, [], Bytes, eq_num, if◌then◌else◌,
  All, Option-cases, Bool-cases,
}
use kroxy.Protocol.Header.{RequestHeader}
use kroxy.Proxy.Conn.{
  Dial, Conn, Packages, Answers, Event, dialled, relayed, requested, passed, answered, counted,
  Step, ConnError, fail, emit, decode_failed, round_trip_failed, address_failed, acks_unsupported,
}
use kroxy.Proxy.Handlers.{
  advertised, round_trip_typed, rewrite_and_write, exchange, exchange_address, handle_produce,
  handle,
}
use kroxy.Rewrite.Isolation.{Scoped}
use kroxy.Rewrite.Message.{Api, RequestOf, ResponseOf, rewrite_request}
use kroxy.Rewrite.Message.RequestNames.{request_names}
use kroxy.Rewrite.Message.Requests.{rewrite_request-Scoped}

module _ {R : Type 0} (P : Packages R) (w : Answers) (c : Conn) (d : Dial) where
  -- A handler answers the client, and sends a request on the given connection whose names, as far
  -- as request_names has them, are all empty or the tenant's.
  abbrev pub Sent : Event R → Type 0
  Sent (requested d' a req) = (d' ≡ d) × All (Scoped c.tenant.topic_prefix) (request_names R a req)
  Sent (answered resp) = Unit
  Sent (counted n) = ⊥
  Sent (dialled d') = ⊥
  Sent (relayed d' payload) = ⊥
  Sent (passed d' frame) = ⊥

  pub record Handled (s : Step R) : Type 0 where
    pub same : s.conn ≡ c
    pub sent : All Sent s.events

  write-Handled :
      (a : Api) (host : Bytes) (port : ℤ) (resp : ResponseOf R a)
      → Handled (rewrite_and_write P w c d a host port resp)
  write-Handled a host port resp = elim (Bool-cases w.writes) [
    | inl e ↦ rw e (record { same = refl; sent = (tt, tt) })
    | inr e ↦ rw e (record { same = refl; sent = tt })
  ]

  emit-Handled : (e : Event R) (s : Step R) → Sent e → Handled s → Handled (emit e s)
  emit-Handled e s h k = record { same = k.same; sent = (h, k.sent) }

  fail-Handled : (e : ConnError) → Handled (fail c e)
  fail-Handled e = record { same = refl; sent = tt }

  reply-Handled :
      (a : Api) (version : ℤ) (rest : ResponseOf R a → Step R) (o : Option Bytes)
      → ((resp : ResponseOf R a) → Handled (rest resp))
      → Handled (elim o [
        | none ↦ fail c round_trip_failed
        | some body ↦ elim (P.read_response a version body) [
          | none ↦ fail c decode_failed
          | some resp ↦ rest resp
        ]
      ])
  reply-Handled a version rest none k = fail-Handled round_trip_failed
  reply-Handled a version rest (some body) k =
      elim (Option-cases (P.read_response a version body)) [
        | inl e ↦ rw e (fail-Handled decode_failed)
        | inr (resp, e) ↦ rw e (k resp)
      ]

  round_trip-Handled :
      (a : Api) (version : ℤ) (req : RequestOf R a) (rest : ResponseOf R a → Step R)
      → ((resp : ResponseOf R a) → Handled (rest resp))
      → Handled (
          round_trip_typed P w c d a version
            (rewrite_request P.members a c.tenant.topic_prefix req)
            rest)
  round_trip-Handled a version req rest k =
      emit-Handled (requested d a (rewrite_request P.members a c.tenant.topic_prefix req)) _
        (refl, rewrite_request-Scoped P.members c.tenant.topic_prefix a req)
        (reply-Handled a version rest w.round_trip k)

  decode-Handled :
      (a : Api) (o : Option (RequestOf R a)) (rest : RequestOf R a → Step R)
      → ((req : RequestOf R a)
          → Handled (rest (rewrite_request P.members a c.tenant.topic_prefix req)))
      → Handled (elim o [
        | none ↦ fail c decode_failed
        | some req ↦ rest (rewrite_request P.members a c.tenant.topic_prefix req)
      ])
  decode-Handled a none rest k = fail-Handled decode_failed
  decode-Handled a (some req) rest k = k req

  choice-Handled : (b : Bool) {s t : Step R} → Handled s → Handled t → Handled (if b then s else t)
  choice-Handled true p q = p
  choice-Handled false p q = q

  exchange-Handled :
      (a : Api) (hdr : RequestHeader) (body : Bytes) → Handled (exchange P w c d a hdr body)
  exchange-Handled a hdr body =
      decode-Handled a (P.read_request a hdr.api_version body)
        (λ req.
          round_trip_typed P w c d a hdr.api_version req (rewrite_and_write P w c d a [] (ℤ.pos 0)))
        (λ req. round_trip-Handled a hdr.api_version req _ (write-Handled a [] (ℤ.pos 0)))

  address-Handled :
      (a : Api) (resp : ResponseOf R a)
      → Handled (elim (advertised P w c d) [
        | none ↦ fail c address_failed
        | some hp ↦ rewrite_and_write P w c d a hp.0 hp.1 resp
      ])
  address-Handled a resp = elim (Option-cases (advertised P w c d)) [
    | inl e ↦ rw e (fail-Handled address_failed)
    | inr (hp, e) ↦ rw e (write-Handled a hp.0 hp.1 resp)
  ]

  exchange_address-Handled :
      (a : Api) (hdr : RequestHeader) (body : Bytes) → Handled (exchange_address P w c d a hdr body)
  exchange_address-Handled a hdr body =
      decode-Handled a (P.read_request a hdr.api_version body)
        (λ req. round_trip_typed P w c d a hdr.api_version req λ resp. elim (advertised P w c d) [
          | none ↦ fail c address_failed
          | some hp ↦ rewrite_and_write P w c d a hp.0 hp.1 resp
        ])
        (λ req. round_trip-Handled a hdr.api_version req _ (address-Handled a))

  produce-Handled : (hdr : RequestHeader) (body : Bytes) → Handled (handle_produce P w c d hdr body)
  unfolding handle_produce
  produce-Handled hdr body =
      decode-Handled Api.produce (P.read_request Api.produce hdr.api_version body)
        (λ req.
          if eq_num req.acks 0
          then fail c acks_unsupported
          else round_trip_typed P w c d Api.produce hdr.api_version req
              (rewrite_and_write P w c d Api.produce [] (ℤ.pos 0)))
        (λ req. choice-Handled _ (fail-Handled acks_unsupported) (
          round_trip-Handled Api.produce hdr.api_version req _
            (write-Handled Api.produce [] (ℤ.pos 0))))

  pub handle-Handled :
      (a : Api) (hdr : RequestHeader) (body : Bytes) → Handled (handle P w c d a hdr body)
  unfolding handle
  handle-Handled Api.metadata = exchange_address-Handled Api.metadata
  handle-Handled Api.produce = produce-Handled
  handle-Handled Api.fetch = exchange-Handled Api.fetch
  handle-Handled Api.list_offsets = exchange-Handled Api.list_offsets
  handle-Handled Api.find_coordinator = exchange_address-Handled Api.find_coordinator
  handle-Handled Api.offset_commit = exchange-Handled Api.offset_commit
  handle-Handled Api.offset_fetch = exchange-Handled Api.offset_fetch
  handle-Handled Api.offset_delete = exchange-Handled Api.offset_delete
  handle-Handled Api.join_group = exchange-Handled Api.join_group
  handle-Handled Api.sync_group = exchange-Handled Api.sync_group
  handle-Handled Api.heartbeat = exchange-Handled Api.heartbeat
  handle-Handled Api.leave_group = exchange-Handled Api.leave_group
  handle-Handled Api.describe_groups = exchange-Handled Api.describe_groups
  handle-Handled Api.list_groups = exchange-Handled Api.list_groups
  handle-Handled Api.delete_groups = exchange-Handled Api.delete_groups
  handle-Handled Api.init_producer_id = exchange-Handled Api.init_producer_id
  handle-Handled Api.add_partitions_to_txn = exchange-Handled Api.add_partitions_to_txn
  handle-Handled Api.add_offsets_to_txn = exchange-Handled Api.add_offsets_to_txn
  handle-Handled Api.end_txn = exchange-Handled Api.end_txn
  handle-Handled Api.txn_offset_commit = exchange-Handled Api.txn_offset_commit
  handle-Handled Api.create_topics = exchange-Handled Api.create_topics
  handle-Handled Api.delete_topics = exchange-Handled Api.delete_topics
  handle-Handled Api.describe_configs = exchange-Handled Api.describe_configs
