-- ===== src/Proxy/Advertised.antt =====
-- proxy/conn.go, handleApiVersions: the APIs that the proxy advertises, against the table of
-- rewrite handlers and the keys that dispatch answers itself.
use kroxy.Base.{◌≡◌, ◌≢◌, ◌↔◌, ◌⊎◌, arith, ℕ, ℤ, eq_num, true, none, List, [], ◌∷◌}
use kroxy.Protocol.Keys.{
  api_versions_key, sasl_handshake_key, sasl_authenticate_key, metadata_key, produce_key, fetch_key,
  list_offsets_key, find_coordinator_key, offset_commit_key, offset_fetch_key, offset_delete_key,
  join_group_key, sync_group_key, heartbeat_key, leave_group_key, describe_groups_key,
  list_groups_key, delete_groups_key, init_producer_id_key, add_partitions_to_txn_key,
  add_offsets_to_txn_key, end_txn_key, txn_offset_commit_key, create_topics_key, delete_topics_key,
  describe_configs_key,
}
use kroxy.Proxy.Dispatch.{rewrite_handler}

pub record ApiKey : Type 0 where
  pub api_key : ℕ
  pub min_version : ℕ
  pub max_version : ℕ

abbrev versions : ℕ → ℕ → ApiKey
versions key last = record { api_key = key; min_version = 0; max_version = last }

-- The body of the response; its version is the request's.
unfoldable pub advertised_keys : List ApiKey
advertised_keys =
    versions api_versions_key 3
    ∷ versions sasl_handshake_key 1
    ∷ versions sasl_authenticate_key 2
    ∷ versions produce_key 9
    ∷ versions fetch_key 11
    ∷ versions list_offsets_key 7
    ∷ versions metadata_key 9
    ∷ versions offset_commit_key 9
    ∷ versions offset_fetch_key 9
    ∷ versions find_coordinator_key 4
    ∷ versions join_group_key 9
    ∷ versions heartbeat_key 4
    ∷ versions leave_group_key 5
    ∷ versions sync_group_key 5
    ∷ versions describe_groups_key 5
    ∷ versions list_groups_key 4
    ∷ versions create_topics_key 6
    ∷ versions delete_topics_key 5
    ∷ versions init_producer_id_key 4
    ∷ versions add_partitions_to_txn_key 4
    ∷ versions add_offsets_to_txn_key 3
    ∷ versions end_txn_key 3
    ∷ versions txn_offset_commit_key 3
    ∷ versions describe_configs_key 4
    ∷ versions delete_groups_key 2
    ∷ versions offset_delete_key 0
    ∷ []

abbrev pub IsAnyOf : ℤ → List ApiKey → Type 0
IsAnyOf key [] = ⊥
IsAnyOf key (k ∷ ks) = (eq_num key k.api_key ≡ true) ⊎ IsAnyOf key ks

-- The APIs that ApiVersions advertises are exactly the three that the proxy answers itself and those
-- with a rewrite handler: no advertised API is passed on unchanged.
pub advertised_iff :
    (key : ℤ)
    → IsAnyOf key advertised_keys ↔ (
        ((eq_num key api_versions_key ≡ true)
          ⊎ (eq_num key sasl_handshake_key ≡ true)
          ⊎ (eq_num key sasl_authenticate_key ≡ true))
        ⊎ (rewrite_handler key ≢ none))
unfolding advertised_keys rewrite_handler
advertised_iff key = ground arith
