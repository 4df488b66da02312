-- ===== src/Protocol/Keys.antt =====
-- protocol/keys.go. An int16 is an integer; the keys are its constants.
use kroxy.Base.{ℕ, ℤ, Bool, false, eq_num, ge_num, if◌then◌else◌}

abbrev pub produce_key : ℕ
produce_key = 0

abbrev pub fetch_key : ℕ
fetch_key = 1

abbrev pub list_offsets_key : ℕ
list_offsets_key = 2

abbrev pub metadata_key : ℕ
metadata_key = 3

abbrev pub offset_commit_key : ℕ
offset_commit_key = 8

abbrev pub offset_fetch_key : ℕ
offset_fetch_key = 9

abbrev pub find_coordinator_key : ℕ
find_coordinator_key = 10

abbrev pub join_group_key : ℕ
join_group_key = 11

abbrev pub heartbeat_key : ℕ
heartbeat_key = 12

abbrev pub leave_group_key : ℕ
leave_group_key = 13

abbrev pub sync_group_key : ℕ
sync_group_key = 14

abbrev pub describe_groups_key : ℕ
describe_groups_key = 15

abbrev pub list_groups_key : ℕ
list_groups_key = 16

abbrev pub sasl_handshake_key : ℕ
sasl_handshake_key = 17

abbrev pub api_versions_key : ℕ
api_versions_key = 18

abbrev pub create_topics_key : ℕ
create_topics_key = 19

abbrev pub delete_topics_key : ℕ
delete_topics_key = 20

abbrev pub init_producer_id_key : ℕ
init_producer_id_key = 22

abbrev pub add_partitions_to_txn_key : ℕ
add_partitions_to_txn_key = 24

abbrev pub add_offsets_to_txn_key : ℕ
add_offsets_to_txn_key = 25

abbrev pub end_txn_key : ℕ
end_txn_key = 26

abbrev pub txn_offset_commit_key : ℕ
txn_offset_commit_key = 28

abbrev pub describe_configs_key : ℕ
describe_configs_key = 32

abbrev pub sasl_authenticate_key : ℕ
sasl_authenticate_key = 36

abbrev pub delete_groups_key : ℕ
delete_groups_key = 42

abbrev pub offset_delete_key : ℕ
offset_delete_key = 47

unfoldable pub is_flexible_request : ℤ → ℤ → Bool
is_flexible_request key version =
    if eq_num key produce_key
    then ge_num version 9
    else if eq_num key fetch_key
    then ge_num version 12
    else if eq_num key list_offsets_key
    then ge_num version 6
    else if eq_num key metadata_key
    then ge_num version 9
    else if eq_num key offset_commit_key
    then ge_num version 8
    else if eq_num key offset_fetch_key
    then ge_num version 6
    else if eq_num key find_coordinator_key
    then ge_num version 3
    else if eq_num key join_group_key
    then ge_num version 6
    else if eq_num key heartbeat_key
    then ge_num version 4
    else if eq_num key leave_group_key
    then ge_num version 4
    else if eq_num key sync_group_key
    then ge_num version 4
    else if eq_num key describe_groups_key
    then ge_num version 5
    else if eq_num key list_groups_key
    then ge_num version 3
    else if eq_num key sasl_handshake_key
    then false
    else if eq_num key api_versions_key
    then ge_num version 3
    else if eq_num key create_topics_key
    then ge_num version 5
    else if eq_num key delete_topics_key
    then ge_num version 4
    else if eq_num key init_producer_id_key
    then ge_num version 2
    else if eq_num key add_partitions_to_txn_key
    then ge_num version 3
    else if eq_num key add_offsets_to_txn_key
    then ge_num version 3
    else if eq_num key end_txn_key
    then ge_num version 3
    else if eq_num key txn_offset_commit_key
    then ge_num version 3
    else if eq_num key describe_configs_key
    then false
    else if eq_num key sasl_authenticate_key
    then ge_num version 2
    else if eq_num key delete_groups_key
    then ge_num version 2
    else if eq_num key offset_delete_key
    then false
    else false
