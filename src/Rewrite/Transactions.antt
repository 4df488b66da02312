-- ===== src/Rewrite/Transactions.antt =====
-- rewrite/groups.go, the transactional messages.
use kroxy.Base.{Bytes, map, List}
use kroxy.Rewrite.Kmsg.{
  TopicsMessage, TransactionTopics, InitProducerIdRequest, AddPartitionsToTxnRequest,
  AddPartitionsToTxnResponse, AddOffsetsToTxnRequest, EndTxnRequest, TxnOffsetCommitRequest,
  rename_topics,
}
use kroxy.Rewrite.Names.{prefix_in, prefix_in_ptr, strip_out}

module _ {R : Type 0} where
  unfoldable pub init_producer_id_request_in :
      Bytes → InitProducerIdRequest R → InitProducerIdRequest R
  init_producer_id_request_in prefix req = record req {
    transactional_id = prefix_in_ptr prefix req.transactional_id;
  }

  abbrev pub rename_transaction : (Bytes → Bytes) → TransactionTopics R → TransactionTopics R
  rename_transaction f tx = record tx {
    transactional_id = f tx.transactional_id;
    topics = rename_topics f tx.topics;
  }

  -- The loops over the transactions of a v4+ batch.
  abbrev pub rename_transactions :
      (Bytes → Bytes) → List (TransactionTopics R) → List (TransactionTopics R)
  rename_transactions f = map (rename_transaction f)

  unfoldable pub add_partitions_to_txn_request_in :
      Bytes → AddPartitionsToTxnRequest R → AddPartitionsToTxnRequest R
  add_partitions_to_txn_request_in prefix req = record req {
    transactional_id = prefix_in prefix req.transactional_id;
    topics = rename_topics (prefix_in prefix) req.topics;
    transactions = rename_transactions (prefix_in prefix) req.transactions;
  }

  unfoldable pub add_partitions_to_txn_response_out :
      Bytes → AddPartitionsToTxnResponse R → AddPartitionsToTxnResponse R
  add_partitions_to_txn_response_out prefix resp = record resp {
    topics = rename_topics (strip_out prefix) resp.topics;
    transactions = rename_transactions (strip_out prefix) resp.transactions;
  }

  unfoldable pub add_offsets_to_txn_request_in :
      Bytes → AddOffsetsToTxnRequest R → AddOffsetsToTxnRequest R
  add_offsets_to_txn_request_in prefix req = record req {
    transactional_id = prefix_in prefix req.transactional_id;
    group = prefix_in prefix req.group;
  }

  unfoldable pub end_txn_request_in : Bytes → EndTxnRequest R → EndTxnRequest R
  end_txn_request_in prefix req = record req {
    transactional_id = prefix_in prefix req.transactional_id;
  }

  unfoldable pub txn_offset_commit_request_in :
      Bytes → TxnOffsetCommitRequest R → TxnOffsetCommitRequest R
  txn_offset_commit_request_in prefix req = record req {
    transactional_id = prefix_in prefix req.transactional_id;
    group = prefix_in prefix req.group;
    topics = rename_topics (prefix_in prefix) req.topics;
  }

  unfoldable pub txn_offset_commit_response_out : Bytes → TopicsMessage R → TopicsMessage R
  txn_offset_commit_response_out prefix resp = record resp {
    topics = rename_topics (strip_out prefix) resp.topics;
  }
