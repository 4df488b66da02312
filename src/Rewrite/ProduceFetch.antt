-- ===== src/Rewrite/ProduceFetch.antt =====
-- rewrite/produce_fetch.go
use kroxy.Base.{Bytes}
use kroxy.Rewrite.Kmsg.{TopicsMessage, ProduceRequest, FetchRequest, rename_topics}
use kroxy.Rewrite.Names.{prefix_in, strip_out}

module _ {R : Type 0} where
  -- The transactional id stays as it is.
  unfoldable pub produce_request_in : Bytes → ProduceRequest R → ProduceRequest R
  produce_request_in prefix req = record req {
    topics = rename_topics (prefix_in prefix) req.topics;
  }

  unfoldable pub produce_response_out : Bytes → TopicsMessage R → TopicsMessage R
  produce_response_out prefix resp = record resp {
    topics = rename_topics (strip_out prefix) resp.topics;
  }

  -- The forgotten topics stay as they are.
  unfoldable pub fetch_request_in : Bytes → FetchRequest R → FetchRequest R
  fetch_request_in prefix req = record req { topics = rename_topics (prefix_in prefix) req.topics }

  unfoldable pub fetch_response_out : Bytes → TopicsMessage R → TopicsMessage R
  fetch_response_out prefix resp = record resp {
    topics = rename_topics (strip_out prefix) resp.topics;
  }

  unfoldable pub list_offsets_request_in : Bytes → TopicsMessage R → TopicsMessage R
  list_offsets_request_in prefix req = record req {
    topics = rename_topics (prefix_in prefix) req.topics;
  }

  unfoldable pub list_offsets_response_out : Bytes → TopicsMessage R → TopicsMessage R
  list_offsets_response_out prefix resp = record resp {
    topics = rename_topics (strip_out prefix) resp.topics;
  }
