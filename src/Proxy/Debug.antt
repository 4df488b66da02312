-- ===== src/Proxy/Debug.antt =====
-- proxy/debug.go: the summaries of requests and responses that are logged at debug level, with the
-- functions of fmt and strings that they use.
pub mod Trim
pub mod Words
use kroxy.Base.{
  ◌≡◌, refl, ℕ, zero, suc, ◌+◌, ◌/◌, ◌%◌, ℤ, pos, negsuc, ltb, ◌==◌, Option, none, some, List, [],
  ◌∷◌, ◌++◌, Bytes, codes, length, drop, has_prefix, if◌then◌else◌,
}
use kroxy.Rewrite.Kmsg.{
  Topic, TopicPtr, MetadataTopic, GroupTopics, TopicsMessage, FetchRequest, MetadataRequest,
  MetadataResponse, OffsetFetchRequest, OffsetFetchResponse,
}

-- The decimal digits, with fuel for as many.
abbrev digits : ℕ → ℕ → Bytes
digits zero n = []
digits (suc fuel) n =
    let front = digits fuel (n / 10) in
    if ltb n 10 then (48 + n) ∷ [] else front ++ ((48 + n % 10) ∷ [])

-- %d
unfoldable pub decimal : ℤ → Bytes
decimal (pos n) = digits (suc n) n
decimal (negsuc n) = 45 ∷ digits (suc (suc n)) (suc n)

abbrev hex_digit : ℕ → ℕ
hex_digit n = if ltb n 10 then 48 + n else 87 + n

-- %x of an array of bytes
unfoldable pub hex : Bytes → Bytes
hex [] = []
hex (b ∷ bs) = hex_digit (b / 16) ∷ hex_digit (b % 16) ∷ hex bs

-- The encodings of the characters that unicode.IsSpace accepts.
abbrev pub spaces : List Bytes
spaces =
    (9 ∷ [])
    ∷ (10 ∷ [])
    ∷ (11 ∷ [])
    ∷ (12 ∷ [])
    ∷ (13 ∷ [])
    ∷ (32 ∷ [])
    ∷ (194 ∷ 133 ∷ [])
    ∷ (194 ∷ 160 ∷ [])
    ∷ (225 ∷ 154 ∷ 128 ∷ [])
    ∷ (226 ∷ 128 ∷ 128 ∷ [])
    ∷ (226 ∷ 128 ∷ 129 ∷ [])
    ∷ (226 ∷ 128 ∷ 130 ∷ [])
    ∷ (226 ∷ 128 ∷ 131 ∷ [])
    ∷ (226 ∷ 128 ∷ 132 ∷ [])
    ∷ (226 ∷ 128 ∷ 133 ∷ [])
    ∷ (226 ∷ 128 ∷ 134 ∷ [])
    ∷ (226 ∷ 128 ∷ 135 ∷ [])
    ∷ (226 ∷ 128 ∷ 136 ∷ [])
    ∷ (226 ∷ 128 ∷ 137 ∷ [])
    ∷ (226 ∷ 128 ∷ 138 ∷ [])
    ∷ (226 ∷ 128 ∷ 168 ∷ [])
    ∷ (226 ∷ 128 ∷ 169 ∷ [])
    ∷ (226 ∷ 128 ∷ 175 ∷ [])
    ∷ (226 ∷ 129 ∷ 159 ∷ [])
    ∷ (227 ∷ 128 ∷ 128 ∷ [])
    ∷ []

abbrev pub reverse : Bytes → Bytes
reverse [] = []
reverse (b ∷ bs) = reverse bs ++ (b ∷ [])

abbrev pub reverse_all : List Bytes → List Bytes
reverse_all [] = []
reverse_all (s ∷ ss) = reverse s ∷ reverse_all ss

-- How many bytes of the text one of the sequences takes at its front.
unfoldable pub leading : List Bytes → Bytes → ℕ
leading [] s = 0
leading (p ∷ ps) s = if has_prefix s p then length p else leading ps s

-- Without the sequences at its front, with fuel for its bytes.
unfoldable pub trim_front : List Bytes → ℕ → Bytes → Bytes
trim_front ps zero s = s
trim_front ps (suc fuel) s =
    let rest = trim_front ps fuel (drop (leading ps s) s) in if leading ps s == 0 then s else rest

-- strings.TrimSpace
unfoldable pub trim_space : Bytes → Bytes
unfolding trim_front
trim_space s =
    let front = trim_front spaces (length s) s in
    reverse (trim_front (reverse_all spaces) (length front) (reverse front))

-- The other fields of kmsg's structs that are read: partitions with their error codes, the id of a
-- topic, and the error code of what has one.
pub record DebugFields (R : Type 0) : Type 0 where
  pub partitions : R → List (ℤ × ℤ)
  pub topic_id : R → Bytes
  pub error_code : R → ℤ

abbrev pub deref_str : Option Bytes → Bytes
deref_str none = codes "<nil>"
deref_str (some s) = s

module _ {R : Type 0} where
  -- Each topic with a space behind it, or before it.
  abbrev pub spaced : List (Topic R) → Bytes
  spaced [] = []
  spaced (t ∷ ts) = t.topic ++ (32 ∷ spaced ts)

  abbrev pub prespaced : List (Topic R) → Bytes
  prespaced [] = []
  prespaced (t ∷ ts) = 32 ∷ (t.topic ++ prespaced ts)

  abbrev pub dbg_list_offsets_req : TopicsMessage R → Bytes
  dbg_list_offsets_req req = trim_space (spaced req.topics)

  abbrev dbg_groups : List (GroupTopics R) → Bytes
  dbg_groups [] = []
  dbg_groups (g ∷ gs) =
      codes "{group="
      ++ (g.group ++ (codes ":" ++ (prespaced g.topics ++ (codes "}" ++ dbg_groups gs))))

  abbrev pub dbg_offset_fetch_req : OffsetFetchRequest R → Bytes
  dbg_offset_fetch_req req = trim_space (spaced req.topics ++ dbg_groups req.groups)

  abbrev spaced_ptr : List (TopicPtr R) → Bytes
  spaced_ptr [] = []
  spaced_ptr (t ∷ ts) = deref_str t.topic ++ (32 ∷ spaced_ptr ts)

  -- The argument says whether the list is nil.
  abbrev pub dbg_metadata_req : Option (List (TopicPtr R)) → Bytes
  dbg_metadata_req none = codes "<all>"
  dbg_metadata_req (some topics) = trim_space (spaced_ptr topics)

module _ {R : Type 0} (F : DebugFields R) where
  -- "topic/partition=errcode"
  abbrev pub dbg_partition : Bytes → ℤ × ℤ → Bytes
  dbg_partition topic (partition, code) =
      topic ++ (codes "/" ++ (decimal partition ++ (codes "=err" ++ decimal code)))

  abbrev dbg_partitions : Bytes → List (ℤ × ℤ) → Bytes
  dbg_partitions topic [] = []
  dbg_partitions topic (p ∷ ps) = dbg_partition topic p ++ (32 ∷ dbg_partitions topic ps)

  abbrev predbg_partitions : Bytes → List (ℤ × ℤ) → Bytes
  predbg_partitions topic [] = []
  predbg_partitions topic (p ∷ ps) = 32 ∷ (dbg_partition topic p ++ predbg_partitions topic ps)

  abbrev dbg_topics : List (Topic R) → Bytes
  dbg_topics [] = []
  dbg_topics (t ∷ ts) = dbg_partitions t.topic (F.partitions t.rest) ++ dbg_topics ts

  abbrev predbg_topics : List (Topic R) → Bytes
  predbg_topics [] = []
  predbg_topics (t ∷ ts) = predbg_partitions t.topic (F.partitions t.rest) ++ predbg_topics ts

  -- dbgFetchResp and dbgListOffsetsResp.
  abbrev pub dbg_topics_resp : TopicsMessage R → Bytes
  dbg_topics_resp resp = trim_space (dbg_topics resp.topics)

  abbrev dbg_fetch_topics : List (Topic R) → Bytes
  dbg_fetch_topics [] = []
  dbg_fetch_topics (t ∷ ts) =
      t.topic ++ (codes "/id=" ++ (hex (F.topic_id t.rest) ++ (32 ∷ dbg_fetch_topics ts)))

  abbrev pub dbg_fetch_req : FetchRequest R → Bytes
  dbg_fetch_req req = trim_space (dbg_fetch_topics req.topics)

  abbrev dbg_metadata_topics : List (MetadataTopic R) → Bytes
  dbg_metadata_topics [] = []
  dbg_metadata_topics (t ∷ ts) =
      deref_str t.topic
      ++ (codes "=err" ++ (decimal (F.error_code t.rest) ++ (32 ∷ dbg_metadata_topics ts)))

  abbrev pub dbg_metadata_resp : MetadataResponse R → Bytes
  dbg_metadata_resp resp = trim_space (dbg_metadata_topics resp.topics)

  abbrev dbg_groups_resp : List (GroupTopics R) → Bytes
  dbg_groups_resp [] = []
  dbg_groups_resp (g ∷ gs) =
      codes " {group="
      ++ (g.group
          ++ (codes " gErr="
              ++ (decimal (F.error_code g.rest)
                  ++ (codes ":" ++ (predbg_topics g.topics ++ (codes "}" ++ dbg_groups_resp gs))))))

  abbrev pub dbg_offset_fetch_resp : OffsetFetchResponse R → Bytes
  dbg_offset_fetch_resp resp =
      codes "topErr="
      ++ (decimal (F.error_code resp.rest)
          ++ (predbg_topics resp.topics ++ dbg_groups_resp resp.groups))
