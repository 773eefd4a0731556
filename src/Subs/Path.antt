-- ===== src/Subs/Path.antt =====
-- _add_topic_to_path of src/mqtt-core/src/subs.c: the full topic of a node, as the broker announces
-- it, in a buffer of MAX_TOPIC_LEN bytes.
use opendxl_broker.Prelude.{
  ℕ, suc, ◌-◌, List, [], ◌∷◌, ◌++◌, ◌&&◌, ◌||◌, not, Str, length, take, ltb, ◌==◌, if◌then◌else◌,
}
use opendxl_broker.Topic.Tokens.{slash}
use opendxl_broker.Subs.Tree.{is_empty}

abbrev pub max_topic_len : ℕ
max_topic_len = 1024

abbrev pub separator : Str → ℕ → Str → Str
separator full depth topic =
    if ltb 2 depth || (depth == 2 && (is_empty topic && not (is_empty full)))
    then slash ∷ []
    else []

-- The last byte of the buffer is NUL, and strncpy fills what the separator leaves of it.
unfoldable pub add_topic_to_path : Str → Str → ℕ → Str
add_topic_to_path topic full depth =
    if ltb (length full) max_topic_len
    then take (max_topic_len - 1) (full ++ (separator full depth topic ++ topic))
    else take (max_topic_len - 1) full

-- The path of a node below others, each added at its depth.
unfoldable pub full_path : Str → ℕ → List Str → Str
unfolding add_topic_to_path
full_path full depth [] = full
full_path full depth (t ∷ ts) = full_path (add_topic_to_path t full depth) (suc depth) ts
