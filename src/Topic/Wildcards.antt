-- ===== src/Topic/Wildcards.antt =====
-- _mosquitto_topic_wildcard_len_check and _mosquitto_topic_wildcard_pos_check of
-- src/mqtt-core/lib/util_mosq.c: the checks of a topic to publish to and of a filter to subscribe
-- to. `int` is not seen to overflow: a topic comes with sixteen bits of length.
use opendxl_broker.Prelude.{
  ℕ, ◌+◌, Bool, [], ◌∷◌, ◌&&◌, ◌||◌, not, Str, char_at, ltb, ◌==◌, if◌then◌else◌,
}
use opendxl_broker.Topic.Tokens.{slash}

abbrev pub mosq_err_success : ℕ
mosq_err_success = 0

abbrev pub mosq_err_inval : ℕ
mosq_err_inval = 3

abbrev pub plus_char : ℕ
plus_char = b'+'

abbrev pub pound_char : ℕ
pound_char = b'#'

abbrev pub max_length : ℕ
max_length = 65535

abbrev pub check_length : ℕ → ℕ
check_length len = if ltb max_length len then mosq_err_inval else mosq_err_success

unfoldable pub len_check_loop : ℕ → Str → ℕ
len_check_loop len [] = check_length len
len_check_loop len (x ∷ s) =
    let rest = len_check_loop (len + 1) s in
    if x == plus_char || x == pound_char then mosq_err_inval else rest

unfoldable pub topic_wildcard_len_check : Str → ℕ
unfolding len_check_loop
topic_wildcard_len_check s = len_check_loop 0 s

-- `c != '\0' && c != '/'`
abbrev pub is_inside : ℕ → Bool
is_inside c = not (c == 0) && not (c == slash)

-- `c` is the character before.
unfoldable pub pos_check_loop : ℕ → ℕ → Str → ℕ
pos_check_loop c len [] = check_length len
pos_check_loop c len (x ∷ s) =
    let rest = pos_check_loop x (len + 1) s in
    if x == plus_char
    then (if is_inside c || is_inside (char_at s 0) then mosq_err_inval else rest)
    else if x == pound_char
    then (if is_inside c || not (char_at s 0 == 0) then mosq_err_inval else rest)
    else rest

unfoldable pub topic_wildcard_pos_check : Str → ℕ
unfolding pos_check_loop
topic_wildcard_pos_check s = pos_check_loop 0 0 s
