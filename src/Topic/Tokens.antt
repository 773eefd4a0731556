-- ===== src/Topic/Tokens.antt =====
-- _sub_topic_tokenise of src/mqtt-core/src/subs.c: a topic cut at its slashes. The allocations are
-- taken to succeed.
use opendxl_broker.Prelude.{
  ℕ, zero, suc, ◌+◌, ◌-◌, ◌||◌, List, [], ◌∷◌, ◌++◌, Str, char_at, take, drop, length, ◌==◌,
  if◌then◌else◌,
}

abbrev pub slash : ℕ
slash = b'/'

abbrev pub dollar : ℕ
dollar = b'$'

-- `memcpy(token, &subtopic[start], stop - start)`, and the empty token for `start == stop`
abbrev pub slice : Str → ℕ → ℕ → Str
slice s start stop = take (stop - start) (drop start s)

-- for(i=start; i<len+1; i++), with the rounds that are left.
unfoldable pub tokenise_loop : Str → ℕ → ℕ → ℕ → List Str
tokenise_loop s zero i start = []
tokenise_loop s (suc rounds) i start =
    let cut = slice s start i ∷ tokenise_loop s rounds (i + 1) (i + 1) in
    let on = tokenise_loop s rounds (i + 1) start in
    if char_at s i == slash || char_at s i == 0 then cut else on

-- The tokens in front of the loop, and where it starts.
unfoldable pub unless_dollar : Str → List Str
unless_dollar s = if char_at s 0 == dollar then [] else [] ∷ []

unfoldable pub sub_topic_tokenise : Str → List Str
unfolding tokenise_loop unless_dollar
sub_topic_tokenise s =
    if char_at s 0 == slash
    then unless_dollar s ++ ([] ∷ tokenise_loop s (length s) 1 1)
    else unless_dollar s ++ tokenise_loop s (length s + 1) 0 0
