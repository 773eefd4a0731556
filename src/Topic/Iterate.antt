-- ===== src/Topic/Iterate.antt =====
-- iterateWildcardNext and isWildcard of src/brokerlib/core/src/CoreUtil.cpp, and the loop that its
-- callers run between iterateWildcardBegin and iterateWildcardEnd: the filters with a `#` at their
-- end that cover a topic, the longest one first. The allocation is taken to succeed.
use opendxl_broker.Prelude.{
  ℕ, zero, suc, ◌+◌, ◌-◌, Bool, Option, none, some, List, [], ◌∷◌, ◌++◌, ◌&&◌, Str, char_at, length,
  take, ltb, leb, ◌==◌, if◌then◌else◌,
}
use opendxl_broker.Topic.Tokens.{slash}
use opendxl_broker.Topic.Wildcards.{pound_char}

-- while( searchPos >= 0 ): `poundPos`, where searchPos is one less than the argument.
unfoldable pub search_slash : Str → ℕ → ℕ
search_slash s zero = 0
search_slash s (suc n) = let on = search_slash s n in if char_at s n == slash then suc n else on

-- searchPos + 1 at the start of the search, which leaves out a `/#` at the end.
unfoldable pub search_start : Str → ℕ
search_start s =
    if leb 2 (length s)
      && (char_at s (length s - 1) == pound_char && char_at s (length s - 2) == slash)
    then length s - 2
    else length s

-- `none` is the answer false, which ends the loop.
unfoldable pub iterate_wildcard_next : Str → Option Str
iterate_wildcard_next s =
    if length s == 1 && char_at s 0 == pound_char
    then none
    else some (take (search_slash s (search_start s)) s ++ (pound_char ∷ []))

-- The topics of the loop's rounds, on fuel; `none` says that the fuel ran out.
unfoldable pub wildcard_loop : ℕ → Str → Option (List Str)
wildcard_loop zero s = none
wildcard_loop (suc fuel) s = elim (iterate_wildcard_next s) [
  | none ↦ some []
  | some t ↦ elim (wildcard_loop fuel t) [ none ↦ none | some ts ↦ some (t ∷ ts) ]
]

-- Each round but the last takes away a slash, and there is one more for the topic itself.
unfoldable pub wildcards : Str → Option (List Str)
wildcards s = wildcard_loop (length s + 2) s

unfoldable pub is_wildcard : Str → Bool
is_wildcard s = ltb 0 (length s) && char_at s (length s - 1) == pound_char
