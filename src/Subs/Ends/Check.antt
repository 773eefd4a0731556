-- ===== src/Subs/Ends/Check.antt =====
-- A filter that has passed the check of its wildcards has a `#` at its end only.
use opendxl_broker.Prelude.{
  ℕ, ◌≡◌, refl, subst, true, List, [], ◌∷◌, ◌++◌, Str, str_eq, str_eq→eq, if_intro, &&_true,
  char_at, ◌==◌,
}
use opendxl_broker.Broker.Message.{Qos}
use opendxl_broker.Broker.Context.{Env}
use opendxl_broker.Topic.Tokens.{dollar, unless_dollar}
use opendxl_broker.Topic.Split.{IsCString, levels, sub_topic_tokenise-levels}
use opendxl_broker.Topic.Wildcards.{mosq_err_success, topic_wildcard_pos_check}
use opendxl_broker.Topic.Filters.{no_wild, is_level, is_filter, topic_wildcard_pos_check-is_filter}
use opendxl_broker.Subs.Tree.{Hier, pound}
use opendxl_broker.Subs.Add.{Ledger, sub_add}
use opendxl_broker.Subs.Filters.{PoundEnds}
use opendxl_broker.Subs.Ends.{PoundLast, add_tokens-PoundEnds}

level_not_pound : (t : Str) → is_level t ≡ true → str_eq t pound ≡ true → ⊥
unfolding no_wild str_eq
level_not_pound t h g =
    let bad : is_level pound ≡ true = subst (λ x. is_level x ≡ true) (str_eq→eq t pound g) h in cc

PoundLast-is_filter : (ts : List Str) → is_filter ts ≡ true → PoundLast ts
unfolding is_filter
PoundLast-is_filter [] h = tt
PoundLast-is_filter (t ∷ []) h = (λ g. refl, tt)
PoundLast-is_filter (t ∷ u ∷ ts) h =
    let (a, b) = &&_true (is_level t) (is_filter (u ∷ ts)) h in
    (λ g. absurd (level_not_pound t a g), PoundLast-is_filter (u ∷ ts) b)

PoundLast-unless_dollar :
    (s : Str) (ts : List Str) → PoundLast ts → PoundLast (unless_dollar s ++ ts)
unfolding unless_dollar str_eq
PoundLast-unless_dollar s ts l =
    if_intro (λ (us : List Str). PoundLast (us ++ ts)) (char_at s 0 == dollar) _ _ (λ _. l)
      (λ _. (λ g. cc, l))

-- For a filter as a C string that passes the check of the positions of its wildcards, and a tree in
-- which no subscription goes on behind a `#`: none does after a subscription to the filter by
-- mqtt3_sub_add, whatever the decision on the tenant.
pub sub_add-PoundEnds :
    (env : Env) (c : ℕ) (sub : Str) (qos : Qos) (root : Hier) (s : Ledger)
    → IsCString sub
    → topic_wildcard_pos_check sub ≡ mosq_err_success
    → PoundEnds root
    → PoundEnds (sub_add env c sub qos root s).1
sub_add-PoundEnds env c sub qos root s z ok w =
    let (_, f) = (topic_wildcard_pos_check-is_filter sub z).0 ok in
    add_tokens-PoundEnds env c sub qos root s
      (rw (sub_topic_tokenise-levels sub z)
        (PoundLast-unless_dollar sub (levels sub) (PoundLast-is_filter (levels sub) f)))
      w
