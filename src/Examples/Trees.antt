-- ===== src/Examples/Trees.antt =====
-- The tree of subscriptions, the topics and the contexts at concrete inputs.
use opendxl_broker.Prelude.{
  ◌⊎◌, ℕ, ◌≤◌, ◌≡◌, ◌≢◌, ◌↔◌, refl, true, false, none, some, List, [], ◌∷◌, Str, All, pos, codes,
  length, str_eq, arith,
}
use opendxl_broker.Broker.Message.{qos1}
use opendxl_broker.Topic.Tokens.{sub_topic_tokenise}
use opendxl_broker.Topic.Split.{IsCString, levels, join, sub_topic_tokenise-join}
use opendxl_broker.Topic.Wildcards.{mosq_err_success, max_length, topic_wildcard_pos_check}
use opendxl_broker.Topic.Filters.{is_filter, topic_wildcard_pos_check-is_filter}
use opendxl_broker.Subs.Tree.{Leaf, Hier, null, node, find_child, pound, plus}
use opendxl_broker.Subs.Add.{Contexts, Ledger, add_leaf, sub_add_full_topic, sub_add}
use opendxl_broker.Subs.Remove.{sub_remove}
use opendxl_broker.Subs.Clean.{subs_clean_session}
use opendxl_broker.Subs.Counters.Clean.{subs_clean_session-CountersMatch}
use opendxl_broker.Subs.Path.{full_path}
use opendxl_broker.Subs.Ends.Check.{sub_add-PoundEnds}
use opendxl_broker.Subs.Lookup.Add.{sub_add_full_topic-leaves_at}
use opendxl_broker.Subs.Announced.{full_path-sub_topic_tokenise}
use opendxl_broker.Subs.Deliver.{Delivery, Inbox, subs_process, sub_search}
use opendxl_broker.Subs.Counters.{CountersMatch}
use opendxl_broker.Subs.Counters.Update.{sub_add-CountersMatch, sub_remove-CountersMatch}
use opendxl_broker.Subs.Filters.{leaves_at, PoundEnds, Subscribed, In}
use opendxl_broker.Subs.Filters.Search.{sub_search_exact}
use opendxl_broker.Examples.Data.{client, two_queue, heap, env}

-- The tree of the root's child with the empty topic, below which `a/#` and `a/+` are subscribed.
abbrev leaf : ℕ → Leaf
leaf c = record { context = c; qos = qos1 }

abbrev wilds : Hier
wilds = node pound (leaf 1 ∷ []) none 0 0 null (node plus (leaf 2 ∷ []) none 0 0 null null)

abbrev tree : Hier
tree = node [] [] none 0 0 (node (codes "a") [] none 1 1 wilds null) null

tree-CountersMatch : CountersMatch tree
unfolding str_eq
tree-CountersMatch = (refl, refl, (refl, refl, (refl, refl, tt, (refl, refl, tt, tt)), tt), tt)

tree-PoundEnds : PoundEnds tree
unfolding str_eq find_child
tree-PoundEnds = (tt, (refl, (tt, tt, (tt, tt, tt)), tt), tt)

abbrev contexts : Contexts
contexts a = client two_queue

abbrev delivery : Delivery
delivery = record { source_id = codes "source"; qos = qos1; retain = false; stored = 0 }

abbrev inbox : Inbox
inbox = record { contexts = contexts; heap = heap }

abbrev ledger : Ledger
ledger = record { contexts = contexts; subscription_count = pos 0; events = [] }

abbrev a_b : List Str
a_b = codes "a" ∷ codes "b" ∷ []

sub_search_exact_example :
    (ls : List Leaf) × (sub_search env delivery tree a_b inbox ≡ subs_process env delivery ls inbox)
    × ((x : Leaf) → In x ls ↔ Subscribed x tree a_b)
sub_search_exact_example =
    sub_search_exact env delivery tree a_b inbox tree-CountersMatch tree-PoundEnds

sub_add-CountersMatch_example : CountersMatch (sub_add env 3 (codes "a/#") qos1 tree ledger).1
sub_add-CountersMatch_example =
    sub_add-CountersMatch env 3 (codes "a/#") qos1 tree ledger tree-CountersMatch

sub_remove-CountersMatch_example : CountersMatch (sub_remove 1 (codes "a/#") tree ledger).0
sub_remove-CountersMatch_example =
    sub_remove-CountersMatch 1 (codes "a/#") tree ledger tree-CountersMatch

abbrev filter : Str
filter = codes "a/+/#"

filter-IsCString : IsCString filter
filter-IsCString = (omega arith, (omega arith, (omega arith, (omega arith, (omega arith, tt)))))

sub_topic_tokenise-join_example :
    (ts : List Str) × (((u : Str) × (filter ≡ 36 ∷ u) × (sub_topic_tokenise filter ≡ ts))
      ⊎ (((u : Str) → filter ≢ 36 ∷ u) × (sub_topic_tokenise filter ≡ [] ∷ ts)))
    × (join ts ≡ filter)
    × All (All (λ c. c ≢ 47)) ts
sub_topic_tokenise-join_example = sub_topic_tokenise-join filter filter-IsCString

topic_wildcard_pos_check-is_filter_example :
    (topic_wildcard_pos_check filter ≡ mosq_err_success)
    ↔ ((length filter ≤ max_length) × (is_filter (levels filter) ≡ true))
topic_wildcard_pos_check-is_filter_example =
    topic_wildcard_pos_check-is_filter filter filter-IsCString

full_path-sub_topic_tokenise_example : full_path [] 0 ([] ∷ sub_topic_tokenise filter) ≡ filter
full_path-sub_topic_tokenise_example =
    full_path-sub_topic_tokenise filter filter-IsCString refl (omega arith)

sub_add_full_topic-leaves_at_example :
    let res = sub_add_full_topic env (some 3) qos1 [] 0 tree a_b ledger in
    let path = full_path [] 0 ([] ∷ a_b) in
    ((res.0, leaves_at res.1 a_b, res.2) ≡ add_leaf path 3 qos1 (leaves_at tree a_b) ledger)
    × ((f : List Str) → a_b ≢ f → leaves_at res.1 f ≡ leaves_at tree f)
sub_add_full_topic-leaves_at_example =
    sub_add_full_topic-leaves_at env 3 qos1 [] 0 tree a_b ledger refl refl

subs_clean_session-CountersMatch_example : CountersMatch (subs_clean_session tree ledger).0
subs_clean_session-CountersMatch_example =
    subs_clean_session-CountersMatch tree ledger tree-CountersMatch

filter_passes : topic_wildcard_pos_check filter ≡ mosq_err_success
unfolding topic_wildcard_pos_check
filter_passes = refl

sub_add-PoundEnds_example : PoundEnds (sub_add env 3 filter qos1 tree ledger).1
sub_add-PoundEnds_example =
    sub_add-PoundEnds env 3 filter qos1 tree ledger filter-IsCString filter_passes tree-PoundEnds
