-- ===== src/Subs/Clean.antt =====
-- _subs_clean_session_full_topic and mqtt3_subs_clean_session of src/mqtt-core/src/subs.c: the
-- leaves of the contexts that have `clean_subs` set go, and the nodes that are left with nothing.
use opendxl_broker.Prelude.{ℕ, ◌+◌, List, [], ◌∷◌, ◌++◌, Str, dec, if◌then◌else◌}
use opendxl_broker.Subs.Tree.{Leaf, Hier, null, node, pound, plus, count_out}
use opendxl_broker.Subs.Path.{add_topic_to_path}
use opendxl_broker.Subs.Add.{topic_removed, Ledger}
use opendxl_broker.Subs.Remove.{is_topic_removed, is_dead}

-- The leaves still in the list when one is unlinked: those kept before it, and those behind it.
unfoldable pub clean_leaves : Str → List Leaf → List Leaf → Ledger → List Leaf × Ledger
unfolding is_topic_removed
clean_leaves full kept [] s = (kept, s)
clean_leaves full kept (leaf ∷ ls) s =
    let gone = record s {
      subscription_count = dec s.subscription_count;
      events =
          if is_topic_removed s.contexts leaf.context (kept ++ ls)
          then s.events ++ (topic_removed full ∷ [])
          else s.events;
    } in
    let without : List Leaf × Ledger = clean_leaves full kept ls gone in
    let on : List Leaf × Ledger = clean_leaves full (kept ++ (leaf ∷ [])) ls s in
    if (s.contexts leaf.context).clean_subs then without else on

-- A list of siblings, below a parent with the path `full` and its two counters of wildcards.
pub record Cleaned : Type 0 where
  pub siblings : Hier
  pub pounds : ℕ
  pub pluses : ℕ
  pub ledger : Ledger

unfoldable pub clean_siblings : Str → ℕ → Hier → ℕ → ℕ → Ledger → Cleaned
unfolding clean_leaves
clean_siblings full depth null p q s = record {
  siblings = null;
  pounds = p;
  pluses = q;
  ledger = s;
}
clean_siblings full depth (node t ls r pt qt ch nx) p q s =
    let full' = add_topic_to_path t full depth in
    let (ls', s') = clean_leaves full' [] ls s in
    let below : Cleaned = clean_siblings full' (depth + 1) ch pt qt s' in
    let self = node t ls' r below.pounds below.pluses below.siblings null in
    let freed : Cleaned =
      clean_siblings full depth nx (count_out pound t p) (count_out plus t q) below.ledger in
    let rest : Cleaned = clean_siblings full depth nx p q below.ledger in
    if is_dead self then freed else record rest {
      siblings = node t ls' r below.pounds below.pluses below.siblings rest.siblings;
    }

-- Each child of the root with its own path; they stay.
unfoldable pub subs_clean_session : Hier → Ledger → Hier × Ledger
unfolding clean_siblings
subs_clean_session null s = (null, s)
subs_clean_session (node t ls r p q ch nx) s =
    let full = add_topic_to_path t [] 0 in
    let (ls', s') = clean_leaves full [] ls s in
    let below = clean_siblings full 1 ch p q s' in
    let (nx', s'') = subs_clean_session nx below.ledger in
    (node t ls' r below.pounds below.pluses below.siblings nx', s'')
