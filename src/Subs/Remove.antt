-- ===== src/Subs/Remove.antt =====
-- _sub_remove_full_topic and mqtt3_sub_remove of src/mqtt-core/src/subs.c.
use opendxl_broker.Prelude.{
  ℕ, ◌+◌, Bool, false, Option, none, some, List, [], ◌∷◌, ◌++◌, ◌&&◌, not, Str, dec, ◌==◌,
  if◌then◌else◌,
}
use opendxl_broker.Topic.Tokens.{sub_topic_tokenise}
use opendxl_broker.Subs.Tree.{
  Leaf, Hier, null, node, find_child, replace_child, remove_child, pound, plus, count_out, is_none,
  is_empty, is_null,
}
use opendxl_broker.Subs.Path.{add_topic_to_path}
use opendxl_broker.Subs.Add.{Contexts, modify_context, topic_removed, Ledger, has_client}

-- _is_topic_removed
unfoldable pub is_topic_removed : Contexts → ℕ → List Leaf → Bool
unfolding has_client
is_topic_removed cs c ls = if (cs c).is_bridge then false else not (has_client cs ls)

-- The first leaf of the context goes, if there is one.
unfoldable pub drop_leaf : ℕ → List Leaf → Option (List Leaf)
drop_leaf c [] = none
drop_leaf c (leaf ∷ ls) =
    let rest = drop_leaf c ls in
    if leaf.context == c then some ls else elim rest [ none ↦ none | some ls' ↦ some (leaf ∷ ls') ]

abbrev pub discount_subscription : Contexts → ℕ → Contexts
discount_subscription cs c =
    modify_context cs c λ x. record x { subscription_count = dec x.subscription_count }

unfoldable pub remove_leaf : Str → ℕ → List Leaf → Ledger → List Leaf × Ledger
unfolding drop_leaf is_topic_removed
remove_leaf full c ls s = elim (drop_leaf c ls) [
  | none ↦ (ls, s)
  | some ls' ↦ (
    ls',
    record {
      contexts = discount_subscription s.contexts c;
      subscription_count = dec s.subscription_count;
      events =
          if is_topic_removed s.contexts c ls'
          then s.events ++ (topic_removed full ∷ [])
          else s.events;
    },
  )
]

-- A node without children, subscriptions and retained message is freed by its parent.
abbrev pub is_dead : Hier → Bool
is_dead null = false
is_dead (node t ls r p q ch nx) = is_null ch && (is_empty ls && is_none r)

module _ (c : ℕ) where
  unfoldable pub sub_remove_full_topic : Str → ℕ → Hier → List Str → Ledger → Hier × Ledger
  unfolding remove_leaf
  sub_remove_full_topic full depth null tokens s = (null, s)
  sub_remove_full_topic full depth (node t ls r p q ch nx) [] s =
      let (ls', s') = remove_leaf (add_topic_to_path t full depth) c ls s in
      (node t ls' r p q ch nx, s')
  sub_remove_full_topic full depth (node t ls r p q ch nx) (u ∷ tokens) s = elim (find_child u ch) [
    | none ↦ (node t ls r p q ch nx, s)
    | some b ↦
        let (b', s') =
          sub_remove_full_topic (add_topic_to_path t full depth) (depth + 1) b tokens s in
        if is_dead b'
        then (node t ls r (count_out pound u p) (count_out plus u q) (remove_child u ch) nx, s')
        else (node t ls r p q (replace_child u b' ch) nx, s')
  ]

  -- The children of the root stay.
  unfoldable pub sub_remove_root : Hier → List Str → Ledger → Hier × Ledger
  unfolding sub_remove_full_topic
  sub_remove_root root [] s = (root, s)
  sub_remove_root root (t ∷ tokens) s = elim (find_child t root) [
    | none ↦ (root, s)
    | some b ↦
        let (b', s') = sub_remove_full_topic [] 0 b (t ∷ tokens) s in (replace_child t b' root, s')
  ]

  unfoldable pub sub_remove : Str → Hier → Ledger → Hier × Ledger
  unfolding sub_remove_root
  sub_remove sub root s = sub_remove_root root (sub_topic_tokenise sub) s
