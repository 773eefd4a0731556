-- ===== src/Subs/Add.antt =====
-- _sub_add_full_topic and mqtt3_sub_add of src/mqtt-core/src/subs.c. The allocations are taken to
-- succeed.
use opendxl_broker.Prelude.{
  ℕ, zero, ◌+◌, Bool, false, Option, none, some, List, [], ◌∷◌, ◌++◌, ◌&&◌, ◌||◌, not, Str, str_eq,
  ℤ, pos, negsuc, inc, ◌==◌, if◌then◌else◌,
}
use opendxl_broker.Broker.Message.{Qos}
use opendxl_broker.Broker.Context.{Context, Env}
use opendxl_broker.Topic.Tokens.{sub_topic_tokenise}
use opendxl_broker.Subs.Tree.{
  Leaf, Hier, null, node, find_child, with_next, replace_child, append_child, new_branch, pound,
  plus, count_in,
}
use opendxl_broker.Subs.Path.{add_topic_to_path}

-- The objects behind the `struct mosquitto *` pointers.
abbrev pub Contexts : Type 0
Contexts = ℕ → Context

abbrev pub modify_context : Contexts → ℕ → (Context → Context) → Contexts
modify_context cs c f d = if c == d then f (cs d) else cs d

-- dxl_on_topic_added_to_broker and dxl_on_topic_removed_from_broker.
pub data TopicEvent : Type 0 where
  topic_added topic_removed : Str → TopicEvent

-- What subscribing changes beside the tree; the events are in order.
pub record Ledger : Type 0 where
  pub contexts : Contexts
  pub subscription_count : ℤ
  pub events : List TopicEvent

-- The tenant of the context has no subscription left.
abbrev pub is_denied : Env → Contexts → Option ℕ → Bool
is_denied env cs none = false
is_denied env cs (some c) =
    env.is_multi_tenant && (not (cs c).is_ops && not (env.is_tenant_subscription_allowed (cs c)))

-- `!strcmp(leaf->context->id, context->id)`
abbrev pub same_id : Contexts → ℕ → Leaf → Bool
same_id cs c leaf = str_eq (cs leaf.context).id (cs c).id

-- A second subscription of a client to a topic changes the quality of service.
unfoldable pub update_leaf : Contexts → ℕ → Qos → List Leaf → Option (List Leaf)
update_leaf cs c qos [] = none
update_leaf cs c qos (leaf ∷ ls) =
    let rest = update_leaf cs c qos ls in
    if same_id cs c leaf
    then some (record leaf { qos = qos } ∷ ls)
    else elim rest [ none ↦ none | some ls' ↦ some (leaf ∷ ls') ]

-- A leaf of a context that is no bridge.
unfoldable pub has_client : Contexts → List Leaf → Bool
has_client cs [] = false
has_client cs (leaf ∷ ls) = not (cs leaf.context).is_bridge || has_client cs ls

abbrev pub count_subscription : Contexts → ℕ → Contexts
count_subscription cs c =
    modify_context cs c λ x. record x { subscription_count = inc x.subscription_count }

-- The end of the path: -1 for a second subscription, 0 for a new one.
unfoldable pub add_leaf : Str → ℕ → Qos → List Leaf → Ledger → ℤ × List Leaf × Ledger
unfolding update_leaf has_client
add_leaf full c qos ls s = elim (update_leaf s.contexts c qos ls) [
  | some ls' ↦ (negsuc 0, ls', s)
  | none ↦ (
    pos 0,
    ls ++ (record { context = c; qos = qos } ∷ []),
    record {
      contexts = count_subscription s.contexts c;
      subscription_count = inc s.subscription_count;
      events =
          if not (has_client s.contexts ls) && not (s.contexts c).is_bridge
          then s.events ++ (topic_added full ∷ [])
          else s.events;
    },
  )
]

module _ (env : Env) (context : Option ℕ) (qos : Qos) where
  abbrev pub add_here : Str → List Leaf → Ledger → ℤ × List Leaf × Ledger
  add_here full ls s = elim context [ none ↦ (pos 0, ls, s) | some c ↦ add_leaf full c qos ls s ]

  unfoldable pub sub_add_full_topic : Str → ℕ → Hier → List Str → Ledger → ℤ × Hier × Ledger
  unfolding add_leaf
  sub_add_full_topic full depth null tokens s = (pos 0, null, s)
  sub_add_full_topic full depth (node t ls r p q ch nx) [] s =
      let (rc, ls', s') = add_here (add_topic_to_path t full depth) ls s in
      if is_denied env s.contexts context
      then (pos 1, node t ls r p q ch nx, s)
      else (rc, node t ls' r p q ch nx, s')
  sub_add_full_topic full depth (node t ls r p q ch nx) (u ∷ tokens) s =
      let full' = add_topic_to_path t full depth in
      if is_denied env s.contexts context
      then (pos 1, node t ls r p q ch nx, s)
      else elim (find_child u ch) [
        | some b ↦
            let (rc, b', s') = sub_add_full_topic full' (depth + 1) b tokens s in
            (rc, node t ls r p q (replace_child u b' ch) nx, s')
        | none ↦
            let (rc, b', s') = sub_add_full_topic full' (depth + 1) (new_branch u) tokens s in
            (rc, node t ls r (count_in pound u p) (count_in plus u q) (append_child ch b') nx, s')
      ]

  -- The root has no counters of its own to keep: no filter has a wildcard for its first token. A new
  -- child of the root goes to the front.
  unfoldable pub sub_add_root : Hier → List Str → Ledger → ℤ × Hier × Ledger
  unfolding sub_add_full_topic
  sub_add_root root [] s = (pos 0, root, s)
  sub_add_root root (t ∷ tokens) s = elim (find_child t root) [
    | some b ↦
        let (rc, b', s') = sub_add_full_topic [] 0 b (t ∷ tokens) s in
        (rc, replace_child t b' root, s')
    | none ↦
        let (rc, b', s') = sub_add_full_topic [] 0 (new_branch t) (t ∷ tokens) s in
        (rc, with_next b' root, s')
  ]

-- `if(rc == -1) rc = MOSQ_ERR_SUCCESS`
abbrev pub forgive : ℤ → ℤ
forgive (negsuc zero) = pos 0
forgive rc = rc

-- `root` is the list of the children of `db->subs`.
unfoldable pub sub_add : Env → ℕ → Str → Qos → Hier → Ledger → ℤ × Hier × Ledger
unfolding sub_add_root
sub_add env c sub qos root s =
    let (rc, root', s') = sub_add_root env (some c) qos root (sub_topic_tokenise sub) s in
    (forgive rc, root', s')
