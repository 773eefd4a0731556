-- ===== src/Subs/Deliver.antt =====
-- _subs_process, _sub_search and mqtt3_db_messages_queue of src/mqtt-core/src/subs.c. Every call of
-- _subs_process passes `set_retain` as false, so no retained message is set here, and no caller
-- reads its result. The id of the source is never NULL.
use opendxl_broker.Prelude.{
  ℕ, zero, suc, Bool, true, false, Option, none, some, List, [], ◌∷◌, ◌&&◌, Str, str_eq,
  if◌then◌else◌,
}
use opendxl_broker.Broker.Message.{md_out, Qos, qos0, is_acked, min_qos, Heap}
use opendxl_broker.Broker.Context.{Context, Env}
use opendxl_broker.Queue.Insert.{message_insert, mid_generate}
use opendxl_broker.Topic.Tokens.{sub_topic_tokenise}
use opendxl_broker.Subs.Tree.{
  Leaf, Hier, null, node, find_child, replace_child, subs_of, children_of, is_null, is_empty, pound,
  plus,
}
use opendxl_broker.Subs.Add.{Contexts, modify_context, Ledger, sub_add_full_topic}

-- The message on its way.
pub record Delivery : Type 0 where
  pub source_id : Str
  pub qos : Qos
  pub retain : Bool
  pub stored : ℕ

-- The contexts and the stored messages, which a delivery changes.
pub record Inbox : Type 0 where
  pub contexts : Contexts
  pub heap : Heap

abbrev pub is_zero_ℕ : ℕ → Bool
is_zero_ℕ zero = true
is_zero_ℕ (suc n) = false

module _ (env : Env) (d : Delivery) where
  abbrev pub msg_qos : Leaf → Qos
  msg_qos leaf = if env.upgrade_outgoing_qos then leaf.qos else min_qos d.qos leaf.qos

  -- A bridge does not get back what it has sent.
  abbrev pub is_source : Context → Bool
  is_source c = c.is_bridge && str_eq c.id d.source_id

  abbrev pub with_mid : Qos → Context → ℕ × Context
  with_mid qos c = if is_acked qos then mid_generate c else (0, c)

  -- One leaf of the loop. A bridge sees the retain flag.
  unfoldable pub process_leaf : Leaf → Inbox → Inbox
  process_leaf leaf x =
      let c = x.contexts leaf.context in
      let (mid, c') = with_mid (msg_qos leaf) c in
      let (rc, c'', h) =
        message_insert env x.heap c' mid md_out (msg_qos leaf) (c.is_bridge && d.retain) d.stored in
      if is_source c
      then x
      else record { contexts = modify_context x.contexts leaf.context (λ _. c''); heap = h }

  unfoldable pub subs_process : List Leaf → Inbox → Inbox
  unfolding process_leaf
  subs_process [] x = x
  subs_process (leaf ∷ ls) x = subs_process ls (process_leaf leaf x)

  -- `#` stands for any levels, none included; a node `#` that has children is passed over.
  unfoldable pub search_pound : ℕ → Hier → Inbox → Inbox
  search_pound count ch x = if is_zero_ℕ count then x else elim (find_child pound ch) [
    | none ↦ x
    | some b ↦ if is_null (children_of b) then subs_process (subs_of b) x else x
  ]

  -- On a topic's last level the node's own subscriptions are served, behind those below it.
  abbrev pub process_last : List Str → Hier → Inbox → Inbox
  process_last tokens b x = if is_empty tokens then subs_process (subs_of b) x else x

  abbrev pub in_branch : (Hier → Inbox → Inbox) → Option Hier → Inbox → Inbox
  in_branch visit none x = x
  in_branch visit (some b) x = visit b x

  unfoldable pub sub_search : Hier → List Str → Inbox → Inbox
  unfolding search_pound
  sub_search null tokens x = x
  sub_search (node t ls r p q ch nx) [] x = search_pound p ch x
  sub_search (node t ls r p q ch nx) (u ∷ tokens) x =
      let visit = λ (b : Hier) (y : Inbox). process_last tokens b (sub_search b tokens y) in
      let x₁ = search_pound p ch x in
      let x₂ = (if is_zero_ℕ q then x₁ else in_branch visit (find_child plus ch) x₁) in
      in_branch visit (find_child u ch) x₂

  abbrev pub search_root : Hier → List Str → Inbox → Inbox
  search_root root [] x = x
  search_root root (t ∷ tokens) x = elim (find_child t root) [
    | none ↦ x
    | some b ↦ sub_search b (t ∷ tokens) x
  ]

  -- A message that is to be retained gets its path in the tree first, without a subscriber.
  abbrev pub retain_root : Hier → List Str → Ledger → Hier
  retain_root root [] s = root
  retain_root root (t ∷ tokens) s = elim (find_child t root) [
    | none ↦ root
    | some b ↦
        if d.retain
        then replace_child t (sub_add_full_topic env none qos0 [] 0 b (t ∷ tokens) s).1 root
        else root
  ]

  -- The message for dxl_on_finalize_message is `d.stored`, on every path.
  unfoldable pub messages_queue : Str → Hier → Ledger → Heap → Hier × Inbox
  unfolding sub_search
  messages_queue topic root s h =
      let tokens = sub_topic_tokenise topic in
      let root' = retain_root root tokens s in
      (root', search_root root' tokens (record { contexts = s.contexts; heap = h }))
