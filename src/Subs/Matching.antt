-- ===== src/Subs/Matching.antt =====
-- The search of subs.c against the leaves whose filter matches the topic.
use opendxl_broker.Prelude.{
  ℕ, zero, suc, ◌≡◌, refl, sym, ap, ◌∙◌, Bool, true, false, Option, none, some, List, [], ◌∷◌, ◌++◌,
  Str, inl, inr, if◌then◌else◌, Option-cases,
}
use opendxl_broker.Broker.Context.{Env}
use opendxl_broker.Subs.Tree.{
  Leaf, Hier, null, node, find_child, subs_of, children_of, is_null, is_empty, pound, plus,
}
use opendxl_broker.Subs.Deliver.{
  Delivery, Inbox, is_zero_ℕ, subs_process, search_pound, process_last, in_branch, sub_search,
}
use opendxl_broker.Subs.Counters.{
  CountersMatch, count_topic, find_child-none, find_child-CountersMatch,
}

-- The leaves of the child `#`, unless it has children.
abbrev pub pound_leaves : Hier → List Leaf
pound_leaves ch = elim (find_child pound ch) [
  | none ↦ []
  | some b ↦ if is_null (children_of b) then subs_of b else []
]

abbrev pub last_leaves : List Str → Hier → List Leaf
last_leaves tokens b = if is_empty tokens then subs_of b else []

abbrev pub branch_leaves : (Hier → List Leaf) → Option Hier → List Leaf
branch_leaves leaves none = []
branch_leaves leaves (some b) = leaves b

-- The leaves that a topic finds below a node, in the order of the search.
unfoldable pub match_leaves : Hier → List Str → List Leaf
match_leaves null tokens = []
match_leaves (node t ls r p q ch nx) [] = pound_leaves ch
match_leaves (node t ls r p q ch nx) (u ∷ tokens) =
    let leaves = λ (b : Hier). match_leaves b tokens ++ last_leaves tokens b in
    pound_leaves ch
    ++ (branch_leaves leaves (find_child plus ch) ++ branch_leaves leaves (find_child u ch))

module _ (env : Env) (d : Delivery) where
  abbrev process : List Leaf → Inbox → Inbox
  process = subs_process env d

  process-append :
      (ls ms : List Leaf) (x : Inbox) → process (ls ++ ms) x ≡ process ms (process ls x)
  unfolding subs_process
  process-append [] ms x = refl
  process-append (l ∷ ls) ms x = process-append ls ms _

  process_nil : (x : Inbox) → process [] x ≡ x
  unfolding subs_process
  process_nil x = refl

  search_pound-process :
      (n : ℕ) (ch : Hier) (x : Inbox)
      → n ≡ count_topic pound ch
      → search_pound env d n ch x ≡ process (pound_leaves ch) x
  unfolding search_pound
  search_pound-process zero ch x e =
      rw (find_child-none pound ch (sym e), pound_leaves) (sym (process_nil x))
  search_pound-process (suc n) ch x e = elim (Option-cases (find_child pound ch)) [
    | inl f ↦ rw (f, pound_leaves) (sym (process_nil x))
    | inr (b, f) ↦ rw (f, pound_leaves) (unless (is_null (children_of b)) (subs_of b))
  ]
    where
      unless :
          (v : Bool) (ls : List Leaf)
          → (if v then process ls x else x) ≡ process (if v then ls else []) x
      unless true ls = refl
      unless false ls = sym (process_nil x)

  process_last-process :
      (tokens : List Str) (b : Hier) (x : Inbox)
      → process_last env d tokens b x ≡ process (last_leaves tokens b) x
  process_last-process [] b x = refl
  process_last-process (t ∷ tokens) b x = sym (process_nil x)

  -- One of the two branches below a node.
  in_branch-process :
      (visit : Hier → Inbox → Inbox) (leaves : Hier → List Leaf) (o : Option Hier) (x : Inbox)
      → ((b : Hier) → o ≡ some b → visit b x ≡ process (leaves b) x)
      → in_branch env d visit o x ≡ process (branch_leaves leaves o) x
  in_branch-process visit leaves none x h = sym (process_nil x)
  in_branch-process visit leaves (some b) x h = h b refl

  visit-process :
      (tokens : List Str) (b : Hier) (x y : Inbox)
      → y ≡ process (match_leaves b tokens) x
      → process_last env d tokens b y ≡ process (match_leaves b tokens ++ last_leaves tokens b) x
  visit-process tokens b x y e =
      process_last-process tokens b y
      ∙ ap (process (last_leaves tokens b)) e
      ∙ sym (process-append (match_leaves b tokens) (last_leaves tokens b) x)

  -- Without a `+` among the children its branch has no leaves.
  plus-process :
      (visit : Hier → Inbox → Inbox) (leaves : Hier → List Leaf) (q : ℕ) (ch : Hier) (x : Inbox)
      → q ≡ count_topic plus ch
      → ((b : Hier) → find_child plus ch ≡ some b → visit b x ≡ process (leaves b) x)
      → (if is_zero_ℕ q then x else in_branch env d visit (find_child plus ch) x)
        ≡ process (branch_leaves leaves (find_child plus ch)) x
  plus-process visit leaves zero ch x e h =
      rw (find_child-none plus ch (sym e), branch_leaves) (sym (process_nil x))
  plus-process visit leaves (suc q) ch x e h =
      in_branch-process visit leaves (find_child plus ch) x h

  -- Where the counters are right, the search delivers to the matching leaves, in order.
  pub sub_search-match_leaves :
      (b : Hier) (tokens : List Str) (x : Inbox)
      → CountersMatch b
      → sub_search env d b tokens x ≡ process (match_leaves b tokens) x
  unfolding sub_search match_leaves
  sub_search-match_leaves null tokens x m = sym (process_nil x)
  sub_search-match_leaves (node t ls r p q ch nx) [] x m = search_pound-process p ch x m.0
  sub_search-match_leaves (node t ls r p q ch nx) (u ∷ tokens) x m =
      in_branch-process _ leaves (find_child u ch) _ (λ b e.
        visit-process tokens b _ _
          (sub_search-match_leaves b tokens _ (find_child-CountersMatch u ch b e m.2)))
      ∙ ap (process by_topic) (
          plus-process _ leaves q ch _ m.1 (λ b e.
            visit-process tokens b _ _
              (sub_search-match_leaves b tokens _ (find_child-CountersMatch plus ch b e m.2)))
          ∙ ap (process by_plus) (search_pound-process p ch x m.0))
      ∙ sym (
          process-append (pound_leaves ch) (by_plus ++ by_topic) x
          ∙ process-append by_plus by_topic (process (pound_leaves ch) x))
    where
      leaves : Hier → List Leaf
      leaves b = match_leaves b tokens ++ last_leaves tokens b

      by_plus : List Leaf
      by_plus = branch_leaves leaves (find_child plus ch)

      by_topic : List Leaf
      by_topic = branch_leaves leaves (find_child u ch)
