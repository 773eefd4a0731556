-- ===== src/Subs/Lookup/Add.antt =====
-- What _sub_add_full_topic of src/mqtt-core/src/subs.c does to the subscriptions of each filter.
use native.Mathlib.Numerals.{add-one}
use opendxl_broker.Prelude.{
  ℕ, ◌+◌, ◌≡◌, ◌≢◌, refl, sym, ap, ap₂, ◌∙◌, true, false, Option, some, List, [], ◌∷◌, Str, str_eq,
  str_eq→eq, ℤ, inl, inr, Option-cases, if_intro,
}
use opendxl_broker.Subs.Tree.{
  Leaf, Hier, null, node, new_branch, find_child, pound, plus, count_in, is_null,
}
use opendxl_broker.Broker.Message.{Qos}
use opendxl_broker.Broker.Context.{Env}
use opendxl_broker.Subs.Path.{add_topic_to_path, full_path}
use opendxl_broker.Subs.Add.{Ledger, is_denied, add_leaf, sub_add_full_topic}
use opendxl_broker.Subs.Counters.Update.{Kept-refl, Kept-node}
use opendxl_broker.Subs.Counters.{topic_of, Kept}
use opendxl_broker.Subs.Filters.{leaves_at}
use opendxl_broker.Subs.Lookup.{
  leaves_at_cons, find_child-topic, replace_child_same, replace_child_leaves, append_child_same,
  append_child_leaves,
}

new_branch-leaves : (u : Str) (f : List Str) → leaves_at (new_branch u) f ≡ []
unfolding leaves_at find_child
new_branch-leaves u [] = refl
new_branch-leaves u (v ∷ f) = refl

module _ (env : Env) (context : Option ℕ) (qos : Qos) where
  pub sub_add-Kept :
      (full : Str) (depth : ℕ) (b : Hier) (tokens : List Str) (s : Ledger)
      → Kept b (sub_add_full_topic env context qos full depth b tokens s).1
  unfolding sub_add_full_topic
  sub_add-Kept full depth null tokens s = Kept-refl null
  sub_add-Kept full depth (node t ls r p q ch nx) [] s =
      if_intro (λ (res : ℤ × Hier × Ledger). Kept (node t ls r p q ch nx) res.1)
        (is_denied env s.contexts context) _ _ (λ _. Kept-node) (λ _. Kept-node)
  sub_add-Kept full depth (node t ls r p q ch nx) (u ∷ tokens) s =
      if_intro (λ (res : ℤ × Hier × Ledger). Kept (node t ls r p q ch nx) res.1)
        (is_denied env s.contexts context) _ _ (λ _. Kept-node)
        (λ _. elim (Option-cases (find_child u ch)) [
          | inl e ↦ rw e Kept-node
          | inr (b, e) ↦ rw e Kept-node
        ])

  pub leaves_at-sub_add_other :
      (full : Str) (depth : ℕ) (b : Hier) (tokens : List Str) (s : Ledger) (f : List Str)
      → tokens ≢ f
      → leaves_at (sub_add_full_topic env context qos full depth b tokens s).1 f ≡ leaves_at b f
  unfolding sub_add_full_topic leaves_at
  leaves_at-sub_add_other full depth null tokens s f n = refl
  leaves_at-sub_add_other full depth (node t ls r p q ch nx) [] s [] n = absurd (n refl)
  leaves_at-sub_add_other full depth (node t ls r p q ch nx) [] s (v ∷ f) n =
      if_intro
        (λ (res : ℤ × Hier × Ledger).
          leaves_at res.1 (v ∷ f) ≡ leaves_at (node t ls r p q ch nx) (v ∷ f))
        (is_denied env s.contexts context) _ _ (λ _. refl) (λ _. refl)
  leaves_at-sub_add_other full depth (node t ls r p q ch nx) (u ∷ tokens) s [] n =
      if_intro (λ (res : ℤ × Hier × Ledger). leaves_at res.1 [] ≡ ls)
        (is_denied env s.contexts context) _ _ (λ _. refl)
        (λ _. elim (Option-cases (find_child u ch)) [ inl e ↦ rw e refl | inr (b, e) ↦ rw e refl ])
  leaves_at-sub_add_other full depth (node t ls r p q ch nx) (u ∷ tokens) s (v ∷ f) n =
      let full' = add_topic_to_path t full depth in
      let differ = λ (k : str_eq u v ≡ true) (e : tokens ≡ f). n (ap₂ (◌∷◌) (str_eq→eq u v k) e) in
      if_intro
        (λ (res : ℤ × Hier × Ledger).
          leaves_at res.1 (v ∷ f) ≡ leaves_at (node t ls r p q ch nx) (v ∷ f))
        (is_denied env s.contexts context) _ _ (λ _. refl)
        (λ _. elim (Option-cases (find_child u ch)) [
          | inl e ↦
              let k = sub_add-Kept full' (depth + 1) (new_branch u) tokens s in
              rw e (
                leaves_at_cons t ls r (count_in pound u p) (count_in plus u q) _ nx v f
                ∙ append_child_leaves u _ k.same_null k.same_topic v ch f e k.same_next (λ g.
                  leaves_at-sub_add_other full' (depth + 1) (new_branch u) tokens s f (differ g)
                  ∙ new_branch-leaves u f)
                ∙ sym (leaves_at_cons t ls r p q ch nx v f))
          | inr (b, e) ↦
              let k = sub_add-Kept full' (depth + 1) b tokens s in
              let (h, w) = find_child-topic u ch b e in
              rw e (
                leaves_at_cons t ls r p q _ nx v f
                ∙ replace_child_leaves u _ (k.same_null ∙ h) (k.same_topic ∙ w) v ch b f e
                    (λ g. leaves_at-sub_add_other full' (depth + 1) b tokens s f (differ g))
                ∙ sym (leaves_at_cons t ls r p q ch nx v f))
        ])

-- What the walk down to a filter leaves there.
record Added (spec : ℤ × List Leaf × Ledger) (res : ℤ × Hier × Ledger) (tokens : List Str)
    : Type 0 where
  code : res.0 ≡ spec.0
  leaves : leaves_at res.1 tokens ≡ spec.1
  ledger : res.2 ≡ spec.2

module _ (env : Env) (c : ℕ) (qos : Qos) where
  add_leaf_here :
      (full : Str) (depth : ℕ) (t : Str) (ls : List Leaf) (r : Option ℕ) (p q : ℕ) (ch nx : Hier)
      (s : Ledger)
      → is_denied env s.contexts (some c) ≡ false
      → Added
          (add_leaf (full_path full depth (t ∷ [])) c qos (leaves_at (node t ls r p q ch nx) []) s)
          (sub_add_full_topic env (some c) qos full depth (node t ls r p q ch nx) [] s)
          []
  unfolding sub_add_full_topic full_path leaves_at
  add_leaf_here full depth t ls r p q ch nx s d =
      rw d (record { code = refl; leaves = refl; ledger = refl })

  -- The path of a child, from its own depth on.
  spec_below :
      (full : Str) (depth : ℕ) (t u w : Str) (tokens : List Str) (ls ms : List Leaf) (s : Ledger)
      → w ≡ u
      → ls ≡ ms
      → add_leaf (full_path (add_topic_to_path t full depth) (depth + 1) (w ∷ tokens)) c qos ls s
        ≡ add_leaf (full_path full depth (t ∷ u ∷ tokens)) c qos ms s
  unfolding full_path
  spec_below full depth t u w tokens ls ms s e f = rw (add-one depth, e, f) refl

  add_leaf-Added :
      (full : Str) (depth : ℕ) (b : Hier) (tokens : List Str) (s : Ledger)
      → is_null b ≡ false
      → is_denied env s.contexts (some c) ≡ false
      → Added
          (add_leaf (full_path full depth (topic_of b ∷ tokens)) c qos (leaves_at b tokens) s)
          (sub_add_full_topic env (some c) qos full depth b tokens s)
          tokens
  unfolding sub_add_full_topic
  add_leaf-Added full depth null tokens s h d = cc
  add_leaf-Added full depth (node t ls r p q ch nx) [] s h d =
      add_leaf_here full depth t ls r p q ch nx s d
  add_leaf-Added full depth (node t ls r p q ch nx) (u ∷ tokens) s h d =
      rw d (elim (Option-cases (find_child u ch)) [
        | inl e ↦
            let k = sub_add-Kept env (some c) qos full' (depth + 1) (new_branch u) tokens s in
            let ih = add_leaf-Added full' (depth + 1) (new_branch u) tokens s refl d in
            let to_spec = spec_below full depth t u u tokens _ _ s refl (
              new_branch-leaves u tokens
              ∙ sym (leaves_at_cons t ls r p q ch nx u tokens ∙ rw e refl)) in
            rw e (record {
              code = ih.code ∙ ap (λ x. x.0) to_spec;
              leaves =
                  leaves_at_cons t ls r (count_in pound u p) (count_in plus u q) _ nx u tokens
                  ∙ append_child_same u _ k.same_null k.same_topic ch tokens e
                  ∙ ih.leaves
                  ∙ ap (λ x. x.1) to_spec;
              ledger = ih.ledger ∙ ap (λ x. x.2) to_spec;
            })
        | inr (b, e) ↦
            let (g, w) = find_child-topic u ch b e in
            let k = sub_add-Kept env (some c) qos full' (depth + 1) b tokens s in
            let ih = add_leaf-Added full' (depth + 1) b tokens s g d in
            let to_spec =
              spec_below full depth t u (topic_of b) tokens _ _ s w
                (sym (leaves_at_cons t ls r p q ch nx u tokens ∙ rw e refl)) in
            rw e (record {
              code = ih.code ∙ ap (λ x. x.0) to_spec;
              leaves =
                  leaves_at_cons t ls r p q _ nx u tokens
                  ∙ replace_child_same u _ (k.same_null ∙ g) (k.same_topic ∙ w) ch b tokens e
                  ∙ ih.leaves
                  ∙ ap (λ x. x.1) to_spec;
              ledger = ih.ledger ∙ ap (λ x. x.2) to_spec;
            })
      ])
    where
      full' : Str
      full' = add_topic_to_path t full depth

  -- At a node, for a context whose tenant may subscribe: _sub_add_full_topic returns, leaves at
  -- the filter and records what the end of the path does with the leaves of the filter and with
  -- the path of the node and the filter, and the leaves of every other filter below the node
  -- stay.
  pub sub_add_full_topic-leaves_at :
      (full : Str) (depth : ℕ) (b : Hier) (tokens : List Str) (s : Ledger)
      → is_null b ≡ false
      → is_denied env s.contexts (some c) ≡ false
      → let res = sub_add_full_topic env (some c) qos full depth b tokens s in
        let path = full_path full depth (topic_of b ∷ tokens) in
        ((res.0, leaves_at res.1 tokens, res.2) ≡ add_leaf path c qos (leaves_at b tokens) s)
        × ((f : List Str) → tokens ≢ f → leaves_at res.1 f ≡ leaves_at b f)
  sub_add_full_topic-leaves_at full depth b tokens s h d =
      let a = add_leaf-Added full depth b tokens s h d in
      (
        rw (a.code, a.leaves, a.ledger) refl,
        leaves_at-sub_add_other env (some c) qos full depth b tokens s,
      )
