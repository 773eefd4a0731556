-- ===== src/Subs/Counters/Update.antt =====
-- Subscribing and unsubscribing keep the counters of wildcards right.
use opendxl_broker.Prelude.{
  ℕ, ◌+◌, ◌≡◌, refl, sym, ap, ap₂, ◌∙◌, Option, some, List, [], ◌∷◌, Str, str_eq, ℤ, arith, inl,
  inr, Option-cases, if_intro,
}
use native.Mathlib.Nat.{add-zero}
use opendxl_broker.Broker.Message.{Qos}
use opendxl_broker.Broker.Context.{Env}
use opendxl_broker.Topic.Tokens.{sub_topic_tokenise}
use opendxl_broker.Subs.Tree.{
  Leaf, Hier, null, node, find_child, replace_child, append_child, remove_child, new_branch, pound,
  plus, count_in, count_out,
}
use opendxl_broker.Subs.Path.{add_topic_to_path}
use opendxl_broker.Subs.Add.{Ledger, is_denied, sub_add_full_topic, sub_add_root, sub_add}
use opendxl_broker.Subs.Remove.{sub_remove_full_topic, sub_remove_root, sub_remove}
use opendxl_broker.Subs.Counters.{
  one, count_topic, count_topic_first, CountersMatch, Kept, find_child-CountersMatch,
  count_topic-replace_child, replace_child-CountersMatch, remove_child-CountersMatch,
  count_topic-remove_child, count_topic-append_child, append_child-CountersMatch,
  CountersMatch-with_next,
}

-- A tree that became another by a change below its first node.
record Grown (b b' : Hier) : Type 0 where
  kept : Kept b b'
  matches : CountersMatch b'

pub Kept-refl : (b : Hier) → Kept b b
Kept-refl b = record { same_next = refl; same_topic = refl; same_null = refl }

pub Kept-node :
    {t : Str} {ls ls' : List Leaf} {r r' : Option ℕ} {p p' q q' : ℕ} {ch ch' nx : Hier}
    → Kept (node t ls r p q ch nx) (node t ls' r' p' q' ch' nx)
Kept-node = record { same_next = refl; same_topic = refl; same_null = refl }

module _ (u t : Str) (ls : List Leaf) (r : Option ℕ) (p q : ℕ) (ch nx : Hier)
    (m : CountersMatch (node t ls r p q ch nx)) where
  -- A child is changed in place.
  replaced-Grown :
      (b b' : Hier)
      → find_child u ch ≡ some b
      → Grown b b'
      → Grown (node t ls r p q ch nx) (node t ls r p q (replace_child u b' ch) nx)
  replaced-Grown b b' e g = record {
    kept = Kept-node;
    matches = (
      m.0 ∙ sym (count_topic-replace_child u pound ch b b' e g.kept),
      m.1 ∙ sym (count_topic-replace_child u plus ch b b' e g.kept),
      replace_child-CountersMatch u ch b' g.matches m.2,
      m.3,
    );
  }

  -- A new child.
  appended-Grown :
      (b' : Hier)
      → Grown (new_branch u) b'
      → Grown
          (node t ls r p q ch nx)
          (node t ls r (count_in pound u p) (count_in plus u q) (append_child ch b') nx)
  appended-Grown b' g = record {
    kept = Kept-node;
    matches = (
      ground (arith, m.0, added pound),
      ground (arith, m.1, added plus),
      append_child-CountersMatch ch b' m.2 g.matches,
      m.3,
    );
  }
    where
      added : (w : Str) → count_topic w (append_child ch b') ≡ count_topic w ch + one (str_eq u w)
      added w =
          count_topic-append_child w ch b'
          ∙ ap (λ (n : ℕ). count_topic w ch + n)
              (count_topic_first w b' g.kept.same_null
                ∙ ap₂ (λ x b. one (str_eq x w) + count_topic w b) g.kept.same_topic g.kept.same_next
                ∙ add-zero (one (str_eq u w)))

  -- A dead child.
  removed-Grown :
      (b : Hier)
      → find_child u ch ≡ some b
      → Grown
          (node t ls r p q ch nx)
          (node t ls r (count_out pound u p) (count_out plus u q) (remove_child u ch) nx)
  removed-Grown b e = record {
    kept = Kept-node;
    matches = (
      ground (arith, count_topic-remove_child u pound ch b e, m.0),
      ground (arith, count_topic-remove_child u plus ch b e, m.1),
      remove_child-CountersMatch u ch m.2,
      m.3,
    );
  }

module _ (env : Env) (context : Option ℕ) (qos : Qos) where
  sub_add-Grown :
      (full : Str) (depth : ℕ) (b : Hier) (tokens : List Str) (s : Ledger)
      → CountersMatch b
      → Grown b (sub_add_full_topic env context qos full depth b tokens s).1
  unfolding sub_add_full_topic
  sub_add-Grown full depth null tokens s m = record { kept = Kept-refl null; matches = tt }
  sub_add-Grown full depth (node t ls r p q ch nx) [] s m =
      if_intro (λ (res : ℤ × Hier × Ledger). Grown (node t ls r p q ch nx) res.1)
        (is_denied env s.contexts context) _ _ (λ _. record { kept = Kept-node; matches = m })
        (λ _. record { kept = Kept-node; matches = m })
  sub_add-Grown full depth (node t ls r p q ch nx) (u ∷ tokens) s m =
      if_intro (λ (res : ℤ × Hier × Ledger). Grown (node t ls r p q ch nx) res.1)
        (is_denied env s.contexts context) _ _ (λ _. record { kept = Kept-node; matches = m })
        (λ _. elim (Option-cases (find_child u ch)) [
          | inl e ↦ rw e (
              appended-Grown u t ls r p q ch nx m _ (
                sub_add-Grown (add_topic_to_path t full depth) (depth + 1) (new_branch u) tokens s
                  (refl, refl, tt, tt)))
          | inr (b, e) ↦ rw e (
              replaced-Grown u t ls r p q ch nx m b _ e (
                sub_add-Grown (add_topic_to_path t full depth) (depth + 1) b tokens s
                  (find_child-CountersMatch u ch b e m.2)))
        ])

module _ (c : ℕ) where
  sub_remove-Grown :
      (full : Str) (depth : ℕ) (b : Hier) (tokens : List Str) (s : Ledger)
      → CountersMatch b
      → Grown b (sub_remove_full_topic c full depth b tokens s).0
  unfolding sub_remove_full_topic
  sub_remove-Grown full depth null tokens s m = record { kept = Kept-refl null; matches = tt }
  sub_remove-Grown full depth (node t ls r p q ch nx) [] s m = record {
    kept = Kept-node;
    matches = m;
  }
  sub_remove-Grown full depth (node t ls r p q ch nx) (u ∷ tokens) s m =
      elim (Option-cases (find_child u ch)) [
        | inl e ↦ rw (e, sub_remove_full_topic) (record { kept = Kept-node; matches = m })
        | inr (b, e) ↦
            rw (e, sub_remove_full_topic)
              (if_intro (λ (res : Hier × Ledger). Grown (node t ls r p q ch nx) res.0) _ _ _
                (λ _. removed-Grown u t ls r p q ch nx m b e)
                (λ _. replaced-Grown u t ls r p q ch nx m b _ e (
                  sub_remove-Grown (add_topic_to_path t full depth) (depth + 1) b tokens s
                    (find_child-CountersMatch u ch b e m.2))))
      ]

-- For any tree in which every node below the root counts its children `#` and its children `+`: it
-- still does after a subscription by mqtt3_sub_add, whatever the filter, the quality of service and
-- the decision on the tenant.
pub sub_add-CountersMatch :
    (env : Env) (c : ℕ) (sub : Str) (qos : Qos) (root : Hier) (s : Ledger)
    → CountersMatch root
    → CountersMatch (sub_add env c sub qos root s).1
unfolding sub_add
sub_add-CountersMatch env c sub qos root s m = added (sub_topic_tokenise sub)
  where
    added : (tokens : List Str) → CountersMatch (sub_add_root env (some c) qos root tokens s).1
    added [] = m
    added (t ∷ tokens) = elim (Option-cases (find_child t root)) [
      | inl e ↦
          rw (e, sub_add_root)
            (CountersMatch-with_next _ root
              (sub_add-Grown env (some c) qos [] 0 (new_branch t) (t ∷ tokens) s
                (refl, refl, tt, tt)).matches
              m)
      | inr (b, e) ↦
          rw (e, sub_add_root)
            (replace_child-CountersMatch t root _
              (sub_add-Grown env (some c) qos [] 0 b (t ∷ tokens) s
                (find_child-CountersMatch t root b e m)).matches
              m)
    ]

-- For any tree in which every node below the root counts its children `#` and its children `+`: it
-- still does after mqtt3_sub_remove, also where branches that have become empty are freed.
pub sub_remove-CountersMatch :
    (c : ℕ) (sub : Str) (root : Hier) (s : Ledger)
    → CountersMatch root
    → CountersMatch (sub_remove c sub root s).0
unfolding sub_remove
sub_remove-CountersMatch c sub root s m = removed (sub_topic_tokenise sub)
  where
    removed : (tokens : List Str) → CountersMatch (sub_remove_root c root tokens s).0
    removed [] = m
    removed (t ∷ tokens) = elim (Option-cases (find_child t root)) [
      | inl e ↦ rw (e, sub_remove_root) m
      | inr (b, e) ↦
          rw (e, sub_remove_root)
            (replace_child-CountersMatch t root _
              (sub_remove-Grown c [] 0 b (t ∷ tokens) s
                (find_child-CountersMatch t root b e m)).matches
              m)
    ]
