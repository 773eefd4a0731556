-- ===== src/Subs/Ends.antt =====
-- Subscribing keeps every `#` at the end of its branch, where the filter has none before its end.
pub mod Check
use opendxl_broker.Prelude.{
  ℕ, ◌+◌, ◌≡◌, refl, sym, ap, subst, ◌∙◌, Bool, true, false, Option, none, some, List, [], ◌∷◌,
  ◌++◌, Str, str_eq, str_eq→eq, ℤ, arith, inl, inr, Bool-cases, Option-cases, if_intro, &&_true,
  char_at, ◌==◌, ◌||◌, ◌&&◌, if◌then◌else◌,
}
use opendxl_broker.Broker.Message.{Qos}
use opendxl_broker.Broker.Context.{Env}
use opendxl_broker.Topic.Tokens.{dollar, unless_dollar, sub_topic_tokenise}
use opendxl_broker.Topic.Split.{IsCString, levels, sub_topic_tokenise-levels}
use opendxl_broker.Topic.Wildcards.{mosq_err_success, topic_wildcard_pos_check}
use opendxl_broker.Topic.Filters.{no_wild, is_level, is_filter, topic_wildcard_pos_check-is_filter}
use opendxl_broker.Subs.Tree.{
  Hier, null, node, new_branch, find_child, with_next, replace_child, append_child, is_null,
  children_of, pound, plus, count_in,
}
use opendxl_broker.Subs.Path.{add_topic_to_path}
use opendxl_broker.Subs.Add.{Ledger, is_denied, sub_add_full_topic, sub_add_root, sub_add}
use opendxl_broker.Subs.Counters.{topic_of, next_of, Kept, found_here, found_later}
use opendxl_broker.Subs.Lookup.{find_child-topic}
use opendxl_broker.Subs.Lookup.Add.{sub_add-Kept}
use opendxl_broker.Subs.Filters.{ChildrenLeaf, PoundEnds, find_child-PoundEnds}

-- A `#` among the tokens is the last one.
abbrev pub PoundLast : List Str → Type 0
PoundLast [] = Unit {0}
PoundLast (u ∷ ts) = (str_eq u pound ≡ true → ts ≡ []) × PoundLast ts

PoundEnds-with_next : (b nx : Hier) → PoundEnds b → PoundEnds nx → PoundEnds (with_next b nx)
PoundEnds-with_next null nx w v = v
PoundEnds-with_next (node t ls r p q ch _) nx w v = (w.0, w.1, v)

replace_child-PoundEnds :
    (u : Str) (ch b : Hier) → PoundEnds b → PoundEnds ch → PoundEnds (replace_child u b ch)
unfolding replace_child
replace_child-PoundEnds u null b w v = v
replace_child-PoundEnds u (node t ls r p q ch nx) b w v =
    if_intro PoundEnds (str_eq t u) _ _ (λ _. PoundEnds-with_next b nx w v.2)
      (λ _. (v.0, v.1, replace_child-PoundEnds u nx b w v.2))

append_child-PoundEnds : (ch b : Hier) → PoundEnds b → PoundEnds ch → PoundEnds (append_child ch b)
unfolding append_child
append_child-PoundEnds null b w v = w
append_child-PoundEnds (node t ls r p q ch nx) b w v = (v.0, v.1, append_child-PoundEnds nx b w v.2)

-- The child `#`, where the first sibling is known.
first_leaf :
    (b nx : Hier)
    → is_null b ≡ false
    → (str_eq (topic_of b) pound ≡ true → is_null (children_of b) ≡ true)
    → (str_eq (topic_of b) pound ≡ false → ChildrenLeaf (find_child pound nx))
    → ChildrenLeaf (find_child pound (with_next b nx))
unfolding find_child
first_leaf null nx h l v = cc
first_leaf (node t ls r p q ch _) nx h l v =
    if_intro ChildrenLeaf (str_eq t pound) _ _ (λ e. l e) (λ e. v e)

with_own_next : (b : Hier) → is_null b ≡ false → with_next b (next_of b) ≡ b
with_own_next null h = cc
with_own_next (node t ls r p q ch nx) h = refl

module _ (u : Str) (b' : Hier) (h : is_null b' ≡ false) (e : topic_of b' ≡ u)
    (l : str_eq u pound ≡ true → is_null (children_of b') ≡ true) where
  replace_child-leaf :
      (ch : Hier)
      → ChildrenLeaf (find_child pound ch)
      → ChildrenLeaf (find_child pound (replace_child u b' ch))
  unfolding replace_child find_child
  replace_child-leaf null v = v
  replace_child-leaf (node t ls r p q ch nx) v = elim (Bool-cases (str_eq t u)) [
    | inl g ↦
        let same : t ≡ u = str_eq→eq t u g in
        rw g (
          first_leaf b' nx h (λ k. l (rw e at k))
            (λ k. rw (ap (λ x. str_eq x pound) same ∙ ap (λ x. str_eq x pound) (sym e) ∙ k) at v))
    | inr g ↦ rw g (elim (Bool-cases (str_eq t pound)) [
      | inl k ↦ rw k (rw k at v)
      | inr k ↦ rw k (replace_child-leaf nx (rw k at v))
    ])
  ]

  append_child-leaf :
      (ch : Hier)
      → next_of b' ≡ null
      → ChildrenLeaf (find_child pound ch)
      → ChildrenLeaf (find_child pound (append_child ch b'))
  unfolding append_child find_child
  append_child-leaf null n v =
      subst (λ b. ChildrenLeaf (find_child pound b)) (with_own_next b' h)
        (first_leaf b' (next_of b') h (λ k. l (rw e at k)) (λ k. rw n tt))
  append_child-leaf (node t ls r p q ch nx) n v = elim (Bool-cases (str_eq t pound)) [
    | inl k ↦ rw k (rw k at v)
    | inr k ↦ rw k (append_child-leaf nx n (rw k at v))
  ]

new_branch-PoundEnds : (u : Str) → PoundEnds (new_branch u)
unfolding find_child
new_branch-PoundEnds u = (tt, tt, tt)

found-leaf :
    (u : Str) (ch b : Hier)
    → find_child u ch ≡ some b
    → ChildrenLeaf (find_child pound ch)
    → str_eq u pound ≡ true
    → is_null (children_of b) ≡ true
found-leaf u ch b e v g =
    subst ChildrenLeaf (ap (λ x. find_child x ch) (sym (str_eq→eq u pound g)) ∙ e) v

module _ (env : Env) (context : Option ℕ) (qos : Qos) where
  children_nil :
      (full : Str) (depth : ℕ) (b : Hier) (s : Ledger)
      → children_of (sub_add_full_topic env context qos full depth b [] s).1 ≡ children_of b
  unfolding sub_add_full_topic
  children_nil full depth null s = refl
  children_nil full depth (node t ls r p q ch nx) s =
      if_intro (λ (res : ℤ × Hier × Ledger). children_of res.1 ≡ ch)
        (is_denied env s.contexts context) _ _ (λ _. refl) (λ _. refl)

  end-leaf :
      (full : Str) (depth : ℕ) (b : Hier) (tokens : List Str) (s : Ledger)
      → tokens ≡ []
      → is_null (children_of b) ≡ true
      → is_null (children_of (sub_add_full_topic env context qos full depth b tokens s).1) ≡ true
  end-leaf full depth b tokens s e n = rw e (ap is_null (children_nil full depth b s) ∙ n)

  sub_add_full_topic-PoundEnds :
      (full : Str) (depth : ℕ) (b : Hier) (tokens : List Str) (s : Ledger)
      → PoundLast tokens
      → PoundEnds b
      → PoundEnds (sub_add_full_topic env context qos full depth b tokens s).1
  unfolding sub_add_full_topic
  sub_add_full_topic-PoundEnds full depth null tokens s l w = tt
  sub_add_full_topic-PoundEnds full depth (node t ls r p q ch nx) [] s l w =
      if_intro (λ (res : ℤ × Hier × Ledger). PoundEnds res.1) (is_denied env s.contexts context) _ _
        (λ _. w) (λ _. w)
  sub_add_full_topic-PoundEnds full depth (node t ls r p q ch nx) (u ∷ tokens) s l w =
      let full' = add_topic_to_path t full depth in
      if_intro (λ (res : ℤ × Hier × Ledger). PoundEnds res.1) (is_denied env s.contexts context) _ _
        (λ _. w)
        (λ _. elim (Option-cases (find_child u ch)) [
          | inl e ↦
              let k = sub_add-Kept env context qos full' (depth + 1) (new_branch u) tokens s in
              rw e (
                append_child-leaf u _ k.same_null k.same_topic
                    (λ g. end-leaf full' (depth + 1) (new_branch u) tokens s (l.0 g) refl) ch
                    k.same_next w.0,
                append_child-PoundEnds ch _
                    (sub_add_full_topic-PoundEnds full' (depth + 1) (new_branch u) tokens s l.1
                      (new_branch-PoundEnds u))
                    w.1,
                w.2,
              )
          | inr (b, e) ↦
              let k = sub_add-Kept env context qos full' (depth + 1) b tokens s in
              let (h, c) = find_child-topic u ch b e in
              rw e (
                replace_child-leaf u _ (k.same_null ∙ h) (k.same_topic ∙ c)
                    (λ g. end-leaf full' (depth + 1) b tokens s (l.0 g) (found-leaf u ch b e w.0 g))
                    ch w.0,
                replace_child-PoundEnds u ch _
                    (sub_add_full_topic-PoundEnds full' (depth + 1) b tokens s l.1
                      (find_child-PoundEnds u ch b e w.1))
                    w.1,
                w.2,
              )
        ])

pub add_tokens-PoundEnds :
    (env : Env) (c : ℕ) (sub : Str) (qos : Qos) (root : Hier) (s : Ledger)
    → PoundLast (sub_topic_tokenise sub)
    → PoundEnds root
    → PoundEnds (sub_add env c sub qos root s).1
unfolding sub_add
add_tokens-PoundEnds env c sub qos root s l w = added (sub_topic_tokenise sub) l
  where
    added :
        (tokens : List Str)
        → PoundLast tokens
        → PoundEnds (sub_add_root env (some c) qos root tokens s).1
    added [] l = w
    added (t ∷ tokens) l = elim (Option-cases (find_child t root)) [
      | inl e ↦
          rw (e, sub_add_root)
            (PoundEnds-with_next _ root
              (sub_add_full_topic-PoundEnds env (some c) qos [] 0 (new_branch t) (t ∷ tokens) s l
                (new_branch-PoundEnds t))
              w)
      | inr (b, e) ↦
          rw (e, sub_add_root)
            (replace_child-PoundEnds t root _
              (sub_add_full_topic-PoundEnds env (some c) qos [] 0 b (t ∷ tokens) s l
                (find_child-PoundEnds t root b e w))
              w)
    ]
