-- ===== src/Subs/Lookup.antt =====
-- The leaves of a filter after a child of a node is changed or added.
pub mod Add
use native.Mathlib.Numerals.{add-one}
use opendxl_broker.Prelude.{
  ℕ, suc, ◌+◌, ◌≡◌, ◌≢◌, refl, sym, ap, ap₂, subst, ◌∙◌, Bool, true, false, Option, none, some,
  List, [], ◌∷◌, Str, str_eq, str_eq→eq, str_eq_refl, ℤ, if◌then◌else◌, arith, inl, inr, Bool-cases,
  Option-cases, if_intro,
}
use opendxl_broker.Subs.Tree.{
  Leaf, Hier, null, node, new_branch, find_child, with_next, pound, plus, count_in, replace_child,
  append_child, is_null,
}
use opendxl_broker.Broker.Message.{Qos}
use opendxl_broker.Broker.Context.{Env}
use opendxl_broker.Subs.Path.{add_topic_to_path, full_path}
use opendxl_broker.Subs.Add.{Ledger, is_denied, add_leaf, sub_add_full_topic}
use opendxl_broker.Subs.Counters.Update.{Kept-refl, Kept-node}
use opendxl_broker.Subs.Counters.{topic_of, next_of, Kept, found_here, found_later}
use opendxl_broker.Subs.Filters.{leaves_at}

abbrev pub leaves_below : Option Hier → List Str → List Leaf
leaves_below none f = []
leaves_below (some b) f = leaves_at b f

pub leaves_at_cons :
    (t : Str) (ls : List Leaf) (r : Option ℕ) (p q : ℕ) (ch nx : Hier) (u : Str) (f : List Str)
    → leaves_at (node t ls r p q ch nx) (u ∷ f) ≡ leaves_below (find_child u ch) f
unfolding leaves_at
leaves_at_cons t ls r p q ch nx u f = elim (Option-cases (find_child u ch)) [
  | inl e ↦ rw (e, leaves_at) refl
  | inr (b, e) ↦ rw (e, leaves_at) refl
]

leaves_at_next :
    (t : Str) (ls : List Leaf) (r : Option ℕ) (p q : ℕ) (ch nx ny : Hier) (f : List Str)
    → leaves_at (node t ls r p q ch nx) f ≡ leaves_at (node t ls r p q ch ny) f
unfolding leaves_at
leaves_at_next t ls r p q ch nx ny [] = refl
leaves_at_next t ls r p q ch nx ny (u ∷ f) = refl

-- The child of a topic among siblings of which the first one is given.
find_first :
    (v : Str) (b nx : Hier) (f : List Str)
    → is_null b ≡ false
    → leaves_below (find_child v (with_next b nx)) f
      ≡ (if str_eq (topic_of b) v then leaves_at b f else leaves_below (find_child v nx) f)
unfolding find_child
find_first v null nx f h = cc
find_first v (node t ls r p q ch ny) nx f h = elim (Bool-cases (str_eq t v)) [
  | inl e ↦ rw e (leaves_at_next t ls r p q ch nx ny f)
  | inr e ↦ rw e refl
]

pub find_child-topic :
    (u : Str) (ch b : Hier) → find_child u ch ≡ some b → (is_null b ≡ false) × (topic_of b ≡ u)
unfolding find_child
find_child-topic u null b e = cc
find_child-topic u (node t ls r p q ch nx) b e = elim (Bool-cases (str_eq t u)) [
  | inl f ↦
      let g = found_here u t ls r p q ch nx f e in
      (ap is_null (sym g), ap topic_of (sym g) ∙ str_eq→eq t u f)
  | inr f ↦ find_child-topic u nx b (found_later u t ls r p q ch nx f e)
]

find_head :
    (v : Str) (b : Hier) (f : List Str)
    → is_null b ≡ false
    → leaves_below (find_child v b) f
      ≡ (if str_eq (topic_of b) v then leaves_at b f else leaves_below (find_child v (next_of b)) f)
unfolding find_child
find_head v null f h = cc
find_head v (node t ls r p q ch nx) f h = elim (Bool-cases (str_eq t v)) [
  | inl e ↦ rw e refl
  | inr e ↦ rw e refl
]

module _ (u : Str) (b' : Hier) (h : is_null b' ≡ false) (e : topic_of b' ≡ u) where
  pub replace_child_same :
      (ch b : Hier) (f : List Str)
      → find_child u ch ≡ some b
      → leaves_below (find_child u (replace_child u b' ch)) f ≡ leaves_at b' f
  unfolding find_child replace_child
  replace_child_same null b f g = cc
  replace_child_same (node t ls r p q ch nx) b f g = elim (Bool-cases (str_eq t u)) [
    | inl k ↦ rw k (find_first u b' nx f h ∙ rw (e, str_eq_refl u) refl)
    | inr k ↦ rw (k, k) (replace_child_same nx b f (rw k at g))
  ]

  pub replace_child_other :
      (v : Str) (ch : Hier) (f : List Str)
      → str_eq u v ≡ false
      → leaves_below (find_child v (replace_child u b' ch)) f ≡ leaves_below (find_child v ch) f
  unfolding find_child replace_child
  replace_child_other v null f n = refl
  replace_child_other v (node t ls r p q ch nx) f n = elim (Bool-cases (str_eq t u)) [
    | inl k ↦
        let tv : str_eq t v ≡ false = rw (str_eq→eq t u k) n in
        rw (k, tv) (find_first v b' nx f h ∙ rw (e, n) refl)
    | inr k ↦ rw k (elim (Bool-cases (str_eq t v)) [
      | inl l ↦ rw l (leaves_at_next t ls r p q ch _ _ f)
      | inr l ↦ rw l (replace_child_other v nx f n)
    ])
  ]

  pub append_child_same :
      (ch : Hier) (f : List Str)
      → find_child u ch ≡ none
      → leaves_below (find_child u (append_child ch b')) f ≡ leaves_at b' f
  unfolding find_child append_child
  append_child_same null f g = find_head u b' f h ∙ rw (e, str_eq_refl u) refl
  append_child_same (node t ls r p q ch nx) f g = elim (Bool-cases (str_eq t u)) [
    | inl k ↦ cc (rw k at g)
    | inr k ↦ rw k (append_child_same nx f (rw k at g))
  ]

  pub append_child_other :
      (v : Str) (ch : Hier) (f : List Str)
      → next_of b' ≡ null
      → str_eq u v ≡ false
      → leaves_below (find_child v (append_child ch b')) f ≡ leaves_below (find_child v ch) f
  unfolding find_child append_child
  append_child_other v null f g n = find_head v b' f h ∙ rw (e, n, g) refl
  append_child_other v (node t ls r p q ch nx) f g n = elim (Bool-cases (str_eq t v)) [
    | inl l ↦ rw l (leaves_at_next t ls r p q ch _ _ f)
    | inr l ↦ rw l (append_child_other v nx f g n)
  ]

  -- A child is changed, and nothing changes at the filters of interest.
  pub replace_child_leaves :
      (v : Str) (ch b : Hier) (f : List Str)
      → find_child u ch ≡ some b
      → (str_eq u v ≡ true → leaves_at b' f ≡ leaves_at b f)
      → leaves_below (find_child v (replace_child u b' ch)) f ≡ leaves_below (find_child v ch) f
  replace_child_leaves v ch b f g same = elim (Bool-cases (str_eq u v)) [
    | inl k ↦
        subst
          (λ w.
            leaves_below (find_child w (replace_child u b' ch)) f
            ≡ leaves_below (find_child w ch) f)
          (str_eq→eq u v k) (replace_child_same ch b f g ∙ same k ∙ rw g refl)
    | inr k ↦ replace_child_other v ch f k
  ]

  pub append_child_leaves :
      (v : Str) (ch : Hier) (f : List Str)
      → find_child u ch ≡ none
      → next_of b' ≡ null
      → (str_eq u v ≡ true → leaves_at b' f ≡ [])
      → leaves_below (find_child v (append_child ch b')) f ≡ leaves_below (find_child v ch) f
  append_child_leaves v ch f g l same = elim (Bool-cases (str_eq u v)) [
    | inl k ↦
        subst
          (λ w.
            leaves_below (find_child w (append_child ch b')) f ≡ leaves_below (find_child w ch) f)
          (str_eq→eq u v k) (append_child_same ch f g ∙ same k ∙ rw g refl)
    | inr k ↦ append_child_other v ch f l k
  ]
