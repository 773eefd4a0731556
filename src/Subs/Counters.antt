-- ===== src/Subs/Counters.antt =====
-- The counters of wildcards in the nodes of the tree.
pub mod Update
pub mod Clean
use opendxl_broker.Prelude.{
  ℕ, ◌+◌, ◌≡◌, refl, sym, ap, subst, ◌∙◌, Bool, true, false, Option, none, some, List, [], Str,
  str_eq, str_eq→eq, arith, inl, inr, Bool-cases, if_intro,
}
use opendxl_broker.Subs.Tree.{
  Leaf, Hier, null, node, find_child, with_next, replace_child, append_child, remove_child, pound,
  plus, is_null,
}

abbrev pub one : Bool → ℕ
one true = 1
one false = 0

-- The siblings with a topic.
abbrev pub count_topic : Str → Hier → ℕ
count_topic w null = 0
count_topic w (node t ls r p q ch nx) = one (str_eq t w) + count_topic w nx

-- Each node counts the `#` and the `+` among its children.
abbrev pub CountersMatch : Hier → Type 0
CountersMatch null = Unit {0}
CountersMatch (node t ls r p q ch nx) =
    (p ≡ count_topic pound ch) × (q ≡ count_topic plus ch) × CountersMatch ch × CountersMatch nx

abbrev pub topic_of : Hier → Str
topic_of null = []
topic_of (node t ls r p q ch nx) = t

abbrev pub next_of : Hier → Hier
next_of null = null
next_of (node t ls r p q ch nx) = nx

-- A node that was changed in place.
pub record Kept (b b' : Hier) : Type 0 where
  pub same_next : next_of b' ≡ next_of b
  pub same_topic : topic_of b' ≡ topic_of b
  pub same_null : is_null b' ≡ is_null b

pub count_topic_first :
    (w : Str) (b : Hier)
    → is_null b ≡ false
    → count_topic w b ≡ one (str_eq (topic_of b) w) + count_topic w (next_of b)
count_topic_first w null h = cc
count_topic_first w (node t ls r p q ch nx) h = refl

count_topic-with_next :
    (w : Str) (b nx : Hier)
    → is_null b ≡ false
    → count_topic w (with_next b nx) ≡ one (str_eq (topic_of b) w) + count_topic w nx
count_topic-with_next w null nx h = cc
count_topic-with_next w (node t ls r p q ch _) nx h = refl

pub CountersMatch-with_next :
    (b nx : Hier) → CountersMatch b → CountersMatch nx → CountersMatch (with_next b nx)
CountersMatch-with_next null nx m n = n
CountersMatch-with_next (node t ls r p q ch _) nx m n = (m.0, m.1, m.2, n)

-- What find_child says where the first node has the topic, and where it has not.
module _ (u t : Str) (ls : List Leaf) (r : Option ℕ) (p q : ℕ) (ch nx : Hier) where
  pub found_here :
      {b : Hier}
      → str_eq t u ≡ true
      → find_child u (node t ls r p q ch nx) ≡ some b
      → node t ls r p q ch nx ≡ b
  unfolding find_child
  found_here f e = ground arith

  pub found_later :
      {o : Option Hier}
      → str_eq t u ≡ false
      → find_child u (node t ls r p q ch nx) ≡ o
      → find_child u nx ≡ o
  unfolding find_child
  found_later f e = rw f at e

module _ (u : Str) where
  pub find_child-CountersMatch :
      (ch b : Hier) → find_child u ch ≡ some b → CountersMatch ch → CountersMatch b
  find_child-CountersMatch null b e m = unfold find_child in cc
  find_child-CountersMatch (node t ls r p q ch nx) b e m = elim (Bool-cases (str_eq t u)) [
    | inl f ↦ subst CountersMatch (found_here u t ls r p q ch nx f e) m
    | inr f ↦ find_child-CountersMatch nx b (found_later u t ls r p q ch nx f e) m.3
  ]

  pub count_topic-replace_child :
      (w : Str) (ch b b' : Hier)
      → find_child u ch ≡ some b
      → Kept b b'
      → count_topic w (replace_child u b' ch) ≡ count_topic w ch
  unfolding replace_child
  count_topic-replace_child w null b b' e k = refl
  count_topic-replace_child w (node t ls r p q ch nx) b b' e k = elim (Bool-cases (str_eq t u)) [
    | inl f ↦
        let g = found_here u t ls r p q ch nx f e in
        rw f (
          count_topic-with_next w b' nx (k.same_null ∙ sym (ap is_null g))
          ∙ ap (λ x. one (str_eq x w) + count_topic w nx) (k.same_topic ∙ sym (ap topic_of g)))
    | inr f ↦
        let e' = found_later u t ls r p q ch nx f e in
        rw f (ap (λ n. one (str_eq t w) + n) (count_topic-replace_child w nx b b' e' k))
  ]

  pub replace_child-CountersMatch :
      (ch b' : Hier) → CountersMatch b' → CountersMatch ch → CountersMatch (replace_child u b' ch)
  unfolding replace_child
  replace_child-CountersMatch null b' m n = n
  replace_child-CountersMatch (node t ls r p q ch nx) b' m n =
      if_intro CountersMatch (str_eq t u) _ _ (λ _. CountersMatch-with_next b' nx m n.3)
        (λ _. (n.0, n.1, n.2, replace_child-CountersMatch nx b' m n.3))

  pub remove_child-CountersMatch :
      (ch : Hier) → CountersMatch ch → CountersMatch (remove_child u ch)
  unfolding remove_child
  remove_child-CountersMatch null n = n
  remove_child-CountersMatch (node t ls r p q ch nx) n =
      if_intro CountersMatch (str_eq t u) _ _ (λ _. n.3)
        (λ _. (n.0, n.1, n.2, remove_child-CountersMatch nx n.3))

  pub count_topic-remove_child :
      (w : Str) (ch b : Hier)
      → find_child u ch ≡ some b
      → count_topic w ch ≡ one (str_eq u w) + count_topic w (remove_child u ch)
  unfolding remove_child
  count_topic-remove_child w null b e = unfold find_child in cc
  count_topic-remove_child w (node t ls r p q ch nx) b e = elim (Bool-cases (str_eq t u)) [
    | inl f ↦ rw f (ap (λ x. one (str_eq x w) + count_topic w nx) (str_eq→eq t u f))
    | inr f ↦
        let e' = found_later u t ls r p q ch nx f e in
        rw f (omega (arith, count_topic-remove_child w nx b e'))
  ]

pub count_topic-append_child :
    (w : Str) (ch b : Hier) → count_topic w (append_child ch b) ≡ count_topic w ch + count_topic w b
unfolding append_child
count_topic-append_child w null b = omega arith
count_topic-append_child w (node t ls r p q ch nx) b =
    omega (arith, count_topic-append_child w nx b)

pub append_child-CountersMatch :
    (ch b : Hier) → CountersMatch ch → CountersMatch b → CountersMatch (append_child ch b)
unfolding append_child
append_child-CountersMatch null b m n = n
append_child-CountersMatch (node t ls r p q ch nx) b m n =
    (m.0, m.1, m.2, append_child-CountersMatch nx b m.3 n)

-- No child has a topic that is counted 0 times.
pub find_child-none : (w : Str) (ch : Hier) → count_topic w ch ≡ 0 → find_child w ch ≡ none
unfolding find_child
find_child-none w null h = refl
find_child-none w (node t ls r p q ch nx) h = ground (arith, find_child-none w nx)
