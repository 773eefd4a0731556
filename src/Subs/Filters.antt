-- ===== src/Subs/Filters.antt =====
-- Which leaves the search finds, by the rule of MQTT for filters.
pub mod Search
use opendxl_broker.Prelude.{
  ℕ, ◌≡◌, ◌≢◌, refl, subst, true, Option, none, some, List, [], ◌∷◌, ◌++◌, Str, ◌⊎◌, inl, inr, ◌↔◌,
  if◌then◌else◌, Bool-cases, Option-cases, if_intro, str_eq,
}
use opendxl_broker.Subs.Tree.{
  Leaf, Hier, null, node, find_child, subs_of, children_of, is_null, pound, plus,
}
use opendxl_broker.Subs.Counters.{found_here, found_later}
use opendxl_broker.Broker.Context.{Env}
use opendxl_broker.Subs.Deliver.{Delivery, Inbox, subs_process, sub_search}
use opendxl_broker.Subs.Counters.{CountersMatch}
use opendxl_broker.Subs.Matching.{
  sub_search-match_leaves, pound_leaves, last_leaves, branch_leaves, match_leaves,
}

-- A filter matches a topic, level by level: `#` any levels, `+` any one level.
pub data Matches : List Str → List Str → Type 0 where
  end : Matches [] []
  rest : (ts : List Str) → Matches (pound ∷ []) ts
  any : (u : Str) {f ts : List Str} → Matches f ts → Matches (plus ∷ f) (u ∷ ts)
  same : (u : Str) {f ts : List Str} → Matches f ts → Matches (u ∷ f) (u ∷ ts)

abbrev pub In : Leaf → List Leaf → Type 0
In x [] = ⊥
In x (y ∷ ys) = (x ≡ y) ⊎ In x ys

pub In-append : (x : Leaf) (ys zs : List Leaf) → In x (ys ++ zs) ↔ (In x ys ⊎ In x zs)
In-append x [] zs = (λ i. inr i, λ s. elim s [ inl i ↦ absurd i | inr i ↦ i ])
In-append x (y ∷ ys) zs = (
  λ i. elim i [
    | inl e ↦ inl (inl e)
    | inr j ↦ elim ((In-append x ys zs).0 j) [ inl k ↦ inl (inr k) | inr k ↦ inr k ]
  ],
  λ s. elim s [
    | inl i ↦ elim i [ inl e ↦ inl e | inr j ↦ inr ((In-append x ys zs).1 (inl j)) ]
    | inr j ↦ inr ((In-append x ys zs).1 (inr j))
  ],
)

-- The subscriptions of a filter below a node.
unfoldable pub leaves_at : Hier → List Str → List Leaf
leaves_at null f = []
leaves_at (node t ls r p q ch nx) [] = ls
leaves_at (node t ls r p q ch nx) (u ∷ f) = elim (find_child u ch) [
  | none ↦ []
  | some b ↦ leaves_at b f
]

abbrev pub ChildrenLeaf : Option Hier → Type 0
ChildrenLeaf none = Unit {0}
ChildrenLeaf (some b) = is_null (children_of b) ≡ true

-- No subscription goes on behind a `#`.
abbrev pub PoundEnds : Hier → Type 0
PoundEnds null = Unit {0}
PoundEnds (node t ls r p q ch nx) = ChildrenLeaf (find_child pound ch) × PoundEnds ch × PoundEnds nx

pub find_child-PoundEnds :
    (u : Str) (ch b : Hier) → find_child u ch ≡ some b → PoundEnds ch → PoundEnds b
find_child-PoundEnds u null b e m = unfold find_child in cc
find_child-PoundEnds u (node t ls r p q ch nx) b e m = elim (Bool-cases (str_eq t u)) [
  | inl f ↦ subst PoundEnds (found_here u t ls r p q ch nx f e) m
  | inr f ↦ find_child-PoundEnds u nx b (found_later u t ls r p q ch nx f e) m.2
]

pub leaves_at_nil : (b : Hier) → leaves_at b [] ≡ subs_of b
unfolding leaves_at
leaves_at_nil null = refl
leaves_at_nil (node t ls r p q ch nx) = refl

-- A leaf of a filter that matches the topic, below a node.
abbrev pub Subscribed : Leaf → Hier → List Str → Type 0
Subscribed x b topic = (f : List Str) × Matches f topic × (f ≢ []) × In x (leaves_at b f)

pub last_leaves-In :
    (x : Leaf) (ts : List Str) (b : Hier)
    → In x (last_leaves ts b)
    → Matches [] ts × In x (leaves_at b [])
last_leaves-In x [] b i = (end, rw (leaves_at_nil b) i)
last_leaves-In x (t ∷ ts) b i = absurd i

pub In-last_leaves :
    (x : Leaf) (ts : List Str) (b : Hier)
    → Matches [] ts
    → In x (leaves_at b [])
    → In x (last_leaves ts b)
In-last_leaves x ts b end i = rw (leaves_at_nil b) at i

pub cons≢nil : {u : Str} {f : List Str} → u ∷ f ≢ []
cons≢nil e = cc
