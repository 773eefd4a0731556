-- ===== src/Subs/Filters/Search.antt =====
-- The search of subs.c against the filters that match the topic.
use opendxl_broker.Prelude.{
  ℕ, ◌≡◌, ◌≢◌, refl, Option, none, some, List, [], ◌∷◌, ◌++◌, Str, inl, inr, ◌↔◌, if◌then◌else◌,
  Option-cases, if_intro,
}
use opendxl_broker.Subs.Tree.{
  Leaf, Hier, null, node, find_child, subs_of, children_of, is_null, pound, plus,
}
use opendxl_broker.Broker.Context.{Env}
use opendxl_broker.Subs.Deliver.{Delivery, Inbox, subs_process, sub_search}
use opendxl_broker.Subs.Counters.{CountersMatch}
use opendxl_broker.Subs.Matching.{
  sub_search-match_leaves, pound_leaves, last_leaves, branch_leaves, match_leaves,
}
use opendxl_broker.Subs.Filters.{
  Matches, In, In-append, leaves_at, ChildrenLeaf, PoundEnds, find_child-PoundEnds, leaves_at_nil,
  Subscribed, last_leaves-In, In-last_leaves, cons≢nil, end, rest, any, same,
}

module _ (x : Leaf) (t : Str) (ls : List Leaf) (r : Option ℕ) (p q : ℕ) (ch nx : Hier) where
  abbrev here : Hier
  here = node t ls r p q ch nx

  -- From a child to its parent.
  below-Subscribed :
      (w : Str) (b : Hier) (f ts : List Str)
      → find_child w ch ≡ some b
      → Matches (w ∷ f) ts
      → In x (leaves_at b f)
      → Subscribed x here ts
  unfolding leaves_at
  below-Subscribed w b f ts e m i = (w ∷ f, m, cons≢nil, rw (e, leaves_at) i)

  pound-Subscribed : (ts : List Str) → In x (pound_leaves ch) → Subscribed x here ts
  pound-Subscribed ts i = elim (Option-cases (find_child pound ch)) [
    | inl e ↦ absurd (rw (e, pound_leaves) at i)
    | inr (b, e) ↦
        below-Subscribed pound b [] ts e (rest ts)
          (rw (leaves_at_nil b) (found b (rw (e, pound_leaves) at i)))
  ]
    where
      found :
          (b : Hier) → In x (if is_null (children_of b) then subs_of b else []) → In x (subs_of b)
      found b =
          if_intro (λ ks. In x ks → In x (subs_of b)) (is_null (children_of b)) _ _ (λ _ i. i)
            (λ _ i. absurd i)

  branch-Subscribed :
      (w : Str) (u : Str) (ts : List Str)
      → ((f : List Str) → Matches f ts → Matches (w ∷ f) (u ∷ ts))
      → ((b : Hier) → In x (match_leaves b ts) → Subscribed x b ts)
      → In x (branch_leaves (λ b. match_leaves b ts ++ last_leaves ts b) (find_child w ch))
      → Subscribed x here (u ∷ ts)
  branch-Subscribed w u ts step ih i = elim (Option-cases (find_child w ch)) [
    | inl e ↦ absurd (rw (e, branch_leaves) at i)
    | inr (b, e) ↦
        elim ((In-append x (match_leaves b ts) (last_leaves ts b)).0 (rw (e, branch_leaves) at i)) [
          | inl j ↦ let (f, m, _, k) = ih b j in below-Subscribed w b f (u ∷ ts) e (step f m) k
          | inr j ↦
              let (m, k) = last_leaves-In x ts b j in
              below-Subscribed w b [] (u ∷ ts) e (step [] m) k
        ]
  ]

-- What the search finds has a filter that matches.
match_leaves-Subscribed :
    (x : Leaf) (b : Hier) (topic : List Str) → In x (match_leaves b topic) → Subscribed x b topic
unfolding match_leaves
match_leaves-Subscribed x null topic i = absurd i
match_leaves-Subscribed x (node t ls r p q ch nx) [] i = pound-Subscribed x t ls r p q ch nx [] i
match_leaves-Subscribed x (node t ls r p q ch nx) (u ∷ ts) i =
    elim ((In-append x (pound_leaves ch) _).0 i) [
      | inl j ↦ pound-Subscribed x t ls r p q ch nx (u ∷ ts) j
      | inr j ↦ elim ((In-append x (branch_leaves _ (find_child plus ch)) _).0 j) [
        | inl k ↦
            branch-Subscribed x t ls r p q ch nx plus u ts (λ f m. any u m)
              (λ b. match_leaves-Subscribed x b ts) k
        | inr k ↦
            branch-Subscribed x t ls r p q ch nx u u ts (λ f m. same u m)
              (λ b. match_leaves-Subscribed x b ts) k
      ]
    ]

-- A leaf that a child finds is found through it.
In-branch_leaves :
    (x : Leaf) (ts f : List Str) (o : Option Hier)
    → ((b : Hier)
        → o ≡ some b
        → In x (leaves_at b f)
        → In x (match_leaves b ts ++ last_leaves ts b))
    → In x (elim o [ none ↦ [] | some b ↦ leaves_at b f ])
    → In x (branch_leaves (λ b. match_leaves b ts ++ last_leaves ts b) o)
In-branch_leaves x ts f none h i = i
In-branch_leaves x ts f (some b) h i = h b refl i

pound_found :
    (x : Leaf) (o : Option Hier)
    → ChildrenLeaf o
    → In x (elim o [ none ↦ [] | some b ↦ leaves_at b [] ])
    → In x (elim o [ none ↦ [] | some b ↦ if is_null (children_of b) then subs_of b else [] ])
pound_found x none h i = i
pound_found x (some b) h i = rw h (rw (leaves_at_nil b) at i)

module _ (x : Leaf) (t : Str) (ls : List Leaf) (r : Option ℕ) (p q : ℕ) (ch nx : Hier) where
  -- A leaf of the child `#`.
  In-pound_leaves :
      ChildrenLeaf (find_child pound ch)
      → In x (leaves_at (node t ls r p q ch nx) (pound ∷ []))
      → In x (pound_leaves ch)
  unfolding leaves_at
  In-pound_leaves h i = pound_found x (find_child pound ch) h i

  -- A leaf of the child of a level.
  In-level_leaves :
      (w : Str) (ts f : List Str)
      → ((b : Hier)
          → find_child w ch ≡ some b
          → In x (leaves_at b f)
          → In x (match_leaves b ts ++ last_leaves ts b))
      → In x (leaves_at (node t ls r p q ch nx) (w ∷ f))
      → In x (branch_leaves (λ b. match_leaves b ts ++ last_leaves ts b) (find_child w ch))
  unfolding leaves_at
  In-level_leaves w ts f h i = In-branch_leaves x ts f (find_child w ch) h i

no_leaves : (x : Leaf) (f : List Str) → In x (leaves_at null f) → ⊥
unfolding leaves_at
no_leaves x f i = i

-- Where the search visits a child, the child's own leaves count at a topic's end.
In-visited :
    (x : Leaf) (b : Hier) (f ts : List Str)
    → Matches f ts
    → (f ≢ [] → In x (leaves_at b f) → In x (match_leaves b ts))
    → In x (leaves_at b f)
    → In x (match_leaves b ts ++ last_leaves ts b)
In-visited x b [] ts m h i =
    (In-append x (match_leaves b ts) (last_leaves ts b)).1 (inr (In-last_leaves x ts b m i))
In-visited x b (u ∷ f) ts m h i =
    (In-append x (match_leaves b ts) (last_leaves ts b)).1 (inl (h cons≢nil i))

In-match_leaves :
    (x : Leaf) (b : Hier) {f topic : List Str}
    → PoundEnds b
    → Matches f topic
    → f ≢ []
    → In x (leaves_at b f)
    → In x (match_leaves b topic)
unfolding match_leaves
In-match_leaves x null w m n i = absurd (no_leaves x _ i)
In-match_leaves x (node t ls r p q ch nx) w end n i = absurd (n refl)
In-match_leaves x (node t ls r p q ch nx) w (rest []) n i = In-pound_leaves x t ls r p q ch nx w.0 i
In-match_leaves x (node t ls r p q ch nx) w (rest (v ∷ ts)) n i =
    (In-append x (pound_leaves ch) _).1 (inl (In-pound_leaves x t ls r p q ch nx w.0 i))
In-match_leaves x (node t ls r p q ch nx) w (any u {f = f} {ts = ts} m) n i =
    (In-append x (pound_leaves ch) _).1 (
      inr (
        (In-append x (branch_leaves _ (find_child plus ch)) _).1 (
          inl (
            In-level_leaves x t ls r p q ch nx plus ts f
              (λ b e.
                In-visited x b f ts m
                  (In-match_leaves x b (find_child-PoundEnds plus ch b e w.1) m))
              i))))
In-match_leaves x (node t ls r p q ch nx) w (same u {f = f} {ts = ts} m) n i =
    (In-append x (pound_leaves ch) _).1 (
      inr (
        (In-append x (branch_leaves _ (find_child plus ch)) _).1 (
          inr (
            In-level_leaves x t ls r p q ch nx u ts f
              (λ b e.
                In-visited x b f ts m (In-match_leaves x b (find_child-PoundEnds u ch b e w.1) m))
              i))))

-- Below a node where no subscription goes on behind a `#`, and for any topic, the search finds a
-- leaf exactly if the leaf stands at a filter that is not empty and that matches the topic.
pub match_leaves-Matches :
    (x : Leaf) (b : Hier) (topic : List Str)
    → PoundEnds b
    → In x (match_leaves b topic) ↔ Subscribed x b topic
match_leaves-Matches x b topic w =
    (match_leaves-Subscribed x b topic, λ s. let (f, m, n, i) = s in In-match_leaves x b w m n i)

-- At a node below which the counters of wildcards are right and no subscription goes on behind a
-- `#`, for any topic: the search processes the leaves of a list, in the list's order, and a leaf is
-- in the list exactly if it stands at a filter that is not empty and matches the topic by the rules
-- of MQTT, level by level.
pub sub_search_exact :
    (env : Env) (d : Delivery) (b : Hier) (topic : List Str) (inbox : Inbox)
    → CountersMatch b
    → PoundEnds b
    → (ls : List Leaf) × (sub_search env d b topic inbox ≡ subs_process env d ls inbox)
      × ((x : Leaf) → In x ls ↔ Subscribed x b topic)
sub_search_exact env d b topic inbox m w = (
  match_leaves b topic,
  sub_search-match_leaves env d b topic inbox m,
  λ x. match_leaves-Matches x b topic w,
)
