-- ===== src/Fabric/Counted.antt =====
-- The count of the wildcards among the topics of a broker.
use opendxl_broker.Prelude.{
  ℕ, ◌+◌, ◌%◌, ◌^◌, ◌≡◌, refl, sym, ap, ◌∙◌, inl, inr, true, false, List, [], ◌∷◌, Str, str_eq,
  str_eq→eq, has, insert, erase, if◌then◌else◌, arith, Bool-cases, has-erase, str_eq_sym, All,
}
use opendxl_broker.Topic.Iterate.{is_wildcard}
use opendxl_broker.Fabric.State.{
  Settings, BrokerState, add_topic, remove_topic, clear_pending_topics, swap_pending_topics,
  add_pending_topics, insert_all,
}

unfoldable pub wildcards_in : List Str → ℕ
wildcards_in [] = 0
wildcards_in (t ∷ ts) = (if is_wildcard t then 1 else 0) + wildcards_in ts

-- Without doubles.
abbrev pub Distinct : List Str → Type 0
Distinct [] = Unit
Distinct (t ∷ ts) = (has t ts ≡ false) × Distinct ts

-- A set of topics with the number of its wildcards, modulo 2^32.
abbrev pub Counted : List Str → ℕ → Type 0
Counted topics count = Distinct topics × (count ≡ wildcards_in topics % 2 ^ 32)

abbrev pub TopicsCounted : BrokerState → Type 0
TopicsCounted state =
    Counted state.subscriptions state.subscriptions_wildcard_count
    × Counted state.pending_subscriptions state.pending_subscriptions_wildcard_count

erase-absent : (t : Str) (ts : List Str) → has t ts ≡ false → erase t ts ≡ ts
unfolding erase has
erase-absent t [] h = refl
erase-absent t (x ∷ ts) h = ground (arith, erase-absent t ts)

pub erase-Distinct : (t : Str) (ts : List Str) → Distinct ts → Distinct (erase t ts)
unfolding erase
erase-Distinct t [] d = d
erase-Distinct t (x ∷ ts) d = elim (Bool-cases (str_eq x t)) [
  | inl e ↦ rw e (erase-Distinct t ts d.1)
  | inr e ↦ rw e (ground (arith, has-erase x t ts, d.0), erase-Distinct t ts d.1)
]

pub wildcards_in-erase :
    (t : Str) (ts : List Str)
    → Distinct ts
    → has t ts ≡ true
    → wildcards_in ts ≡ wildcards_in (erase t ts) + (if is_wildcard t then 1 else 0)
unfolding erase has wildcards_in
wildcards_in-erase t [] d h = cc
wildcards_in-erase t (x ∷ ts) d h = elim (Bool-cases (str_eq x t)) [
  | inl e ↦
      let same = str_eq→eq x t e in
      rw (e, erase-absent t ts (ap (λ y. has y ts) (sym same) ∙ d.0), same) (omega arith)
  | inr e ↦ rw e (ground (arith, wildcards_in-erase t ts d.1, h))
]

insert-Distinct : (t : Str) (ts : List Str) → Distinct ts → Distinct (insert t ts)
unfolding insert
insert-Distinct t ts d = elim (Bool-cases (has t ts)) [ inl e ↦ rw e d | inr e ↦ rw e (e, d) ]

add_topic-TopicsCounted :
    (settings : Settings) (topic : Str) (state : BrokerState)
    → TopicsCounted state
    → TopicsCounted (add_topic settings topic state).1
unfolding add_topic insert wildcards_in
add_topic-TopicsCounted settings topic state h = elim (Bool-cases (has topic state.subscriptions)) [
  | inl e ↦ rw e h
  | inr e ↦ rw e (((e, h.0.0), ground (arith, h.0.1)), h.1)
]

remove_topic-TopicsCounted :
    (settings : Settings) (topic : Str) (state : BrokerState)
    → TopicsCounted state
    → TopicsCounted (remove_topic settings topic state).1
unfolding remove_topic
remove_topic-TopicsCounted settings topic state h =
    elim (Bool-cases (has topic state.subscriptions)) [
      | inl e ↦ rw e (
        (
          erase-Distinct topic state.subscriptions h.0.0,
          ground (arith, h.0.1, wildcards_in-erase topic state.subscriptions h.0.0 e),
        ),
        h.1,
      )
      | inr e ↦ rw e h
    ]

Fresh : List Str → List Str → Type 0
Fresh xs ys = All (λ x. has x ys ≡ false) xs

Fresh-cons : (x : Str) (xs ys : List Str) → has x xs ≡ false → Fresh xs ys → Fresh xs (x ∷ ys)
unfolding Fresh has
Fresh-cons x [] ys h f = tt
Fresh-cons x (z ∷ xs) ys h f =
    (ground (arith, f.0, str_eq_sym x z, h), Fresh-cons x xs ys (ground (arith, h)) f.1)

insert_all-Counted :
    (xs ys : List Str)
    → Distinct xs
    → Distinct ys
    → Fresh xs ys
    → Distinct (insert_all xs ys)
      × (wildcards_in (insert_all xs ys) ≡ wildcards_in xs + wildcards_in ys)
unfolding insert_all insert wildcards_in Fresh
insert_all-Counted [] ys d e f = (e, omega arith)
insert_all-Counted (x ∷ xs) ys d e f = rw f.0 (
    let rest = insert_all-Counted xs (x ∷ ys) d.1 (f.0, e) (Fresh-cons x xs ys d.0 f.1) in
    (rest.0, omega (arith, rest.1)))

pending_topics-TopicsCounted :
    (subs : List Str) (count : ℕ) (state : BrokerState)
    → TopicsCounted state
    → Distinct subs
    → All (λ x. has x state.pending_subscriptions ≡ false) subs
    → count ≡ wildcards_in subs
    → TopicsCounted (add_pending_topics subs count state)
      × TopicsCounted (swap_pending_topics (add_pending_topics subs count state))
unfolding add_pending_topics swap_pending_topics clear_pending_topics wildcards_in Fresh
pending_topics-TopicsCounted subs count state h d f c =
    let added = insert_all-Counted subs state.pending_subscriptions d h.1.0 f in
    let pending : Counted (insert_all subs state.pending_subscriptions)
        ((state.pending_subscriptions_wildcard_count + count) % 2 ^ 32) =
      (added.0, omega (arith, added.1, h.1.1, c)) in
    ((h.0, pending), (pending, (tt, refl)))

-- For a broker whose topics and whose pending topics are without doubles, each with a count that is
-- the number of the wildcards among them modulo 2^32, and topics without doubles that are not
-- pending yet, given with the number of their wildcards: this also holds after addTopic and after
-- removeTopic of any topic, after addPendingTopics of the given topics, and after swapPendingTopics
-- behind that.
pub topics-TopicsCounted :
    (settings : Settings) (topic : Str) (subs : List Str) (count : ℕ) (state : BrokerState)
    → TopicsCounted state
    → Distinct subs
    → All (λ x. has x state.pending_subscriptions ≡ false) subs
    → count ≡ wildcards_in subs
    → TopicsCounted (add_topic settings topic state).1
      × TopicsCounted (remove_topic settings topic state).1
      × TopicsCounted (add_pending_topics subs count state)
      × TopicsCounted (swap_pending_topics (add_pending_topics subs count state))
topics-TopicsCounted settings topic subs count state h d f c =
    let pending = pending_topics-TopicsCounted subs count state h d f c in
    (
      add_topic-TopicsCounted settings topic state h,
      remove_topic-TopicsCounted settings topic state h,
      pending.0,
      pending.1,
    )
