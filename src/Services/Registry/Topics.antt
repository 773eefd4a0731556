-- ===== src/Services/Registry/Topics.antt =====
-- Which services the table of topics has for a topic, after services are added and removed.
use opendxl_broker.Prelude.{
  ℕ, ◌≡◌, refl, sym, ap, ◌∙◌, inl, inr, Bool, true, false, Option, none, some, List, [], ◌∷◌, ◌&&◌,
  ◌||◌, not, Str, str_eq, str_eq→eq, has, find, assign, remove, find-assign, find-remove, ◌==◌,
  if◌then◌else◌, arith, Bool-cases,
}
use opendxl_broker.Services.Zone.{erase_service}
use opendxl_broker.Services.Topic.{
  TopicServices, topic_add_service, topic_remove_service, clear_service_zones,
}
use opendxl_broker.Services.Topic.Cover.{holds, holds-insert_service}
use opendxl_broker.Services.Registry.{
  ByTopic, topic_or_new, add_to_topics, put_topic, remove_from_topic, remove_from_topics,
}
use opendxl_broker.Services.Registry.Update.{clear_topics}

unfoldable pub holds_in : ℕ → Option TopicServices → Bool
holds_in a none = false
holds_in a (some t) = holds a t.services

unfoldable pub topic_holds : Str → ℕ → ByTopic → Bool
topic_holds topic a by_topic = holds_in a (find topic by_topic)

holds-erase_service :
    (p s : ℕ) (ss : List ℕ) → holds p (erase_service s ss) ≡ (not (s == p) && holds p ss)
unfolding holds erase_service
holds-erase_service p s [] = ground arith
holds-erase_service p s (x ∷ ss) = ground (arith, holds-erase_service p s ss)

topic_holds-assign :
    (t topic : Str) (a : ℕ) (ts : TopicServices) (m : ByTopic)
    → topic_holds t a (assign topic ts m)
      ≡ (if str_eq topic t then holds a ts.services else topic_holds t a m)
unfolding topic_holds holds_in
topic_holds-assign t topic a ts m = elim (Bool-cases (str_eq topic t)) [
  | inl e ↦ ap (holds_in a) (find-assign topic t ts m) ∙ rw e refl
  | inr e ↦ ap (holds_in a) (find-assign topic t ts m) ∙ rw e refl
]

topic_holds-remove :
    (t topic : Str) (a : ℕ) (m : ByTopic)
    → topic_holds t a (remove topic m) ≡ (if str_eq topic t then false else topic_holds t a m)
unfolding topic_holds holds_in
topic_holds-remove t topic a m = elim (Bool-cases (str_eq topic t)) [
  | inl e ↦ ap (holds_in a) (find-remove topic t m) ∙ rw e refl
  | inr e ↦ ap (holds_in a) (find-remove topic t m) ∙ rw e refl
]

topic_holds-put_topic :
    (t topic : Str) (a : ℕ) (ts : TopicServices) (services : List ℕ) (m : ByTopic)
    → ts.services ≡ services
    → topic_holds t a (put_topic topic ts m)
      ≡ (if str_eq topic t then holds a services else topic_holds t a m)
unfolding put_topic holds
topic_holds-put_topic t topic a ts [] m e = rw (e, put_topic) (topic_holds-remove t topic a m)
topic_holds-put_topic t topic a ts (s ∷ services) m e =
    rw (e, put_topic) (topic_holds-assign t topic a ts m ∙ rw e refl)

topic_holds-found :
    (t topic : Str) (a : ℕ) (m : ByTopic) (o : Option TopicServices)
    → find topic m ≡ o
    → str_eq topic t ≡ true
    → topic_holds t a m ≡ holds_in a o
unfolding topic_holds
topic_holds-found t topic a m o e f =
    ap (holds_in a) (ap (λ x. find x m) (sym (str_eq→eq topic t f)) ∙ e)

add_step :
    (t topic : Str) (a reg : ℕ) (m : ByTopic) (o : Option TopicServices)
    → find topic m ≡ o
    → topic_holds t a (assign topic (topic_add_service reg (topic_or_new topic o)) m)
      ≡ ((str_eq topic t && reg == a) || topic_holds t a m)
unfolding topic_add_service clear_service_zones topic_or_new holds_in holds
add_step t topic a reg m none e = elim (Bool-cases (str_eq topic t)) [
  | inl f ↦
      topic_holds-assign t topic a _ m
      ∙ ground (arith, f, holds-insert_service a reg [], topic_holds-found t topic a m none e f)
  | inr f ↦ topic_holds-assign t topic a _ m ∙ rw f refl
]
add_step t topic a reg m (some ts) e = elim (Bool-cases (str_eq topic t)) [
  | inl f ↦
      topic_holds-assign t topic a _ m
      ∙ ground (
        arith,
        f,
        holds-insert_service a reg ts.services,
        topic_holds-found t topic a m (some ts) e f,
      )
  | inr f ↦ topic_holds-assign t topic a _ m ∙ rw f refl
]

pub topic_holds-add_to_topics :
    (t : Str) (a reg : ℕ) (topics : List Str) (m : ByTopic)
    → topic_holds t a (add_to_topics reg topics m)
      ≡ ((has t topics && reg == a) || topic_holds t a m)
unfolding add_to_topics has
topic_holds-add_to_topics t a reg [] m = refl
topic_holds-add_to_topics t a reg (topic ∷ topics) m =
    topic_holds-add_to_topics t a reg topics _
    ∙ ground (arith, add_step t topic a reg m (find topic m) refl)

remove_step :
    (t topic : Str) (a reg : ℕ) (m : ByTopic) (o : Option TopicServices)
    → find topic m ≡ o
    → topic_holds t a (remove_from_topic reg topic o m)
      ≡ (not (str_eq topic t && reg == a) && topic_holds t a m)
unfolding topic_remove_service clear_service_zones remove_from_topic holds_in
remove_step t topic a reg m none e = elim (Bool-cases (str_eq topic t)) [
  | inl f ↦ ground (arith, f, topic_holds-found t topic a m none e f)
  | inr f ↦ rw f refl
]
remove_step t topic a reg m (some ts) e = elim (Bool-cases (str_eq topic t)) [
  | inl f ↦
      topic_holds-put_topic t topic a _ _ m refl
      ∙ ground (
        arith,
        f,
        holds-erase_service a reg ts.services,
        topic_holds-found t topic a m (some ts) e f,
      )
  | inr f ↦ topic_holds-put_topic t topic a _ _ m refl ∙ rw f refl
]

pub topic_holds-remove_from_topics :
    (t : Str) (a reg : ℕ) (topics : List Str) (m : ByTopic)
    → topic_holds t a (remove_from_topics reg topics m)
      ≡ (not (has t topics && reg == a) && topic_holds t a m)
unfolding remove_from_topics has
topic_holds-remove_from_topics t a reg [] m = refl
topic_holds-remove_from_topics t a reg (topic ∷ topics) m =
    topic_holds-remove_from_topics t a reg topics _
    ∙ ground (arith, remove_step t topic a reg m (find topic m) refl)

-- A topic that is put back with the same services.
pub topic_holds-same :
    (t topic : Str) (a : ℕ) (old new : TopicServices) (m : ByTopic)
    → find topic m ≡ some old
    → new.services ≡ old.services
    → topic_holds t a (assign topic new m) ≡ topic_holds t a m
unfolding holds_in
topic_holds-same t topic a old new m e same = elim (Bool-cases (str_eq topic t)) [
  | inl f ↦
      topic_holds-assign t topic a new m
      ∙ rw f (ap (holds a) same ∙ sym (topic_holds-found t topic a m (some old) e f))
  | inr f ↦ topic_holds-assign t topic a new m ∙ rw f refl
]

pub topic_holds-clear_topics :
    (t : Str) (a : ℕ) (m : ByTopic) → topic_holds t a (clear_topics m) ≡ topic_holds t a m
unfolding topic_holds holds_in clear_topics clear_service_zones find
topic_holds-clear_topics t a [] = refl
topic_holds-clear_topics t a ((topic, ts) ∷ m) = elim (Bool-cases (str_eq topic t)) [
  | inl e ↦ rw e refl
  | inr e ↦ rw e (topic_holds-clear_topics t a m)
]
