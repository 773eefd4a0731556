-- ===== src/Services/Registry/Consistent.antt =====
-- The tables of the registry of services agree: by id and by topic.
use opendxl_broker.Prelude.{
  ℕ, ◌≡◌, refl, sym, ap, ◌∙◌, inl, inr, Bool, true, false, Option, none, some, List, ◌&&◌, Str,
  str_eq, str_eq→eq, str_eq_refl, has, find, assign, remove, find-assign, find-remove, ◌==◌,
  if◌then◌else◌, arith, Bool-cases,
}
use opendxl_broker.Services.Registration.{ServiceEnv}
use opendxl_broker.Services.Registry.{ServiceRegistry, add_service, do_unregister_service}
use opendxl_broker.Services.Registry.Topics.{
  topic_holds, topic_holds-add_to_topics, topic_holds-remove_from_topics,
}

unfoldable pub is_at : ℕ → Option ℕ → Bool
is_at a none = false
is_at a (some b) = b == a

-- Whether a registration is the one for its GUID.
unfoldable pub is_in_use : ServiceRegistry → ℕ → Bool
is_in_use s a = is_at a (find (s.regs a).service_guid s.services_by_id)

-- The GUIDs by id are those of the registrations, and a topic has just the services in use that have
-- it among their channels.
abbrev pub Consistent : ServiceRegistry → Type 0
Consistent s =
    ((guid : Str) (a : ℕ) → find guid s.services_by_id ≡ some a → (s.regs a).service_guid ≡ guid)
    × ((topic : Str) (a : ℕ)
        → topic_holds topic a s.services_by_topic
          ≡ (has topic (s.regs a).request_channels && is_in_use s a))

pub some_inj : (a b : ℕ) → some a ≡ some b → a ≡ b
some_inj a b e = cc

none-some : (b : ℕ) → none ≡ some b → ⊥
none-some b e = cc

at-assign :
    (g h : Str) (a b : ℕ) (m : List (Str × ℕ))
    → is_at b (find h (assign g a m)) ≡ (if str_eq g h then a == b else is_at b (find h m))
unfolding is_at
at-assign g h a b m = elim (Bool-cases (str_eq g h)) [
  | inl e ↦ ap (is_at b) (find-assign g h a m) ∙ rw e refl
  | inr e ↦ ap (is_at b) (find-assign g h a m) ∙ rw e refl
]

at-remove :
    (g h : Str) (b : ℕ) (m : List (Str × ℕ))
    → is_at b (find h (remove g m)) ≡ (if str_eq g h then false else is_at b (find h m))
unfolding is_at
at-remove g h b m = elim (Bool-cases (str_eq g h)) [
  | inl e ↦ ap (is_at b) (find-remove g h m) ∙ rw e refl
  | inr e ↦ ap (is_at b) (find-remove g h m) ∙ rw e refl
]

-- Of two registrations with one GUID, what is at the GUID.
is_in_use-same :
    (s : ServiceRegistry) (a b : ℕ) (o : Option ℕ)
    → find (s.regs a).service_guid s.services_by_id ≡ o
    → str_eq (s.regs a).service_guid (s.regs b).service_guid ≡ true
    → is_in_use s b ≡ is_at b o
unfolding is_in_use
is_in_use-same s a b o e f = ap (is_at b) (
    ap (λ g. find g s.services_by_id)
      (sym (str_eq→eq (s.regs a).service_guid (s.regs b).service_guid f))
    ∙ e)

equal : (a b : ℕ) → (a == b) ≡ true → a ≡ b
equal a b e = ground (arith, e)

pub add_service-Consistent :
    (a : ℕ) (s : ServiceRegistry)
    → Consistent s
    → find (s.regs a).service_guid s.services_by_id ≡ none
    → Consistent (add_service a s)
unfolding add_service is_in_use is_at
add_service-Consistent a s (ids, topics) free = (ids', topics')
  where
    ids' :
        (guid : Str) (b : ℕ)
        → find guid (assign (s.regs a).service_guid a s.services_by_id) ≡ some b
        → (s.regs b).service_guid ≡ guid
    ids' guid b e = elim (Bool-cases (str_eq (s.regs a).service_guid guid)) [
      | inl f ↦
          let is =
            some_inj a b
              (sym (find-assign (s.regs a).service_guid guid a s.services_by_id ∙ rw f refl) ∙ e) in
          ap (λ x. (s.regs x).service_guid) (sym is) ∙ str_eq→eq _ guid f
      | inr f ↦
          ids guid b
            (sym (find-assign (s.regs a).service_guid guid a s.services_by_id ∙ rw f refl) ∙ e)
    ]

    topics' :
        (topic : Str) (b : ℕ)
        → topic_holds topic b (add_service a s).services_by_topic ≡ (
            has topic (s.regs b).request_channels
            && is_at b
                (find (s.regs b).service_guid (assign (s.regs a).service_guid a s.services_by_id)))
    topics' topic b =
        let ga = (s.regs a).service_guid in
        let gb = (s.regs b).service_guid in
        let same = λ (e : (a == b) ≡ true). ap s.regs (equal a b e) in
        let channels = λ (e : (a == b) ≡ true). ap (λ r. has topic r.request_channels) (same e) in
        let guids = λ (e : (a == b) ≡ true).
          ap (λ r. str_eq ga r.service_guid) (sym (same e)) ∙ str_eq_refl ga in
        topic_holds-add_to_topics topic b a (s.regs a).request_channels s.services_by_topic
        ∙ ground (
          arith,
          topics topic b,
          at-assign ga gb a b s.services_by_id,
          channels,
          guids,
          is_in_use-same s a b none free,
        )

pub do_unregister_service-Consistent :
    (env : ServiceEnv) (a : ℕ) (s : ServiceRegistry)
    → Consistent s
    → find (s.regs a).service_guid s.services_by_id ≡ some a
    → Consistent (do_unregister_service env a s)
unfolding do_unregister_service is_in_use is_at
do_unregister_service-Consistent env a s (ids, topics) used = (ids', topics')
  where
    ids' :
        (guid : Str) (b : ℕ)
        → find guid (remove (s.regs a).service_guid s.services_by_id) ≡ some b
        → (s.regs b).service_guid ≡ guid
    ids' guid b e = elim (Bool-cases (str_eq (s.regs a).service_guid guid)) [
      | inl f ↦ absurd (
          none-some b
            (sym (find-remove (s.regs a).service_guid guid s.services_by_id ∙ rw f refl) ∙ e))
      | inr f ↦
          ids guid b
            (sym (find-remove (s.regs a).service_guid guid s.services_by_id ∙ rw f refl) ∙ e)
    ]

    topics' :
        (topic : Str) (b : ℕ)
        → topic_holds topic b (do_unregister_service env a s).services_by_topic ≡ (
            has topic (s.regs b).request_channels
            && is_at b
                (find (s.regs b).service_guid (remove (s.regs a).service_guid s.services_by_id)))
    topics' topic b =
        let ga = (s.regs a).service_guid in
        let gb = (s.regs b).service_guid in
        let same = λ (e : (a == b) ≡ true). ap s.regs (equal a b e) in
        let channels = λ (e : (a == b) ≡ true). ap (λ r. has topic r.request_channels) (same e) in
        let guids = λ (e : (a == b) ≡ true).
          ap (λ r. str_eq ga r.service_guid) (sym (same e)) ∙ str_eq_refl ga in
        topic_holds-remove_from_topics topic b a (s.regs a).request_channels s.services_by_topic
        ∙ ground (
          arith,
          topics topic b,
          at-remove ga gb b s.services_by_id,
          channels,
          guids,
          is_in_use-same s a b (some a) used,
        )
