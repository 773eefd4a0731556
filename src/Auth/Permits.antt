-- ===== src/Auth/Permits.antt =====
-- What a policy allows: the rows for the topic and for the wildcards that cover it decide together.
use opendxl_broker.Prelude.{
  ◌≡◌, ◌≢◌, refl, ap, ◌∙◌, inl, inr, Bool, false, Option, none, some, List, [], ◌∷◌, ◌++◌, ◌||◌,
  Str, All, has, find, arith, Bool-cases, Option-cases,
}
use opendxl_broker.Topic.Wildcards.{pound_char}
use opendxl_broker.Topic.Covers.{prefix, coverings, NoSlash}
use opendxl_broker.Topic.Covers.Loop.{wildcards-prefix}
use opendxl_broker.Auth.State.{
  StateData, has_wildcards, authorization_state, authorized_for, is_authorized_to_subscribe,
  is_authorized_to_publish, certs_loop, with_certs,
}
use opendxl_broker.Auth.Rows.{
  rows, in_some, permits, some_permits, no_row, a_row, loop-false, loop-true, rows-none,
}

-- Without certificates the empty key is tried.
unfoldable pub if_none : List Str → List Str
if_none [] = [] ∷ []
if_none (cert ∷ certs) = cert ∷ certs

module _ (wildcarding : Bool) (state : StateData) (rs : List Str) (l : Str)
    (enabled : wildcarding ≡ false → has_wildcards state ≡ false) (ns : All NoSlash rs)
    (n : NoSlash l) (h : l ≢ (pound_char ∷ [])) where
  without_row :
      (key : Str)
      → find (prefix rs ++ l) state ≡ none
      → authorized_for wildcarding state key (prefix rs ++ l)
        ≡ some (permits (rows state ((prefix rs ++ l) ∷ coverings rs)) key)
  unfolding authorized_for
  without_row key e =
      let row = no_row state key (prefix rs ++ l) (coverings rs) e in
      elim (Bool-cases wildcarding) [
        | inl w ↦
            rw (w, wildcards-prefix rs l ns n h, row.0, row.1)
              (ap some (loop-true state key (coverings rs)))
        | inr w ↦ rw (w, row.0, row.1, rows-none state rs (enabled w)) (unfold permits in refl)
      ]

  with_row :
      (key : Str) (agents : List Str)
      → find (prefix rs ++ l) state ≡ some agents
      → authorized_for wildcarding state key (prefix rs ++ l)
        ≡ some (permits (rows state ((prefix rs ++ l) ∷ coverings rs)) key)
  unfolding authorized_for permits in_some
  with_row key agents e =
      let row = a_row state key (prefix rs ++ l) (coverings rs) agents e in
      elim (Bool-cases wildcarding) [
        | inl w ↦ elim (Bool-cases (has key agents)) [
          | inl f ↦ rw (w, row.0, row.1, f) refl
          | inr f ↦
              rw (w, wildcards-prefix rs l ns n h, row.0, row.1, f)
                (ap some (loop-false state key (coverings rs)))
        ]
        | inr w ↦ elim (Bool-cases (has key agents)) [
          | inl f ↦ rw (w, row.0, row.1, rows-none state rs (enabled w), f) refl
          | inr f ↦ rw (w, row.0, row.1, rows-none state rs (enabled w), f) refl
        ]
      ]

  authorized_for-permits :
      (key : Str)
      → authorized_for wildcarding state key (prefix rs ++ l)
        ≡ some (permits (rows state ((prefix rs ++ l) ∷ coverings rs)) key)
  authorized_for-permits key = elim (Option-cases (find (prefix rs ++ l) state)) [
    | inl e ↦ without_row key e
    | inr (agents, e) ↦ with_row key agents e
  ]

certs_loop-permits :
    (check : Str → Option Bool) (all : List (List Str))
    → ((key : Str) → check key ≡ some (permits all key))
    → (certs : List Str) → certs_loop check certs ≡ some (some_permits all certs)
unfolding certs_loop some_permits
certs_loop-permits check all h [] = refl
certs_loop-permits check all h (cert ∷ certs) = elim (Bool-cases (permits all cert)) [
  | inl e ↦ rw (h cert, e, certs_loop) refl
  | inr e ↦ rw (h cert, e, certs_loop) (certs_loop-permits check all h certs)
]

module _ (publishers subscribers : StateData) (rs : List Str) (l : Str) (ns : All NoSlash rs)
    (n : NoSlash l) (h : l ≢ (pound_char ∷ [])) where
  off : (a b : Bool) → (a || b) ≡ false → (a ≡ false) × (b ≡ false)
  off a b e = ground arith

  or_false : (a : Bool) → a ≡ (a || false)
  or_false a = ground arith

  -- For a policy of two tables and a topic whose levels are without slashes and whose last level
  -- is not `#` alone: a client may subscribe exactly if the table of subscribers has no row for
  -- the topic and for the wildcards that cover it, or one of these rows has the client; and the
  -- same of publishing with the table of publishers, whether wildcards are enabled or not.
  pub authorized-permits :
      (key : Str)
      → (is_authorized_to_subscribe
            (authorization_state publishers subscribers)
            key
            (prefix rs ++ l)
          ≡ some (permits (rows subscribers ((prefix rs ++ l) ∷ coverings rs)) key))
        × (is_authorized_to_publish
              (authorization_state publishers subscribers)
              key
              (prefix rs ++ l)
            ≡ some (permits (rows publishers ((prefix rs ++ l) ∷ coverings rs)) key))
  unfolding is_authorized_to_subscribe is_authorized_to_publish authorization_state
  authorized-permits key =
      let wild = has_wildcards publishers || has_wildcards subscribers in
      (
        authorized_for-permits wild subscribers rs l (λ e. (off (has_wildcards publishers) _ e).1)
            ns n h key,
        authorized_for-permits wild publishers rs l (λ e. (off _ (has_wildcards subscribers) e).0)
            ns n h key,
      )

  -- For a policy of two tables, a topic whose levels are without slashes and whose last level is
  -- not `#` alone and any certificates: the answer to their hashes is yes exactly if the rows for
  -- the topic and for the wildcards that cover it permit one of the hashes, where the empty
  -- string stands for the hashes if there are none; this holds of subscribing and of publishing.
  pub with_certs-permits :
      (certs : List Str)
      → (with_certs
            (λ key.
              is_authorized_to_subscribe
                (authorization_state publishers subscribers)
                key
                (prefix rs ++ l))
            certs
          ≡ some
              (some_permits (rows subscribers ((prefix rs ++ l) ∷ coverings rs)) (if_none certs)))
        × (with_certs
              (λ key.
                is_authorized_to_publish
                  (authorization_state publishers subscribers)
                  key
                  (prefix rs ++ l))
              certs
            ≡ some
                (some_permits (rows publishers ((prefix rs ++ l) ∷ coverings rs)) (if_none certs)))
  unfolding with_certs if_none some_permits
  with_certs-permits [] = (
    (authorized-permits []).0 ∙ ap some (or_false _),
    (authorized-permits []).1 ∙ ap some (or_false _),
  )
  with_certs-permits (cert ∷ certs) = (
    certs_loop-permits _ _ (λ key. (authorized-permits key).0) (cert ∷ certs),
    certs_loop-permits _ _ (λ key. (authorized-permits key).1) (cert ∷ certs),
  )
