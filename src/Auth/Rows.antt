-- ===== src/Auth/Rows.antt =====
-- The rows of a policy for a topic and its wildcards, and the loop that looks at them.
use opendxl_broker.Prelude.{
  ◌≡◌, refl, inl, inr, Bool, true, false, none, some, List, [], ◌∷◌, ◌||◌, Str, has, find, str_eq,
  str_eq→eq, arith, Bool-cases, Option-cases,
}
use opendxl_broker.Topic.Iterate.{is_wildcard}
use opendxl_broker.Topic.Covers.{covering, coverings, covering-is_wildcard}
use opendxl_broker.Auth.State.{StateData, has_wildcards, is_authorized, authorized_loop}

-- The rows of some topics.
unfoldable pub rows : StateData → List Str → List (List Str)
rows state [] = []
rows state (topic ∷ topics) = elim (find topic state) [
  | none ↦ rows state topics
  | some agents ↦ agents ∷ rows state topics
]

unfoldable pub in_some : Str → List (List Str) → Bool
in_some key [] = false
in_some key (agents ∷ rest) = has key agents || in_some key rest

-- Where there is no row everyone may, and else who is in one of them.
unfoldable pub permits : List (List Str) → Str → Bool
permits [] key = true
permits (agents ∷ rest) key = in_some key (agents ∷ rest)

unfoldable pub some_permits : List (List Str) → List Str → Bool
some_permits all [] = false
some_permits all (key ∷ keys) = permits all key || some_permits all keys

-- A topic without a row, and one with a row.
module _ (state : StateData) (key t : Str) (ts : List Str) where
  pub no_row :
      find t state ≡ none
      → (is_authorized state key t ≡ (true, false)) × (rows state (t ∷ ts) ≡ rows state ts)
  unfolding is_authorized rows
  no_row e = (rw (e, is_authorized) refl, rw (e, rows) refl)

  pub a_row :
      (agents : List Str)
      → find t state ≡ some agents
      → (is_authorized state key t ≡ (has key agents, true))
        × (rows state (t ∷ ts) ≡ agents ∷ rows state ts)
  unfolding is_authorized rows
  a_row agents e = (rw (e, is_authorized) refl, rw (e, rows) refl)

pub loop-false :
    (state : StateData) (key : Str) (topics : List Str)
    → authorized_loop state key topics false ≡ in_some key (rows state topics)
unfolding authorized_loop in_some
loop-false state key [] = unfold rows in refl
loop-false state key (t ∷ ts) = elim (Option-cases (find t state)) [
  | inl e ↦ rw ((no_row state key t ts e).0, (no_row state key t ts e).1) (loop-false state key ts)
  | inr (agents, e) ↦
      let row = a_row state key t ts agents e in
      elim (Bool-cases (has key agents)) [
        | inl f ↦ rw (row.0, row.1, f) refl
        | inr f ↦ rw (row.0, row.1, f) (loop-false state key ts)
      ]
]

pub loop-true :
    (state : StateData) (key : Str) (topics : List Str)
    → authorized_loop state key topics true ≡ permits (rows state topics) key
unfolding authorized_loop in_some permits
loop-true state key [] = unfold rows in refl
loop-true state key (t ∷ ts) = elim (Option-cases (find t state)) [
  | inl e ↦ rw ((no_row state key t ts e).0, (no_row state key t ts e).1) (loop-true state key ts)
  | inr (agents, e) ↦
      let row = a_row state key t ts agents e in
      elim (Bool-cases (has key agents)) [
        | inl f ↦ rw (row.0, row.1, f) refl
        | inr f ↦ rw (row.0, row.1, f) (loop-false state key ts)
      ]
]

-- Without wildcards in a table no wildcard is found in it.
pub find-wildcard :
    (state : StateData) (t : Str)
    → has_wildcards state ≡ false
    → is_wildcard t ≡ true
    → find t state ≡ none
unfolding has_wildcards find
find-wildcard [] t h w = refl
find-wildcard ((name, clients) ∷ state) t h w = elim (Bool-cases (str_eq name t)) [
  | inl e ↦ ground (arith, str_eq→eq name t e, h, w)
  | inr e ↦ ground (arith, e, find-wildcard state t, h, w)
]

pub rows-none :
    (state : StateData) (rs : List Str)
    → has_wildcards state ≡ false
    → rows state (coverings rs) ≡ []
unfolding rows coverings
rows-none state [] h = rw (find-wildcard state (covering []) h (covering-is_wildcard []), rows) refl
rows-none state (r ∷ rs) h =
    rw (find-wildcard state (covering (r ∷ rs)) h (covering-is_wildcard (r ∷ rs)), rows)
      (rows-none state rs h)
