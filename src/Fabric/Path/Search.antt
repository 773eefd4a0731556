-- ===== src/Fabric/Path/Search.antt =====
-- The outcome of the search of a path: a walk, or a set of brokers that no connection leaves.
use opendxl_broker.Prelude.{
  ℕ, zero, suc, ◌+◌, ◌≤◌, ◌<◌, ◌≡◌, refl, sym, ap, ◌∙◌, inl, inr, true, false, none, some, List, [],
  ◌∷◌, Str, str_eq, str_eq→eq, str_eq_refl, has, insert, find, length, arith, Bool-cases,
  Option-cases, has-insert,
}
use opendxl_broker.Fabric.Registry.{Registry, connections_of}
use opendxl_broker.Fabric.Path.{Traversal, visit_connections, find_path_to_broker, find_path}
use opendxl_broker.Fabric.Path.Walks.{
  Walk, unvisited, Grown-insert, has-insert_same, unvisited-insert,
}
use opendxl_broker.Fabric.Path.Loop.{Settled, Outcome, LoopOutcome, trans, loop-LoopOutcome}

module _ (registry : Registry) (finish : Str) where
  pub no_connections :
      (start : Str) → find start registry ≡ none → connections_of registry start ≡ []
  unfolding connections_of
  no_connections start f = rw (f, connections_of) refl

  -- The outcome of a search is that of its loop.
  of_loop :
      (start : Str) (v : List Str) (res : Traversal × List Str)
      → str_eq start finish ≡ false
      → LoopOutcome registry finish
          (connections_of registry start)
          start
          (false, [])
          (insert start v)
          res
      → Outcome registry finish start v res
  of_loop start v res e (g, wk, stay, rest) = (
    trans registry finish v (insert start v) res.1 (Grown-insert start v) g,
    wk,
    λ n. (
      g start (has-insert_same start v),
      λ x h. elim ((rest n).1 x h) [
        | inr k ↦ inr k
        | inl k ↦ elim (Bool-cases (str_eq start x)) [
          | inr f ↦ inl (ground (arith, has-insert x start v, k, f))
          | inl f ↦
              let same = str_eq→eq start x f in
              inr (
                ap (λ y. str_eq y finish) (sym same) ∙ e,
                λ c j. (rest n).0 c (ap (λ y. has c (connections_of registry y)) same ∙ j),
              )
        ]
      ],
    ),
  )

  -- With enough fuel for the brokers that are not visited, the search has an outcome.
  pub find_path_to_broker-Outcome :
      (fuel : ℕ) (start : Str) (v : List Str)
      → has start v ≡ false
      → unvisited registry v < fuel
      → (res : Traversal × List Str) × (find_path_to_broker registry finish fuel start v ≡ some res)
        × Outcome registry finish start v res
  unfolding find_path_to_broker visit_connections has
  find_path_to_broker-Outcome zero start v h lt = absurd (omega (arith, lt))
  find_path_to_broker-Outcome (suc fuel) start v h lt = elim (Bool-cases (str_eq start finish)) [
    | inl e ↦ (
      ((true, finish ∷ []), v),
      rw (e, find_path_to_broker) refl,
      (
        (λ x h. h),
        (λ _. rw (str_eq→eq start finish e) (Walk.here finish)),
        λ n. absurd (ground (arith, n)),
      ),
    )
    | inr e ↦ elim (Option-cases (find start registry)) [
      | inl f ↦ (
        ((false, []), insert start v),
        rw (e, no_connections start f, find_path_to_broker, visit_connections) refl,
        of_loop start v ((false, []), insert start v) e
            (
              (λ x k. k),
              (λ n. absurd (ground (arith, n))),
              (λ n. n),
              λ _. (rw (no_connections start f) (λ x k. absurd (ground (arith, k))), λ x k. inl k),
            ),
      )
      | inr (state, f) ↦
          let go = find_path_to_broker registry finish fuel in
          let less = unvisited-insert registry start v state h f in
          let (res, eq, out) =
            loop-LoopOutcome registry finish go (unvisited registry (insert start v)) start
              (λ c w k le. find_path_to_broker-Outcome fuel c w k (omega (arith, le, less, lt)))
              (connections_of registry start) (false, []) (insert start v) (λ x k. k)
              (λ n. absurd (ground (arith, n))) (omega arith) in
          (res, rw (e, find_path_to_broker) eq, of_loop start v res e out)
    ]
  ]

-- A set of brokers that no connection leaves keeps every walk that begins in it.
Walk-stays :
    (registry : Registry) (w : List Str) (a b : Str) (ids : List Str)
    → ((x c : Str) → has x w ≡ true → has c (connections_of registry x) ≡ true → has c w ≡ true)
    → has a w ≡ true
    → Walk registry a b ids
    → has b w ≡ true
Walk-stays registry w a b ids closed h (Walk.here b') = h
Walk-stays registry w a b ids closed h (Walk.step a' c b' ids' e walk) =
    Walk-stays registry w c b' ids' closed (closed a' c h e) walk

pub unvisited_le : (registry : Registry) → unvisited registry [] ≤ length registry
unfolding unvisited has
unvisited_le [] = omega arith
unvisited_le ((id, state) ∷ registry) = omega (arith, unvisited_le registry)

-- Where all brokers in a set were added by the search.
module _ (registry : Registry) (finish : Str) (w : List Str)
    (s : Settled registry finish [] w) where
  leaves : (x c : Str) → has x w ≡ true → has c (connections_of registry x) ≡ true → has c w ≡ true
  unfolding has
  leaves x c h e = elim (s x h) [ inl k ↦ absurd (ground (arith, k)) | inr (d, j) ↦ j c e ]

  all_left : has finish w ≡ true → ⊥
  unfolding has
  all_left h = elim (s finish h) [
    | inl k ↦ ground (arith, k)
    | inr (d, j) ↦ ground (arith, d, str_eq_refl finish)
  ]

-- For any registry of brokers and any two brokers: findPathToBroker from the one to the other with
-- nothing visited ends within its fuel; if it finds a path, its stack is a walk over connections
-- from the one to the other; and if it finds none, there is no walk.
pub find_path_correct :
    (registry : Registry) (start finish : Str)
    → (found : Traversal) × (find_path registry start finish ≡ some found)
      × (found.0 ≡ true → Walk registry start finish found.1)
      × (found.0 ≡ false → (ids : List Str) → ¬ Walk registry start finish ids)
unfolding find_path
find_path_correct registry start finish =
    let (res, eq, (g, wk, rest)) =
      find_path_to_broker-Outcome registry finish (length registry + 1) start []
        (unfold has in refl) (omega (arith, unvisited_le registry)) in
    (
      res.0,
      rw (eq, find_path) refl,
      wk,
      λ n ids walk. all_left registry finish res.1 (rest n).1 (
          Walk-stays registry res.1 start finish ids
            (λ x c h e. leaves registry finish res.1 (rest n).1 x c h e) (rest n).0 walk),
    )
