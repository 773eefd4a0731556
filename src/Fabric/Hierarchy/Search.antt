-- ===== src/Fabric/Hierarchy/Search.antt =====
-- The outcome of the walk down the fabric, and of the search of a subscriber.
use opendxl_broker.Prelude.{
  ℕ, zero, suc, ◌+◌, ◌<◌, ◌≡◌, ◌≢◌, refl, sym, ap, ◌∙◌, inl, inr, Bool, true, false, Option, some,
  List, [], ◌∷◌, ◌++◌, ◌||◌, not, Str, All, str_eq, str_eq→eq, has, insert, find, length, ltb,
  arith, Bool-cases, Option-cases, has-insert,
}
use opendxl_broker.Topic.Wildcards.{pound_char}
use opendxl_broker.Topic.Covers.{prefix, coverings, NoSlash}
use opendxl_broker.Topic.Covers.Loop.{wildcards-prefix}
use opendxl_broker.Fabric.State.{Settings, BrokerState, has_topic, is_topic_routing_enabled}
use opendxl_broker.Fabric.Registry.{
  Registry, connections_of, has_one_of, is_subscriber, is_subscriber_in_broker,
}
use opendxl_broker.Fabric.Path.Walks.{unvisited, Grown-insert, has-insert_same, unvisited-insert}
use opendxl_broker.Fabric.Path.Search.{no_connections, unvisited_le}
use opendxl_broker.Fabric.Hierarchy.{
  traverse_connections, traverse, depth_first_traversal, is_subscriber_in_hierarchy,
}
use opendxl_broker.Fabric.Hierarchy.Route.{
  Route, Passed, TraverseOutcome, ConnectionsOutcome, connections-ConnectionsOutcome,
}

module _ (registry : Registry) (allow : Str → Bool) (visit : Str → Option Bool)
    (total : (x : Str) → (b : Bool) × (visit x ≡ some b)) where
  of_connections :
      (start : Str) (v : List Str) (res : Bool × List Str)
      → visit start ≡ some false
      → ConnectionsOutcome registry allow visit
          (connections_of registry start)
          start
          (insert start v)
          res
      → TraverseOutcome registry allow visit start v res
  of_connections start v res e (g, stop, rest) = (
    (λ x h. g x (Grown-insert start v x h)),
    stop,
    λ n. (
      g start (has-insert_same start v),
      λ x h. elim ((rest n).1 x h) [
        | inr k ↦ inr k
        | inl k ↦ elim (Bool-cases (str_eq start x)) [
          | inr f ↦ inl (ground (arith, has-insert x start v, k, f))
          | inl f ↦
              let same = str_eq→eq start x f in
              inr (
                ap visit (sym same) ∙ e,
                λ c j a. (rest n).0 c (ap (λ y. has c (connections_of registry y)) same ∙ j) a,
              )
        ]
      ],
    ),
  )

  pub traverse-TraverseOutcome :
      (fuel : ℕ) (start : Str) (v : List Str)
      → has start v ≡ false
      → allow start ≡ true
      → unvisited registry v < fuel
      → (res : Bool × List Str) × (traverse registry allow visit fuel start v ≡ some res)
        × TraverseOutcome registry allow visit start v res
  unfolding traverse traverse_connections has
  traverse-TraverseOutcome zero start v h al lt = absurd (omega (arith, lt))
  traverse-TraverseOutcome (suc fuel) start v h al lt = elim (Bool-cases (total start).0) [
    | inl b ↦
        let e = (total start).1 ∙ ap some b in
        (
          (true, insert start v),
          rw (e, traverse) refl,
          (
            Grown-insert start v,
            (λ _. (start, Route.stay start al, e)),
            λ n. absurd (ground (arith, n)),
          ),
        )
    | inr b ↦
        let e = (total start).1 ∙ ap some b in
        elim (Option-cases (find start registry)) [
          | inl f ↦ (
            (false, insert start v),
            rw (e, no_connections registry [] start f, traverse, traverse_connections) refl,
            of_connections start v (false, insert start v) e
                (
                  (λ x k. k),
                  (λ n. absurd (ground (arith, n))),
                  λ _. (
                    rw (no_connections registry [] start f) (λ x k a. absurd (ground (arith, k))),
                    λ x k. inl k,
                  ),
                ),
          )
          | inr (state, f) ↦
              let less = unvisited-insert registry start v state h f in
              let (res, eq, out) =
                connections-ConnectionsOutcome registry allow visit
                  (traverse registry allow visit fuel) (unvisited registry (insert start v)) start
                  al
                  (λ c w k al' le.
                    traverse-TraverseOutcome fuel c w k al' (omega (arith, le, less, lt)))
                  (connections_of registry start) (insert start v) (λ x k. k) (omega arith) in
              (res, rw (e, traverse) eq, of_connections start v res e out)
        ]
  ]

  pub Route-allowed : (a b : Str) → Route registry allow a b → allow a ≡ true
  Route-allowed a b (Route.stay a' al) = al
  Route-allowed a b (Route.go_on a' c b' al e route) = al

  -- Where all visited brokers were passed, so was every one on a route.
  Route-Passed :
      (w : List Str) (a b : Str)
      → Passed registry allow visit [] w
      → has a w ≡ true
      → Route registry allow a b
      → visit b ≡ some false
  unfolding has
  Route-Passed w a b s h (Route.stay a' al) = elim (s a h) [
    | inl k ↦ absurd (ground (arith, k))
    | inr (d, j) ↦ d
  ]
  Route-Passed w a b s h (Route.go_on a' c b' al e route) = elim (s a h) [
    | inl k ↦ absurd (ground (arith, k))
    | inr (d, j) ↦ Route-Passed w c b s (j c e (Route-allowed c b route)) route
  ]

  depth_first_traversal_lem :
      (start : Str)
      → (b : Bool) × (depth_first_traversal registry allow visit start ≡ some b)
        × (b ≡ true → (x : Str) × Route registry allow start x × (visit x ≡ some true))
        × (b ≡ false → (x : Str) → Route registry allow start x → visit x ≡ some false)
  unfolding depth_first_traversal
  depth_first_traversal_lem start = elim (Bool-cases (allow start)) [
    | inr e ↦ (
      false,
      rw e refl,
      (λ n. absurd (ground (arith, n))),
      λ _ x route. absurd (ground (arith, e, Route-allowed start x route)),
    )
    | inl e ↦
        let (res, eq, (g, stop, rest)) =
          traverse-TraverseOutcome (length registry + 1) start [] (unfold has in refl) e
            (omega (arith, unvisited_le registry)) in
        (
          res.0,
          rw (e, eq, depth_first_traversal) refl,
          stop,
          λ n x route. Route-Passed res.1 start x (rest n).1 (rest n).0 route,
        )
  ]

-- The loop over the wildcards of a topic ends, so there is an answer for every broker.
module _ (settings : Settings) (rs : List Str) (l : Str) (ns : All NoSlash rs) (n : NoSlash l)
    (h : l ≢ (pound_char ∷ [])) where
  is_subscriber_total :
      (state : BrokerState) → (b : Bool) × (is_subscriber settings (prefix rs ++ l) state ≡ some b)
  unfolding is_subscriber
  is_subscriber_total state =
      elim (Bool-cases (
        not (is_topic_routing_enabled settings state.broker) || has_topic (prefix rs ++ l) state)) [
          | inl e ↦ (true, rw e refl)
          | inr e ↦ elim (Bool-cases (ltb 0 state.subscriptions_wildcard_count)) [
            | inl f ↦
                (has_one_of (coverings rs) state, rw (e, f, wildcards-prefix rs l ns n h) refl)
            | inr f ↦ (false, rw (e, f) refl)
          ]
        ]

  is_subscriber_in_broker_total :
      (registry : Registry) (id : Str)
      → (b : Bool) × (is_subscriber_in_broker settings id (prefix rs ++ l) registry ≡ some b)
  unfolding is_subscriber_in_broker
  is_subscriber_in_broker_total registry id = elim (Option-cases (find id registry)) [
    | inl e ↦ (false, rw (e, is_subscriber_in_broker) refl)
    | inr (state, e) ↦
        let (b, f) = is_subscriber_total state in (b, rw (e, is_subscriber_in_broker) f)
  ]

  -- For any registry, a topic whose levels are without slashes and whose last level is not `#`
  -- alone, a broker and a connection, without the cache of topics: isSubscriberInHierarchy ends
  -- within its fuel; if it says yes, some broker on a route from the connection over connections
  -- that keeps away from the broker has a subscriber by isSubscriberInBroker; and if it says no,
  -- none on such a route has.
  pub is_subscriber_in_hierarchy_correct :
      (registry : Registry) (broker connection : Str)
      → let subscribes =
          λ (id : Str). is_subscriber_in_broker settings id (prefix rs ++ l) registry in
        let others = λ (id : Str). not (str_eq id broker) in
        (b : Bool) × (is_subscriber_in_hierarchy settings broker connection
            (prefix rs ++ l)
            registry
          ≡ some b)
        × (b ≡ true
            → (id : Str) × Route registry others connection id × (subscribes id ≡ some true))
        × (b ≡ false
            → (id : Str) → Route registry others connection id
            → subscribes id ≡ some false)
  unfolding is_subscriber_in_hierarchy
  is_subscriber_in_hierarchy_correct registry broker connection =
      depth_first_traversal_lem registry (λ id. not (str_eq id broker))
        (λ id. is_subscriber_in_broker settings id (prefix rs ++ l) registry)
        (is_subscriber_in_broker_total registry) connection
