-- ===== src/Fabric/Path/Next.antt =====
-- The next broker on the way to another one, with the routes that the cache keeps.
use opendxl_broker.Prelude.{
  ℕ, ◌≡◌, ◌≢◌, refl, sym, ap, subst, inl, inr, true, false, some, List, [], ◌∷◌, ◌&&◌, Str, All,
  find, str_eq, str_eq→eq, str_eq_refl, has, arith, Bool-cases, &&_true,
}
use opendxl_broker.Fabric.State.{get_connections}
use opendxl_broker.Fabric.Registry.{Registry, connections_of, is_registered}
use opendxl_broker.Fabric.Path.{
  Routes, cached, get_route, set_route, add_route, second, search_route, get_next_broker,
}
use opendxl_broker.Fabric.Path.Walks.{Walk}
use opendxl_broker.Fabric.Path.Search.{find_path_correct}

-- Where no connection of a broker has the empty string for its name.
connections_of-named :
    (registry : Registry)
    → All (λ r. has [] (get_connections r.1) ≡ false) registry
    → (a : Str) → has [] (connections_of registry a) ≡ false
unfolding connections_of find has
connections_of-named [] n a = refl
connections_of-named ((id, state) ∷ registry) n a = elim (Bool-cases (str_eq id a)) [
  | inl e ↦ rw (e, connections_of) n.0
  | inr e ↦ rw (e, connections_of) (connections_of-named registry n.1 a)
]

module _ (registry : Registry) where
  -- A connection of the first broker from which there is a walk to the second.
  abbrev pub Hop : Str → Str → Str → Type 0
  Hop from to next =
      (has next (connections_of registry from) ≡ true)
      × ((ids : List Str) × Walk registry next to ids)

  abbrev pub RoutesRight : Routes → Type 0
  RoutesRight = All (λ r. Hop r.0.0 r.0.1 r.1)

  second-Walk :
      (a b : Str) (ids : List Str)
      → str_eq a b ≡ false
      → Walk registry a b ids
      → Hop a b (second ids)
  unfolding second
  second-Walk a b ids n (Walk.here b') = absurd (ground (arith, n, str_eq_refl a))
  second-Walk a b ids n (Walk.step a' c b' ids' e (Walk.here d)) = (e, (d ∷ [], Walk.here d))
  second-Walk a b ids n (Walk.step a' c b' ids' e (Walk.step c' d b'' ids'' f w)) =
      (e, (c' ∷ ids'', Walk.step c' d b'' ids'' f w))

  cached-Hop :
      (a b : Str) (routes : Routes)
      → RoutesRight routes
      → cached a b routes ≢ []
      → Hop a b (cached a b routes)
  unfolding cached
  cached-Hop a b [] r n = absurd (n refl)
  cached-Hop a b (((from, to), next) ∷ routes) r n =
      elim (Bool-cases (str_eq from a && str_eq to b)) [
        | inl e ↦
            let (f, g) = &&_true (str_eq from a) (str_eq to b) e in
            rw e (rw (sym (str_eq→eq from a f), sym (str_eq→eq to b g)) r.0)
        | inr e ↦ rw e (cached-Hop a b routes r.1 (λ m. n (rw e m)))
      ]

  set_route-RoutesRight :
      (a b n : Str) (routes : Routes)
      → RoutesRight routes
      → Hop a b n
      → RoutesRight (set_route a b n routes)
  unfolding set_route
  set_route-RoutesRight a b n [] r h = (h, tt)
  set_route-RoutesRight a b n (((from, to), next) ∷ routes) r h =
      elim (Bool-cases (str_eq from a && str_eq to b)) [
        | inl e ↦
            let (f, g) = &&_true (str_eq from a) (str_eq to b) e in
            rw e (
              subst (λ x. Hop x to n) (sym (str_eq→eq from a f))
                  (subst (λ y. Hop a y n) (sym (str_eq→eq to b g)) h),
              r.1,
            )
        | inr e ↦ rw e (r.0, set_route-RoutesRight a b n routes r.1 h)
      ]

  add_route-RoutesRight :
      (a b n : Str) (routes : Routes)
      → RoutesRight routes
      → Hop a b n
      → RoutesRight (add_route a b n routes)
  unfolding add_route
  add_route-RoutesRight [] b n routes r h = r
  add_route-RoutesRight (c ∷ cs) [] n routes r h = r
  add_route-RoutesRight (c ∷ cs) (d ∷ ds) [] routes r h = r
  add_route-RoutesRight (c ∷ cs) (d ∷ ds) (e ∷ es) routes r h =
      set_route-RoutesRight (c ∷ cs) (d ∷ ds) (e ∷ es) routes r h

  get_route-Hop :
      (a b : Str) (routes : Routes) (c : ℕ) (cs : Str)
      → RoutesRight routes
      → get_route a b routes ≡ c ∷ cs
      → Hop a b (c ∷ cs)
  unfolding get_route
  get_route-Hop [] b routes c cs r e = cc
  get_route-Hop (x ∷ a) [] routes c cs r e = cc
  get_route-Hop (x ∷ a) (y ∷ b) routes c cs r e =
      subst (Hop (x ∷ a) (y ∷ b)) e (cached-Hop (x ∷ a) (y ∷ b) routes r (λ n. cc))

  -- The answer for two registered brokers: the empty string where there is no walk.
  abbrev pub Answer : Str → Str → Str × Routes → Type 0
  Answer from to res =
      RoutesRight res.1
      × (res.0 ≢ [] → Hop from to res.0)
      × (res.0 ≡ [] → (ids : List Str) → ¬ Walk registry from to ids)

  module _ (named : All (λ r. has [] (get_connections r.1) ≡ false) registry) where
    no_empty : (a : Str) → has [] (connections_of registry a) ≡ false
    no_empty = connections_of-named registry named

    search_route-Answer :
        (from to : Str) (routes : Routes)
        → str_eq from to ≡ false
        → RoutesRight routes
        → (res : Str × Routes) × (search_route registry from to routes ≡ some res)
          × Answer from to res
    unfolding search_route
    search_route-Answer from to routes n r =
        let (found, eq, walk, none_left) = find_path_correct registry from to in
        elim (Bool-cases found.0) [
          | inl f ↦
              let hop = second-Walk from to found.1 n (walk f) in
              (
                (second found.1, add_route from to (second found.1) routes),
                rw (eq, search_route, f) refl,
                (
                  add_route-RoutesRight from to (second found.1) routes r hop,
                  (λ _. hop),
                  λ e.
                      let same = ap (λ x. has x (connections_of registry from)) e in
                      absurd (ground (arith, same, hop.0, no_empty from)),
                ),
              )
          | inr f ↦ (
            ([], routes),
            rw (eq, search_route, f) refl,
            (r, (λ m. absurd (m refl)), λ _. none_left f),
          )
        ]

    -- For two different registered brokers, connections with names that are not empty, and a
    -- cache in which every route goes to a connection of its first broker that has a walk to
    -- its second: getNextBroker returns and leaves such a cache; an answer that is not empty is
    -- a connection of the one with a walk to the other, and an empty answer says that there is
    -- no walk.
    pub get_next_broker_correct :
        (from to : Str) (routes : Routes)
        → is_registered from registry ≡ true
        → is_registered to registry ≡ true
        → str_eq from to ≡ false
        → RoutesRight routes
        → (res : Str × Routes) × (get_next_broker registry from to routes ≡ some res)
          × Answer from to res
    unfolding get_next_broker
    get_next_broker_correct from to routes f t n r = with_route (get_route from to routes) refl
      where
        with_route :
            (s : Str)
            → get_route from to routes ≡ s
            → (res : Str × Routes) × (get_next_broker registry from to routes ≡ some res)
              × Answer from to res
        with_route [] e =
            let (res, eq, out) = search_route-Answer from to routes n r in
            (res, rw (f, t, n, e, get_next_broker) eq, out)
        with_route (c ∷ cs) e = (
          (c ∷ cs, routes),
          rw (f, t, n, e, get_next_broker) refl,
          (r, (λ _. get_route-Hop from to routes c cs r e), λ m. absurd cc),
        )
