-- ===== src/Fabric/Bridge/Walk.antt =====
-- What the walk of the FindBrokersVisitor finds: the brokers on the routes behind the bridge.
use opendxl_broker.Prelude.{
  ℕ, zero, suc, ◌+◌, ◌≡◌, refl, sym, subst, ◌∙◌, ◌⊎◌, inl, inr, Bool, true, false, Option, none,
  some, List, [], ◌∷◌, ◌&&◌, not, Str, str_eq, str_eq→eq, str_eq_refl, has, insert, find, length,
  arith, Bool-cases, Option-cases, has-insert,
}
use opendxl_broker.Fabric.State.{Settings, is_topic_routing_enabled}
use opendxl_broker.Fabric.Registry.{Registry, connections_of}
use opendxl_broker.Fabric.Path.Search.{unvisited_le}
use opendxl_broker.Fabric.Hierarchy.{traverse_connections, traverse}
use opendxl_broker.Fabric.Hierarchy.Route.{Route, Passed}
use opendxl_broker.Fabric.Hierarchy.Search.{traverse-TraverseOutcome, Route-allowed}
use opendxl_broker.Fabric.Bridge.{allow_visit, find_visit, find_brokers}

module _ (registry : Registry) (allow : Str → Bool) (visit : Str → Option Bool) where
  -- Each broker that was visited before or lies on a route.
  OnRoutes : Str → List Str → List Str → Type 0
  OnRoutes start v w = (x : Str) → has x w ≡ true → (has x v ≡ true) ⊎ Route registry allow start x

  -- Behind a connection that was visited.
  OnRoutes-go_on :
      (start c : Str) (v w : List Str)
      → allow start ≡ true
      → has c (connections_of registry start) ≡ true
      → OnRoutes c v w
      → OnRoutes start v w
  unfolding OnRoutes
  OnRoutes-go_on start c v w al conn r x h = elim (r x h) [
    | inl k ↦ inl k
    | inr route ↦ inr (Route.go_on start c x al conn route)
  ]

  OnRoutes-trans :
      (start : Str) (u v w : List Str)
      → OnRoutes start u v
      → OnRoutes start v w
      → OnRoutes start u w
  unfolding OnRoutes
  OnRoutes-trans start u v w r s x h = elim (s x h) [ inl k ↦ r x k | inr route ↦ inr route ]

  none-ne-some : (b : Bool × List Str) → none ≡ some b → ⊥
  none-ne-some b e = cc

  same_res : (a b : Bool × List Str) → some a ≡ some b → a ≡ b
  same_res a b e = cc

  connections-OnRoutes :
      (go : Str → List Str → Option (Bool × List Str)) (start : Str)
      → ((c : Str) (v : List Str) (res : Bool × List Str)
          → allow c ≡ true
          → go c v ≡ some res
          → OnRoutes c v res.1)
      → allow start ≡ true
      → (ids v : List Str) (res : Bool × List Str)
      → ((x : Str) → has x ids ≡ true → has x (connections_of registry start) ≡ true)
      → traverse_connections go allow ids v ≡ some res
      → OnRoutes start v res.1
  unfolding traverse_connections has
  connections-OnRoutes go start ok al [] v res sub e =
      subst (λ (r : Bool × List Str). OnRoutes start v r.1) (same_res (false, v) res e)
        (unfold OnRoutes in λ x h. inl h)
  connections-OnRoutes go start ok al (id ∷ ids) v res sub e =
      elim (Bool-cases (not (has id v) && allow id)) [
        | inr f ↦
            connections-OnRoutes go start ok al ids v res (λ y k. sub y (ground (arith, k)))
              (sym (rw (f, traverse_connections) refl) ∙ e)
        | inl f ↦
            let conn = sub id (ground (arith, str_eq_refl id)) in
            elim (Option-cases (go id v)) [
              | inl g ↦ absurd (none-ne-some res (sym (rw (f, g, traverse_connections) refl) ∙ e))
              | inr ((true, w), g) ↦
                  subst (λ (r : Bool × List Str). OnRoutes start v r.1)
                    (same_res (true, w) res (sym (rw (f, g, traverse_connections) refl) ∙ e))
                    (OnRoutes-go_on start id v w al conn (ok id v (true, w) (ground (arith, f)) g))
              | inr ((false, w), g) ↦
                  OnRoutes-trans start v w res.1
                    (OnRoutes-go_on start id v w al conn (ok id v (false, w) (ground (arith, f)) g))
                    (connections-OnRoutes go start ok al ids w res
                      (λ y k. sub y (ground (arith, k)))
                      (sym (rw (f, g, traverse_connections) refl) ∙ e))
            ]
      ]

  OnRoutes-insert :
      (start : Str) (v : List Str) → allow start ≡ true → OnRoutes start v (insert start v)
  unfolding OnRoutes
  OnRoutes-insert start v al x h = elim (Bool-cases (str_eq start x)) [
    | inl e ↦
        inr (subst (λ y. Route registry allow start y) (str_eq→eq start x e) (Route.stay start al))
    | inr e ↦ inl (ground (arith, has-insert x start v, h, e))
  ]

  traverse-OnRoutes :
      (fuel : ℕ) (start : Str) (v : List Str) (res : Bool × List Str)
      → allow start ≡ true
      → traverse registry allow visit fuel start v ≡ some res
      → OnRoutes start v res.1
  unfolding traverse
  traverse-OnRoutes zero start v res al e = absurd (none-ne-some res e)
  traverse-OnRoutes (suc fuel) start v res al e = elim (Option-cases (visit start)) [
    | inl g ↦ absurd (none-ne-some res (sym (rw (g, traverse) refl) ∙ e))
    | inr (true, g) ↦
        subst (λ (r : Bool × List Str). OnRoutes start v r.1)
          (same_res (true, insert start v) res (sym (rw (g, traverse) refl) ∙ e))
          (OnRoutes-insert start v al)
    | inr (false, g) ↦ OnRoutes-trans start v (insert start v) res.1 (OnRoutes-insert start v al) (
        connections-OnRoutes (traverse registry allow visit fuel) start
          (λ c w r k f. traverse-OnRoutes fuel c w r k f) al (connections_of registry start)
          (insert start v) res (λ x h. h) (sym (rw (g, traverse) refl) ∙ e))
  ]

  module _ (total : (x : Str) → (b : Bool) × (visit x ≡ some b)) where
    -- Every broker on a route was visited, if the walk was not stopped.
    Route-visited :
        (w : List Str) (a b : Str)
        → Passed registry allow visit [] w
        → has a w ≡ true
        → Route registry allow a b
        → has b w ≡ true
    unfolding has
    Route-visited w a b s h (Route.stay a' al) = h
    Route-visited w a b s h (Route.go_on a' c b' al e route) = elim (s a h) [
      | inl k ↦ absurd (ground (arith, k))
      | inr (d, j) ↦
          Route-visited w c b s (j c e (Route-allowed registry allow visit total c b route)) route
    ]

-- The brokers on the routes from a bridge that keep away from the broker of the cache.
abbrev pub Behind : Registry → Str → Str → Str → Type 0
Behind registry broker_id bridge_id id = Route registry (allow_visit broker_id) bridge_id id

-- These are the brokers of a list, and none of them has the routing by topics disabled.
abbrev pub AllFound : Settings → Registry → Str → Str → List Str → Type 0
AllFound settings registry broker_id bridge_id ids =
    (x : Str)
    → (Behind registry broker_id bridge_id x → has x ids ≡ true)
      × (has x ids ≡ true
          → Behind registry broker_id bridge_id x × (find_visit settings registry x ≡ some false))

abbrev pub OneDisabled : Settings → Registry → Str → Str → Type 0
OneDisabled settings registry broker_id bridge_id =
    (x : Str) × Behind registry broker_id bridge_id x × (find_visit settings registry x ≡ some true)

module _ (settings : Settings) (registry : Registry) where
  find_visit_total : (x : Str) → (b : Bool) × (find_visit settings registry x ≡ some b)
  unfolding find_visit
  find_visit_total x = elim (Option-cases (find x registry)) [
    | inl e ↦ (false, rw (e, find_visit) refl)
    | inr (state, e) ↦
        (not (is_topic_routing_enabled settings state.broker), rw (e, find_visit) refl)
  ]

  pub find_brokers_lem :
      (broker_id bridge_id : Str)
      → (res : Bool × List Str) × (find_brokers settings registry broker_id bridge_id ≡ some res)
        × (res.0 ≡ true → OneDisabled settings registry broker_id bridge_id)
        × (res.0 ≡ false → AllFound settings registry broker_id bridge_id res.1)
  unfolding find_brokers OnRoutes has
  find_brokers_lem broker_id bridge_id =
      let allow = allow_visit broker_id in
      let visit = find_visit settings registry in
      elim (Bool-cases (allow bridge_id)) [
        | inr e ↦ (
          (false, []),
          rw e refl,
          (λ n. absurd (ground (arith, n))),
          λ _ x. (
            (λ route. absurd (
                ground (
                  arith,
                  e,
                  Route-allowed registry allow visit find_visit_total bridge_id x route,
                ))),
            λ h. absurd (ground (arith, h)),
          ),
        )
        | inl e ↦
            let (res, eq, (g, stop, rest)) =
              traverse-TraverseOutcome registry allow visit find_visit_total (length registry + 1)
                bridge_id [] (unfold has in refl) e (omega (arith, unvisited_le registry)) in
            let on =
              traverse-OnRoutes registry allow visit (length registry + 1) bridge_id [] res e eq in
            (
              res,
              rw e eq,
              stop,
              λ n x. (
                Route-visited registry allow visit find_visit_total res.1 bridge_id x (rest n).1
                    (rest n).0,
                λ h. (
                  (elim (on x h) [ inl k ↦ absurd (ground (arith, k)) | inr route ↦ route ]),
                  elim ((rest n).1 x h) [ inl k ↦ absurd (ground (arith, k)) | inr (d, j) ↦ d ],
                ),
              ),
            )
      ]
