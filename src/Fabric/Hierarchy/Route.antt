-- ===== src/Fabric/Hierarchy/Route.antt =====
-- The loop of the walk down the fabric.
use opendxl_broker.Prelude.{
  ℕ, ◌≤◌, ◌≡◌, refl, sym, ap, ◌∙◌, ◌⊎◌, inl, inr, Bool, true, false, Option, some, List, [], ◌∷◌,
  ◌&&◌, not, Str, str_eq, str_eq→eq, str_eq_refl, has, arith, Bool-cases,
}
use opendxl_broker.Fabric.Registry.{Registry, connections_of}
use opendxl_broker.Fabric.Path.Walks.{unvisited, Grown, unvisited-Grown}
use opendxl_broker.Fabric.Path.Loop.{trans}
use opendxl_broker.Fabric.Hierarchy.{traverse_connections}

-- The brokers to which the visitor may go, one connection after the other.
pub data Route (registry : Registry) (allow : Str → Bool) : Str → Str → Type 0 where
  stay : (a : Str) → allow a ≡ true → Route registry allow a a
  go_on :
      (a c b : Str)
      → allow a ≡ true
      → has c (connections_of registry a) ≡ true
      → Route registry allow c b
      → Route registry allow a b

module _ (registry : Registry) (allow : Str → Bool) (visit : Str → Option Bool) where
  -- The brokers that were added do not stop the visitor, and it was at all their connections.
  abbrev pub Passed : List Str → List Str → Type 0
  Passed v w =
      (x : Str)
      → has x w ≡ true
      → (has x v ≡ true)
        ⊎ ((visit x ≡ some false)
            × ((c : Str)
                → has c (connections_of registry x) ≡ true
                → allow c ≡ true
                → has c w ≡ true))

  abbrev pub Stopped : Str → Type 0
  Stopped start = (x : Str) × Route registry allow start x × (visit x ≡ some true)

  abbrev pub TraverseOutcome : Str → List Str → Bool × List Str → Type 0
  TraverseOutcome start v res =
      Grown v res.1
      × (res.0 ≡ true → Stopped start)
      × (res.0 ≡ false → (has start res.1 ≡ true) × Passed v res.1)

  abbrev pub ConnectionsOutcome : List Str → Str → List Str → Bool × List Str → Type 0
  ConnectionsOutcome ids start v res =
      Grown v res.1
      × (res.0 ≡ true → Stopped start)
      × (res.0 ≡ false
          → ((x : Str) → has x ids ≡ true → allow x ≡ true → has x res.1 ≡ true) × Passed v res.1)

  Passed-trans : (u v w : List Str) → Grown v w → Passed u v → Passed v w → Passed u w
  Passed-trans u v w g s t x h = elim (t x h) [
    | inr k ↦ inr k
    | inl k ↦ elim (s x k) [ inl j ↦ inl j | inr (d, j) ↦ inr (d, λ c e a. g c (j c e a)) ]
  ]

  -- One connection more, which is visited unless it is not allowed.
  allowed-cons :
      (id : Str) (ids w : List Str)
      → (allow id ≡ true → has id w ≡ true)
      → ((x : Str) → has x ids ≡ true → allow x ≡ true → has x w ≡ true)
      → (x : Str) → has x (id ∷ ids) ≡ true
      → allow x ≡ true
      → has x w ≡ true
  unfolding has
  allowed-cons id ids w h k x e a = elim (Bool-cases (str_eq id x)) [
    | inl f ↦ let same = str_eq→eq id x f in ap (λ y. has y w) (sym same) ∙ h (ap allow same ∙ a)
    | inr f ↦ k x (ground (arith, e, f)) a
  ]

  module _ (go : Str → List Str → Option (Bool × List Str)) (k : ℕ) (start : Str)
      (allowed : allow start ≡ true)
      (ok : (c : Str) (v : List Str)
        → has c v ≡ false
        → allow c ≡ true
        → unvisited registry v ≤ k
        → (res : Bool × List Str) × (go c v ≡ some res) × TraverseOutcome c v res) where
    -- A connection that is visited, and the rest of the loop behind it.
    visited :
        (id : Str) (ids v : List Str) (r : Bool × List Str)
        → (not (has id v) && allow id) ≡ true
        → go id v ≡ some r
        → TraverseOutcome id v r
        → has id (connections_of registry start) ≡ true
        → ((res : Bool × List Str) × (traverse_connections go allow ids r.1 ≡ some res)
            × ConnectionsOutcome ids start r.1 res)
        → (res : Bool × List Str) × (traverse_connections go allow (id ∷ ids) v ≡ some res)
          × ConnectionsOutcome (id ∷ ids) start v res
    unfolding traverse_connections
    visited id ids v (true, w) e req (rg, rs, rn) conn rest =
        let (x, route, found) = rs refl in
        (
          (true, w),
          rw (e, req, traverse_connections) refl,
          (
            rg,
            (λ _. (x, Route.go_on start id x allowed conn route, found)),
            λ n. absurd (ground (arith, n)),
          ),
        )
    visited id ids v (false, w) e req (rg, rs, rn) conn (res, eq, (g, stop, none_left)) =
        let last = rn refl in
        (
          res,
          rw (e, req, traverse_connections) eq,
          (
            trans registry [] v w res.1 rg g,
            stop,
            λ n. (
              allowed-cons id ids res.1 (λ _. g id last.0) (none_left n).0,
              Passed-trans v w res.1 g last.1 (none_left n).1,
            ),
          ),
        )

    pub connections-ConnectionsOutcome :
        (ids v : List Str)
        → ((x : Str) → has x ids ≡ true → has x (connections_of registry start) ≡ true)
        → unvisited registry v ≤ k
        → (res : Bool × List Str) × (traverse_connections go allow ids v ≡ some res)
          × ConnectionsOutcome ids start v res
    unfolding traverse_connections has
    connections-ConnectionsOutcome [] v sub le = (
      (false, v),
      refl,
      (
        (λ x h. h),
        (λ n. absurd (ground (arith, n))),
        λ e. ((λ x h a. absurd (ground (arith, h))), λ x h. inl h),
      ),
    )
    connections-ConnectionsOutcome (id ∷ ids) v sub le =
        elim (Bool-cases (not (has id v) && allow id)) [
          | inr e ↦
              let (res, eq, (g, stop, rest)) =
                connections-ConnectionsOutcome ids v (λ x h. sub x (ground (arith, h))) le in
              (
                res,
                rw (e, traverse_connections) eq,
                (
                  g,
                  stop,
                  λ n. (
                    allowed-cons id ids res.1 (λ a. g id (ground (arith, e, a))) (rest n).0,
                    (rest n).1,
                  ),
                ),
              )
          | inl e ↦
              let (r, req, out) = ok id v (ground (arith, e)) (ground (arith, e)) le in
              visited id ids v r e req out (sub id (ground (arith, str_eq_refl id))) (
                connections-ConnectionsOutcome ids r.1 (λ x h. sub x (ground (arith, h)))
                  (omega (arith, le, unvisited-Grown registry v r.1 out.0)))
        ]
