-- ===== src/Fabric/Path/Loop.antt =====
-- The loop over the connections of a broker in the search of a path.
use opendxl_broker.Prelude.{
  ℕ, ◌≤◌, ◌≡◌, refl, sym, ap, ◌∙◌, ◌⊎◌, inl, inr, Bool, true, false, Option, some, List, [], ◌∷◌,
  ◌&&◌, not, Str, str_eq, str_eq→eq, str_eq_refl, has, if◌then◌else◌, arith, Bool-cases,
}
use opendxl_broker.Fabric.Registry.{Registry, connections_of}
use opendxl_broker.Fabric.Path.{Traversal, visit_connections}
use opendxl_broker.Fabric.Path.Walks.{Walk, unvisited, Grown, unvisited-Grown}

module _ (registry : Registry) (finish : Str) where
  -- The brokers that were added are not the last one, and all their connections are there.
  abbrev pub Settled : List Str → List Str → Type 0
  Settled v w =
      (x : Str)
      → has x w ≡ true
      → (has x v ≡ true)
        ⊎ ((str_eq x finish ≡ false)
            × ((c : Str) → has c (connections_of registry x) ≡ true → has c w ≡ true))

  abbrev pub Found : Str → Traversal → Type 0
  Found start found = found.0 ≡ true → Walk registry start finish found.1

  abbrev pub Outcome : Str → List Str → Traversal × List Str → Type 0
  Outcome start v res =
      Grown v res.1
      × Found start res.0
      × (res.0.0 ≡ false → (has start res.1 ≡ true) × Settled v res.1)

  -- Of the loop over some connections, which begins with a path or without one.
  abbrev pub LoopOutcome : List Str → Str → Traversal → List Str → Traversal × List Str → Type 0
  LoopOutcome ids start found v res =
      Grown v res.1
      × Found start res.0
      × (found.0 ≡ true → res.0.0 ≡ true)
      × (res.0.0 ≡ false → ((x : Str) → has x ids ≡ true → has x res.1 ≡ true) × Settled v res.1)

  Settled-trans : (u v w : List Str) → Grown v w → Settled u v → Settled v w → Settled u w
  Settled-trans u v w g s t x h = elim (t x h) [
    | inr k ↦ inr k
    | inl k ↦ elim (s x k) [ inl j ↦ inl j | inr (d, j) ↦ inr (d, λ c e. g c (j c e)) ]
  ]

  pub has-cons :
      (id : Str) (ids w : List Str)
      → has id w ≡ true
      → ((x : Str) → has x ids ≡ true → has x w ≡ true)
      → (x : Str) → has x (id ∷ ids) ≡ true
      → has x w ≡ true
  unfolding has
  has-cons id ids w h k x e = elim (Bool-cases (str_eq id x)) [
    | inl f ↦ ap (λ y. has y w) (sym (str_eq→eq id x f)) ∙ h
    | inr f ↦ k x (ground (arith, e, f))
  ]

  pub trans : (u v w : List Str) → Grown u v → Grown v w → Grown u w
  trans u v w g h x e = h x (g x e)

  -- What the loop makes of the answer for a connection.
  abbrev extend : Str → Traversal → Traversal
  extend start next = if next.0 then (true, start ∷ next.1) else next

  extend-Found :
      (start id : Str) (next : Traversal)
      → has id (connections_of registry start) ≡ true
      → Found id next
      → Found start (extend start next)
  extend-Found start id (true, ids) h f e = Walk.step start id finish ids h (f refl)
  extend-Found start id (false, ids) h f e = absurd (ground (arith, e))

  extend-none :
      (start : Str) (next : Traversal) (b : Bool)
      → ((extend start next).0 ≡ true → b ≡ true)
      → b ≡ false
      → next.0 ≡ false
  extend-none start (true, ids) b h e = sym (h refl) ∙ e
  extend-none start (false, ids) b h e = refl

  module _ (go : Str → List Str → Option (Traversal × List Str)) (k : ℕ) (start : Str)
      (ok : (c : Str) (v : List Str)
        → has c v ≡ false
        → unvisited registry v ≤ k
        → (res : Traversal × List Str) × (go c v ≡ some res) × Outcome c v res) where
    pub loop-LoopOutcome :
        (ids : List Str) (found : Traversal) (v : List Str)
        → ((x : Str) → has x ids ≡ true → has x (connections_of registry start) ≡ true)
        → Found start found
        → unvisited registry v ≤ k
        → (res : Traversal × List Str) × (visit_connections go start ids found v ≡ some res)
          × LoopOutcome ids start found v res
    unfolding visit_connections has
    loop-LoopOutcome [] found v sub fo le = (
      (found, v),
      refl,
      ((λ x h. h), fo, (λ h. h), λ e. ((λ x h. absurd (ground (arith, h))), λ x h. inl h)),
    )
    loop-LoopOutcome (id ∷ ids) found v sub fo le =
        elim (Bool-cases (not found.0 && not (has id v))) [
          | inr e ↦
              let (res, eq, (g, wk, stay, rest)) =
                loop-LoopOutcome ids found v (λ x h. sub x (ground (arith, h))) fo le in
              (
                res,
                rw (e, visit_connections) eq,
                (
                  g,
                  wk,
                  stay,
                  λ n. (
                    has-cons id ids res.1 (ground (arith, e, stay, n, g id)) (rest n).0,
                    (rest n).1,
                  ),
                ),
              )
          | inl e ↦
              let (r, req, (rg, rk, rn)) = ok id v (ground (arith, e)) le in
              let next = extend start r.0 in
              let (res, eq, (g, wk, stay, rest)) =
                loop-LoopOutcome ids next r.1 (λ x h. sub x (ground (arith, h)))
                  (extend-Found start id r.0 (sub id (ground (arith, str_eq_refl id))) rk)
                  (omega (arith, le, unvisited-Grown registry v r.1 rg)) in
              (
                res,
                rw (e, req, visit_connections) eq,
                (
                  trans v r.1 res.1 rg g,
                  wk,
                  (λ n. absurd (ground (arith, n, e))),
                  λ n.
                      let last = rn (extend-none start r.0 (res.0.0) stay n) in
                      (
                        has-cons id ids res.1 (g id last.0) (rest n).0,
                        Settled-trans v r.1 res.1 g last.1 (rest n).1,
                      ),
                ),
              )
        ]
