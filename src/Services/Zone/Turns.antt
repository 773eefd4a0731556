-- ===== src/Services/Zone/Turns.antt =====
-- The services of a zone take turns.
use opendxl_broker.Prelude.{
  ℕ, zero, suc, ◌+◌, ◌-◌, ◌≤◌, ◌<◌, ◌≡◌, ◌≢◌, refl, sym, ap, ◌∙◌, ◌⊎◌, inl, inr, Bool, true, false,
  Option, none, some, List, [], ◌∷◌, length, get_elem?, leb, arith, subst, Bool-cases,
}
use opendxl_broker.Services.Zone.{turn, next_loop}

get_elem?_lt :
    {A : Type 0} (xs : List A) (i : ℕ) → i < length xs → (x : A) × (get_elem? xs i ≡ some x)
get_elem?_lt [] i h = absurd (omega (arith, h))
get_elem?_lt (x ∷ xs) zero h = (x, refl)
get_elem?_lt (x ∷ xs) (suc i) h = get_elem?_lt xs i (omega (arith, h))

lt_get_elem? : {A : Type 0} (xs : List A) (i : ℕ) (x : A) → get_elem? xs i ≡ some x → i < length xs
lt_get_elem? [] i x h = cc
lt_get_elem? (y ∷ xs) zero x h = omega arith
lt_get_elem? (y ∷ xs) (suc i) x h = omega (arith, lt_get_elem? xs i x h)

some_inj : {A : Type 0} (a b : A) → some a ≡ some b → a ≡ b
some_inj a b e = cc

-- A service that the iterator comes to after some steps.
unfoldable pub Ahead : List ℕ → ℕ → ℕ → ℕ → Type 0
Ahead services iter zero ptr = get_elem? services (turn services iter) ≡ some ptr
Ahead services iter (suc d) ptr = Ahead services (turn services iter + 1) d ptr

module _ (test : ℕ → Bool) (services : List ℕ) where
  turn_lt :
      (iter : ℕ)
      → iter ≤ length services
      → 0 < length services
      → turn services iter < length services
  unfolding turn
  turn_lt iter h k = ground arith

  -- A round at a service that passes the test, and at one that does not.
  round-passes :
      (n iter ptr : ℕ)
      → get_elem? services (turn services iter) ≡ some ptr
      → test ptr ≡ true
      → next_loop test services (suc n) iter ≡ (some ptr, turn services iter + 1)
  unfolding next_loop
  round-passes n iter ptr e t = rw (e, t, next_loop) refl

  round-fails :
      (n iter ptr : ℕ)
      → get_elem? services (turn services iter) ≡ some ptr
      → test ptr ≡ false
      → next_loop test services (suc n) iter ≡ next_loop test services n (turn services iter + 1)
  unfolding next_loop
  round-fails n iter ptr e t = rw (e, t, next_loop) refl

  abbrev pub Closer : ℕ → ℕ → Option ℕ × ℕ → Type 0
  Closer d ptr res =
      (res.0 ≡ some ptr)
      ⊎ ((k : ℕ) × (k < d)
          × (res.0 ≢ none)
          × (res.1 ≤ length services)
          × Ahead services res.1 k ptr)

  -- A call gives a service that is ahead, or comes closer to it.
  pub next_loop-Closer :
      (n iter d ptr : ℕ)
      → iter ≤ length services
      → 0 < length services
      → d < n
      → Ahead services iter d ptr
      → test ptr ≡ true
      → Closer d ptr (next_loop test services n iter)
  unfolding Ahead
  next_loop-Closer zero iter d ptr le pos' lt a t = absurd (omega (arith, lt))
  next_loop-Closer (suc n) iter zero ptr le pos' lt a t =
      rw (round-passes n iter ptr a t) (inl refl)
  next_loop-Closer (suc n) iter (suc d) ptr le pos' lt a t =
      let (q, e) = get_elem?_lt services (turn services iter) (turn_lt iter le pos') in
      elim (Bool-cases (test q)) [
        | inl f ↦
            rw (round-passes n iter q e f)
              (inr (d, omega arith, (λ m. cc), omega (arith, turn_lt iter le pos'), a))
        | inr f ↦
            rw (round-fails n iter q e f)
              (elim (next_loop-Closer n (turn services iter + 1) d ptr
                (omega (arith, turn_lt iter le pos')) pos' (omega (arith, lt)) a t) [
                  | inl g ↦ inl g
                  | inr (k, l, m, b, ah) ↦ inr (k, omega (arith, l), m, b, ah)
                ])
      ]

  turn-turn :
      (iter : ℕ) → 0 < length services → turn services (turn services iter) ≡ turn services iter
  unfolding turn
  turn-turn iter h = ground arith

  Ahead-turn :
      (iter d ptr : ℕ)
      → 0 < length services
      → Ahead services (turn services iter) d ptr
      → Ahead services iter d ptr
  unfolding Ahead
  Ahead-turn iter zero ptr h a = rw (sym (turn-turn iter h)) a
  Ahead-turn iter (suc d) ptr h a = rw (sym (turn-turn iter h)) a

  turn-inside : (i : ℕ) → i < length services → turn services i ≡ i
  unfolding turn
  turn-inside i h = ground arith

  turn-end : (i : ℕ) → i ≡ length services → turn services i ≡ 0
  unfolding turn
  turn-end i h = ground arith

  -- The step from inside the list.
  Ahead-step :
      (i d e ptr : ℕ)
      → i < length services
      → e ≡ suc d
      → Ahead services (i + 1) d ptr
      → Ahead services i e ptr
  unfolding Ahead
  Ahead-step i d e ptr h f a =
      subst (λ x. Ahead services i x ptr) (sym f)
        (subst (λ x. Ahead services (x + 1) d ptr) (sym (turn-inside i h)) a)

  Ahead-straight : (d i ptr : ℕ) → get_elem? services (i + d) ≡ some ptr → Ahead services i d ptr
  unfolding Ahead
  Ahead-straight zero i ptr e =
      ap (get_elem? services)
        (turn-inside i (omega (arith, lt_get_elem? services (i + 0) ptr e)) ∙ omega arith)
      ∙ e
  Ahead-straight (suc d) i ptr e =
      Ahead-step i d (suc d) ptr (omega (arith, lt_get_elem? services (i + suc d) ptr e)) refl
        (Ahead-straight d (i + 1) ptr (ap (get_elem? services) (omega arith) ∙ e))

  Ahead-wrap :
      (k i j ptr : ℕ)
      → i + k ≡ length services
      → get_elem? services j ≡ some ptr
      → Ahead services i (k + j) ptr
  unfolding Ahead
  Ahead-wrap zero i j ptr h e =
      Ahead-turn i (0 + j) ptr (omega (arith, lt_get_elem? services j ptr e)) (
        rw (turn-end i (omega (arith, h)))
          (Ahead-straight (0 + j) 0 ptr (ap (get_elem? services) (omega arith) ∙ e)))
  Ahead-wrap (suc k) i j ptr h e =
      Ahead-step i (k + j) (suc k + j) ptr (omega (arith, h)) (omega arith)
        (Ahead-wrap k (i + 1) j ptr (omega (arith, h)) e)

  pub every_Ahead :
      (iter j ptr : ℕ)
      → iter ≤ length services
      → get_elem? services j ≡ some ptr
      → (d : ℕ) × (d < length services) × Ahead services iter d ptr
  every_Ahead iter j ptr le e =
      let lt = lt_get_elem? services j ptr e in
      let i = turn services iter in
      elim (Bool-cases (leb i j)) [
        | inl f ↦ (
          j - i,
          omega (arith, lt),
          Ahead-turn iter (j - i) ptr (omega (arith, lt))
              (Ahead-straight (j - i) i ptr (ap (get_elem? services) (ground (arith, f)) ∙ e)),
        )
        | inr f ↦ (
          (length services - i) + j,
          ground (arith, f, turn_lt iter le),
          Ahead-turn iter _ ptr (omega (arith, lt))
              (Ahead-wrap (length services - i) i j ptr (ground (arith, turn_lt iter le, lt)) e),
        )
      ]

  -- What a call gives is in the zone and passes the test.
  pub next_loop_sound :
      (n iter : ℕ)
      → iter ≤ length services
      → n ≤ length services
      → (next_loop test services n iter).1 ≤ length services
        × ((ptr : ℕ)
            → (next_loop test services n iter).0 ≡ some ptr
            → (test ptr ≡ true) × ((j : ℕ) × (get_elem? services j ≡ some ptr)))
  unfolding next_loop
  next_loop_sound zero iter le h = (le, λ ptr e. cc)
  next_loop_sound (suc n) iter le h =
      let (q, e) =
        get_elem?_lt services (turn services iter) (turn_lt iter le (omega (arith, h))) in
      elim (Bool-cases (test q)) [
        | inl f ↦ rw (round-passes n iter q e f) (
          omega (arith, turn_lt iter le (omega (arith, h))),
          λ ptr g. (ap test (sym (some_inj q ptr g)) ∙ f, (turn services iter, e ∙ g)),
        )
        | inr f ↦ rw (round-fails n iter q e f) (
            next_loop_sound n (turn services iter + 1)
              (omega (arith, turn_lt iter le (omega (arith, h)))) (omega (arith, h)))
      ]
