-- ===== src/Topic/Covers/Loop.antt =====
-- The rounds of the loop over the wildcards of a topic.
use mathlib.Core.List.{append-nil, append_assoc}
use opendxl_broker.Prelude.{
  ℕ, zero, suc, ◌+◌, ◌-◌, ◌≤◌, ◌≡◌, ◌≢◌, refl, sym, ap, ap₂, ◌∙◌, inl, inr, false, none, some, List,
  [], ◌∷◌, ◌++◌, ◌&&◌, Str, All, char_at, length, length-append, ◌==◌, arith, Bool-cases, subst,
}
use opendxl_broker.Topic.Tokens.{slash}
use opendxl_broker.Topic.Wildcards.{pound_char}
use opendxl_broker.Topic.Iterate.{search_start, iterate_wildcard_next, wildcard_loop, wildcards}
use opendxl_broker.Topic.Covers.{
  prefix, covering, coverings, NoSlash, snoc-cases, char_at-between, take-prefix,
}

-- The search begins at the end of the topic, which is not the last wildcard of the loop.
abbrev FromEnd : Str → Type 0
FromEnd s = (search_start s ≡ length s) × ((length s == 1 && char_at s 0 == pound_char) ≡ false)

FromEnd-last : (a : Str) (c : ℕ) → c ≢ pound_char → FromEnd (a ++ (c ∷ []))
unfolding search_start
FromEnd-last a c h =
    let at =
      char_at-between (a ++ (c ∷ [])) a c [] (length (a ++ (c ∷ [])) - 1) refl
        (omega (arith, length-append a (c ∷ []))) in
    let len = length-append a (c ∷ []) in (ground (arith, at, len), from_zero at len)
  where
    from_zero :
        char_at (a ++ (c ∷ [])) (length (a ++ (c ∷ [])) - 1) ≡ c
        → length (a ++ (c ∷ [])) ≡ length a + length (c ∷ [])
        → (length (a ++ (c ∷ [])) == 1 && char_at (a ++ (c ∷ [])) 0 == pound_char) ≡ false
    from_zero at len = elim (Bool-cases (length (a ++ (c ∷ [])) == 1)) [
      | inl e ↦ ground (arith, e, at, len)
      | inr e ↦ rw e refl
    ]

FromEnd-second : (a : Str) (d c : ℕ) → d ≢ slash → FromEnd (a ++ (d ∷ c ∷ []))
unfolding search_start
FromEnd-second a d c h =
    let at =
      char_at-between (a ++ (d ∷ c ∷ [])) a d (c ∷ []) (length (a ++ (d ∷ c ∷ [])) - 2) refl
        (omega (arith, length-append a (d ∷ c ∷ []))) in
    let len = length-append a (d ∷ c ∷ []) in (ground (arith, at, len), ground (arith, len))

NoSlash-second : (t : Str) (d c : ℕ) → NoSlash (t ++ (d ∷ c ∷ [])) → d ≢ slash
NoSlash-second [] d c h = h.0
NoSlash-second (x ∷ t) d c h = NoSlash-second t d c h.1

from_end : (rs : List Str) (l : Str) → NoSlash l → l ≢ (pound_char ∷ []) → FromEnd (prefix rs ++ l)
unfolding prefix search_start
from_end rs l n h = elim (snoc-cases l) [
  | inl e ↦ rw (e, append-nil (prefix rs)) (of_prefix rs)
  | inr (t, c, e) ↦ rw (e, sym (append_assoc (prefix rs) t (c ∷ []))) (of_last t c e)
]
  where
    of_prefix : (rs : List Str) → FromEnd (prefix rs)
    of_prefix [] = (refl, refl)
    of_prefix (r ∷ rs) =
        rw (sym (append_assoc (prefix rs) r (slash ∷ [])))
          (FromEnd-last (prefix rs ++ r) slash (ground arith))

    of_last : (t : Str) (c : ℕ) → l ≡ t ++ (c ∷ []) → FromEnd ((prefix rs ++ t) ++ (c ∷ []))
    of_last t c e = elim (Bool-cases (c == pound_char)) [
      | inl f ↦ elim (snoc-cases t) [
        | inl g ↦ absurd (h (e ∙ ap₂ (λ x y. x ++ (y ∷ [])) g (ground (arith, f))))
        | inr (u, d, g) ↦
            let out = ap (λ x. x ++ (c ∷ [])) g ∙ append_assoc u (d ∷ []) (c ∷ []) in
            rw
              (
                append_assoc (prefix rs) t (c ∷ []),
                out,
                sym (append_assoc (prefix rs) u (d ∷ c ∷ [])),
              )
              (FromEnd-second (prefix rs ++ u) d c
                (NoSlash-second u d c (subst NoSlash (e ∙ out) n)))
      ]
      | inr f ↦ FromEnd-last (prefix rs ++ t) c (ground (arith, f))
    ]

next-first :
    (rs : List Str) (l : Str)
    → NoSlash l
    → l ≢ (pound_char ∷ [])
    → iterate_wildcard_next (prefix rs ++ l) ≡ some (covering rs)
unfolding iterate_wildcard_next
next-first rs l n h =
    let at = from_end rs l n h in
    rw (at.1, at.0)
      (ap (λ t. some (t ++ (pound_char ∷ [])))
        (take-prefix (prefix rs ++ l) rs l [] _ (ap (◌++◌ (prefix rs)) (sym (append-nil l)))
          (length-append (prefix rs) l) n))

next-last : iterate_wildcard_next (covering []) ≡ none
unfolding iterate_wildcard_next prefix
next-last = refl

next-covering :
    (r : Str) (rs : List Str)
    → NoSlash r
    → iterate_wildcard_next (covering (r ∷ rs)) ≡ some (covering rs)
unfolding iterate_wildcard_next prefix search_start
next-covering r rs n =
    rw (ends, more)
      (ap (λ t. some (t ++ (pound_char ∷ [])))
        (take-prefix (covering (r ∷ rs)) rs r (slash ∷ pound_char ∷ []) _ shape (omega (arith, len))
          n))
  where
    shape : covering (r ∷ rs) ≡ prefix rs ++ (r ++ (slash ∷ pound_char ∷ []))
    shape =
        append_assoc (prefix rs) (r ++ (slash ∷ [])) (pound_char ∷ [])
        ∙ ap (◌++◌ (prefix rs)) (append_assoc r (slash ∷ []) (pound_char ∷ []))

    len : length (covering (r ∷ rs)) ≡ length (prefix rs) + length r + 2
    len =
        ap length shape
        ∙ omega (
          arith,
          length-append (prefix rs) (r ++ (slash ∷ pound_char ∷ [])),
          length-append r (slash ∷ pound_char ∷ []),
        )

    ends : search_start (covering (r ∷ rs)) ≡ length (covering (r ∷ rs)) - 2
    ends =
        let c =
          char_at-between (covering (r ∷ rs)) (prefix rs ++ (r ++ (slash ∷ []))) pound_char []
            (length (covering (r ∷ rs)) - 1) refl
            (omega (
              arith,
              len,
              length-append (prefix rs) (r ++ (slash ∷ [])),
              length-append r (slash ∷ []),
            )) in
        let d =
          char_at-between (covering (r ∷ rs)) (prefix rs ++ r) slash (pound_char ∷ [])
            (length (covering (r ∷ rs)) - 2)
            (shape ∙ sym (append_assoc (prefix rs) r (slash ∷ pound_char ∷ [])))
            (omega (arith, len, length-append (prefix rs) r)) in
        ground (arith, c, d, len)

    more : (length (covering (r ∷ rs)) == 1 && char_at (covering (r ∷ rs)) 0 == pound_char) ≡ false
    more = ground (arith, len)

-- A round whose answer and the rounds behind it are known.
loop_step :
    (fuel : ℕ) (s t : Str) (ts : List Str)
    → iterate_wildcard_next s ≡ some t
    → wildcard_loop fuel t ≡ some ts
    → wildcard_loop (suc fuel) s ≡ some (t ∷ ts)
unfolding wildcard_loop
loop_step fuel s t ts e f = rw (e, f, wildcard_loop) refl

loop_end :
    (fuel : ℕ) (s : Str) → iterate_wildcard_next s ≡ none → wildcard_loop (suc fuel) s ≡ some []
unfolding wildcard_loop
loop_end fuel s e = rw (e, wildcard_loop) refl

longer :
    (r : Str) (rs : List Str) → length (covering (r ∷ rs)) ≡ length (covering rs) + length r + 1
unfolding prefix
longer r rs = omega (
  arith,
  length-append (prefix rs ++ (r ++ (slash ∷ []))) (pound_char ∷ []),
  length-append (prefix rs) (r ++ (slash ∷ [])),
  length-append r (slash ∷ []),
  length-append (prefix rs) (pound_char ∷ []),
)

loop-coverings :
    (rs : List Str) (fuel : ℕ)
    → All NoSlash rs
    → length (covering rs) ≤ fuel
    → (s : Str) → iterate_wildcard_next s ≡ some (covering rs)
    → wildcard_loop (suc fuel) s ≡ some (coverings rs)
unfolding coverings
loop-coverings rs zero n f s e =
    absurd (omega (arith, f, length-append (prefix rs) (pound_char ∷ [])))
loop-coverings [] (suc fuel) n f s e =
    loop_step (suc fuel) s (covering []) [] e (loop_end fuel (covering []) next-last)
loop-coverings (r ∷ rs) (suc fuel) n f s e =
    loop_step (suc fuel) s (covering (r ∷ rs)) (coverings rs) e (
      loop-coverings rs fuel n.1 (omega (arith, f, longer r rs)) (covering (r ∷ rs))
        (next-covering r rs n.0))

-- For a topic whose levels are without slashes and whose last level is not `#` alone: the loop over
-- iterateWildcardNext ends within its fuel, and its rounds are, in this order, the wildcards `#`
-- behind the nearest level in front of the last one, behind the next one, and so on, down to `#`
-- itself.
pub wildcards-prefix :
    (rs : List Str) (l : Str)
    → All NoSlash rs
    → NoSlash l
    → l ≢ (pound_char ∷ [])
    → wildcards (prefix rs ++ l) ≡ some (coverings rs)
unfolding wildcards
wildcards-prefix rs l ns n h =
    subst (λ k. wildcard_loop k (prefix rs ++ l) ≡ some (coverings rs)) (omega arith)
      (loop-coverings rs (length (prefix rs ++ l) + 1) ns
        (omega (arith, length-append (prefix rs) l, length-append (prefix rs) (pound_char ∷ [])))
        (prefix rs ++ l) (next-first rs l n h))
