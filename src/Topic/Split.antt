-- ===== src/Topic/Split.antt =====
-- The tokens of a topic against its levels, by recursion on the topic.
use mathlib.Core.List.{append-nil, append_assoc}
use native.Mathlib.Numerals.{add-one}
use opendxl_broker.Prelude.{
  ℕ, zero, suc, ◌+◌, ◌-◌, ◌≡◌, refl, ap, sym, ◌≢◌, ◌∙◌, ◌⊎◌, ◌||◌, inl, inr, true, false, List, [],
  ◌∷◌, ◌++◌, Str, All, char_at, length, length-append, ◌==◌, ==_iff, if◌then◌else◌, arith,
  Bool-cases, drop-append, take-append, char_at-append,
}
use opendxl_broker.Topic.Tokens.{
  slash, dollar, slice, tokenise_loop, unless_dollar, sub_topic_tokenise,
}

-- No character is the terminating NUL.
abbrev pub IsCString : Str → Type 0
IsCString = All (λ c. c ≢ 0)

abbrev pub attach : Str → List Str → List Str
attach p [] = p ∷ []
attach p (t ∷ ts) = (p ++ t) ∷ ts

-- The levels of a topic: what stands between its slashes.
unfoldable pub levels : Str → List Str
levels [] = [] ∷ []
levels (c ∷ s) = if c == slash then [] ∷ levels s else attach (c ∷ []) (levels s)

-- The topic of some levels, with slashes between them.
unfoldable pub join : List Str → Str
join [] = []
join (t ∷ []) = t
join (t ∷ u ∷ ts) = t ++ (47 ∷ join (u ∷ ts))

slice-append : (a p s : Str) → slice (a ++ (p ++ s)) (length a) (length a + length p) ≡ p
slice-append a p s = rw (
  drop-append a (p ++ s),
  let e : length a + length p - length a ≡ length p = omega arith in e,
  take-append p s,
)

attach-append : (p q : Str) (ts : List Str) → attach p (attach q ts) ≡ attach (p ++ q) ts
attach-append p q [] = refl
attach-append p q (t ∷ ts) = rw (append_assoc p q t)

char_at-append_append : (a p s : Str) → char_at (a ++ (p ++ s)) (length a + length p) ≡ char_at s 0
char_at-append_append a p s =
    rw (sym (append_assoc a p s)) (rw (sym (length-append a p)) (char_at-append (a ++ p) s))

-- One round, where the token so far is `p` and the rest of the topic is `t`.
loop_step :
    (w p t : Str) (n i start : ℕ)
    → slice w start i ≡ p
    → char_at w i ≡ char_at t 0
    → tokenise_loop w (suc n) i start ≡ (
        if char_at t 0 == slash || char_at t 0 == 0
        then p ∷ tokenise_loop w n (i + 1) (i + 1)
        else tokenise_loop w n (i + 1) start)
unfolding tokenise_loop
loop_step w p t n i start e f = rw (e, f)

loop_end : (w : Str) (i start : ℕ) → tokenise_loop w 0 i start ≡ []
unfolding tokenise_loop
loop_end w i start = refl

attach_nil-levels : (s : Str) → attach [] (levels s) ≡ levels s
unfolding levels
attach_nil-levels [] = refl
attach_nil-levels (c ∷ s) = elim (Bool-cases (c == slash)) [
  | inl e ↦ rw e
  | inr e ↦ rw e (attach-append [] (c ∷ []) (levels s))
]

-- `a` stands in front of the token, whose first characters are `p`, and `s` is to come.
loop_levels :
    (w a p s : Str) (i start : ℕ)
    → w ≡ a ++ (p ++ s)
    → i ≡ length a + length p
    → start ≡ length a
    → IsCString s
    → tokenise_loop w (suc (length s)) i start ≡ attach p (levels s)
unfolding levels
loop_levels w a p [] i start ew ei es h =
    loop_step w p [] zero i start (rw (ew, ei, es) (slice-append a p []))
      (rw (ew, ei) (char_at-append_append a p []))
    ∙ rw (loop_end w (i + 1) (i + 1), append-nil p)
loop_levels w a p (c ∷ s) i start ew ei es h = elim (Bool-cases (c == slash)) [
  | inl e ↦
      step
      ∙ rw (e, append-nil p)
          (ap (◌∷◌ p) (
            loop_levels w (a ++ (p ++ (c ∷ []))) [] s (i + 1) (i + 1) (ew ∙ regroup)
              (omega (arith, length-append a (p ++ (c ∷ [])), length-append p (c ∷ [])))
              (omega (arith, length-append a (p ++ (c ∷ [])), length-append p (c ∷ []))) h.1
            ∙ attach_nil-levels s))
  | inr e ↦
      step
      ∙ rw (e, nonzero)
          (loop_levels w a (p ++ (c ∷ [])) s (i + 1) start
              (ew ∙ ap (◌++◌ a) (sym (append_assoc p (c ∷ []) s)))
              (omega (arith, length-append p (c ∷ []))) es h.1
            ∙ sym (attach-append p (c ∷ []) (levels s)))
]
  where
    nonzero : (c == 0) ≡ false
    nonzero = ground (arith, h.0)

    regroup : a ++ (p ++ (c ∷ s)) ≡ (a ++ (p ++ (c ∷ []))) ++ s
    regroup = ap (◌++◌ a) (sym (append_assoc p (c ∷ []) s)) ∙ sym (append_assoc a (p ++ (c ∷ [])) s)

    step : tokenise_loop w (suc (suc (length s))) i start ≡ (
        if c == slash || c == 0
        then p ∷ tokenise_loop w (suc (length s)) (i + 1) (i + 1)
        else tokenise_loop w (suc (length s)) (i + 1) start)
    step =
        loop_step w p (c ∷ s) (suc (length s)) i start (rw (ew, ei, es) (slice-append a p (c ∷ s)))
          (rw (ew, ei) (char_at-append_append a p (c ∷ s)))

loop_whole : (s : Str) → IsCString s → tokenise_loop s (length s + 1) 0 0 ≡ levels s
loop_whole s h =
    rw (add-one (length s)) (loop_levels s [] [] s 0 0 refl refl refl h ∙ attach_nil-levels s)

-- A leading slash starts the loop behind it.
loop_behind_slash :
    (c : ℕ) (s : Str)
    → IsCString s
    → (c == slash) ≡ true
    → [] ∷ tokenise_loop (c ∷ s) (suc (length s)) 1 1 ≡ levels (c ∷ s)
unfolding levels
loop_behind_slash c s h e =
    rw e
      (ap (◌∷◌ []) (loop_levels (c ∷ s) (c ∷ []) [] s 1 1 refl refl refl h ∙ attach_nil-levels s))

-- The tokens of a topic are its levels, with an empty token in front unless it begins with `$`.
pub sub_topic_tokenise-levels :
    (s : Str) → IsCString s → sub_topic_tokenise s ≡ unless_dollar s ++ levels s
unfolding sub_topic_tokenise
sub_topic_tokenise-levels [] h = ap (◌++◌ (unless_dollar [])) (loop_whole [] h)
sub_topic_tokenise-levels (c ∷ s) h = elim (Bool-cases (c == slash)) [
  | inl e ↦ rw e (ap (◌++◌ (unless_dollar (c ∷ s))) (loop_behind_slash c s h.1 e))
  | inr e ↦ rw e (ap (◌++◌ (unless_dollar (c ∷ s))) (loop_whole (c ∷ s) h))
]

join-attach :
    (c : ℕ) (t : Str) (ts : List Str) → join (attach (c ∷ []) (t ∷ ts)) ≡ c ∷ join (t ∷ ts)
unfolding join
join-attach c t [] = refl
join-attach c t (u ∷ ts) = refl

pub levels_cons : (s : Str) → (t : Str) × (ts : List Str) × (levels s ≡ t ∷ ts)
unfolding levels
levels_cons [] = ([], [], refl)
levels_cons (c ∷ s) = elim (Bool-cases (c == slash)) [
  | inl e ↦ ([], levels s, rw e)
  | inr e ↦ let (t, ts, f) = levels_cons s in (c ∷ t, ts, rw (e, f))
]

-- Joined by slashes, the levels give the topic back.
pub join-levels : (s : Str) → join (levels s) ≡ s
unfolding levels join
join-levels [] = refl
join-levels (c ∷ s) = elim (Bool-cases (c == slash)) [
  | inl e ↦
      let (t, ts, f) = levels_cons s in
      rw (e, f, (==_iff c slash).0 e) (ap (◌∷◌ slash) (ap join (sym f) ∙ join-levels s))
  | inr e ↦
      let (t, ts, f) = levels_cons s in
      rw (e, f) (join-attach c t ts ∙ ap (◌∷◌ c) (ap join (sym f) ∙ join-levels s))
]

-- No level holds a slash.
pub levels-NoSlash : (s : Str) → All (All (λ c. c ≢ slash)) (levels s)
unfolding levels
levels-NoSlash [] = (tt, tt)
levels-NoSlash (c ∷ s) = elim (Bool-cases (c == slash)) [
  | inl e ↦ rw e (tt, levels-NoSlash s)
  | inr e ↦
      let (t, ts, f) = levels_cons s in
      let rest : All (All (λ c. c ≢ slash)) (t ∷ ts) = rw f at (levels-NoSlash s) in
      rw (e, f) ((ground arith, rest.0), rest.1)
]

-- The tokens with the empty one in front, which only a topic behind a `$` goes without.
unless_dollar-cases :
    (s : Str) (ts : List Str)
    → ((u : Str) × (s ≡ 36 ∷ u) × (unless_dollar s ++ ts ≡ ts))
      ⊎ (((u : Str) → s ≢ 36 ∷ u) × (unless_dollar s ++ ts ≡ [] ∷ ts))
unfolding unless_dollar
unless_dollar-cases [] ts = inr (λ u e. ground (arith, ap length e), refl)
unless_dollar-cases (c ∷ s) ts = elim (Bool-cases (c == dollar)) [
  | inl e ↦ inl (s, ap (λ d. d ∷ s) ((==_iff c dollar).0 e), rw e)
  | inr e ↦ inr (λ u f. ground (arith, e, ap (λ w. char_at w 0) f), rw e)
]

-- For a topic as a C string: there is a list of tokens without slashes (47) that gives the topic
-- back when it is joined by slashes; the tokens of the topic are this list if it begins with `$`
-- (36), and this list behind an empty token if it does not.
pub sub_topic_tokenise-join :
    (s : Str)
    → IsCString s
    → (ts : List Str) × (((u : Str) × (s ≡ 36 ∷ u) × (sub_topic_tokenise s ≡ ts))
        ⊎ (((u : Str) → s ≢ 36 ∷ u) × (sub_topic_tokenise s ≡ [] ∷ ts)))
      × (join ts ≡ s)
      × All (All (λ c. c ≢ 47)) ts
sub_topic_tokenise-join s h = (
  levels s,
  elim (unless_dollar-cases s (levels s)) [
    | inl (u, e, f) ↦ inl (u, e, sub_topic_tokenise-levels s h ∙ f)
    | inr (n, f) ↦ inr (n, sub_topic_tokenise-levels s h ∙ f)
  ],
  join-levels s,
  levels-NoSlash s,
)
