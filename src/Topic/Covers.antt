-- ===== src/Topic/Covers.antt =====
-- The loop over the wildcards of a topic: it ends, and it goes through the levels.
pub mod Loop
use mathlib.Core.List.{append-nil, append_assoc}
use opendxl_broker.Prelude.{
  ℕ, zero, suc, ◌+◌, ◌-◌, ◌≤◌, ◌<◌, ◌≡◌, ◌≢◌, refl, sym, ap, ap₂, ◌∙◌, ◌⊎◌, inl, inr, Bool, true,
  false, Option, none, some, List, [], ◌∷◌, ◌++◌, ◌&&◌, Str, All, char_at, length, length-append,
  take, take-append, ltb, leb, ◌==◌, if◌then◌else◌, arith, char_at-append,
}
use opendxl_broker.Topic.Tokens.{slash}
use opendxl_broker.Topic.Wildcards.{pound_char}
use opendxl_broker.Topic.Iterate.{
  is_wildcard, search_slash, search_start, iterate_wildcard_next, wildcard_loop, wildcards,
}

-- The levels in front of a level, the nearest one first, each with its slash.
unfoldable pub prefix : List Str → Str
prefix [] = []
prefix (r ∷ rs) = prefix rs ++ (r ++ (slash ∷ []))

abbrev pub covering : List Str → Str
covering rs = prefix rs ++ (pound_char ∷ [])

-- The wildcards below some levels: at the nearest one, and then at those in front of it.
unfoldable pub coverings : List Str → List Str
coverings [] = covering [] ∷ []
coverings (r ∷ rs) = covering (r ∷ rs) ∷ coverings rs

abbrev pub NoSlash : Str → Type 0
NoSlash = All (λ c. c ≢ slash)

snoc-cases : (s : Str) → (s ≡ []) ⊎ ((t : Str) × (c : ℕ) × (s ≡ t ++ (c ∷ [])))
snoc-cases [] = inl refl
snoc-cases (x ∷ s) = elim (snoc-cases s) [
  | inl e ↦ inr ([], x, ap (◌∷◌ x) e)
  | inr (t, c, e) ↦ inr (x ∷ t, c, ap (◌∷◌ x) e)
]

NoSlash-last : (t : Str) (c : ℕ) → NoSlash (t ++ (c ∷ [])) → c ≢ slash
NoSlash-last [] c h = h.0
NoSlash-last (x ∷ t) c h = NoSlash-last t c h.1

-- A character in the middle of a string.
pub char_at-between :
    (s a : Str) (c : ℕ) (b : Str) (i : ℕ) → s ≡ a ++ (c ∷ b) → i ≡ length a → char_at s i ≡ c
char_at-between s a c b i e f = rw (e, f) (char_at-append a (c ∷ b))

search_step : (s : Str) (n : ℕ) → char_at s n ≢ slash → search_slash s (suc n) ≡ search_slash s n
unfolding search_slash
search_step s n h = ground arith

search_stop : (s : Str) (n : ℕ) → char_at s n ≡ slash → search_slash s (suc n) ≡ suc n
unfolding search_slash
search_stop s n h = ground arith

-- The search passes over a level.
search_level :
    (s a l b : Str) (i : ℕ)
    → s ≡ a ++ (l ++ b)
    → i ≡ length a + length l
    → NoSlash l
    → search_slash s i ≡ search_slash s (length a)
search_level s a [] b i e f n = ap (search_slash s) (omega arith)
search_level s a (c ∷ l) b i e f n =
    search_level s (a ++ (c ∷ [])) l b i (e ∙ sym (append_assoc a (c ∷ []) (l ++ b)))
      (omega (arith, length-append a (c ∷ []))) n.1
    ∙ ap (search_slash s) (omega (arith, length-append a (c ∷ [])))
    ∙ search_step s (length a)
        (λ g. n.0 (sym (char_at-between s a c (l ++ b) (length a) e refl) ∙ g))

-- It stops behind a slash.
search_prefix :
    (s : Str) (rs : List Str) (b : Str)
    → s ≡ prefix rs ++ b
    → search_slash s (length (prefix rs)) ≡ length (prefix rs)
unfolding prefix
search_prefix s [] b e = unfold search_slash in refl
search_prefix s (r ∷ rs) b e =
    ap (search_slash s) (len ∙ omega arith)
    ∙ search_stop s (length (prefix rs ++ r)) (
        char_at-between s (prefix rs ++ r) slash b _
          (e
            ∙ ap (λ x. x ++ b) (sym (append_assoc (prefix rs) r (slash ∷ [])))
            ∙ append_assoc (prefix rs ++ r) (slash ∷ []) b)
          refl)
    ∙ sym (len ∙ omega arith)
  where
    len : length (prefix rs ++ (r ++ (slash ∷ []))) ≡ length (prefix rs ++ r) + 1
    len = omega (
      arith,
      length-append (prefix rs) (r ++ (slash ∷ [])),
      length-append r (slash ∷ []),
      length-append (prefix rs) r,
    )

-- What is in front of the last level.
take-prefix :
    (s : Str) (rs : List Str) (l b : Str) (i : ℕ)
    → s ≡ prefix rs ++ (l ++ b)
    → i ≡ length (prefix rs) + length l
    → NoSlash l
    → take (search_slash s i) s ≡ prefix rs
take-prefix s rs l b i e f n =
    ap₂ take (search_level s (prefix rs) l b i e f n ∙ search_prefix s rs (l ++ b) e) e
    ∙ take-append (prefix rs) (l ++ b)

pub covering-is_wildcard : (rs : List Str) → is_wildcard (covering rs) ≡ true
unfolding is_wildcard
covering-is_wildcard rs =
    let len = length-append (prefix rs) (pound_char ∷ []) in
    let c =
      char_at-between (covering rs) (prefix rs) pound_char [] (length (covering rs) - 1) refl
        (omega (arith, len)) in
    ground (arith, len, c)
