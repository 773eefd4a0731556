-- ===== src/Topic/Filters.antt =====
-- The checks of wildcards against the levels of the topic.
use opendxl_broker.Prelude.{
  ℕ, ◌+◌, ◌≤◌, ◌≡◌, ◌↔◌, refl, Bool, true, false, List, [], ◌∷◌, ◌&&◌, ◌||◌, not, Str, str_eq,
  char_at, length, ◌==◌, if◌then◌else◌, arith,
}
use opendxl_broker.Topic.Split.{IsCString, levels, levels_cons}
use opendxl_broker.Topic.Wildcards.{
  mosq_err_success, plus_char, pound_char, max_length, is_inside, len_check_loop,
  topic_wildcard_len_check, pos_check_loop, topic_wildcard_pos_check,
}

abbrev pub is_wild : ℕ → Bool
is_wild x = x == plus_char || x == pound_char

unfoldable pub no_wild : Str → Bool
no_wild [] = true
no_wild (x ∷ s) = not (is_wild x) && no_wild s

-- A level is `+` or has no wildcard.
abbrev pub is_level : Str → Bool
is_level t = str_eq t (plus_char ∷ []) || no_wild t

-- The last level may be `#`.
unfoldable pub is_filter : List Str → Bool
is_filter [] = true
is_filter (t ∷ []) = str_eq t (pound_char ∷ []) || is_level t
is_filter (t ∷ u ∷ ts) = is_level t && is_filter (u ∷ ts)

len_check_lem :
    (len : ℕ) (s : Str)
    → (len_check_loop len s ≡ mosq_err_success)
      ↔ ((len + length s ≤ max_length) × (no_wild s ≡ true))
unfolding len_check_loop no_wild
len_check_lem len [] = ground arith
len_check_lem len (x ∷ s) = ground (arith, len_check_lem (len + 1) s)

-- For any topic: the check of a topic to publish to succeeds exactly if it has at most 65535
-- characters and no wildcard.
pub topic_wildcard_len_check-no_wild :
    (s : Str)
    → (topic_wildcard_len_check s ≡ mosq_err_success)
      ↔ ((length s ≤ max_length) × (no_wild s ≡ true))
unfolding topic_wildcard_len_check
topic_wildcard_len_check-no_wild s = ground (arith, len_check_lem 0 s)

-- What the loop accepts behind the character `c`.
unfoldable pos_ok : ℕ → Str → Bool
pos_ok c [] = true
pos_ok c (x ∷ s) =
    let rest = pos_ok x s in
    if x == plus_char
    then not (is_inside c || is_inside (char_at s 0)) && rest
    else if x == pound_char
    then not (is_inside c || not (char_at s 0 == 0)) && rest
    else rest

pos_check_lem :
    (c len : ℕ) (s : Str)
    → (pos_check_loop c len s ≡ mosq_err_success)
      ↔ ((len + length s ≤ max_length) × (pos_ok c s ≡ true))
unfolding pos_check_loop pos_ok
pos_check_lem c len [] = ground arith
pos_check_lem c len (x ∷ s) = ground (arith, pos_check_lem x (len + 1) s)

-- The rest of a topic from inside a level.
unfoldable is_filter_tail : List Str → Bool
is_filter_tail [] = true
is_filter_tail (t ∷ []) = no_wild t
is_filter_tail (t ∷ u ∷ ts) = no_wild t && is_filter (u ∷ ts)

abbrev is_end : Str → List Str → Bool
is_end t [] = str_eq t []
is_end t (u ∷ ts) = false

-- The head of a first level is the head of the topic.
inside-head :
    (s t : Str) (ts : List Str)
    → IsCString s
    → levels s ≡ t ∷ ts
    → is_inside (char_at s 0) ≡ not (str_eq t [])
unfolding levels str_eq
inside-head [] t ts w e = ground arith
inside-head (x ∷ s) t ts w e = let (u, us, f) = levels_cons s in ground (arith, f)

end-head :
    (s t : Str) (ts : List Str) → IsCString s → levels s ≡ t ∷ ts → (char_at s 0 == 0) ≡ is_end t ts
unfolding levels str_eq
end-head [] t ts w e = ground arith
end-head (x ∷ s) t ts w e = let (u, us, f) = levels_cons s in ground (arith, f)

filter_plain :
    (x : ℕ) (t : Str) (ts : List Str)
    → is_wild x ≡ false
    → is_filter ((x ∷ t) ∷ ts) ≡ is_filter_tail (t ∷ ts)
unfolding is_filter is_filter_tail no_wild str_eq
filter_plain x t [] w = ground arith
filter_plain x t (u ∷ ts) w = ground arith

filter_plus :
    (x : ℕ) (t : Str) (ts : List Str)
    → (x == plus_char) ≡ true
    → is_filter ((x ∷ t) ∷ ts) ≡ (str_eq t [] && is_filter_tail (t ∷ ts))
unfolding is_filter is_filter_tail no_wild str_eq
filter_plus x [] [] w = ground arith
filter_plus x [] (u ∷ ts) w = ground arith
filter_plus x (y ∷ t) [] w = ground arith
filter_plus x (y ∷ t) (u ∷ ts) w = ground arith

filter_pound :
    (x : ℕ) (t : Str) (ts : List Str)
    → (x == pound_char) ≡ true
    → is_filter ((x ∷ t) ∷ ts) ≡ is_end t ts
unfolding is_filter is_filter_tail no_wild str_eq
filter_pound x [] [] w = ground arith
filter_pound x [] (u ∷ ts) w = ground arith
filter_pound x (y ∷ t) [] w = ground arith
filter_pound x (y ∷ t) (u ∷ ts) w = ground arith

filter_slash : (t : Str) (ts : List Str) → is_filter ([] ∷ t ∷ ts) ≡ is_filter (t ∷ ts)
unfolding is_filter no_wild str_eq
filter_slash t ts = refl

tail_end : (t : Str) (ts : List Str) → is_end t ts ≡ true → is_filter_tail (t ∷ ts) ≡ true
unfolding is_filter_tail no_wild str_eq
tail_end [] [] e = refl
tail_end [] (u ∷ ts) e = cc
tail_end (y ∷ t) [] e = cc
tail_end (y ∷ t) (u ∷ ts) e = cc

pos_ok-levels :
    (c : ℕ) (s : Str)
    → IsCString s
    → (is_inside c ≡ true → pos_ok c s ≡ is_filter_tail (levels s))
      × (is_inside c ≡ false → pos_ok c s ≡ is_filter (levels s))
unfolding pos_ok levels is_filter is_filter_tail no_wild
pos_ok-levels c [] w = (λ i. refl, λ i. ground arith)
pos_ok-levels c (x ∷ s) w =
    let (t, ts, e) = levels_cons s in
    let (inside, start) = pos_ok-levels x s w.1 in
    (
      λ i. ground (arith, e, inside, start),
      λ i. ground (
        arith,
        e,
        inside-head s t ts w.1 e,
        end-head s t ts w.1 e,
        filter_slash t ts,
        tail_end t ts,
        filter_plain x t ts,
        filter_plus x t ts,
        filter_pound x t ts,
        inside,
        start,
      ),
    )

-- For a filter as a C string: the check of the positions of wildcards succeeds exactly if the
-- filter has at most 65535 characters, each level between its slashes is `+` or holds no wildcard,
-- and the last one may be `#` too.
pub topic_wildcard_pos_check-is_filter :
    (s : Str)
    → IsCString s
    → (topic_wildcard_pos_check s ≡ mosq_err_success)
      ↔ ((length s ≤ max_length) × (is_filter (levels s) ≡ true))
unfolding topic_wildcard_pos_check
topic_wildcard_pos_check-is_filter s w =
    ground (arith, pos_check_lem 0 0 s, (pos_ok-levels 0 s w).1 refl)
