-- ===== src/Subs/Announced.antt =====
-- The full topic that _add_topic_to_path of src/mqtt-core/src/subs.c builds on the way down the tree.
use mathlib.Core.List.{append-nil, append_assoc}
use opendxl_broker.Prelude.{
  ℕ, zero, suc, ◌≤◌, ◌<◌, ◌≡◌, refl, sym, ap, ◌∙◌, true, false, List, [], ◌∷◌, ◌++◌, Str, length,
  length-append, take, char_at, ltb, ◌==◌, arith,
}
use opendxl_broker.Topic.Tokens.{slash, dollar, unless_dollar, sub_topic_tokenise}
use opendxl_broker.Topic.Split.{
  IsCString, join, levels_cons, join-levels, sub_topic_tokenise-levels,
}
use opendxl_broker.Subs.Path.{separator, add_topic_to_path, full_path}

take-le : (n : ℕ) (s : Str) → length s ≤ n → take n s ≡ s
take-le zero [] h = refl
take-le zero (x ∷ s) h = absurd (omega arith)
take-le (suc n) [] h = refl
take-le (suc n) (x ∷ s) h = rw (take-le n s (omega arith))

-- Each level behind a slash.
abbrev behind : List Str → Str
behind [] = []
behind (t ∷ ts) = slash ∷ (t ++ behind ts)

join-behind : (t : Str) (ts : List Str) → join (t ∷ ts) ≡ t ++ behind ts
unfolding join
join-behind t [] = sym (append-nil t)
join-behind t (u ∷ ts) = ap (λ s. t ++ (slash ∷ s)) (join-behind u ts)

separator_deep : (t full : Str) (depth : ℕ) → 3 ≤ depth → separator full depth t ≡ slash ∷ []
separator_deep t full depth d = ground arith

ltb-true : (a b : ℕ) → a < b → ltb a b ≡ true
ltb-true a b h = ground arith

add_deep :
    (t full : Str) (depth : ℕ)
    → 3 ≤ depth
    → length (full ++ (slash ∷ t)) < 1024
    → add_topic_to_path t full depth ≡ full ++ (slash ∷ t)
unfolding add_topic_to_path
add_deep t full depth d l =
    let short : length full < 1024 = omega (arith, length-append full (slash ∷ t)) in
    rw (ltb-true (length full) 1024 short, separator_deep t full depth d)
      (take-le 1023 (full ++ (slash ∷ t)) (omega arith))

full_path_deep :
    (full : Str) (depth : ℕ) (ts : List Str)
    → 3 ≤ depth
    → length (full ++ behind ts) < 1024
    → full_path full depth ts ≡ full ++ behind ts
unfolding full_path
full_path_deep full depth [] d l = sym (append-nil full)
full_path_deep full depth (t ∷ ts) d l =
    ap (λ x. full_path x (suc depth) ts)
      (add_deep t full depth d (
        omega (
          arith,
          length-append full (slash ∷ t),
          length-append full (slash ∷ (t ++ behind ts)),
          length-append t (behind ts),
        )))
    ∙ full_path_deep (full ++ (slash ∷ t)) (suc depth) ts (omega arith)
        (rw (append_assoc full (slash ∷ t) (behind ts)) l)
    ∙ append_assoc full (slash ∷ t) (behind ts)

add_first : (t : Str) → length t < 1024 → add_topic_to_path t [] 2 ≡ t
unfolding add_topic_to_path
add_first t l = ground (arith, take-le 1023 t (omega arith))

-- For a topic as a C string that does not begin with `$` and has fewer than 1024 characters: the
-- full topic that is built on the way down the tree, through the root's child and the tokens, is
-- the topic.
pub full_path-sub_topic_tokenise :
    (s : Str)
    → IsCString s
    → (char_at s 0 == dollar) ≡ false
    → length s < 1024
    → full_path [] 0 ([] ∷ sub_topic_tokenise s) ≡ s
unfolding full_path unless_dollar add_topic_to_path
full_path-sub_topic_tokenise s w d l =
    let (t, ts, e) = levels_cons s in
    let whole : t ++ behind ts ≡ s = sym (join-behind t ts) ∙ ap join (sym e) ∙ join-levels s in
    let fits : length (t ++ behind ts) < 1024 = rw (sym whole) at l in
    rw (sub_topic_tokenise-levels s w, d, e)
      (ap (λ x. full_path x 3 ts) (add_first t (omega (arith, length-append t (behind ts))))
        ∙ full_path_deep t 3 ts (omega arith) fits
        ∙ whole)
