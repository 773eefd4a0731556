-- ===== src/Subs/Counters/Clean.antt =====
-- A clean session keeps the counters of wildcards right.
use opendxl_broker.Prelude.{ℕ, ◌+◌, ◌≡◌, ◌∙◌, [], Str, str_eq, arith, if_intro}
use opendxl_broker.Subs.Tree.{Hier, null, node, pound, plus, count_out}
use opendxl_broker.Subs.Path.{add_topic_to_path}
use opendxl_broker.Subs.Add.{Ledger}
use opendxl_broker.Subs.Remove.{is_dead}
use opendxl_broker.Subs.Clean.{Cleaned, clean_leaves, clean_siblings, subs_clean_session}
use opendxl_broker.Subs.Counters.{one, count_topic, CountersMatch}

-- The counters of a parent with some siblings, and `a` and `b` more wildcards in front of them.
record Swept (a b : ℕ) (x : Cleaned) : Type 0 where
  matches : CountersMatch x.siblings
  pounds : x.pounds ≡ a + count_topic pound x.siblings
  pluses : x.pluses ≡ b + count_topic plus x.siblings

clean_siblings-Swept :
    (full : Str) (depth : ℕ) (ch : Hier) (p q a b : ℕ) (s : Ledger)
    → CountersMatch ch
    → p ≡ a + count_topic pound ch
    → q ≡ b + count_topic plus ch
    → Swept a b (clean_siblings full depth ch p q s)
unfolding clean_siblings
clean_siblings-Swept full depth null p q a b s m e f = record {
  matches = tt;
  pounds = e;
  pluses = f;
}
clean_siblings-Swept full depth (node t ls r pt qt ch nx) p q a b s m e f =
    let under =
      clean_siblings-Swept full' (depth + 1) ch pt qt 0 0 (clean_leaves full' [] ls s).1 m.2
        (m.0 ∙ omega arith) (m.1 ∙ omega arith) in
    if_intro (Swept a b) (is_dead self) _ _
      (λ _.
        clean_siblings-Swept full depth nx (count_out pound t p) (count_out plus t q) a b
          below.ledger m.3 (ground arith) (ground arith))
      (λ _.
        let rest =
          clean_siblings-Swept full depth nx p q (a + one (str_eq t pound))
            (b + one (str_eq t plus)) below.ledger m.3 (ground arith) (ground arith) in
        record {
          matches =
              (under.pounds ∙ omega arith, under.pluses ∙ omega arith, under.matches, rest.matches);
          pounds = rest.pounds ∙ omega arith;
          pluses = rest.pluses ∙ omega arith;
        })
  where
    full' : Str
    full' = add_topic_to_path t full depth

    below : Cleaned
    below = clean_siblings full' (depth + 1) ch pt qt (clean_leaves full' [] ls s).1

    self : Hier
    self = node t (clean_leaves full' [] ls s).0 r below.pounds below.pluses below.siblings null

-- For any tree in which every node below the root counts its children `#` and its children `+`: it
-- still does after mqtt3_subs_clean_session, whichever contexts have `clean_subs` set.
pub subs_clean_session-CountersMatch :
    (root : Hier) (s : Ledger) → CountersMatch root → CountersMatch (subs_clean_session root s).0
unfolding subs_clean_session
subs_clean_session-CountersMatch null s m = tt
subs_clean_session-CountersMatch (node t ls r p q ch nx) s m =
    let full = add_topic_to_path t [] 0 in
    let (ls', s') = clean_leaves full [] ls s in
    let below = clean_siblings full 1 ch p q s' in
    let under =
      clean_siblings-Swept full 1 ch p q 0 0 s' m.2 (m.0 ∙ omega arith) (m.1 ∙ omega arith) in
    (
      under.pounds ∙ omega arith,
      under.pluses ∙ omega arith,
      under.matches,
      subs_clean_session-CountersMatch nx below.ledger m.3,
    )
