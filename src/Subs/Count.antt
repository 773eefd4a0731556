-- ===== src/Subs/Count.antt =====
-- _sub_count_process, _sub_count_search and mqtt3_sub_count of src/mqtt-core/src/subs.c.
use opendxl_broker.Prelude.{
  ℕ, suc, Bool, true, false, Option, none, some, List, [], ◌∷◌, ◌&&◌, ◌||◌, not, Str, str_eq,
  if◌then◌else◌,
}
use opendxl_broker.Topic.Tokens.{sub_topic_tokenise}
use opendxl_broker.Subs.Tree.{Leaf, Hier, null, node, find_child, subs_of, is_empty, pound, plus}
use opendxl_broker.Subs.Add.{Contexts}

module _ (cs : Contexts) (tenant_guid : Option Str) where
  -- Any client, or any of the tenant.
  abbrev pub is_of_tenant : Option Str → Option Str → Bool
  is_of_tenant none guid = true
  is_of_tenant (some t) none = false
  is_of_tenant (some t) (some guid) = str_eq t guid

  abbrev pub counts_leaf : Leaf → Bool
  counts_leaf leaf =
      not (cs leaf.context).is_bridge && is_of_tenant tenant_guid (cs leaf.context).dxl_tenant_guid

  unfoldable pub count_process : List Leaf → ℕ → ℕ
  count_process [] n = n
  count_process (leaf ∷ ls) n = count_process ls (if counts_leaf leaf then suc n else n)

  abbrev pub count_last : List Str → Hier → ℕ → ℕ
  count_last tokens b n = if is_empty tokens then count_process (subs_of b) n else n

  -- The flag -1 of the code is `true`: a `#` was met.
  abbrev pub count_pound : Hier → Bool × ℕ → Bool × ℕ
  count_pound ch (flag, n) = elim (find_child pound ch) [
    | none ↦ (flag, n)
    | some b ↦ (true, count_process (subs_of b) n)
  ]

  unfoldable pub count_search : Hier → List Str → ℕ → Bool × ℕ
  unfolding count_process
  count_search null tokens n = (false, n)
  count_search (node t ls r p q ch nx) [] n = count_pound ch (false, n)
  count_search (node t ls r p q ch nx) (u ∷ tokens) n =
      let start : Bool × ℕ = (false, n) in
      let (flag₁, n₁) : Bool × ℕ = elim (find_child plus ch) [
        | none ↦ start
        | some b ↦ let (f, k) = count_search b tokens n in (f, count_last tokens b k)
      ] in
      let (flag₂, n₂) : Bool × ℕ = elim (find_child u ch) [
        | none ↦ (flag₁, n₁)
        | some b ↦ let (f, k) = count_search b tokens n₁ in (flag₁ || f, count_last tokens b k)
      ] in
      count_pound ch (flag₂, n₂)

  -- Behind a `#` the subscriptions of the root's child are counted too.
  abbrev pub count_root : Hier → List Str → ℕ → ℕ
  count_root root [] n = n
  count_root root (t ∷ tokens) n = elim (find_child t root) [
    | none ↦ n
    | some b ↦
        let (flag, k) = count_search b (t ∷ tokens) n in
        if flag then count_process (subs_of b) k else k
  ]

  unfoldable pub sub_count : Str → Hier → ℕ → ℕ
  unfolding count_search
  sub_count topic root n = count_root root (sub_topic_tokenise topic) n
