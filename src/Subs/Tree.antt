-- ===== src/Subs/Tree.antt =====
-- struct _mosquitto_subhier and struct _mosquitto_subleaf of src/mqtt-core/src/mosquitto_broker.h.
-- A node is what a `struct _mosquitto_subhier *` points to, with its children and the next of its
-- siblings. The table of a node that src/mqtt-core/src/search_optimization.c keeps has the topics of
-- its children: subs.c adds and removes both together, and a lookup in it is `find_child`.
use opendxl_broker.Prelude.{
  ℕ, suc, ◌-◌, Bool, true, false, Option, none, some, List, [], ◌∷◌, Str, str_eq, if◌then◌else◌,
}
use opendxl_broker.Broker.Message.{Qos}

-- `context` is the address of the subscriber.
pub record Leaf : Type 0 where
  pub context : ℕ
  pub qos : Qos

-- topic, subs, retained, hash_table_has_pound_wild_card, hash_table_has_plus_wild_card, children, next
pub data Hier : Type 0 where
  null : Hier
  node : Str → List Leaf → Option ℕ → ℕ → ℕ → Hier → Hier → Hier

abbrev pub subs_of : Hier → List Leaf
subs_of null = []
subs_of (node t ls r p q ch nx) = ls

abbrev pub children_of : Hier → Hier
children_of null = null
children_of (node t ls r p q ch nx) = ch

abbrev pub is_null : Hier → Bool
is_null null = true
is_null (node t ls r p q ch nx) = false

-- HASH_FIND_STR(children_hash_table, topic, s), over the list of children.
unfoldable pub find_child : Str → Hier → Option Hier
find_child topic null = none
find_child topic (node t ls r p q ch nx) =
    if str_eq t topic then some (node t ls r p q ch nx) else find_child topic nx

abbrev pub with_next : Hier → Hier → Hier
with_next null nx = nx
with_next (node t ls r p q ch _) nx = node t ls r p q ch nx

-- The child of a topic is changed in place.
unfoldable pub replace_child : Str → Hier → Hier → Hier
replace_child topic b null = null
replace_child topic b (node t ls r p q ch nx) =
    if str_eq t topic then with_next b nx else node t ls r p q ch (replace_child topic b nx)

-- A new child goes to the end of the list.
unfoldable pub append_child : Hier → Hier → Hier
append_child null b = b
append_child (node t ls r p q ch nx) b = node t ls r p q ch (append_child nx b)

unfoldable pub remove_child : Str → Hier → Hier
remove_child topic null = null
remove_child topic (node t ls r p q ch nx) =
    if str_eq t topic then nx else node t ls r p q ch (remove_child topic nx)

-- `calloc` and the topic.
abbrev pub new_branch : Str → Hier
new_branch topic = node topic [] none 0 0 null null

abbrev pub pound : Str
pound = b'#' ∷ []

abbrev pub plus : Str
plus = b'+' ∷ []

-- The counters of the wildcards among the children, where one is added and where one is removed.
abbrev pub count_in : Str → Str → ℕ → ℕ
count_in wild topic n = if str_eq topic wild then suc n else n

abbrev pub count_out : Str → Str → ℕ → ℕ
count_out wild topic n = if str_eq topic wild then n - 1 else n

abbrev pub is_none {ℓ} : {A : Type ℓ} → Option A → Bool
is_none none = true
is_none (some a) = false

abbrev pub is_empty {ℓ} : {A : Type ℓ} → List A → Bool
is_empty [] = true
is_empty (x ∷ xs) = false
