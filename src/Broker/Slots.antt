-- ===== src/Broker/Slots.antt =====
-- mqtt3_db_add_new_context of src/mqtt-core/src/database.c: the array of the contexts, which grows
-- by CONTEXT_REALLOC_SIZE. The allocation is taken to succeed.
use opendxl_broker.Prelude.{
  ℕ, zero, suc, ◌≡◌, refl, Bool, Option, none, some, List, [], ◌∷◌, not, ◌-◌, ◌==◌, if◌then◌else◌,
  arith,
}

abbrev pub context_realloc_size : ℕ
context_realloc_size = 4095

-- Slots that are NULL.
unfoldable pub vacant : ℕ → List (Option ℕ)
vacant zero = []
vacant (suc n) = none ∷ vacant n

-- What the call sets: the array, numericId and db_index of the new context, and whether it goes to
-- the set of new clients.
pub record Placed : Type 0 where
  pub contexts : List (Option ℕ)
  pub db_index : ℕ
  pub is_new_client : Bool

-- The first slot that is NULL gets the context; without one the array grows by `room` slots.
unfoldable pub place : ℕ → ℕ → List (Option ℕ) → List (Option ℕ) × ℕ
unfolding vacant
place room c [] = (some c ∷ vacant (room - 1), 0)
place room c (none ∷ slots) = (some c ∷ slots, 0)
place room c (some d ∷ slots) = let (slots', i) = place room c slots in (some d ∷ slots', suc i)

unfoldable pub add_new_context : ℕ → Bool → List (Option ℕ) → Placed
unfolding place
add_new_context c has_wsi slots =
    let (slots', i) = place context_realloc_size c slots in
    record { contexts = slots'; db_index = i; is_new_client = not has_wsi }

-- The context at an index, none behind the end of the array.
unfoldable pub at : List (Option ℕ) → ℕ → Option ℕ
at [] i = none
at (slot ∷ slots) zero = slot
at (slot ∷ slots) (suc i) = at slots i

at-vacant : (n i : ℕ) → at (vacant n) i ≡ none
unfolding at vacant
at-vacant zero i = refl
at-vacant (suc n) zero = refl
at-vacant (suc n) (suc i) = at-vacant n i

at-place :
    (room c : ℕ) (slots : List (Option ℕ)) (i : ℕ)
    → at (place room c slots).0 i ≡ (if i == (place room c slots).1 then some c else at slots i)
unfolding at place
at-place room c [] zero = refl
at-place room c [] (suc i) = ground (arith, at-vacant (room - 1) i)
at-place room c (none ∷ slots) zero = refl
at-place room c (none ∷ slots) (suc i) = ground arith
at-place room c (some d ∷ slots) zero = ground arith
at-place room c (some d ∷ slots) (suc i) = ground (arith, at-place room c slots i)

place_free : (room c : ℕ) (slots : List (Option ℕ)) → at slots (place room c slots).1 ≡ none
unfolding at place
place_free room c [] = refl
place_free room c (none ∷ slots) = refl
place_free room c (some d ∷ slots) = place_free room c slots

-- For any array of contexts and any index: mqtt3_db_add_new_context takes an index that held no
-- context, the new context stands at it, and every other index holds what it held, where an index
-- behind the end of an array counts as one without a context.
pub add_new_context-at :
    (c : ℕ) (has_wsi : Bool) (slots : List (Option ℕ)) (i : ℕ)
    → (at slots (add_new_context c has_wsi slots).db_index ≡ none)
      × (at (add_new_context c has_wsi slots).contexts i
          ≡ (if i == (add_new_context c has_wsi slots).db_index then some c else at slots i))
unfolding add_new_context
add_new_context-at c has_wsi slots i =
    (place_free context_realloc_size c slots, at-place context_realloc_size c slots i)
