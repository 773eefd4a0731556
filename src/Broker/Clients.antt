-- ===== src/Broker/Clients.antt =====
-- The canonical client ids of src/mqtt-core/src/database.c, which several connections may share:
-- a table of reference counts. The table is a uthash one (src/mqtt-core/src/uthash.h, another
-- project's code), an interface here.
use opendxl_broker.Prelude.{
  ℕ, zero, suc, ◌-◌, ◌≡◌, refl, ap, sym, ◌∙◌, Bool, true, false, Option, none, some, List, [], ◌∷◌,
  Str, str_eq, str_eq→eq, str_eq_refl, ℤ, pos, negsuc, inc, dec, ◌==◌, if◌then◌else◌, arith,
  Bool-cases, Option-cases, inl, inr, subst, if_intro,
}

-- HASH_FIND_STR, and the change of the entry of a key: with HASH_ADD_KEYPTR where the key is
-- absent, through the pointer found where it is present, and HASH_DEL. The laws are what the
-- documentation of uthash promises.
pub record HashTable : Type 1 where
  pub Table : Type 0
  pub empty : Table
  pub find : Table → Str → Option ℤ
  pub set : Table → Str → ℤ → Table
  pub del : Table → Str → Table
  pub find-empty : (k : Str) → find empty k ≡ none
  pub find-set :
      (t : Table) (k : Str) (v : ℤ) (l : Str)
      → find (set t k v) l ≡ (if str_eq k l then some v else find t l)
  pub find-del :
      (t : Table) (k l : Str) → find (del t k) l ≡ (if str_eq k l then none else find t l)

-- `ref_count <= 0`
abbrev pub is_unused : ℤ → Bool
is_unused (pos zero) = true
is_unused (pos (suc n)) = false
is_unused (negsuc n) = true

-- What connections and disconnections do to the table.
pub data IdEvent : Type 0 where
  add_id remove_id : Str → IdEvent

module _ (H : HashTable) where
  open H use {Table, empty, find, set, del, find-empty, find-set, find-del}

  unfoldable pub add_canonical_client_id : Table → Str → Table
  add_canonical_client_id t id = elim (find t id) [
    | none ↦ set t id (pos 1)
    | some n ↦ set t id (inc n)
  ]

  unfoldable pub remove_canonical_client_id : Table → Str → Table
  remove_canonical_client_id t id = elim (find t id) [
    | none ↦ t
    | some n ↦ if is_unused (dec n) then del t id else set t id (dec n)
  ]

  -- -1 for an id that is not there.
  unfoldable pub get_canonical_client_id_count : Table → Str → ℤ
  get_canonical_client_id_count t id = elim (find t id) [ none ↦ negsuc 0 | some n ↦ n ]

  unfoldable pub run_ids : Table → List IdEvent → Table
  unfolding add_canonical_client_id remove_canonical_client_id
  run_ids t [] = t
  run_ids t (add_id id ∷ es) = run_ids (add_canonical_client_id t id) es
  run_ids t (remove_id id ∷ es) = run_ids (remove_canonical_client_id t id) es

-- How often an id is in use after some events, from `n` times.
unfoldable pub uses : Str → ℕ → List IdEvent → ℕ
uses id n [] = n
uses id n (add_id k ∷ es) = uses id (if str_eq k id then suc n else n) es
uses id n (remove_id k ∷ es) = uses id (if str_eq k id then n - 1 else n) es

abbrev pub counted : ℕ → Option ℤ
counted zero = none
counted (suc n) = some (pos (suc n))

module _ (H : HashTable) where
  open H use {Table, empty, find, set, del, find-empty, find-set, find-del}

  set_at : (t : Table) (k : Str) (v : ℤ) → find (set t k v) k ≡ some v
  set_at t k v = find-set t k v k ∙ rw (str_eq_refl k) refl

  set_beside :
      (t : Table) (k id : Str) (v : ℤ) → str_eq k id ≡ false → find (set t k v) id ≡ find t id
  set_beside t k id v f = find-set t k v id ∙ rw f refl

  del_at : (t : Table) (k : Str) → find (del t k) k ≡ none
  del_at t k = find-del t k k ∙ rw (str_eq_refl k) refl

  del_beside : (t : Table) (k id : Str) → str_eq k id ≡ false → find (del t k) id ≡ find t id
  del_beside t k id f = find-del t k id ∙ rw f refl

  add_at :
      (t : Table) (k : Str) (n : ℕ)
      → find t k ≡ counted n
      → find (add_canonical_client_id H t k) k ≡ counted (suc n)
  unfolding add_canonical_client_id
  add_at t k zero e = rw (e, add_canonical_client_id) (set_at t k (pos 1))
  add_at t k (suc n) e = rw (e, add_canonical_client_id) (set_at t k (pos (suc (suc n))))

  add_beside :
      (t : Table) (k id : Str)
      → str_eq k id ≡ false
      → find (add_canonical_client_id H t k) id ≡ find t id
  unfolding add_canonical_client_id
  add_beside t k id f = elim (Option-cases (find t k)) [
    | inl e ↦ rw (e, add_canonical_client_id) (set_beside t k id (pos 1) f)
    | inr (n, e) ↦ rw (e, add_canonical_client_id) (set_beside t k id (inc n) f)
  ]

  remove_at :
      (t : Table) (k : Str) (n : ℕ)
      → find t k ≡ counted n
      → find (remove_canonical_client_id H t k) k ≡ counted (n - 1)
  unfolding remove_canonical_client_id
  remove_at t k zero e = rw (e, remove_canonical_client_id) e
  remove_at t k (suc zero) e = rw (e, remove_canonical_client_id) (del_at t k)
  remove_at t k (suc (suc n)) e =
      let f : suc n ≡ suc (suc n) - 1 = omega arith in
      rw (e, remove_canonical_client_id) (set_at t k (pos (suc n)) ∙ ap counted f)

  remove_beside :
      (t : Table) (k id : Str)
      → str_eq k id ≡ false
      → find (remove_canonical_client_id H t k) id ≡ find t id
  unfolding remove_canonical_client_id
  remove_beside t k id f = elim (Option-cases (find t k)) [
    | inl e ↦ rw (e, remove_canonical_client_id) refl
    | inr (n, e) ↦
        rw (e, remove_canonical_client_id)
          (if_intro (λ u. find u id ≡ find t id) (is_unused (dec n)) (del t k) (set t k (dec n))
            (λ _. del_beside t k id f) (λ _. set_beside t k id (dec n) f))
  ]

  run_ids-counted :
      (es : List IdEvent) (t : Table) (id : Str) (n : ℕ)
      → find t id ≡ counted n
      → find (run_ids H t es) id ≡ counted (uses id n es)
  unfolding run_ids uses
  run_ids-counted [] t id n e = e
  run_ids-counted (add_id k ∷ es) t id n e = elim (Bool-cases (str_eq k id)) [
    | inl f ↦ rw f (
        run_ids-counted es _ id (suc n) (
          subst (λ l. find (add_canonical_client_id H t l) id ≡ counted (suc n))
            (sym (str_eq→eq k id f)) (add_at t id n e)))
    | inr f ↦ rw f (run_ids-counted es _ id n (add_beside t k id f ∙ e))
  ]
  run_ids-counted (remove_id k ∷ es) t id n e = elim (Bool-cases (str_eq k id)) [
    | inl f ↦ rw f (
        run_ids-counted es _ id (n - 1) (
          subst (λ l. find (remove_canonical_client_id H t l) id ≡ counted (n - 1))
            (sym (str_eq→eq k id f)) (remove_at t id n e)))
    | inr f ↦ rw f (run_ids-counted es _ id n (remove_beside t k id f ∙ e))
  ]

  -- For any hash table that keeps the laws of the interface, any client id and any sequence of
  -- additions and removals of ids from the empty table: mqtt3_db_get_canonical_client_id_count
  -- gives the number of uses of the id, where a removal of an id that is not in use changes
  -- nothing, and -1 for an id that is not in use.
  pub canonical_client_id_count :
      (id : Str) (es : List IdEvent)
      → get_canonical_client_id_count H (run_ids H empty es) id
        ≡ (if uses id 0 es == 0 then negsuc 0 else pos (uses id 0 es))
  unfolding get_canonical_client_id_count
  canonical_client_id_count id es =
      rw (run_ids-counted es empty id 0 (find-empty id), get_canonical_client_id_count)
        (shown (uses id 0 es))
    where
      shown :
          (n : ℕ)
          → elim (counted n) [ none ↦ negsuc 0 | some v ↦ v ] ≡ (if n == 0 then negsuc 0 else pos n)
      shown zero = refl
      shown (suc n) = ground arith
