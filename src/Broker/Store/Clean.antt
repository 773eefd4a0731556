-- ===== src/Broker/Store/Clean.antt =====
-- What the removal of unreferenced messages keeps.
use opendxl_broker.Prelude.{
  ℕ, suc, ◌+◌, ◌≡◌, refl, ◌⊎◌, inl, inr, Bool, false, List, [], ◌∷◌, length, pos, ℤ, dec, arith,
  if_intro, ap, ◌∙◌, Str, Option, sym, Bool-cases, ◌↔◌,
}
use opendxl_broker.Broker.Message.{Heap, StoredMsg, Qos}
use opendxl_broker.Broker.Store.{Store, is_zero, clean_loop, store_clean, message_store}

-- An address is in the list.
abbrev pub In : ℕ → List ℕ → Type 0
In a [] = ⊥
In a (b ∷ bs) = (a ≡ b) ⊎ In a bs

module _ (h : Heap) (a : ℕ) where
  clean_keeps :
      (n : ℤ) (l : List ℕ) → In a l → is_zero (h a).ref_count ≡ false → In a (clean_loop h n l).0
  unfolding clean_loop
  clean_keeps n [] i z = i
  clean_keeps n (b ∷ l) (inl e) z = rw (sym e, z) (inl refl)
  clean_keeps n (b ∷ l) (inr i) z =
      if_intro (λ (res : List ℕ × ℤ × List ℕ). In a res.0) (is_zero (h b).ref_count) _ _
        (λ _. clean_keeps (dec n) l i z) (λ _. inr (clean_keeps n l i z))

  clean_drops :
      (n : ℤ) (l : List ℕ) → In a (clean_loop h n l).0 → In a l × (is_zero (h a).ref_count ≡ false)
  unfolding clean_loop
  clean_drops n [] i = absurd i
  clean_drops n (b ∷ l) i = elim (Bool-cases (is_zero (h b).ref_count)) [
    | inl z ↦ let (j, w) = clean_drops (dec n) l (rw z at i) in (inr j, w)
    | inr z ↦ kept (clean_drops n l) (rw z at i) z
  ]
    where
      kept :
          (In a (clean_loop h n l).0 → In a l × (is_zero (h a).ref_count ≡ false))
          → In a (b ∷ (clean_loop h n l).0)
          → is_zero (h b).ref_count ≡ false
          → In a (b ∷ l) × (is_zero (h a).ref_count ≡ false)
      kept ih (inl e) z = (inl e, rw e z)
      kept ih (inr j) z = let (k, w) = ih j in (inr k, w)

-- For any store and address: mqtt3_db_store_clean leaves the address in the list of stored messages
-- exactly if it was in the list and the reference count there is not 0.
pub store_clean-In :
    (s : Store) (a : ℕ)
    → In a (store_clean s).0.msg_store ↔ (In a s.msg_store × (is_zero (s.heap a).ref_count ≡ false))
unfolding store_clean
store_clean-In s a = (
  clean_drops s.heap a s.msg_store_count s.msg_store,
  λ (i, z). clean_keeps s.heap a s.msg_store_count s.msg_store i z,
)

clean_counts :
    (h : Heap) (k : ℕ) (n : ℤ) (l : List ℕ)
    → n ≡ pos (k + length l)
    → let res = clean_loop h n l in res.1 ≡ pos (k + length res.0)
unfolding clean_loop
clean_counts h k n [] e = e
clean_counts h k n (b ∷ l) e =
    if_intro (λ (res : List ℕ × ℤ × List ℕ). res.1 ≡ pos (k + length res.0))
      (is_zero (h b).ref_count) _ _ (λ _. clean_counts h k (dec n) l (ground arith))
      (λ _. clean_counts h (suc k) n l (ground arith) ∙ ap pos (omega arith))

-- Where msg_store_count is the number of stored messages, it is after mqtt3_db_store_clean too, and
-- after mqtt3_db_message_store of any message.
pub store_counts :
    (on_store : StoredMsg → Option Str) (s : Store) (source : Str) (source_mid : ℕ)
    (topic : Option Str) (qos : Qos) (payload : Str) (retain : Bool) (store_id : ℕ)
    → s.msg_store_count ≡ pos (length s.msg_store)
    → let cleaned = (store_clean s).0 in
      let (a, stored) =
        message_store on_store s source source_mid topic qos payload retain store_id in
      (cleaned.msg_store_count ≡ pos (length cleaned.msg_store))
      × (stored.msg_store_count ≡ pos (length stored.msg_store))
unfolding store_clean message_store
store_counts on_store s source source_mid topic qos payload retain store_id e = (
  clean_counts s.heap 0 s.msg_store_count s.msg_store (e ∙ ap pos (omega arith))
      ∙ ap pos (omega arith),
  ground arith,
)
