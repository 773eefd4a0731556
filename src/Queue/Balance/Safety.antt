-- ===== src/Queue/Balance/Safety.antt =====
-- Several contexts that share the stored messages: none refers to a message that was removed.
use opendxl_broker.Prelude.{
  ℕ, ◌+◌, ◌<◌, ◌≤◌, ◌≡◌, refl, ◌⊎◌, inl, inr, Option, none, some, List, [], ◌∷◌, pos, All, Str,
  Bool, ◌==◌, ap, sym, ◌∙◌, arith, subst, Bool-cases, ==_iff,
}
use opendxl_broker.Broker.Message.{Qos, StoredMsg}
use opendxl_broker.Broker.Store.{rewritten, message_store, store_clean}
use opendxl_broker.Broker.Store.Clean.{In, store_clean-In}
use opendxl_broker.Queue.Shared.{
  Call, insert, delete, update, timeout_check, delete_all, reconnect, write, call_at, Database,
  Event, stored, cleaned, called, happen, run, IsAllowed, AreAllowed,
}
use opendxl_broker.Queue.Write.{Network}
use opendxl_broker.Queue.Balance.Shares.{
  total, IsCounted, AllKept, Shares, call_at-Shares, call_at-Within, Returns, Shares-Returns,
}
use opendxl_broker.Queue.Balance.Calls.{added, IsProper}

-- The counters of each context are right, the reference counts are the references of all contexts,
-- each message that is referred to is a stored one, incoming entries have quality of service 2, and
-- new addresses are above the stored ones.
pub record Sound (d : Database) : Type 0 where
  pub counted : All IsCounted d.contexts
  pub referenced : (a : ℕ) → (d.store.heap a).ref_count ≡ pos (total a d.contexts)
  pub held : (a : ℕ) → 0 < total a d.contexts → In a d.store.msg_store
  pub kept : All AllKept d.contexts
  pub below : (a : ℕ) → In a d.store.msg_store → a < d.store.next_addr

some_positive : (m n : ℕ) → 0 < m + n → (0 < m) ⊎ (0 < n)
some_positive m n l = ground (arith, l)

some_or_none : (n : ℕ) → (n ≡ 0) ⊎ (0 < n)
some_or_none n = ground arith

-- What a call adds a reference to is a stored message.
added-In :
    (i : ℕ) (f : Call) (a : ℕ) (d : Database)
    → IsAllowed (called i f) d
    → 0 < added f a
    → In a d.store.msg_store
added-In i (insert env mid dir qos retain b) a d ok l = elim (Bool-cases (b == a)) [
  | inl e ↦ subst (λ x. In x d.store.msg_store) ((==_iff b a).0 e) ok.0
  | inr e ↦ absurd (ground (arith, l, e))
]
added-In i (delete now max_inflight mid dir) a d ok l = absurd (omega arith)
added-In i (update now mid dir state) a d ok l = absurd (omega arith)
added-In i (timeout_check now timeout) a d ok l = absurd (omega arith)
added-In i delete_all a d ok l = absurd (omega arith)
added-In i (reconnect max_inflight) a d ok l = absurd (omega arith)
added-In i (write net now max_inflight) a d ok l = absurd (omega arith)

allowed-IsProper : (i : ℕ) (f : Call) (d : Database) → IsAllowed (called i f) d → IsProper f
allowed-IsProper i (insert env mid dir qos retain b) d ok = ok.1
allowed-IsProper i (delete now max_inflight mid dir) d ok = tt
allowed-IsProper i (update now mid dir state) d ok = tt
allowed-IsProper i (timeout_check now timeout) d ok = tt
allowed-IsProper i delete_all d ok = tt
allowed-IsProper i (reconnect max_inflight) d ok = tt
allowed-IsProper i (write net now max_inflight) d ok = tt

Sound-Shares : (d : Database) → Sound d → Shares (λ a. 0) (d.contexts, d.store.heap)
Sound-Shares d s = (s.counted, λ a. s.referenced a ∙ ap pos (omega arith))

called-Sound :
    (i : ℕ) (f : Call) (d : Database)
    → IsAllowed (called i f) d
    → Sound d
    → Sound (happen (called i f) d)
called-Sound i f d ok s = record {
  counted = shares.0;
  referenced = λ a. shares.1 a ∙ ap pos (omega arith);
  held = λ a l. elim (some_positive _ _ (omega (arith, l, (within a).0))) [
    | inl p ↦ added-In i f a d ok p
    | inr p ↦ s.held a p
  ];
  kept = (within 0).1;
  below = s.below;
}
  where
    shares : Shares (λ a. 0) (call_at i f d.store.heap d.contexts)
    shares = call_at-Shares i f (λ a. 0) d.store.heap d.contexts s.kept (Sound-Shares d s)

    within :
        (a : ℕ)
        → let (cs', h') = call_at i f d.store.heap d.contexts in
          (total a cs' ≤ added f a + total a d.contexts) × All AllKept cs'
    within a =
        call_at-Within i f a (λ a. 0) d.store.heap d.contexts (allowed-IsProper i f d ok) s.kept
          (Sound-Shares d s)

cleaned-Sound : (d : Database) → Sound d → Sound (happen cleaned d)
unfolding store_clean
cleaned-Sound d s = record {
  counted = s.counted;
  referenced = s.referenced;
  held = λ a l. (store_clean-In d.store a).1 (s.held a l, ground (arith, s.referenced a, l));
  kept = s.kept;
  below = λ a i. s.below a ((store_clean-In d.store a).0 i).0;
}

rewritten_ref_count : (o : Option Str) (m : StoredMsg) → (rewritten o m).ref_count ≡ m.ref_count
rewritten_ref_count none m = refl
rewritten_ref_count (some []) m = refl
rewritten_ref_count (some (b ∷ bs)) m = refl

module _ (on_store : StoredMsg → Option Str) (source : Str) (mid : ℕ) (topic : Option Str)
    (qos : Qos) (payload : Str) (retain : Bool) (id : ℕ) (d : Database) (s : Sound d) where
  -- Nothing refers to the new address.
  total_next : total d.store.next_addr d.contexts ≡ 0
  total_next = elim (some_or_none (total d.store.next_addr d.contexts)) [
    | inl e ↦ e
    | inr l ↦ absurd (omega (arith, s.below d.store.next_addr (s.held d.store.next_addr l)))
  ]

  stored-Sound : Sound (happen (stored on_store source mid topic qos payload retain id) d)
  unfolding message_store
  stored-Sound = record {
    counted = s.counted;
    referenced = λ a. elim (Bool-cases (d.store.next_addr == a)) [
      | inl e ↦ rw e (
          rewritten_ref_count _ _
          ∙ ap pos
              (sym total_next ∙ ap (λ b. total b d.contexts) ((==_iff d.store.next_addr a).0 e)))
      | inr e ↦ rw e (s.referenced a)
    ];
    held = λ a l. inr (s.held a l);
    kept = s.kept;
    below = λ a i. elim i [ inl e ↦ omega (arith, e) | inr j ↦ omega (arith, s.below a j) ];
  }

happen-Sound : (e : Event) (d : Database) → IsAllowed e d → Sound d → Sound (happen e d)
happen-Sound (stored on_store source mid topic qos payload retain id) d ok s =
    stored-Sound on_store source mid topic qos payload retain id d s
happen-Sound cleaned d ok s = cleaned-Sound d s
happen-Sound (called i f) d ok s = called-Sound i f d ok s

run_from-Sound : (es : List Event) (d : Database) → AreAllowed es d → Sound d → Sound (run es d)
run_from-Sound [] d ok s = s
run_from-Sound (e ∷ es) d ok s = run_from-Sound es (happen e d) ok.1 (happen-Sound e d ok.0 s)

-- Several contexts share the stored messages. For any sequence of mqtt3_db_message_store, of
-- mqtt3_db_store_clean, and on the queue of any of the contexts of mqtt3_db_message_insert of a
-- message that is in the store (an incoming one with quality of service 2),
-- mqtt3_db_message_delete, mqtt3_db_message_update, mqtt3_db_message_timeout_check,
-- mqtt3_db_messages_delete, mqtt3_db_message_reconnect_reset and mqtt3_db_message_write with any
-- answers of the network layer, from a state where the counters msg_count and msg_count12 of each
-- context are the numbers of its entries and of those above quality of service 0, the reference
-- count at each address is the number of the entries of all contexts that refer to it, each message
-- that an entry refers to is in the store, no incoming entry has a quality of service below 2, and
-- the next address to be given out is above those of the store: the state behind the sequence is
-- such a state too, and there mqtt3_db_message_write, within the fuel of the model, and
-- mqtt3_db_message_reconnect_reset return for every context.
pub run-Sound :
    (es : List Event) (d : Database) (net : Network) (now max_inflight : ℕ)
    → AreAllowed es d
    → Sound d
    → Sound (run es d)
      × All (Returns net now max_inflight (run es d).store.heap) (run es d).contexts
run-Sound es d net now max_inflight ok s =
    let s' = run_from-Sound es d ok s in
    (
      s',
      Shares-Returns net now max_inflight (λ a. 0) (run es d).store.heap (run es d).contexts s'.kept
          (Sound-Shares (run es d) s'),
    )
