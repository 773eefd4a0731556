-- ===== src/Broker/Store.antt =====
-- mqtt3_db_message_store and mqtt3_db_store_clean of src/mqtt-core/src/database.c: the list of
-- stored messages, newest first, as addresses of the heap. Allocation is taken to succeed, at an
-- address that was not used before.
pub mod Clean
use opendxl_broker.Prelude.{
  ℕ, zero, ◌+◌, ◌%◌, ◌^◌, Bool, true, false, Option, none, some, List, [], ◌∷◌, Str, ℤ, pos, inc,
  dec, ◌==◌, if◌then◌else◌,
}
use opendxl_broker.Broker.Message.{Qos, StoredMsg, Heap, modify}

pub record Store : Type 0 where
  pub heap : Heap
  pub msg_store : List ℕ
  pub msg_store_count : ℤ
  pub last_db_id : ℕ
  pub next_addr : ℕ

-- The new message, before the DXL core sees it.
abbrev pub new_stored : ℕ → Str → ℕ → Option Str → Qos → Str → Bool → StoredMsg
new_stored db_id source source_mid topic qos payload retain = record {
  db_id = db_id;
  ref_count = pos 0;
  source_id = source;
  source_mid = source_mid;
  topic = topic;
  qos = qos;
  retain = retain;
  payload = payload;
  client_payload = none;
}

-- dxl_on_store_message may rewrite the payload, but not to nothing.
abbrev pub rewritten : Option Str → StoredMsg → StoredMsg
rewritten none s = s
rewritten (some []) s = s
rewritten (some (b ∷ bs)) s = record s { payload = b ∷ bs }

-- `++db->last_db_id`, for a `store_id` of 0; any other is taken as it is.
abbrev pub next_db_id : Store → ℕ
next_db_id s = (s.last_db_id + 1) % 2 ^ 64

unfoldable pub message_store :
    (StoredMsg → Option Str) → Store → Str → ℕ → Option Str → Qos → Str → Bool → ℕ → ℕ × Store
message_store on_store s source source_mid topic qos payload retain store_id = (
  s.next_addr,
  record s {
    heap = modify s.heap s.next_addr (λ _. rewritten (on_store msg) msg);
    msg_store = s.next_addr ∷ s.msg_store;
    msg_store_count = inc s.msg_store_count;
    last_db_id = if store_id == 0 then next_db_id s else s.last_db_id;
    next_addr = s.next_addr + 1;
  },
)
  where
    msg : StoredMsg
    msg =
        new_stored (if store_id == 0 then next_db_id s else store_id) source source_mid topic qos
          payload retain

abbrev pub is_zero : ℤ → Bool
is_zero (pos zero) = true
is_zero _ = false

-- The messages that stay, their number of the others as it is taken off the counter, and the ids
-- that dxl_on_finalize_message is called with.
unfoldable pub clean_loop : Heap → ℤ → List ℕ → List ℕ × ℤ × List ℕ
clean_loop h count [] = ([], count, [])
clean_loop h count (a ∷ rest) =
    let freed : List ℕ × ℤ × List ℕ = clean_loop h (dec count) rest in
    let kept : List ℕ × ℤ × List ℕ = clean_loop h count rest in
    if is_zero (h a).ref_count
    then (freed.0, freed.1, (h a).db_id ∷ freed.2)
    else (a ∷ kept.0, kept.1, kept.2)

unfoldable pub store_clean : Store → Store × List ℕ
unfolding clean_loop
store_clean s =
    let (addrs, count, ids) = clean_loop s.heap s.msg_store_count s.msg_store in
    (record s { msg_store = addrs; msg_store_count = count }, ids)
