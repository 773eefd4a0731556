-- ===== src/Queue/Shared.antt =====
-- Several contexts that share the stored messages of src/mqtt-core/src/database.c: the calls on the
-- queue of one of them, storing a message, and the removal of unreferenced messages.
use opendxl_broker.Prelude.{
  ℕ, ◌≡◌, ◌||◌, true, zero, suc, Bool, Option, none, some, List, [], ◌∷◌, Str,
}
use opendxl_broker.Broker.Message.{is_out, Direction, MsgState, Qos, StoredMsg, Heap}
use opendxl_broker.Broker.Context.{Context, Env}
use opendxl_broker.Broker.Store.{Store, message_store, store_clean}
use opendxl_broker.Broker.Store.Clean.{In}
use opendxl_broker.Queue.Insert.{message_insert}
use opendxl_broker.Queue.Delete.{message_delete, message_update, messages_delete}
use opendxl_broker.Queue.Reset.{is_qos2, message_timeout_check, reconnect_reset}
use opendxl_broker.Queue.Write.{Network, message_write}

-- A call on the queue of a context.
pub data Call : Type 0 where
  insert : Env → ℕ → Direction → Qos → Bool → ℕ → Call
  delete : (now max_inflight mid : ℕ) → Direction → Call
  update : (now mid : ℕ) → Direction → MsgState → Call
  timeout_check : (now timeout : ℕ) → Call
  delete_all : Call
  reconnect : (max_inflight : ℕ) → Call
  write : Network → (now max_inflight : ℕ) → Call

-- What a write leaves, and what a reset leaves. Where there is no result, nothing changes.
abbrev pub write_left :
    Heap → Context → {A : Type 0} → Option (ℕ × Context × Heap × A) → Context × Heap
write_left h c none = (c, h)
write_left h c (some (rc, c', h', sent)) = (c', h')

abbrev pub reset_left : Heap → Context → Option (Context × Heap) → Context × Heap
reset_left h c none = (c, h)
reset_left h c (some left) = left

abbrev pub call : Call → Heap → Context → Context × Heap
call (insert env mid dir qos retain a) h c =
    let (rc, c', h') = message_insert env h c mid dir qos retain a in (c', h')
call (delete now max_inflight mid dir) h c =
    let (q, h') = message_delete now max_inflight h c.queue mid dir in (record c { queue = q }, h')
call (update now mid dir state) h c =
    (record c { queue = (message_update now c.queue mid dir state).1 }, h)
call (timeout_check now timeout) h c = (
  record c { queue = record c.queue { msgs = message_timeout_check now timeout c.queue.msgs } },
  h,
)
call delete_all h c = messages_delete h c
call (reconnect max_inflight) h c = reset_left h c (reconnect_reset max_inflight h c)
call (write net now max_inflight) h c = write_left h c (message_write net now max_inflight h c)

-- The call on the context at a place of the array; nothing happens behind its end.
abbrev pub call_at : ℕ → Call → Heap → List Context → List Context × Heap
call_at i f h [] = ([], h)
call_at zero f h (c ∷ cs) = let (c', h') = call f h c in (c' ∷ cs, h')
call_at (suc i) f h (c ∷ cs) = let (cs', h') = call_at i f h cs in (c ∷ cs', h')

pub record Database : Type 0 where
  pub store : Store
  pub contexts : List Context

pub data Event : Type 0 where
  stored : (StoredMsg → Option Str) → Str → ℕ → Option Str → Qos → Str → Bool → ℕ → Event
  cleaned : Event
  called : ℕ → Call → Event

abbrev pub happen : Event → Database → Database
happen (stored on_store source mid topic qos payload retain id) d = record d {
  store = (message_store on_store d.store source mid topic qos payload retain id).1;
}
happen cleaned d = record d { store = (store_clean d.store).0 }
happen (called i f) d =
    let (cs, h) = call_at i f d.store.heap d.contexts in
    record { store = record d.store { heap = h }; contexts = cs }

abbrev pub run : List Event → Database → Database
run [] d = d
run (e ∷ es) d = run es (happen e d)

-- A message that is inserted is a stored one, and an incoming one has quality of service 2, as in
-- both calls of src/mqtt-core/src/read_handle.c.
abbrev pub IsAllowed : Event → Database → Type 0
IsAllowed (called i (insert env mid dir qos retain a)) d =
    In a d.store.msg_store × ((is_out dir || is_qos2 qos) ≡ true)
IsAllowed _ d = Unit {0}

abbrev pub AreAllowed : List Event → Database → Type 0
AreAllowed [] d = Unit {0}
AreAllowed (e ∷ es) d = IsAllowed e d × AreAllowed es (happen e d)
