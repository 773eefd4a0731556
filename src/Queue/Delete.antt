-- ===== src/Queue/Delete.antt =====
-- _message_remove, mqtt3_db_message_delete, mqtt3_db_message_update, mqtt3_db_messages_delete and
-- mqtt3_db_message_store_find of src/mqtt-core/src/database.c.
use opendxl_broker.Prelude.{
  ℕ, ◌+◌, Bool, true, false, Option, none, some, List, [], ◌∷◌, ◌&&◌, ℤ, pos, dec, ltb, leb, ◌==◌,
  if◌then◌else◌,
}
use opendxl_broker.Broker.Message.{
  Direction, md_in, md_out, MsgState, wait_for_pubrel, Qos, qos2, is_acked, is_queued,
  same_direction, ClientMsg, Heap, unref,
}
use opendxl_broker.Broker.Context.{Queue, Context}
use opendxl_broker.Queue.Insert.{publish_state}

-- What the removal of an entry changes beside the list.
pub record Tally : Type 0 where
  pub heap : Heap
  pub msg_count : ℤ
  pub msg_count12 : ℤ

abbrev pub tally : Heap → Queue → Tally
tally h q = record { heap = h; msg_count = q.msg_count; msg_count12 = q.msg_count12 }

abbrev pub with_tally : List ClientMsg → Tally → Queue × Heap
with_tally ms t =
    (record { msgs = ms; msg_count = t.msg_count; msg_count12 = t.msg_count12 }, t.heap)

-- The caller takes the entry out of the list.
unfoldable pub message_remove : Tally → ClientMsg → Tally
message_remove t m = record {
  heap = unref t.heap m.store;
  msg_count = dec t.msg_count;
  msg_count12 = if is_acked m.qos then dec t.msg_count12 else t.msg_count12;
}

-- `tail->mid == mid && tail->direction == dir`
abbrev pub is_message : ℕ → Direction → ClientMsg → Bool
is_message mid dir m = (m.mid == mid) && same_direction m.direction dir

abbrev pub woken_state : Direction → Qos → MsgState → MsgState
woken_state md_out qos s = publish_state qos
woken_state md_in qos2 s = wait_for_pubrel
woken_state md_in qos s = s

-- A queued message that is within the window of messages in flight is set up to be sent.
unfoldable pub wake : ℕ → ℕ → ℕ → ClientMsg → ClientMsg
wake now max_inflight index m =
    if is_queued m.state && leb index max_inflight
    then record m { timestamp = now; state = woken_state m.direction m.qos m.state }
    else m

-- The loop from an entry on: `index` is msg_index before it, `deleted` says that one is gone.
module _ (now max_inflight mid : ℕ) (dir : Direction) where
  unfoldable pub delete_loop : Tally → ℕ → Bool → List ClientMsg → List ClientMsg × Tally
  unfolding wake
  delete_loop t index deleted [] = ([], t)
  delete_loop t index deleted (m ∷ ms) =
      let m' = wake now max_inflight (index + 1) m in
      let removed = message_remove t m' in
      let gone : List ClientMsg × Tally = delete_loop removed index true ms in
      let kept : List ClientMsg × Tally = delete_loop t (index + 1) deleted ms in
      if is_message mid dir m'
      then (if ltb max_inflight index then (ms, removed) else gone)
      else if ltb max_inflight (index + 1) && deleted
      then (m' ∷ ms, t)
      else (m' ∷ kept.0, kept.1)

unfoldable pub message_delete : ℕ → ℕ → Heap → Queue → ℕ → Direction → Queue × Heap
message_delete now max_inflight h q mid dir =
    let (ms, t) = delete_loop now max_inflight mid dir (tally h q) 0 false q.msgs in with_tally ms t

-- The first entry with the id and direction gets the state; 1 if there is none.
unfoldable pub update_loop : ℕ → ℕ → Direction → MsgState → List ClientMsg → ℕ × List ClientMsg
update_loop now mid dir state [] = (1, [])
update_loop now mid dir state (m ∷ ms) =
    let rest : ℕ × List ClientMsg = update_loop now mid dir state ms in
    if is_message mid dir m
    then (0, record m { state = state; timestamp = now } ∷ ms)
    else (rest.0, m ∷ rest.1)

unfoldable pub message_update : ℕ → Queue → ℕ → Direction → MsgState → ℕ × Queue
unfolding update_loop
message_update now q mid dir state =
    let (rc, ms) = update_loop now mid dir state q.msgs in (rc, record q { msgs = ms })

unfoldable pub release_all : Heap → List ClientMsg → Heap
release_all h [] = h
release_all h (m ∷ ms) = release_all (unref h m.store) ms

-- The counter of subscriptions is reset too.
unfoldable pub messages_delete : Heap → Context → Context × Heap
unfolding release_all
messages_delete h c = (
  record c {
    queue = record { msgs = []; msg_count = pos 0; msg_count12 = pos 0 };
    subscription_count = pos 0;
  },
  release_all h c.msgs,
)

unfoldable pub message_store_find : Heap → List ClientMsg → ℕ → Option ℕ
message_store_find h [] mid = none
message_store_find h (m ∷ ms) mid =
    if ((h m.store).source_mid == mid) && same_direction m.direction md_in
    then some m.store
    else message_store_find h ms mid
