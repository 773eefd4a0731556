-- ===== src/Examples/Queues.antt =====
-- The queues and the store at concrete inputs.
use opendxl_broker.Prelude.{
  ℕ, ◌≤◌, ◌+◌, ◌≡◌, ◌↔◌, refl, inl, false, some, List, [], ◌∷◌, pos, arith, All, none, codes,
}
use opendxl_broker.Broker.Message.{md_out, wait_for_puback, qos1, Heap}
use opendxl_broker.Broker.Context.{Context}
use opendxl_broker.Broker.Store.{message_store, store_clean, is_zero}
use opendxl_broker.Broker.Store.Clean.{In, store_clean-In}
use opendxl_broker.Queue.Insert.{message_insert}
use opendxl_broker.Queue.Delete.{message_delete, message_update, messages_delete}
use opendxl_broker.Queue.Reset.{reconnect_reset, message_timeout_check}
use opendxl_broker.Queue.Write.{Packet, message_write}
use opendxl_broker.Queue.Balance.{IsBalanced, count12}
use opendxl_broker.Queue.Balance.Insert.{left_by, message_insert-Balanced}
use opendxl_broker.Queue.Balance.Delete.{message_delete-Balanced}
use opendxl_broker.Queue.Balance.Reset.{resets-Balanced}
use opendxl_broker.Queue.Balance.Reconnect.{reconnect_reset-Balanced}
use opendxl_broker.Queue.Shared.{
  insert, delete, reconnect, write, Database, Event, stored, cleaned, called, run, AreAllowed,
}
use opendxl_broker.Queue.Balance.Shares.{Returns}
use opendxl_broker.Queue.Balance.Safety.{Sound, run-Sound}
use opendxl_broker.Queue.Progress.{message_write_correct}
use opendxl_broker.Queue.Limits.{count12-message_insert_le}
use opendxl_broker.Examples.Data.{
  client, two_msgs, two_queue, heap, env, network, store, empty_queue, stored_msg,
}

two_IsBalanced : IsBalanced 0 0 (two_queue, heap)
two_IsBalanced = record { counted = refl; counted12 = refl; referenced = refl }

message_insert-Balanced_example :
    IsBalanced 0 0 (left_by (message_insert env heap (client two_queue) 9 md_out qos1 false 0))
message_insert-Balanced_example =
    message_insert-Balanced env 0 0 heap (client two_queue) 9 md_out qos1 false 0 two_IsBalanced

message_delete-Balanced_example : IsBalanced 0 0 (message_delete 100 20 heap two_queue 3 md_out)
message_delete-Balanced_example =
    message_delete-Balanced 100 20 3 md_out 0 0 heap two_queue two_IsBalanced

resets-Balanced_example :
    IsBalanced 0 0 (record two_queue { msgs = message_timeout_check 100 30 two_msgs }, heap)
    × IsBalanced 0 0 ((message_update 100 two_queue 3 md_out wait_for_puback).1, heap)
    × (let (c, h) = messages_delete heap (client two_queue) in IsBalanced 0 0 (c.queue, h))
resets-Balanced_example =
    resets-Balanced 100 30 3 md_out wait_for_puback 0 0 heap (client two_queue) two_IsBalanced

message_write_correct_example :
    (rc : ℕ) × (c' : Context) × (h' : Heap) × (sent : List Packet) × (message_write network 100 20
        heap
        (client two_queue)
      ≡ some (rc, c', h', sent))
    × IsBalanced 0 0 (c'.queue, h')
message_write_correct_example =
    message_write_correct network 100 20 0 0 heap (client two_queue) (refl, (refl, tt))
      two_IsBalanced

reconnect_reset-Balanced_example :
    (c : Context) × (h : Heap) × (reconnect_reset 20 heap (client two_queue) ≡ some (c, h))
    × IsBalanced 0 0 (c.queue, h)
reconnect_reset-Balanced_example =
    reconnect_reset-Balanced 20 0 0 heap (client two_queue) (refl, (refl, tt)) two_IsBalanced

-- A store without messages and two clients with empty queues.
abbrev empty_database : Database
empty_database = record {
  store = record {
    heap = λ a. record stored_msg { ref_count = pos 0 };
    msg_store = [];
    msg_store_count = pos 0;
    last_db_id = 0;
    next_addr = 0;
  };
  contexts = client empty_queue ∷ client empty_queue ∷ [];
}

-- A message goes to both clients, is sent to the first one, and is answered by it.
abbrev two_deliveries : List Event
two_deliveries =
    stored (λ m. none) (codes "source") 5 (some (codes "/a/b")) qos1 (codes "payload") false 0
    ∷ called 0 (insert env 9 md_out qos1 false 0)
    ∷ called 1 (insert env 9 md_out qos1 false 0)
    ∷ called 0 (write network 100 20)
    ∷ called 0 (delete 100 20 9 md_out)
    ∷ cleaned
    ∷ called 1 (reconnect 20)
    ∷ []

two_deliveries-AreAllowed : AreAllowed two_deliveries empty_database
unfolding message_store
two_deliveries-AreAllowed = (tt, ((inl refl, refl), ((inl refl, refl), (tt, (tt, (tt, (tt, tt)))))))

empty_database-Sound : Sound empty_database
empty_database-Sound = record {
  counted = ((refl, refl), ((refl, refl), tt));
  referenced = λ a. refl;
  held = λ a l. absurd (omega arith);
  kept = (tt, (tt, tt));
  below = λ a i. absurd i;
}

run-Sound_example :
    Sound (run two_deliveries empty_database)
    × All
        (Returns network 100 20 (run two_deliveries empty_database).store.heap)
        (run two_deliveries empty_database).contexts
run-Sound_example =
    run-Sound two_deliveries empty_database network 100 20 two_deliveries-AreAllowed
      empty_database-Sound

store_clean-In_example :
    In 0 (store_clean store).0.msg_store ↔ (In 0 (1 ∷ 0 ∷ []) × (is_zero (pos 1) ≡ false))
store_clean-In_example = store_clean-In store 0

count12-message_insert_le_example :
    count12 (message_insert env heap (client two_queue) 9 md_out qos1 false 0).1.msgs ≤ 20 + 100
count12-message_insert_le_example =
    count12-message_insert_le env (client two_queue) (omega arith) (omega arith) refl heap 9 md_out
      qos1 false 0 (omega arith)
