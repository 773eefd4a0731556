-- ===== src/Examples/Wires.antt =====
-- The wire format and the client ids at concrete inputs.
use mathlib.Core.List.{flatten}
use opendxl_broker.Prelude.{
  ℕ, zero, suc, false, length, leb, ◌≡◌, ◌++◌, refl, Option, none, some, List, [], ◌∷◌, Str, ℤ, pos,
  negsuc, codes, str_eq, arith, if◌then◌else◌, ◌==◌,
}
use opendxl_broker.Wire.Packet.{
  Packet, again, broken, encode_loop, decode_loop, read_string, write_string,
}
use opendxl_broker.Wire.Length.{arrived, receive, decode_loop-encode_loop, receive-encode_loop}
use opendxl_broker.Wire.Fields.{rewind, read_string-write_string}
use opendxl_broker.Broker.Clients.{
  HashTable, IdEvent, add_id, remove_id, run_ids, uses, get_canonical_client_id_count,
  canonical_client_id_count,
}
use opendxl_broker.Wire.Send.{Answer, Network, TakesOffered, Outgoing, Connection, packets}
use opendxl_broker.Wire.Send.Stream.{pending}
use opendxl_broker.Wire.Send.Calls.{Call, calls, queued, calls-Streamed}

abbrev packet : Packet
packet = record {
  command = 48;
  remaining_count = 0;
  remaining_mult = 1;
  remaining_length = 300;
  packet_length = 303;
  pos = 3;
  payload = λ i. 0;
}

decode_loop-encode_loop_example :
    arrived (decode_loop 0 1 0 (encode_loop 5 300 ++ (9 ∷ []))) ≡ some (300, 9 ∷ [])
decode_loop-encode_loop_example = decode_loop-encode_loop (9 ∷ []) 300 (omega arith)

-- The two digits of 300 and a byte behind them, in three runs.
abbrev runs : List (List ℕ)
runs = (172 ∷ []) ∷ [] ∷ (2 ∷ 9 ∷ []) ∷ []

runs_encoded : flatten runs ≡ encode_loop 5 300 ++ (9 ∷ [])
unfolding encode_loop flatten
runs_encoded = refl

-- Five bytes of a length, in two runs.
abbrev too_long : List (List ℕ)
too_long = (128 ∷ 255 ∷ []) ∷ (128 ∷ 200 ∷ 1 ∷ []) ∷ []

too_long_bytes : flatten too_long ≡ 128 ∷ 255 ∷ 128 ∷ 200 ∷ 1 ∷ []
unfolding flatten
too_long_bytes = refl

receive-encode_loop_example :
    (arrived (receive (again 0 1 0) runs) ≡ some (300, 9 ∷ []))
    × (receive (again 0 1 0) too_long ≡ broken)
receive-encode_loop_example =
    receive-encode_loop 300 (9 ∷ []) runs 128 255 128 200 1 [] too_long (omega arith) runs_encoded
      (omega arith, (omega arith, (omega arith, (omega arith, tt)))) too_long_bytes

read_string-write_string_example :
    (q : Packet) × (write_string packet (codes "/a/b") ≡ some q)
    × (read_string (rewind q 3) ≡ some (codes "/a/b", q))
read_string-write_string_example =
    read_string-write_string packet (codes "/a/b") (omega arith) (omega arith) (omega arith)
      (omega arith)

-- A table as a function of the key.
abbrev functions : HashTable
functions = record {
  Table = Str → Option ℤ;
  empty = λ k. none;
  find = λ t k. t k;
  set = λ t k v l. if str_eq k l then some v else t l;
  del = λ t k l. if str_eq k l then none else t l;
  find-empty = λ k. refl;
  find-set = λ t k v l. refl;
  find-del = λ t k l. refl;
}

abbrev id_events : List IdEvent
id_events =
    add_id (codes "c1") ∷ add_id (codes "c2") ∷ add_id (codes "c1") ∷ remove_id (codes "c1") ∷ []

canonical_client_id_count_example :
    get_canonical_client_id_count functions
      (run_ids functions (functions.empty) id_events)
      (codes "c1")
    ≡ (if uses (codes "c1") 0 id_events == 0 then negsuc 0 else pos (uses (codes "c1") 0 id_events))
canonical_client_id_count_example = canonical_client_id_count functions (codes "c1") id_events

-- A socket that takes two bytes at first, and then nothing for a time.
abbrev slow : Network
slow zero bytes = if leb 2 (length bytes) then Answer.took 2 else Answer.again
slow (suc i) bytes = Answer.again

slow-TakesOffered : TakesOffered slow
slow-TakesOffered zero bytes n e = ground arith
slow-TakesOffered (suc i) bytes n e = cc

abbrev outgoing : Outgoing
outgoing = record { packet_length = 3; to_process = 0; pos = 0; payload = codes "abc" }

abbrev connection : Connection
connection = record { invalid = false; wsi = false; current_out_packet = none; out_packet = [] }

abbrev some_calls : List Call
some_calls = Call.queue slow outgoing ∷ Call.write slow ∷ Call.queue slow outgoing ∷ []

calls-Streamed_example :
    (d : Connection) × (sent : List ℕ) × (calls some_calls connection ≡ some (d, sent))
    × (pending (packets connection) ++ queued some_calls ≡ sent ++ pending (packets d))
unfolding packets
calls-Streamed_example =
    calls-Streamed some_calls connection
      (
        (slow-TakesOffered, omega arith),
        (slow-TakesOffered, ((slow-TakesOffered, omega arith), tt)),
      )
      tt
