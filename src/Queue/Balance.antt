-- ===== src/Queue/Balance.antt =====
-- The counters of a queue and the reference counts of the stored messages, against the entries.
pub mod Delete
pub mod Insert
pub mod Write
pub mod Reset
pub mod Reconnect
pub mod Entries
pub mod Calls
pub mod Shares
pub mod Safety
use opendxl_broker.Prelude.{
  ℕ, suc, ◌+◌, ◌≡◌, refl, Bool, true, false, List, [], ◌∷◌, ◌++◌, length, pos, inc, dec, ◌==◌,
  if◌then◌else◌, arith, ◌⊎◌, inl, inr, Bool-cases, ◌||◌,
}
use opendxl_broker.Broker.Message.{is_acked, is_out, ClientMsg, Heap, ref, unref}
use opendxl_broker.Broker.Context.{Queue}
use opendxl_broker.Queue.Delete.{Tally, tally, message_remove}
use opendxl_broker.Queue.Reset.{is_qos2}

abbrev pub one : Bool → ℕ
one true = 1
one false = 0

-- The entries with quality of service 1 or 2.
abbrev pub count12 : List ClientMsg → ℕ
count12 [] = 0
count12 (m ∷ ms) = one (is_acked m.qos) + count12 ms

-- The entries that hold the stored message at an address.
abbrev pub refs : ℕ → List ClientMsg → ℕ
refs a [] = 0
refs a (m ∷ ms) = one (m.store == a) + refs a ms

-- With `k` entries elsewhere, `k12` of them above quality 0, and `r` references to `a` elsewhere.
pub record Balanced (k k12 a r : ℕ) (t : Tally) (ms : List ClientMsg) : Type 0 where
  pub counted : t.msg_count ≡ pos (k + length ms)
  pub counted12 : t.msg_count12 ≡ pos (k12 + count12 ms)
  pub referenced : (t.heap a).ref_count ≡ pos (r + refs a ms)

module _ (k k12 a r : ℕ) (t : Tally) (m : ClientMsg) (ms : List ClientMsg) where
  pub message_remove-Balanced :
      Balanced k k12 a r t (m ∷ ms) → Balanced k k12 a r (message_remove t m) ms
  unfolding message_remove
  message_remove-Balanced b = record {
    counted = ground (arith, b.counted);
    counted12 = ground (arith, b.counted12);
    referenced = ground (arith, b.referenced);
  }

abbrev pub BalancedResult : (k k12 a r : ℕ) → List ClientMsg × Tally → Type 0
BalancedResult k k12 a r (ms, t) = Balanced k k12 a r t ms

-- `msg_count` is the number of entries, `msg_count12` that of the entries above quality of service
-- 0, and the reference count at `a` is the number of references, `r` of them outside the queue.
abbrev pub IsBalanced : (a r : ℕ) → Queue × Heap → Type 0
IsBalanced a r (q, h) = Balanced 0 0 a r (tally h q) q.msgs

-- An entry with the quality of service, the stored message and the direction of another.
pub record SameWeight (m m' : ClientMsg) : Type 0 where
  pub same_qos : m'.qos ≡ m.qos
  pub same_store : m'.store ≡ m.store
  pub same_direction : m'.direction ≡ m.direction

-- An entry that a reconnection keeps: outgoing, or of quality of service 2.
abbrev pub IsKept : ClientMsg → Type 0
IsKept m = (is_out m.direction || is_qos2 m.qos) ≡ true

pub SameWeight-IsKept : (m m' : ClientMsg) → SameWeight m m' → IsKept m → IsKept m'
SameWeight-IsKept m m' w k = rw (w.same_direction, w.same_qos) k

abbrev pub k12+ : ClientMsg → ℕ → ℕ
k12+ m k = one (is_acked m.qos) + k

abbrev pub r+ : ℕ → ClientMsg → ℕ → ℕ
r+ a m r = one (m.store == a) + r

module _ (k k12 a r : ℕ) (t : Tally) (m : ClientMsg) (ms : List ClientMsg) where
  -- The first entry is one of those elsewhere.
  pub Balanced-tail :
      Balanced k k12 a r t (m ∷ ms) → Balanced (suc k) (k12+ m k12) a (r+ a m r) t ms
  Balanced-tail b = record {
    counted = ground (arith, b.counted);
    counted12 = ground (arith, b.counted12);
    referenced = ground (arith, b.referenced);
  }

  pub Balanced-cons :
      (m' : ClientMsg)
      → SameWeight m m'
      → Balanced (suc k) (k12+ m k12) a (r+ a m r) t ms
      → Balanced k k12 a r t (m' ∷ ms)
  Balanced-cons m' w b = record {
    counted = ground (arith, b.counted);
    counted12 = rw w.same_qos (ground (arith, b.counted12));
    referenced = rw w.same_store (ground (arith, b.referenced));
  }

  pub Balanced-replace :
      (m' : ClientMsg)
      → SameWeight m m'
      → Balanced k k12 a r t (m ∷ ms)
      → Balanced k k12 a r t (m' ∷ ms)
  Balanced-replace m' w b = Balanced-cons m' w (Balanced-tail b)
