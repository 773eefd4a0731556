-- ===== src/Queue/Balance/Shares.antt =====
-- Contexts that share stored messages: a call on one of them, against the references of all.
use opendxl_broker.Prelude.{
  ℕ, zero, suc, ◌+◌, ◌≤◌, ◌≡◌, some, List, [], ◌∷◌, length, pos, All, ap, ◌∙◌, arith,
}
use opendxl_broker.Broker.Message.{Heap}
use opendxl_broker.Broker.Context.{Context}
use opendxl_broker.Queue.Shared.{Call, call, call_at}
use opendxl_broker.Queue.Write.{Network, Packet, message_write}
use opendxl_broker.Queue.Reset.{reconnect_reset}
use opendxl_broker.Queue.Balance.{IsBalanced, IsKept, count12, refs}
use opendxl_broker.Queue.Balance.Reconnect.{reconnect_reset_keeps}
use opendxl_broker.Queue.Balance.Calls.{call-Balanced, added, IsProper, call-Within, write_returns}

-- The references of all the contexts to a stored message.
abbrev pub total : ℕ → List Context → ℕ
total a [] = 0
total a (c ∷ cs) = refs a c.msgs + total a cs

abbrev pub IsCounted : Context → Type 0
IsCounted c = (c.msg_count ≡ pos (length c.msgs)) × (c.msg_count12 ≡ pos (count12 c.msgs))

abbrev pub AllKept : Context → Type 0
AllKept c = All IsKept c.msgs

-- The counters and the reference counts, with `r` references elsewhere.
abbrev pub Shares : (ℕ → ℕ) → List Context × Heap → Type 0
Shares r (cs, h) = All IsCounted cs × ((a : ℕ) → (h a).ref_count ≡ pos (r a + total a cs))

-- One of the contexts, with the references of the others elsewhere.
Shares-Balanced :
    (r : ℕ → ℕ) (h : Heap) (c : Context) (cs : List Context)
    → Shares r (c ∷ cs, h)
    → (a : ℕ) → IsBalanced a (r a + total a cs) (c.queue, h)
Shares-Balanced r h c cs ((n, ns), e) a = record {
  counted = n.0 ∙ ap pos (omega arith);
  counted12 = n.1 ∙ ap pos (omega arith);
  referenced = e a ∙ ap pos (omega arith);
}

pub call_at-Shares :
    (i : ℕ) (f : Call) (r : ℕ → ℕ) (h : Heap) (cs : List Context)
    → All AllKept cs
    → Shares r (cs, h)
    → Shares r (call_at i f h cs)
call_at-Shares i f r h [] ks s = s
call_at-Shares zero f r h (c ∷ cs) ks ((n, ns), e) = (
  (((after 0).counted ∙ ap pos (omega arith), (after 0).counted12 ∙ ap pos (omega arith)), ns),
  λ a. (after a).referenced ∙ ap pos (omega arith),
)
  where
    after : (a : ℕ) → let (c', h') = call f h c in IsBalanced a (r a + total a cs) (c'.queue, h')
    after a =
        call-Balanced f a (r a + total a cs) h c ks.0 (Shares-Balanced r h c cs ((n, ns), e) a)
call_at-Shares (suc i) f r h (c ∷ cs) ks ((n, ns), e) =
    let (ns', e') =
      call_at-Shares i f (λ a. r a + refs a c.msgs) h cs ks.1
        (ns, λ a. e a ∙ ap pos (omega arith)) in
    ((n, ns'), λ a. e' a ∙ ap pos (omega arith))

pub call_at-Within :
    (i : ℕ) (f : Call) (a : ℕ) (r : ℕ → ℕ) (h : Heap) (cs : List Context)
    → IsProper f
    → All AllKept cs
    → Shares r (cs, h)
    → let (cs', h') = call_at i f h cs in (total a cs' ≤ added f a + total a cs) × All AllKept cs'
call_at-Within i f a r h [] new ks s = (omega arith, tt)
call_at-Within zero f a r h (c ∷ cs) new (k, ks) s =
    let (l, k') = call-Within f a (r a + total a cs) h c new k (Shares-Balanced r h c cs s a) in
    (omega (arith, l), (k', ks))
call_at-Within (suc i) f a r h (c ∷ cs) new (k, ks) ((n, ns), e) =
    let (l, ks') =
      call_at-Within i f a (λ b. r b + refs b c.msgs) h cs new ks
        (ns, λ b. e b ∙ ap pos (omega arith)) in
    (omega (arith, l), (k, ks'))

-- Sending and the reset on a reconnection return.
abbrev pub Returns : Network → ℕ → ℕ → Heap → Context → Type 0
Returns net now max_inflight h c =
    ((res : ℕ × Context × Heap × List Packet) × (message_write net now max_inflight h c ≡ some res))
    × ((res : Context × Heap) × (reconnect_reset max_inflight h c ≡ some res))

pub Shares-Returns :
    (net : Network) (now max_inflight : ℕ) (r : ℕ → ℕ) (h : Heap) (cs : List Context)
    → All AllKept cs
    → Shares r (cs, h)
    → All (Returns net now max_inflight h) cs
Shares-Returns net now max_inflight r h [] ks s = tt
Shares-Returns net now max_inflight r h (c ∷ cs) (k, ks) ((n, ns), e) =
    let (c', h', w, b, same) =
      reconnect_reset_keeps max_inflight 0 (r 0 + total 0 cs) h c k
        (Shares-Balanced r h c cs ((n, ns), e) 0) in
    (
      (write_returns net now max_inflight h c k, ((c', h'), w)),
      Shares-Returns net now max_inflight (λ b. r b + refs b c.msgs) h cs ks
          (ns, λ b. e b ∙ ap pos (omega arith)),
    )
