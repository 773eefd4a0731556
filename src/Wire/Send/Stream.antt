-- ===== src/Wire/Send/Stream.antt =====
-- The stream of bytes that a connection sends: nothing is lost, doubled or out of order.
use opendxl_broker.Prelude.{
  ℕ, zero, suc, ◌+◌, ◌-◌, ◌≤◌, ◌<◌, ◌≡◌, refl, sym, ap, ◌∙◌, inl, inr, Bool, false, Option, none,
  some, List, [], ◌∷◌, ◌++◌, length, take, drop, ltb, ◌==◌, if◌then◌else◌, All, arith, Bool-cases,
}
use mathlib.Core.List.{append-nil, append_assoc}
use opendxl_broker.Wire.Packet.{u32}
use opendxl_broker.Wire.Send.{
  Answer, took, again, reset, failed, Network, TakesOffered, Outgoing, offered, advance, Written,
  written, after, write_packet, Sent, before, write_packets,
}

-- The bytes that are still to be sent.
unfoldable pub pending : List Outgoing → List ℕ
pending [] = []
pending (p ∷ ps) = offered p ++ pending ps

-- The numbers of a packet are within 32 bits.
abbrev pub Fits : Outgoing → Type 0
Fits p = p.pos + p.to_process < 4294967296

drop_nil : (n : ℕ) → drop {A = ℕ} n [] ≡ []
drop_nil zero = refl
drop_nil (suc n) = refl

take_nil : (n : ℕ) → take {A = ℕ} n [] ≡ []
take_nil zero = refl
take_nil (suc n) = refl

drop-drop : (m n : ℕ) (xs : List ℕ) → drop n (drop m xs) ≡ drop (m + n) xs
drop-drop zero n xs = ap (λ k. drop k xs) (omega arith)
drop-drop (suc m) n [] = drop_nil n ∙ sym (drop_nil (suc m + n))
drop-drop (suc m) n (x ∷ xs) =
    drop-drop m n xs
    ∙ ap (λ j. drop j (x ∷ xs)) (let e : suc (m + n) ≡ suc m + n = omega arith in e)

take-split : (n k : ℕ) (xs : List ℕ) → take (n + k) xs ≡ take n xs ++ take k (drop n xs)
take-split zero k xs = ap (λ j. take j xs) (omega arith)
take-split (suc n) k [] = take_nil (suc n + k) ∙ sym (take_nil k)
take-split (suc n) k (x ∷ xs) =
    ap (λ j. take j (x ∷ xs)) (let e : suc n + k ≡ suc (n + k) = omega arith in e)
    ∙ ap (◌∷◌ x) (take-split n k xs)

length-take-le : (n : ℕ) (xs : List ℕ) → length (take n xs) ≤ n
length-take-le zero xs = omega arith
length-take-le (suc n) [] = omega arith
length-take-le (suc n) (x ∷ xs) = omega (arith, length-take-le n xs)

take-take : (n m : ℕ) (xs : List ℕ) → n ≤ m → take n (take m xs) ≡ take n xs
take-take zero m xs h = refl
take-take (suc n) zero xs h = elim h [ ]
take-take (suc n) (suc m) [] h = refl
take-take (suc n) (suc m) (x ∷ xs) h = ap (◌∷◌ x) (take-take n m xs (omega arith))

-- A part of what is offered, and the rest of the packet behind it.
offered-advance :
    (n : ℕ) (p : Outgoing)
    → Fits p
    → n ≤ p.to_process
    → offered p ≡ take n (offered p) ++ offered (advance n p)
unfolding offered advance
offered-advance n p f h =
    let rest = p.to_process - n in
    ap (λ j. take j (drop p.pos p.payload)) (let e : p.to_process ≡ n + rest = omega arith in e)
    ∙ take-split n rest (drop p.pos p.payload)
    ∙ ap (λ xs. take n (drop p.pos p.payload) ++ take rest xs) (drop-drop p.pos n p.payload)
    ∙ sym (
        ap
          (λ xs.
            xs ++ take (u32 (p.to_process + 4294967296 - n)) (drop (u32 (p.pos + n)) p.payload))
          (take-take n p.to_process (drop p.pos p.payload) h)
        ∙ ap (λ j. take n (drop p.pos p.payload) ++ take j (drop (u32 (p.pos + n)) p.payload))
            (let e : u32 (p.to_process + 4294967296 - n) ≡ rest = omega arith in e)
        ∙ ap (λ j. take n (drop p.pos p.payload) ++ take rest (drop j p.payload))
            (let e : u32 (p.pos + n) ≡ p.pos + n = omega arith in e))

advance-Fits :
    (n : ℕ) (p : Outgoing)
    → Fits p
    → n ≤ p.to_process
    → Fits (advance n p) × ((advance n p).to_process ≡ p.to_process - n)
unfolding advance
advance-Fits n p f h = (omega arith, omega arith)

offered_done : (p : Outgoing) → p.to_process ≡ 0 → offered p ≡ []
unfolding offered
offered_done p e = ap (λ j. take j (drop p.pos p.payload)) e

length-offered : (p : Outgoing) → length (offered p) ≤ p.to_process
unfolding offered
length-offered p = length-take-le p.to_process (drop p.pos p.payload)

-- What was taken and what is left make up what there was; a loop that goes on has left nothing.
record Kept (p : Outgoing) (w : Written) : Type 0 where
  split : offered p ≡ w.sent ++ offered w.packet
  fits : Fits w.packet
  finished : w.returned ≡ none → w.packet.to_process ≡ 0

abbrev Outcome : Network → Bool → ℕ → ℕ → Outgoing → Type 0
Outcome net wsi fuel i p = (w : Written) × (write_packet net wsi fuel i p ≡ some w) × Kept p w

module _ (net : Network) (law : TakesOffered net) (wsi : Bool) where
  Kept-nothing :
      (p : Outgoing) (i : ℕ) (rc : ℕ)
      → Fits p
      → Kept p (record { packet = p; sent = []; calls = i; returned = some rc })
  Kept-nothing p i rc f = record { split = refl; fits = f; finished = λ e. cc }

  Kept-done :
      (p : Outgoing) (i : ℕ)
      → Fits p
      → p.to_process ≡ 0
      → Kept p (record { packet = p; sent = []; calls = i; returned = none })
  Kept-done p i f e = record { split = refl; fits = f; finished = λ _. e }

  -- All that is offered is taken.
  Kept-all :
      (p : Outgoing) (i : ℕ) (rc : Option ℕ)
      → Fits p
      → Kept p
          (record { packet = advance p.to_process p; sent = offered p; calls = i; returned = rc })
  Kept-all p i rc f =
      let (f', z) = advance-Fits p.to_process p f (omega arith) in
      let z' : (advance p.to_process p).to_process ≡ 0 = z ∙ omega arith in
      record {
        split =
            sym (append-nil (offered p))
            ∙ ap (λ xs. offered p ++ xs) (sym (offered_done (advance p.to_process p) z'));
        fits = f';
        finished = λ _. z';
      }

  -- Some bytes are taken, and then what the rest of the loop gives.
  Kept-after :
      (p : Outgoing) (n : ℕ) (w : Written)
      → Fits p
      → n ≤ p.to_process
      → Kept (advance n p) w
      → Kept p (record w { sent = take n (offered p) ++ w.sent })
  Kept-after p n w f h k = record {
    split =
        offered-advance n p f h
        ∙ ap (λ xs. take n (offered p) ++ xs) k.split
        ∙ sym (append_assoc (take n (offered p)) w.sent (offered w.packet));
    fits = k.fits;
    finished = k.finished;
  }

  write_packet-Kept :
      (fuel i : ℕ) (p : Outgoing) → Fits p → p.to_process ≤ fuel → Outcome net wsi fuel i p
  unfolding write_packet written after
  write_packet-Kept zero i p f h =
      let z : p.to_process ≡ 0 = omega arith in
      (record { packet = p; sent = []; calls = i; returned = none }, rw z refl, Kept-done p i f z)
  write_packet-Kept (suc fuel) i p f h = elim (Bool-cases (p.to_process == 0)) [
    | inl e ↦ (
      record { packet = p; sent = []; calls = i; returned = none },
      rw (e, write_packet) refl,
      Kept-done p i f (ground (arith, e)),
    )
    | inr e ↦ answered (λ j q. write_packet-Kept fuel j q) (net i (offered p)) refl e
  ]
    where
      answered :
          ((j : ℕ) (q : Outgoing) → Fits q → q.to_process ≤ fuel → Outcome net wsi fuel j q)
          → (a : Answer) → net i (offered p) ≡ a
          → (p.to_process == 0) ≡ false
          → Outcome net wsi (suc fuel) i p
      answered go (took n) eq e =
          let le = law i (offered p) n eq in
          elim (Bool-cases wsi) [
            | inl ws ↦ elim (Bool-cases (ltb 0 n)) [
              | inl k ↦ (
                record {
                  packet = advance p.to_process p;
                  sent = offered p;
                  calls = i + 1;
                  returned = none;
                },
                rw (e, write_packet) (rw (eq, write_packet) (rw (ws, k) refl)),
                Kept-all p (i + 1) none f,
              )
              | inr k ↦ (
                record {
                  packet = advance p.to_process p;
                  sent = offered p;
                  calls = i + 1;
                  returned = some 0;
                },
                rw (e, write_packet) (rw (eq, write_packet) (rw (ws, k) refl)),
                Kept-all p (i + 1) (some 0) f,
              )
            ]
            | inr ws ↦ elim (Bool-cases (ltb 0 n)) [
              | inr k ↦ (
                record { packet = p; sent = []; calls = i + 1; returned = some 14 },
                rw (e, write_packet) (rw (eq, write_packet) (rw (ws, k) refl)),
                Kept-nothing p (i + 1) 14 f,
              )
              | inl k ↦
                  let small : n ≤ p.to_process = omega (arith, le, length-offered p) in
                  let (f', z) = advance-Fits n p f small in
                  let (w, weq, kept) = go (i + 1) (advance n p) f' (ground (arith, z, k, h)) in
                  (
                    record w { sent = take n (offered p) ++ w.sent },
                    rw (e, write_packet) (rw (eq, write_packet) (rw (ws, k, weq) refl)),
                    Kept-after p n w f small kept,
                  )
            ]
          ]
      answered go again eq e = (
        record { packet = p; sent = []; calls = i + 1; returned = some (if wsi then 14 else 0) },
        rw (e, write_packet) (rw (eq, write_packet) refl),
        Kept-nothing p (i + 1) (if wsi then 14 else 0) f,
      )
      answered go reset eq e = (
        record { packet = p; sent = []; calls = i + 1; returned = some (if wsi then 14 else 7) },
        rw (e, write_packet) (rw (eq, write_packet) refl),
        Kept-nothing p (i + 1) (if wsi then 14 else 7) f,
      )
      answered go failed eq e = (
        record { packet = p; sent = []; calls = i + 1; returned = some 14 },
        rw (e, write_packet) (rw (eq, write_packet) refl),
        Kept-nothing p (i + 1) 14 f,
      )

  Kept-stream :
      (p : Outgoing) (ps : List Outgoing) (w : Written)
      → Kept p w
      → pending (p ∷ ps) ≡ w.sent ++ (offered w.packet ++ pending ps)
  unfolding pending
  Kept-stream p ps w k =
      ap (λ xs. xs ++ pending ps) k.split ∙ append_assoc w.sent (offered w.packet) (pending ps)

  abbrev pub SentAll : ℕ → List Outgoing → Type 0
  SentAll i ps =
      (s : Sent) × (write_packets net wsi i ps ≡ some s)
      × (pending ps ≡ s.stream ++ pending s.left)
      × All Fits s.left

  pub write_packets-SentAll : (i : ℕ) (ps : List Outgoing) → All Fits ps → SentAll i ps
  unfolding write_packets before pending
  write_packets-SentAll i [] f = (record { rc = 0; left = []; stream = [] }, refl, refl, tt)
  write_packets-SentAll i (p ∷ ps) f =
      let (w, eq, kept) = write_packet-Kept p.to_process i p f.0 (omega arith) in
      returned w eq kept w.returned refl (λ j. write_packets-SentAll j ps f.1)
    where
      returned :
          (w : Written)
          → write_packet net wsi p.to_process i p ≡ some w
          → Kept p w
          → (o : Option ℕ) → w.returned ≡ o
          → ((j : ℕ) → SentAll j ps)
          → SentAll i (p ∷ ps)
      returned w eq kept (some rc) r go = (
        record { rc = rc; left = w.packet ∷ ps; stream = w.sent },
        rw (eq, write_packets) (rw (r, write_packets) refl),
        Kept-stream p ps w kept,
        (kept.fits, f.1),
      )
      returned w eq kept none r go =
          let (s, seq, st, fits) = go w.calls in
          (
            record s { stream = w.sent ++ s.stream },
            rw (eq, write_packets) (rw (r, seq, write_packets) refl),
            Kept-stream p ps w kept
                ∙ ap (λ xs. w.sent ++ (xs ++ pending ps)) (offered_done w.packet (kept.finished r))
                ∙ ap (λ xs. w.sent ++ xs) st
                ∙ sym (append_assoc w.sent s.stream (pending s.left)),
            fits,
          )
