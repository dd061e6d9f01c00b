-- ===== src/Journal/Delivery.antt =====
-- What a subscriber of internal/journal/journal.go finds in its channel.
use mathlib.Core.List.{append_assoc, append-nil}
use avairy.Prelude.{
  ℕ, zero, suc, ◌+◌, ◌-◌, ◌^◌, ◌<◌, ◌≡◌, refl, sym, Bool-cases, inl, inr, u64-eq_of_lt, ap, ◌∙◌,
  List, [], ◌∷◌, ◌++◌, map, length, length-append, take, arith, ltb,
}
use avairy.Journal.Record.{Record}
use avairy.Journal.Memory.{Sub, Memory, Entry, append, append_all, offer, capacity}
use avairy.Journal.Sequence.{number, seq-append}

-- A channel takes records while it has room, and drops the rest.
unfoldable pub receive : List Record → Sub → Sub
receive rs s = record s { queue = s.queue ++ take (capacity - length s.queue) rs }

take-cons : (k : ℕ) (r : Record) (rs : List Record) → 0 < k → take k (r ∷ rs) ≡ r ∷ take (k - 1) rs
take-cons zero r rs h = elim h [ ]
take-cons (suc k) r rs h = ap (λ j. r ∷ take j rs) (omega arith)

take-none : (k : ℕ) (rs : List Record) → k ≡ 0 → take k rs ≡ []
take-none zero rs h = refl
take-none (suc k) rs h = absurd (omega arith)

room_left :
    (q rs : List Record) (r : Record)
    → length q < capacity
    → (q ++ r ∷ []) ++ take (capacity - length (q ++ r ∷ [])) rs
      ≡ q ++ take (capacity - length q) (r ∷ rs)
room_left q rs r h =
    append_assoc q (r ∷ []) (take (capacity - length (q ++ r ∷ [])) rs)
    ∙ ap (λ (j : ℕ). q ++ (r ∷ take j rs)) (omega (arith, length-append q (r ∷ [])))
    ∙ ap (λ (t : List Record). q ++ t) (sym (take-cons (capacity - length q) r rs (omega arith)))

-- Offering one record and then receiving the rest is receiving them all.
receive-offer :
    (r : Record) (rs : List Record) (s : Sub) → receive rs (offer r s) ≡ receive (r ∷ rs) s
unfolding receive offer
receive-offer r rs s = elim (Bool-cases (ltb (length s.queue) capacity)) [
  | inl room ↦ rw room (ap (λ q. record s { queue = q }) (room_left s.queue rs r (ground arith)))
  | inr full ↦ rw (
    full,
    take-none (capacity - length s.queue) rs (ground arith),
    take-none (capacity - length s.queue) (r ∷ rs) (ground arith),
  )
]

map-receive-offer :
    (r : Record) (rs : List Record) (ss : List Sub)
    → map (receive rs) (map (offer r) ss) ≡ map (receive (r ∷ rs)) ss
map-receive-offer r rs [] = refl
map-receive-offer r rs (s ∷ ss) = rw (receive-offer r rs s, map-receive-offer r rs ss)

take-empty : (k : ℕ) → take {A = Record} k [] ≡ []
take-empty zero = refl
take-empty (suc k) = refl

map-receive-nil : (ss : List Sub) → map (receive []) ss ≡ ss
unfolding receive
map-receive-nil [] = refl
map-receive-nil (s ∷ ss) =
    rw (take-empty (capacity - length s.queue), append-nil, map-receive-nil ss)

abbrev numbered : ℕ → Entry → Record
numbered n e = record {
  seq = n + 1;
  time = e.now;
  kind = e.kind;
  actor = e.actor;
  payload = e.payload;
}

subs-append :
    (e : Entry) (m : Memory)
    → m.seq + 1 < 2 ^ 64
    → (append e.kind e.actor e.payload e.now m).subs ≡ map (offer (numbered m.seq e)) m.subs
unfolding append
subs-append e m h = rw (u64-eq_of_lt (m.seq + 1) h)

-- While the counter does not wrap, a run of appends leaves in the channel of every subscriber what
-- was there followed by the new records, in the order of the calls, cut off where the channel is
-- full.
pub subs-append_all :
    (es : List Entry) (m : Memory)
    → m.seq + length es < 2 ^ 64
    → (append_all es m).subs ≡ map (receive (number m.seq es)) m.subs
unfolding append_all number
subs-append_all [] m h = sym (map-receive-nil m.subs)
subs-append_all (e ∷ es) m h =
    let room : m.seq + 1 < 2 ^ 64 = omega arith in
    subs-append_all es (append e.kind e.actor e.payload e.now m)
      (rw (seq-append e m room) (omega arith))
    ∙ rw (subs-append e m room, seq-append e m room)
        (map-receive-offer (numbered m.seq e) (number (m.seq + 1) es) m.subs)
