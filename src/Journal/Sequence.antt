-- ===== src/Journal/Sequence.antt =====
-- What Append and Restore of internal/journal/journal.go write into the log.
use avairy.Prelude.{
  ℕ, ◌+◌, ◌^◌, ◌≤◌, ◌<◌, ◌≡◌, ◌∙◌, List, [], ◌∷◌, ◌++◌, length, All, ltb, if◌then◌else◌,
  u64-eq_of_lt, arith,
}
use mathlib.Core.List.{append_assoc, append-nil}
use avairy.Journal.Record.{Record}
use avairy.Journal.Memory.{Memory, Entry, append, append_all, restore, max_seq, new}

-- The records of the calls `es`, numbered on from n.
unfoldable pub number : ℕ → List Entry → List Record
number n [] = []
number n (e ∷ es) =
    record { seq = n + 1; time = e.now; kind = e.kind; actor = e.actor; payload = e.payload }
    ∷ number (n + 1) es

records-append :
    (e : Entry) (m : Memory)
    → m.seq + 1 < 2 ^ 64
    → (append e.kind e.actor e.payload e.now m).records ≡ m.records ++ number m.seq (e ∷ [])
unfolding append number
records-append e m h = rw (u64-eq_of_lt (m.seq + 1) h)

pub seq-append :
    (e : Entry) (m : Memory)
    → m.seq + 1 < 2 ^ 64
    → (append e.kind e.actor e.payload e.now m).seq ≡ m.seq + 1
unfolding append
seq-append e m h = u64-eq_of_lt (m.seq + 1) h

-- While the counter does not wrap, a run of appends adds one record for each call, in order, and
-- numbers them on from the counter with no gap.
pub records-append_all :
    (es : List Entry) (m : Memory)
    → m.seq + length es < 2 ^ 64
    → (append_all es m).records ≡ m.records ++ number m.seq es
unfolding append_all
records-append_all [] m h = unfold number in simp append-nil
records-append_all (e ∷ es) m h =
    let room : m.seq + 1 < 2 ^ 64 = omega arith in
    records-append_all es (append e.kind e.actor e.payload e.now m)
      (rw (seq-append e m room) (omega arith))
    ∙ rw (records-append e m room, seq-append e m room)
        (unfold number in append_assoc m.records (number m.seq (e ∷ [])) (number (m.seq + 1) es))

max_seq-le : (n : ℕ) (rs : List Record) → n ≤ max_seq n rs
unfolding max_seq
max_seq-le n [] = omega arith
max_seq-le n (r ∷ rs) = ground (arith, max_seq-le (if ltb n r.seq then r.seq else n) rs)

le-max_seq : (n : ℕ) (rs : List Record) → All (λ r. r.seq ≤ max_seq n rs) rs
unfolding max_seq
le-max_seq n [] = tt
le-max_seq n (r ∷ rs) = (
  ground (arith, max_seq-le (if ltb n r.seq then r.seq else n) rs),
  le-max_seq (if ltb n r.seq then r.seq else n) rs,
)

-- A log that is restored from records and then appended to holds the restored records followed by
-- one record for each call, numbered from the highest restored number on, so that no new record
-- shares its number with a restored one, while the counter does not wrap.
pub append_all-restore :
    (rs : List Record) (es : List Entry)
    → max_seq 0 rs + length es < 2 ^ 64
    → ((append_all es (restore rs new)).records ≡ rs ++ number (max_seq 0 rs) es)
      × All (λ r. r.seq ≤ max_seq 0 rs) rs
unfolding restore new
append_all-restore rs es h = (records-append_all es (restore rs new) h, le-max_seq 0 rs)
