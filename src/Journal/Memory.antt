-- ===== src/Journal/Memory.antt =====
-- Memory of internal/journal/journal.go. A subscriber is its id and what waits in its channel; the
-- channel holds 256 records, and a record that finds it full is dropped. `now` is the time.Now() of
-- the call. Append is taken as one step.
use avairy.Prelude.{ℕ, ◌+◌, List, [], ◌∷◌, ◌++◌, map, Text, length, ltb, ◌==◌, if◌then◌else◌, u64}
use avairy.Prelude.{select, not}
use avairy.Journal.Record.{Kind, Payload, Record}

abbrev pub capacity : ℕ
capacity = 256

pub record Sub : Type 0 where
  pub id : ℕ
  pub queue : List Record

pub record Memory : Type 0 where
  pub seq : ℕ
  pub records : List Record
  pub subs : List Sub
  pub next_sub : ℕ

-- NewMemory
unfoldable pub new : Memory
new = record { seq = 0; records = []; subs = []; next_sub = 0 }

-- select { case ch <- rec: default: }
unfoldable pub offer : Record → Sub → Sub
offer r s = if ltb (length s.queue) capacity then record s { queue = s.queue ++ r ∷ [] } else s

-- The record that Append makes.
unfoldable pub stamped : Kind → Text → Payload → ℕ → Memory → Record
stamped k actor d now m = record {
  seq = u64 (m.seq + 1);
  time = now;
  kind = k;
  actor = actor;
  payload = d;
}

-- Memory.Append
unfoldable pub append : Kind → Text → Payload → ℕ → Memory → Memory
unfolding stamped
append k actor d now m =
    let r = stamped k actor d now m in
    record m { seq = r.seq; records = m.records ++ r ∷ []; subs = map (offer r) m.subs }

-- The loop of Restore over the counter.
unfoldable pub max_seq : ℕ → List Record → ℕ
max_seq n [] = n
max_seq n (r ∷ rs) = max_seq (if ltb n r.seq then r.seq else n) rs

-- Memory.Restore
unfoldable pub restore : List Record → Memory → Memory
unfolding max_seq
restore rs m = record m { records = m.records ++ rs; seq = max_seq m.seq rs }

-- Memory.Subscribe returns the id, by which the channel is found in `subs`.
unfoldable pub subscribe : Memory → Memory × ℕ
subscribe m =
    let s : Sub = record { id = m.next_sub; queue = [] } in
    (record m { next_sub = m.next_sub + 1; subs = m.subs ++ s ∷ [] }, m.next_sub)

-- The cancel function of Subscribe.
unfoldable pub cancel : ℕ → Memory → Memory
cancel i m = record m { subs = select (λ s. not (s.id == i)) m.subs }

-- The arguments of one call of Append.
pub record Entry : Type 0 where
  pub kind : Kind
  pub actor : Text
  pub payload : Payload
  pub now : ℕ

unfoldable pub append_all : List Entry → Memory → Memory
append_all [] m = m
append_all (e ∷ es) m = append_all es (append e.kind e.actor e.payload e.now m)
