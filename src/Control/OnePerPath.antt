-- ===== src/Control/OnePerPath.antt =====
-- The two maps of internal/control/conflicts.go are inverse to each other in every run.
use mathlib.Core.Path.{subst₂}
use avairy.Prelude.{
  ℕ, subst, ◌+◌, ◌≤◌, ◌≡◌, refl, ap, ◌∙◌, inl, inr, List, [], ◌∷◌, Text, eq_text, eq_text_iff,
  Option, none, some, drop, Option-cases, Bool-cases, arith,
}
use avairy.Prelude.Map
use avairy.Prelude.Map.{
  Map, lookup-insert, lookup-insert_cases, lookup-erase_cases, lookup-insert_same,
  lookup-insert_other, lookup-erase_other,
}
use avairy.Prelude.Decimal.{parse_digits, parse-format_uint}
use avairy.Control.Conflicts.{
  OperatorConflict, Conflicts, Op, raises, resolves, clears, new_conflicts, conflict_id, raise,
  raise_again, raise_new, remove, resolve, clear_path, step, run,
}

-- Each path of by_path leads to its pending conflict and each pending conflict is the one of its
-- path; so a path has one pending conflict at most. The ids are numbered up to the counter.
pub record Consistent (c : Conflicts) : Type 0 where
  pub at_path :
      (p id : Text)
      → Map.lookup p c.by_path ≡ some id
      → (oc : OperatorConflict) × (Map.lookup id c.pending ≡ some oc) × (oc.path ≡ p)
  pub at_id :
      (id : Text) (oc : OperatorConflict)
      → Map.lookup id c.pending ≡ some oc
      → (Map.lookup oc.path c.by_path ≡ some id) × (oc.id ≡ id)
  pub numbered :
      (id : Text) (oc : OperatorConflict)
      → Map.lookup id c.pending ≡ some oc
      → (n : ℕ) × (parse_digits 0 (drop 2 id) ≡ some n) × (n ≤ c.seq)

number-conflict_id : (n : ℕ) → parse_digits 0 (drop 2 (conflict_id n)) ≡ some n
unfolding conflict_id
number-conflict_id n = parse-format_uint n

fresh_id : (c : Conflicts) → Consistent c → Map.lookup (conflict_id (c.seq + 1)) c.pending ≡ none
fresh_id c v = elim (Option-cases (Map.lookup (conflict_id (c.seq + 1)) c.pending)) [
  | inl e ↦ e
  | inr (oc, e) ↦
      let (n, at_n, le) = v.numbered (conflict_id (c.seq + 1)) oc e in
      ground (arith, number-conflict_id (c.seq + 1))
]

module _ (c : Conflicts) (v : Consistent c) where
  raise_again-Consistent :
      (id : Text) (oc e : OperatorConflict)
      → Map.lookup oc.path c.by_path ≡ some id
      → Map.lookup id c.pending ≡ some e
      → Consistent
          (record c { pending = Map.insert id (record oc { id = e.id; at = e.at }) c.pending })
  raise_again-Consistent id oc e at_path at_id =
      let new : OperatorConflict = record oc { id = e.id; at = e.at } in
      record {
        at_path = λ p j f.
            let (x, g, same) = v.at_path p j f in
            elim (Bool-cases (eq_text id j)) [
              | inl eq ↦
                  let ij : id ≡ j = (eq_text_iff id j).0 eq in
                  let (y, at_y, y_path) = v.at_path oc.path id at_path in
                  (
                    new,
                    subst (λ k. Map.lookup k (Map.insert id new c.pending) ≡ some new) ij
                        (lookup-insert_same id new c.pending),
                    cc,
                  )
              | inr ne ↦ (x, ground (arith, lookup-insert id j new c.pending), same)
            ];
        at_id = λ j x f. elim (lookup-insert_cases id j new x c.pending f) [
          | inl (ij, nx) ↦
              subst₂ (λ k y. (Map.lookup y.path c.by_path ≡ some k) × (y.id ≡ k)) ij nx
                (at_path, (v.at_id id e at_id).1)
          | inr (ne, old) ↦ v.at_id j x old
        ];
        numbered = λ j x f. elim (lookup-insert_cases id j new x c.pending f) [
          | inl (ij, nx) ↦
              subst (λ k. (n : ℕ) × (parse_digits 0 (drop 2 k) ≡ some n) × (n ≤ c.seq)) ij
                (v.numbered id e at_id)
          | inr (ne, old) ↦ v.numbered j x old
        ];
      }

  raise_new-Consistent :
      (now : ℕ) (oc : OperatorConflict)
      → Map.lookup oc.path c.by_path ≡ none
      → Consistent (raise_new now oc c).0
  unfolding raise_new
  raise_new-Consistent now oc unknown =
      let i = conflict_id (c.seq + 1) in
      let new : OperatorConflict = record oc { id = i; at = now } in
      record {
        at_path = λ p j f. elim (lookup-insert_cases oc.path p i j c.by_path f) [
          | inl (same, ij) ↦ (
            new,
            subst (λ k. Map.lookup k (Map.insert i new c.pending) ≡ some new) ij
                (lookup-insert_same i new c.pending),
            same,
          )
          | inr (other, old) ↦
              let (x, g, at_p) = v.at_path p j old in
              (
                x,
                lookup-insert_other i j new c.pending (λ ij. ground (arith, fresh_id c v)) ∙ g,
                at_p,
              )
        ];
        at_id = λ j x f. elim (lookup-insert_cases i j new x c.pending f) [
          | inl (ij, nx) ↦
              subst₂
                (λ k y. (Map.lookup y.path (Map.insert oc.path i c.by_path) ≡ some k) × (y.id ≡ k))
                ij nx (lookup-insert_same oc.path i c.by_path, refl)
          | inr (ne, old) ↦
              let (at_x, id_x) = v.at_id j x old in
              (lookup-insert_other oc.path x.path i c.by_path (λ e. absurd (cc)) ∙ at_x, id_x)
        ];
        numbered = λ j x f. elim (lookup-insert_cases i j new x c.pending f) [
          | inl (ij, nx) ↦
              subst (λ k. (n : ℕ) × (parse_digits 0 (drop 2 k) ≡ some n) × (n ≤ c.seq + 1)) ij
                (c.seq + 1, number-conflict_id (c.seq + 1), omega arith)
          | inr (ne, old) ↦ let (n, at_n, le) = v.numbered j x old in (n, at_n, omega arith)
        ];
      }

  remove-Consistent :
      (id : Text) (oc : OperatorConflict)
      → Map.lookup id c.pending ≡ some oc
      → Consistent (remove id oc.path c)
  unfolding remove
  remove-Consistent id oc at_id = record {
    at_path = λ p j f.
        let (other, old) = lookup-erase_cases oc.path p j c.by_path f in
        let (x, g, at_p) = v.at_path p j old in
        (x, lookup-erase_other id j c.pending (λ ij. other (cc)) ∙ g, at_p);
    at_id = λ j x f.
        let (other, old) = lookup-erase_cases id j x c.pending f in
        let (at_x, id_x) = v.at_id j x old in
        (
          lookup-erase_other oc.path x.path c.by_path (λ e. other (cc ((v.at_id id oc at_id).0)))
              ∙ at_x,
          id_x,
        );
    numbered = λ j x f. v.numbered j x (lookup-erase_cases id j x c.pending f).1;
  }

new_conflicts-Consistent : Consistent new_conflicts
unfolding new_conflicts Map.lookup
new_conflicts-Consistent = record {
  at_path = λ p id e. absurd (cc);
  at_id = λ id oc e. absurd (cc);
  numbered = λ id oc e. absurd (cc);
}

abbrev Good : Option Conflicts → Type 0
Good o = (c : Conflicts) × (o ≡ some c) × Consistent c

step-Good : (o : Op) (c : Conflicts) → Consistent c → Good (step o c)
unfolding step raise raise_again resolve clear_path
step-Good (raises now oc) c v = elim (Option-cases (Map.lookup oc.path c.by_path)) [
  | inl e ↦ rw (step, raise, e) ((raise_new now oc c).0, refl, raise_new-Consistent c v now oc e)
  | inr (id, e) ↦
      let (x, at_id, same) = v.at_path oc.path id e in
      rw (step, raise, e, raise_again, at_id) (_, refl, raise_again-Consistent c v id oc x e at_id)
]
step-Good (resolves id decision) c v = elim (Option-cases (Map.lookup id c.pending)) [
  | inl e ↦ rw (step, resolve, e) (c, refl, v)
  | inr (oc, e) ↦ rw (step, resolve, e) (remove id oc.path c, refl, remove-Consistent c v id oc e)
]
step-Good (clears path) c v = elim (Option-cases (Map.lookup path c.by_path)) [
  | inl e ↦ rw (step, clear_path, e) (c, refl, v)
  | inr (id, e) ↦
      let (oc, at_id, same) = v.at_path path id e in
      rw (step, clear_path, e, at_id)
        (
          remove id path c,
          refl,
          subst (λ p. Consistent (remove id p c)) same (remove-Consistent c v id oc at_id),
        )
]

run-Good : (os : List Op) (c : Conflicts) → Consistent c → Good (run os c)
unfolding run
run-Good [] c v = (c, refl, v)
run-Good (o ∷ os) c v = let (c', e, v') = step-Good o c v in rw (run, e) (run-Good os c' v')

-- No run of Raise, Resolve and ClearPath on a new board dereferences a missing entry, and after it
-- by_path and pending are inverse to each other: a path has at most one pending conflict.
pub run-Consistent :
    (os : List Op) → (c : Conflicts) × (run os new_conflicts ≡ some c) × Consistent c
run-Consistent os = run-Good os new_conflicts new_conflicts-Consistent

raise_known :
    (now : ℕ) (c : Conflicts) (v : Consistent c) (id : Text) (oc : OperatorConflict)
    → Map.lookup oc.path c.by_path ≡ some id
    → (e : OperatorConflict) × (Map.lookup id c.pending ≡ some e)
      × (raise now oc c
          ≡ some (
            record c { pending = Map.insert id (record oc { id = id; at = e.at }) c.pending },
            [],
            id,
          ))
unfolding raise raise_again
raise_known now c v id oc known =
    let (e, at_id, at_p) = v.at_path oc.path id known in
    let own : e.id ≡ id = (v.at_id id e at_id).1 in
    (
      e,
      at_id,
      rw (known, raise, raise_again, at_id)
          (ap
            (λ k. some (
              record c { pending = Map.insert id (record oc { id = k; at = e.at }) c.pending },
              [],
              id,
            ))
            own),
    )

-- Raising a path again, after any run in which its conflict still pends, gives back the id it has,
-- keeps its time, and takes over the rest; no callback runs and no other entry changes.
pub raise_twice :
    (now : ℕ) (os : List Op) (c : Conflicts) (id : Text) (oc : OperatorConflict)
    → run os new_conflicts ≡ some c
    → Map.lookup oc.path c.by_path ≡ some id
    → (e : OperatorConflict) × (Map.lookup id c.pending ≡ some e)
      × (raise now oc c
          ≡ some (
            record c { pending = Map.insert id (record oc { id = id; at = e.at }) c.pending },
            [],
            id,
          ))
raise_twice now os c id oc r known =
    let (c', r', v) = run-Consistent os in
    let same : c' ≡ c = cc in raise_known now c (subst Consistent same v) id oc known
