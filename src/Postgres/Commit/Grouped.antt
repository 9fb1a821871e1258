-- ===== src/Postgres/Commit/Grouped.antt =====
-- The results of a commit by monitor, in `commit_block` of parseon-postgres/src/storage.rs, and their insertion.
use parseon.Common.{
  ℕ, suc, ◌<◌, ◌≡◌, refl, sym, ap, ◌∙◌, subst, inl, inr, some, List, [], ◌∷◌, ◌++◌, map, eqb,
  eqb_iff, if◌then◌else◌, ok, ok_or, ok_or-eq-ok, >>=-eq-ok, ok_inj, All, arith, Bool-cases,
}
use mathlib.Core.List.{append-nil, append_assoc}
use parseon.Common.Int.{ℤ, pos}
use parseon.Common.Maps.{Map, lookup}
use parseon.Common.Ordered.{
  Entries, push_entry, entry_at, IsOrdered, push_entry-IsOrdered, entry_at-push_entry,
}
use parseon.Common.Stateful.{>>=-ok, lift->>=-ok}
use parseon.Model.{DecodedResult}
use parseon.Abi.{Alloy}
use parseon.Postgres.Columns.{MonitorKind, call, event}
use parseon.Postgres.Bind.{ResultInput}
use parseon.Postgres.Group.{Groups, call_input, event_input, row_of_kind, group_results}
use parseon.Postgres.Tables.{MonitorRow, Session}
use parseon.Postgres.Insert.{insert_results}
use parseon.Postgres.Insert.Added.{Stored, to_store, added_at}
use parseon.Postgres.Insert.Whole.{Adds, Adds-none, Adds-seq, insert_results-Adds}
use parseon.Postgres.Commit.{insert_groups}

-- The calls of a monitor among the results, in their order.
abbrev pub calls_of : ℕ → List DecodedResult → List ResultInput
calls_of j [] = []
calls_of j (DecodedResult.call c ∷ results) =
    (if eqb c.monitor_id j then call_input c ∷ [] else []) ++ calls_of j results
calls_of j (DecodedResult.event e ∷ results) = calls_of j results

abbrev pub events_of : ℕ → List DecodedResult → List ResultInput
events_of j [] = []
events_of j (DecodedResult.call c ∷ results) = events_of j results
events_of j (DecodedResult.event e ∷ results) =
    (if eqb e.monitor_id j then event_input e ∷ [] else []) ++ events_of j results

abbrev pub IsGrouped : List DecodedResult → Groups → Groups → Type 0
IsGrouped results (calls, events) (calls', events') =
    IsOrdered 0 calls'
    × IsOrdered 0 events'
    × ((j : ℕ) → entry_at j calls' ≡ entry_at j calls ++ calls_of j results)
    × ((j : ℕ) → entry_at j events' ≡ entry_at j events ++ events_of j results)

pub group_results-IsGrouped :
    (rows : Map MonitorRow) (results : List DecodedResult) (calls events : Entries ResultInput)
    (after : Groups)
    → IsOrdered 0 calls
    → IsOrdered 0 events
    → group_results rows results (calls, events) ≡ ok after
    → IsGrouped results (calls, events) after
unfolding group_results
group_results-IsGrouped rows [] calls events after oc oe h =
    subst (IsGrouped [] (calls, events)) (ok_inj h)
      (oc, oe, λ j. sym (append-nil (entry_at j calls)), λ j. sym (append-nil (entry_at j events)))
group_results-IsGrouped rows (DecodedResult.call c ∷ results) calls events after oc oe h =
    let (row, known, rest) = >>=-eq-ok (row_of_kind call rows c.monitor_id) _ h in
    let pushed = push_entry c.monitor_id (call_input c) calls in
    let (oc', oe', of_calls, of_events) =
      group_results-IsGrouped rows results pushed events after
        (push_entry-IsOrdered 0 c.monitor_id (call_input c) calls (omega arith) oc) oe rest in
    (
      oc',
      oe',
      λ j.
          of_calls j
          ∙ ap (λ xs. xs ++ calls_of j results)
              (entry_at-push_entry c.monitor_id j 0 (call_input c) calls oc)
          ∙ append_assoc (entry_at j calls) _ (calls_of j results),
      of_events,
    )
group_results-IsGrouped rows (DecodedResult.event e ∷ results) calls events after oc oe h =
    let (row, known, rest) = >>=-eq-ok (row_of_kind event rows e.monitor_id) _ h in
    let pushed = push_entry e.monitor_id (event_input e) events in
    let (oc', oe', of_calls, of_events) =
      group_results-IsGrouped rows results calls pushed after oc
        (push_entry-IsOrdered 0 e.monitor_id (event_input e) events (omega arith) oe) rest in
    (
      oc',
      oe',
      of_calls,
      λ j.
          of_events j
          ∙ ap (λ xs. xs ++ events_of j results)
              (entry_at-push_entry e.monitor_id j 0 (event_input e) events oe)
          ∙ append_assoc (entry_at j events) _ (events_of j results),
    )

-- The rows under an id are of that id.
abbrev pub AreKeyed : Map MonitorRow → Type 0
AreKeyed rows = All (λ (id, row). row.id ≡ pos id) rows

lookup-AreKeyed :
    (id : ℕ) (rows : Map MonitorRow) (row : MonitorRow)
    → AreKeyed rows
    → lookup id rows ≡ some row
    → row.id ≡ pos id
unfolding lookup
lookup-AreKeyed id [] row keyed h = absurd (ground (arith, h))
lookup-AreKeyed id ((j, r) ∷ rows) row keyed h = elim (Bool-cases (eqb j id)) [
  | inl here ↦
      let is : r ≡ row = ground (arith, here, h) in
      ap (λ (m : MonitorRow). m.id) (sym is) ∙ keyed.0 ∙ ap pos ((eqb_iff j id).0 here)
  | inr later ↦ lookup-AreKeyed id rows row keyed.1 (ground (arith, later, h))
]

-- What the groups add to the table of an id.
abbrev pub grouped : Entries ResultInput → ℤ → List Stored
grouped [] i = []
grouped ((id, inputs) ∷ groups) i = added_at (pos id) (map to_store inputs) i ++ grouped groups i

pub insert_groups-Adds :
    (alloy : Alloy) (kind : MonitorKind) (rows : Map MonitorRow) (groups : Entries ResultInput)
    (s t : Session) (u : Unit {0})
    → AreKeyed rows
    → insert_groups alloy kind rows groups s ≡ (ok u, t)
    → Adds (grouped groups) s.db t.db
unfolding insert_groups
insert_groups-Adds alloy kind rows [] s t u keyed h =
    subst (λ (r : Session). Adds (λ i. []) s.db r.db) (ap (λ p. p.1) h) (Adds-none s.db)
insert_groups-Adds alloy kind rows ((id, inputs) ∷ groups) s t u keyed h =
    let (row, found, after) = lift->>=-ok (ok_or (lookup id rows) _) _ s t h in
    let (v, s', done, more) =
      >>=-ok (insert_results alloy kind row.id row.param_schema inputs) _ s t after in
    let is_id = lookup-AreKeyed id rows row keyed (ok_or-eq-ok _ _ found) in
    Adds-seq (added_at (pos id) (map to_store inputs)) (grouped groups) s.db s'.db t.db
      (subst (λ i. Adds (added_at i (map to_store inputs)) s.db s'.db) is_id
        (insert_results-Adds alloy kind row.id row.param_schema inputs s s' v done))
      (insert_groups-Adds alloy kind rows groups s' t u keyed more)

grouped_below :
    (j lo : ℕ) (groups : Entries ResultInput)
    → j < lo
    → IsOrdered lo groups
    → grouped groups (pos j) ≡ []
grouped_below j lo [] below o = refl
grouped_below j lo ((id, []) ∷ groups) below o = absurd o
grouped_below j lo ((id, i ∷ is) ∷ groups) below o = ground (arith, grouped_below j (suc id) groups)

pub grouped-entry_at :
    (j lo : ℕ) (groups : Entries ResultInput)
    → IsOrdered lo groups
    → grouped groups (pos j) ≡ map to_store (entry_at j groups)
unfolding entry_at
grouped-entry_at j lo [] o = refl
grouped-entry_at j lo ((id, []) ∷ groups) o = absurd o
grouped-entry_at j lo ((id, i ∷ is) ∷ groups) o = elim (Bool-cases (eqb id j)) [
  | inl here ↦
      let rest = grouped_below j (suc id) groups (ground (arith, here)) o.1 in
      rw here (rw rest (append-nil (map to_store (i ∷ is))))
  | inr later ↦ rw later (grouped-entry_at j (suc id) groups o.1)
]
