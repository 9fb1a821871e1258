-- ===== src/Postgres/Group.antt =====
-- The parts of `commit_block` of parseon-postgres/src/storage.rs that only compute: the ids, and the results by monitor.
use parseon.Common.{
  ℕ, none, some, List, [], ◌∷◌, if◌then◌else◌, Result, ok, ensure, ok_or, ◌>>=◌, ◌>>◌,
}
use parseon.Common.Int.{ℤ, ltb_ℤ}
use parseon.Common.Eq.{◌==◌, string_eq}
use parseon.Common.Maps.{Map, lookup}
use parseon.Common.Ordered.{Entries, push_entry}
use parseon.Model.{DecodedResult, DecodedCall, DecodedEvent}
use parseon.Errors.{Error}
use parseon.Postgres.Types.{from_monitor_id}
use parseon.Postgres.Columns.{MonitorKind, call, event, as_str}
use parseon.Postgres.Bind.{ResultInput}
use parseon.Postgres.Tables.{MonitorRow}

-- A step of `sort_unstable` and `dedup`.
unfoldable pub insert_id : ℤ → List ℤ → List ℤ
insert_id x [] = x ∷ []
insert_id x (y ∷ ys) =
    let later = insert_id x ys in
    if ltb_ℤ x y then x ∷ y ∷ ys else if ltb_ℤ y x then y ∷ later else y ∷ ys

unfoldable pub sort_dedup : List ℤ → List ℤ
unfolding insert_id
sort_dedup [] = []
sort_dedup (x ∷ xs) = insert_id x (sort_dedup xs)

abbrev pub Groups : Type 0
Groups = Entries ResultInput × Entries ResultInput

abbrev pub call_input : DecodedCall → ResultInput
call_input c = record {
  tx_hash = c.transaction_hash;
  log_index = none;
  block_number = c.block_number;
  params = c.params;
}

abbrev pub event_input : DecodedEvent → ResultInput
event_input e = record {
  tx_hash = e.transaction_hash;
  log_index = some e.log_index;
  block_number = e.block_number;
  params = e.params;
}

-- The row of the monitor that a result names, which has the result's kind.
unfoldable pub row_of_kind : MonitorKind → Map MonitorRow → ℕ → Result Error MonitorRow
unfolding lookup
row_of_kind kind rows id = do
  row ← ok_or (lookup id rows) (Error.storage "monitor was not locked")
  ensure (row.kind == as_str kind) (Error.storage "result references a monitor of the other kind")
  ok row

-- The loop over the results.
unfoldable pub group_results : Map MonitorRow → List DecodedResult → Groups → Result Error Groups
unfolding row_of_kind push_entry
group_results rows [] groups = ok groups
group_results rows (DecodedResult.call c ∷ results) (calls, events) = do
  row ← row_of_kind call rows c.monitor_id
  group_results rows results (push_entry c.monitor_id (call_input c) calls, events)
group_results rows (DecodedResult.event e ∷ results) (calls, events) = do
  row ← row_of_kind event rows e.monitor_id
  group_results rows results (calls, push_entry e.monitor_id (event_input e) events)

abbrev pub with_id : MonitorRow → Result Error (ℕ × MonitorRow)
with_id row = do id ← from_monitor_id row.id; ok (id, row)
