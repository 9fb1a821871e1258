-- ===== src/Postgres/Monitors/Created.antt =====
-- `create_monitor` of parseon-postgres/src/storage.rs: all or nothing, and what is created is what the worker loads.
use parseon.Common.{
  ℕ, >>=-eq-ok, ok_inj, ◌≡◌, refl, ap, ◌∙◌, sym, subst, Option, none, some, Result, ok, err,
  and_then, All,
}
use parseon.Common.Int.{ℤ, pos}
use parseon.Common.Stateful.{lift, ◌>>=◌, continue, Ends}
use parseon.Filter.Ast.{Codecs}
use parseon.Abi.{Alloy}
use parseon.Errors.{Error}
use parseon.Ports.Storage.{NewMonitor, MonitorRecord}
use parseon.Postgres.Types.{to_i64}
use parseon.Postgres.Insert.Added.{to_i64-eq}
use parseon.Postgres.Tables.{MonitorRow, Session, Query, rolled_back, transaction}
use parseon.Postgres.Read.{params_of}
use parseon.Postgres.Loaded.{opt_to_i64, monitor_record, to_monitor}
use parseon.Postgres.Monitors.{create_prepared, create_monitor}
use parseon.Postgres.Monitors.Stored.{
  IsStorable, record_of, compiled_filter, monitor_of, stored_block, monitor_record-row,
  to_monitor-row,
}
use parseon.Postgres.Monitors.Inserted.{row_at, with_new, Inserts, Ignored, body, create_body-Ends}

module _ (alloy : Alloy) (input : NewMonitor) where
  transaction-Ends :
      (P : MonitorRow → Session → Type 0) (query : Query MonitorRow) (s : Session)
      → Ends P Ignored (query s)
      → Ends P (λ t. t.db ≡ s.db) (transaction query s)
  unfolding transaction
  transaction-Ends P query s h = after (query s) h
    where
      after :
          (out : Result Error MonitorRow × Session)
          → Ends P Ignored out
          → Ends P (λ t. t.db ≡ s.db) (rolled_back s.db out)
      after (ok a, t) p = p
      after (err e, t) p = refl

  opt_to_i64-eq :
      (block : Option ℕ) (stored : Option ℤ)
      → opt_to_i64 block ≡ ok stored
      → stored ≡ stored_block block
  opt_to_i64-eq none stored h = sym (ok_inj h)
  opt_to_i64-eq (some block) stored h =
      let (found, fits, result) = >>=-eq-ok (to_i64 block) _ h in
      sym (ok_inj result) ∙ ap some (to_i64-eq block found fits)

  -- A number that is stored, then the rest, outside a transaction.
  number-then :
      {A : Type 0} (number : Result Error A) (value : A) (P : MonitorRow → Session → Type 0)
      (rest : A → Query MonitorRow) (s : Session)
      → ((a : A) → number ≡ ok a → a ≡ value)
      → Ends P (λ t. t.db ≡ s.db) (rest value s)
      → Ends P (λ t. t.db ≡ s.db) ((lift number >>= rest) s)
  number-then {A} number value P rest s is next = after number is
    where
      after :
          (out : Result Error A)
          → ((a : A) → out ≡ ok a → a ≡ value)
          → Ends P (λ t. t.db ≡ s.db) ((lift out >>= rest) s)
      after (ok a) is = subst (λ x. Ends P (λ t. t.db ≡ s.db) (rest x s)) (sym (is a refl)) next
      after (err e) is = refl

  create_prepared-Ends :
      (s : Session)
      → Ends (Inserts alloy input s) (λ t. t.db ≡ s.db) (create_prepared alloy input s)
  unfolding create_prepared
  create_prepared-Ends s =
      number-then (to_i64 input.chain.id) (pos input.chain.id) (Inserts alloy input s) _ s
        (to_i64-eq input.chain.id)
        (number-then (to_i64 input.start_block) (pos input.start_block) (Inserts alloy input s) _ s
          (to_i64-eq input.start_block)
          (number-then (opt_to_i64 input.end_block) (stored_block input.end_block)
            (Inserts alloy input s) _ s (opt_to_i64-eq input.end_block)
            (transaction-Ends (Inserts alloy input s) (body alloy input) s
              (create_body-Ends alloy input s))))

  module _ (codecs : Codecs) where
    -- The new row is that of the new record, and the worker loads the new monitor from it.
    abbrev pub Created : Session → Result Error MonitorRecord × Session → Type 0
    Created s (ok r, t) =
        (r ≡ record_of input s.next_id)
        × (t.db ≡ with_new alloy input s)
        × (monitor_record alloy (row_at alloy input s) ≡ ok r)
        × (to_monitor alloy codecs (row_at alloy input s)
            ≡ and_then (compiled_filter codecs input.filter input.target)
                (λ filter. ok (monitor_of input s.next_id filter)))
    Created s (err e, t) = t.db ≡ s.db

    -- A creation is all or nothing at whichever statement it fails. If it succeeds, the rows have one new monitor with
    -- an empty table, its record has what was asked for, and the monitor that the worker loads from its row has the
    -- chain, the target and the blocks that were asked for, no cursor, and the filter that its definition compiles to:
    -- for parameters of scalar types, if such a type parses back from its name.
    pub create_monitor-Created :
        (s : Session)
        → All (IsStorable alloy) (params_of input.target)
        → Created s (create_monitor alloy input s)
    unfolding create_monitor
    create_monitor-Created s scalar = after (create_prepared alloy input s) (create_prepared-Ends s)
      where
        after :
            (out : Result Error MonitorRow × Session)
            → Ends (Inserts alloy input s) (λ t. t.db ≡ s.db) out
            → Created s (continue (λ row. lift (monitor_record alloy row)) out)
        after (err e, t) h = h
        after (ok row, t) (is, allowed, db) =
            let made = monitor_record-row alloy input s.next_id scalar allowed in
            subst (λ (r : Result Error MonitorRecord). Created s (r, t))
              (sym (ap (monitor_record alloy) is ∙ made))
              (refl, db, made, to_monitor-row alloy input s.next_id codecs scalar allowed)
