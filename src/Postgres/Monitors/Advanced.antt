-- ===== src/Postgres/Monitors/Advanced.antt =====
-- What a commit of parseon-postgres/src/storage.rs makes of the monitors that the worker loads next.
use parseon.Common.{
  ℕ, ◌<◌, ◌≡◌, refl, ap, ◌∙◌, sym, subst, Bool, true, Option, none, some, is_some_and, leb, Result,
  ok, err, ◌>>=◌, ok_inj, arith,
}
use parseon.Common.Int.{ℤ, pos, negsuc, leb_ℤ}
use parseon.Common.Distinct.{AreDistinct}
use parseon.Common.Eq.{int_eq}
use parseon.Model.{Target}
use parseon.Filter.Ast.{Filter, Codecs}
use parseon.Monitor.{Monitor, covers, needs_block}
use parseon.Abi.{Alloy}
use parseon.Errors.{Error}
use parseon.Worker.Effects.{BlockCommit}
use parseon.Postgres.Types.{from_i64, from_monitor_id}
use parseon.Postgres.Tables.{MonitorRow, Session}
use parseon.Postgres.Loaded.{opt_from_i64, filter_of, target, to_monitor}
use parseon.Postgres.Commit.{advanced, commit_block}
use parseon.Postgres.Commit.Locked.{row_by, row_ids, names_monitor}
use parseon.Postgres.Commit.Refined.{Outcome, commit_block-Outcome}

-- The monitor after a block: completed where it has reached its end.
abbrev pub caught_up : ℕ → Monitor → Monitor
caught_up block m = record m {
  cursor = some block;
  completed = is_some_and m.end_block (λ end. leb end block);
}

from_i64-eq : (stored : ℤ) (n : ℕ) → from_i64 stored ≡ ok n → stored ≡ pos n
unfolding from_i64
from_i64-eq (pos m) n h = ap pos (ok_inj h)
from_i64-eq (negsuc m) n h = absurd (ground (arith, h))

leb_ℤ-pos : (n block : ℕ) → leb_ℤ (pos n) (pos block) ≡ leb n block
leb_ℤ-pos n block = ground arith

-- The end of a row is reached where that of its monitor is.
end_reached :
    (block : ℕ) (stored : Option ℤ) (e : Option ℕ)
    → opt_from_i64 stored ≡ ok e
    → is_some_and stored (λ end. leb_ℤ end (pos block)) ≡ is_some_and e (λ end. leb end block)
unfolding from_i64
end_reached block none e h = ap (λ (e : Option ℕ). is_some_and e (λ end. leb end block)) (ok_inj h)
end_reached block (some (pos n)) e h =
    leb_ℤ-pos n block ∙ ap (λ (e : Option ℕ). is_some_and e (λ end. leb end block)) (ok_inj h)
end_reached block (some (negsuc n)) e h = absurd (ground (arith, h))

-- `to_monitor` by what its steps return.
abbrev assembled :
    Target
    → Bool
    → Result Error Filter
    → Result Error ℕ
    → Result Error ℕ
    → Result Error ℕ
    → Result Error (Option ℕ)
    → Result Error (Option ℕ)
    → Bool
    → Result Error Monitor
assembled target enabled filter id chain_id start_block end_block cursor completed = do
  f ← filter
  i ← id
  c ← chain_id
  b ← start_block
  e ← end_block
  k ← cursor
  ok (record {
    id = i;
    chain = record { id = c };
    target = target;
    start_block = b;
    end_block = e;
    cursor = k;
    completed = completed;
    enabled = enabled;
    filter = f;
  })

assembled-caught_up :
    (target : Target) (enabled : Bool) (filter : Result Error Filter) (id c b : Result Error ℕ)
    (e k : Result Error (Option ℕ)) (completed : Bool) (block : ℕ) (done : Bool) (m : Monitor)
    → assembled target enabled filter id c b e k completed ≡ ok m
    → ((end : Option ℕ) → e ≡ ok end → done ≡ is_some_and end (λ x. leb x block))
    → assembled target enabled filter id c b e (ok (some block)) done ≡ ok (caught_up block m)
assembled-caught_up t n (ok f) (ok id) (ok c) (ok b) (ok e) (ok k) completed block done m h
      reached =
    ap (λ (d : Bool). assembled t n (ok f) (ok id) (ok c) (ok b) (ok e) (ok (some block)) d)
      (reached e refl)
    ∙ ap (λ (m : Monitor). ok (caught_up block m)) (ok_inj h)
assembled-caught_up t n (err x) id c b e k completed block done m h reached =
    absurd (ground (arith, h))
assembled-caught_up t n (ok f) (err x) c b e k completed block done m h reached =
    absurd (ground (arith, h))
assembled-caught_up t n (ok f) (ok id) (err x) b e k completed block done m h reached =
    absurd (ground (arith, h))
assembled-caught_up t n (ok f) (ok id) (ok c) (err x) e k completed block done m h reached =
    absurd (ground (arith, h))
assembled-caught_up t n (ok f) (ok id) (ok c) (ok b) (err x) k completed block done m h reached =
    absurd (ground (arith, h))
assembled-caught_up t n (ok f) (ok id) (ok c) (ok b) (ok e) (err x) completed block done m h
      reached =
    absurd (ground (arith, h))

module _ (alloy : Alloy) (codecs : Codecs) where
  to_monitor-advanced :
      (block : ℕ) (row : MonitorRow) (m : Monitor)
      → to_monitor alloy codecs row ≡ ok m
      → to_monitor alloy codecs (advanced (pos block) row) ≡ ok (caught_up block m)
  unfolding to_monitor from_i64 target
  to_monitor-advanced block row m h = after (target alloy row) h
    where
      done : Bool
      done = is_some_and row.end_block (λ end. leb_ℤ end (pos block))

      after :
          (found : Result Error Target)
          → (found >>= λ t.
              assembled t row.enabled
                (filter_of alloy codecs t row.filter_ast row.filter_version)
                (from_monitor_id row.id)
                (from_i64 row.chain_id)
                (from_i64 row.start_block)
                (opt_from_i64 row.end_block)
                (opt_from_i64 row.cursor)
                row.completed)
            ≡ ok m
          → (found >>= λ t.
              assembled t row.enabled
                (filter_of alloy codecs t row.filter_ast row.filter_version)
                (from_monitor_id row.id)
                (from_i64 row.chain_id)
                (from_i64 row.start_block)
                (opt_from_i64 row.end_block)
                (ok (some block))
                done)
            ≡ ok (caught_up block m)
      after (err x) h = absurd (ground (arith, h))
      after (ok t) h =
          assembled-caught_up t row.enabled
            (filter_of alloy codecs t row.filter_ast row.filter_version) (from_monitor_id row.id)
            (from_i64 row.chain_id) (from_i64 row.start_block) (opt_from_i64 row.end_block)
            (opt_from_i64 row.cursor) row.completed block done m h
            (λ e. end_reached block row.end_block e)

  needs_after : (block n : ℕ) (m : Monitor) → needs_block (caught_up block m) n ≡ true → block < n
  unfolding needs_block covers
  needs_after block n m h = ground (arith, h)

  -- A monitor that a committed block covers is loaded, after the commit, as it was but with its cursor at the block
  -- and completed where the block is not before its end, and it needs no block up to that one again.
  pub commit_block-Loads :
      (commit : BlockCommit) (s t : Session) (u : Unit {0}) (j : ℕ) (row : MonitorRow) (m : Monitor)
      → AreDistinct (row_ids s.db.monitors)
      → commit_block alloy commit s ≡ (ok u, t)
      → names_monitor j commit.monitors ≡ true
      → row_by (pos j) s.db.monitors ≡ some row
      → to_monitor alloy codecs row ≡ ok m
      → ((after : MonitorRow) × (row_by (pos j) t.db.monitors ≡ some after)
          × (to_monitor alloy codecs after ≡ ok (caught_up commit.block_number m)))
        × ((n : ℕ)
            → needs_block (caught_up commit.block_number m) n ≡ true
            → commit.block_number < n)
  commit_block-Loads commit s t u j row m distinct committed named found loaded =
      let whole =
        subst (Outcome commit s.db) committed (commit_block-Outcome alloy commit s distinct) in
      let (row', found', on_chain, moved) = whole.covered j named in
      let same : row' ≡ row = some_inj (sym found' ∙ found) in
      (
        (
          advanced (pos commit.block_number) row,
          moved ∙ ap (λ r. some (advanced (pos commit.block_number) r)) same,
          to_monitor-advanced commit.block_number row m loaded,
        ),
        λ n needs. needs_after commit.block_number n m needs,
      )
    where
      some_inj : {a b : MonitorRow} → ◌≡◌ {A = Option MonitorRow} (some a) (some b) → a ≡ b
      some_inj h = ground (arith, h)
