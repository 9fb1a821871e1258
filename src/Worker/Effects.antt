-- ===== src/Worker/Effects.antt =====
-- What a poll of parseon-core/src/worker works with: the ports, the state that it changes, and how it stops.
-- The adapters behind the ports are parameters; a commit's success may depend on all commits before it.
use parseon.Common.{ℕ, zero, suc, Bool, Option, none, some, List, Result, ok, err}
pub use parseon.Common.Stateful.{Stateful, pure, lift, continue, ◌>>=◌, ◌>>◌}
use parseon.Model.{
  B256, BlockNumber, Chain, SourceBlock, SourceLog, ExecutionOutcome, DecodedResult,
}
use parseon.Monitor.{Monitor}
use parseon.Abi.{Alloy}
use parseon.Errors.{Error}
use parseon.Ports.Source.{LogQuery}
use parseon.Ports.Sink.{Format, SinkBatch}

-- `BlockCommit`
pub record BlockCommit : Type 0 where
  pub chain : Chain
  pub block_number : BlockNumber
  pub monitors : List Monitor
  pub results : List DecodedResult

-- The ports of a poll, over the state `C` of the block cache.
pub record Ports (C : Type 0) : Type 0 where
  pub alloy : Alloy
  pub format : Format
  pub finalized_head : Result Error BlockNumber
  pub fetch_block : BlockNumber → Result Error SourceBlock
  pub fetch_execution_outcomes : BlockNumber → List B256 → Result Error (List ExecutionOutcome)
  pub fetch_logs : LogQuery → Result Error (List SourceLog)
  pub load_monitors : Result Error (List Monitor)
  pub commit_block : List BlockCommit → BlockCommit → Result Error (Unit {0})
  pub get_cached : BlockNumber → C → Option SourceBlock
  pub put_cached : SourceBlock → C → C
  pub evict_before : BlockNumber → C → C
  pub sink_enabled : Bool

-- What a poll changes. The token is cancelled after a number of its checks, or never.
pub record World (C : Type 0) : Type 0 where
  pub checks_left : Option ℕ
  pub cache : C
  pub committed : List BlockCommit
  pub submitted : List SinkBatch
  pub lag : Option ℕ

-- Why a poll returns early.
pub data Stop : Type 0 where
  cancelled : Stop
  failed : Error → Stop

abbrev pub Poll : Type 0 → Type 0 → Type 0
Poll C A = Stateful (World C) Stop A

-- The error of a step is that of the poll.
abbrev pub stop_on : {A : Type 0} → Result Error A → Result Stop A
stop_on (ok a) = ok a
stop_on (err e) = err (failed e)

module _ {C : Type 0} where
  abbrev pub try : {A : Type 0} → Result Error A → Poll C A
  try r = lift (stop_on r)

  -- A step that only changes the cache, whose error is a value.
  abbrev pub on_cache : {A : Type 0} → Stateful C Error A → Poll C (Result Error A)
  on_cache m w = let (r, c) = m w.cache in (ok r, record w { cache = c })

  -- A `select!` whose first branch, which is tried first, returns when the token is cancelled.
  abbrev pub checked : Option ℕ → World C → Result Stop (Unit {0}) × World C
  checked none w = (ok tt, w)
  checked (some zero) w = (err cancelled, w)
  checked (some (suc n)) w = (ok tt, record w { checks_left = some n })

  unfoldable pub check : Poll C (Unit {0})
  check w = checked w.checks_left w
