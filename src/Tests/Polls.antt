-- ===== src/Tests/Polls.antt =====
-- A poll of parseon-core/src/worker/mod.rs at concrete inputs.
use parseon.Common.{
  ℕ, In, inl, inr, ap, subst, arith, keep, ◌↔◌, ◌≡◌, refl, true, List, [], ◌∷◌, map, some, none,
  Option, ok,
}
use parseon.Model.{B256, BlockTransaction, ExecutionOutcome, DecodedResult}
use parseon.Index.{is_active}
use parseon.Index.Calls.{CallMatches}
use parseon.Worker.Prepare.{load_block, prepare_calls}
use parseon.Worker.Matched.{Reports, prepare_calls_iff}
use parseon.Abi.{new_event_decoder}
use parseon.Scheduler.{BlockPlan, plan_blocks}
use parseon.Worker.Effects.{Ports, World}
use parseon.Worker.Order.{Commits, plan_key}
use parseon.Worker.Run.{WorkerConfig, run_once}
use parseon.Worker.Polls.{run_once-Commits}
use parseon.Fixtures.{
  toy_alloy, block_at, log_at, call_at, event_at, transaction, toy_alloy-NamesTypes,
}
use parseon.Tests.Decoding.{both, index, builds}

-- Every block has the one transaction, and block 11 the one log; the cache is not used.
abbrev ports : Ports (List ℕ)
ports = record {
  alloy = toy_alloy;
  format = record { uint = λ n. "9"; int = λ n. "9"; address = λ a. "0x"; hex = λ b. "" };
  finalized_head = ok 20;
  fetch_block = λ n. ok (block_at n);
  fetch_execution_outcomes =
      λ n hashes. ok (map (λ h. record { transaction_hash = h; succeeded = true }) hashes);
  fetch_logs = λ query. ok (log_at 11 ∷ []);
  load_monitors = ok both;
  commit_block = λ history commit. ok tt;
  get_cached = λ n cache. none;
  put_cached = λ block cache. block.number ∷ cache;
  evict_before = λ n cache. cache;
  sink_enabled = true;
}

abbrev config : WorkerConfig
config = record { chain = record { id = 7 }; batch_size = 2 }

abbrev world : Option ℕ → World (List ℕ)
world checks_left = record {
  checks_left = checks_left;
  cache = [];
  committed = [];
  submitted = [];
  lag = none;
}

-- The blocks of the commits and how many results each has.
abbrev blocks : World (List ℕ) → List (ℕ × List DecodedResult)
blocks w = map (λ c. (c.block_number, c.results)) w.committed

abbrev call_result : ℕ → DecodedResult
call_result n = DecodedResult.call (call_at n)

commits_both :
    blocks ((run_once ports config (world none)).1)
    ≡ (10, call_result 10 ∷ []) ∷ (11, call_result 11 ∷ DecodedResult.event (event_at 11) ∷ []) ∷ []
unfolding run_once new_event_decoder
commits_both = refl

completes :
    (run_once ports config (world none)).0 ≡ ok (record { finalized_head = 20; decoded = 3 })
unfolding run_once new_event_decoder
completes = refl

-- The token is cancelled at the check before the second commit.
cancels : blocks ((run_once ports config (world (some 4))).1) ≡ (10, call_result 10 ∷ []) ∷ []
unfolding run_once new_event_decoder
cancels = refl

run_once-Commits_example :
    Commits []
      (map (plan_key index) (plan_blocks both 20 2))
      (run_once ports config (world (some 4)))
run_once-Commits_example =
    run_once-Commits ports config both 20 index refl refl builds (world (some 4))

-- Every transaction succeeds.
outcomes-succeed :
    (hashes : List B256) (o : ExecutionOutcome)
    → In o (map (λ h. record { transaction_hash = h; succeeded = true }) hashes)
    → o.succeeded ≡ true
outcomes-succeed [] o h = elim h [ ]
outcomes-succeed (x ∷ hashes) o (inl e) = ap (λ p. p.succeeded) e
outcomes-succeed (x ∷ hashes) o (inr h) = outcomes-succeed hashes o h

reports : Reports ports 10 (λ hash. true)
reports hashes outcomes fetched o h =
    let are : outcomes ≡ map (λ h. record { transaction_hash = h; succeeded = true }) hashes =
      ground (arith, fetched) in
    outcomes-succeed hashes o (subst (In o) are h)

abbrev plan : BlockPlan
plan = record { block_number = 10; monitor_indices = 0 ∷ [] }

loads : load_block ports index 10 [] ≡ (ok (block_at 10), 10 ∷ [])
unfolding load_block
loads = refl

prepares :
    prepare_calls ports index plan []
    ≡ (ok (record { plan = plan; results = call_result 10 ∷ [] }), 10 ∷ [])
unfolding prepare_calls
prepares = refl

prepare_calls_iff_example : In (call_result 10) (call_result 10 ∷ []) ↔ (
    (tx : BlockTransaction) × In tx (transaction ∷ [])
    × (true ≡ true)
    × CallMatches toy_alloy (keep is_active both) (0 ∷ []) (block_at 10) tx (call_at 10))
prepare_calls_iff_example =
    prepare_calls_iff ports index plan (block_at 10) [] (10 ∷ []) (10 ∷ [])
      (record { plan = plan; results = call_result 10 ∷ [] }) loads prepares toy_alloy-NamesTypes
      both builds refl (λ hash. true) reports (call_at 10)
