-- ===== src/Worker/Matched.antt =====
-- The calls that `prepare_calls` of parseon-core/src/worker/prepare.rs returns for a block, by way of its candidates
-- and their outcomes.
use parseon.Common.{
  ℕ, zero, suc, ◌≡◌, refl, sym, ap, subst, ◌↔◌, Bool, true, false, inl, inr, some, List, [], ◌∷◌,
  map, any, eqb, eqb_iff, keep, length, zip, In, ok, get_elem?, arith, Bool-cases, Result-cases,
  is_some_and,
}
use parseon.Common.Eq.{◌==◌, nat_eq, string_eq, list_eq, pair_eq}
use parseon.Model.{
  B256, BlockNumber, SourceBlock, BlockTransaction, ExecutionOutcome, DecodedCall, DecodedResult,
}
use parseon.Monitor.{Monitor}
use parseon.Scheduler.{BlockPlan}
use parseon.Abi.{Alloy}
use parseon.Index.{MonitorIndex, new_index, is_active}
use parseon.Index.Decode.{decode_candidate, decode_candidates, decode_calls}
use parseon.Index.Built.{NamesTypes, new_index-IsIndexOf}
use parseon.Index.Calls.{CallMatches, SomeCandidateMatches, decode_calls_iff}
use parseon.Worker.Effects.{Ports}
use parseon.Worker.Prepare.{
  PreparedCalls, is_call, has_calls, candidates_from, hashes_at, load_block, fetch_outcomes,
  prepare_calls,
}
use parseon.Worker.Candidates.{candidates_from-CallMatches}

-- A list has a partner for each element of one that is as long.
zip-partner :
    {A B : Type 0} (xs : List A) (ys : List B) (x : A)
    → length xs ≡ length ys
    → In x xs
    → (y : B) × In (x, y) (zip xs ys)
zip-partner [] ys x same h = elim h [ ]
zip-partner (a ∷ xs) [] x same h = absurd (ground arith)
zip-partner (a ∷ xs) (b ∷ ys) x same (inl e) = (b, inl (ap (λ z. (z, b)) e))
zip-partner (a ∷ xs) (b ∷ ys) x same (inr h) =
    let (y, later) = zip-partner xs ys x (omega arith) h in (y, inr later)

zip-right :
    {A B : Type 0} (xs : List A) (ys : List B) (x : A) (y : B) → In (x, y) (zip xs ys) → In y ys
zip-right [] ys x y h = elim h [ ]
zip-right (a ∷ xs) [] x y h = elim h [ ]
zip-right (a ∷ xs) (b ∷ ys) x y (inl e) = inl (ap (λ p. p.1) e)
zip-right (a ∷ xs) (b ∷ ys) x y (inr h) = inr (zip-right xs ys x y h)

get_elem?-In : {A : Type 0} (xs : List A) (i : ℕ) (x : A) → get_elem? xs i ≡ some x → In x xs
get_elem?-In [] i x e = absurd (cc)
get_elem?-In (a ∷ xs) zero x e = inl (ground arith)
get_elem?-In (a ∷ xs) (suc i) x e = inr (get_elem?-In xs i x e)

In-get_elem? : {A : Type 0} (xs : List A) (x : A) → In x xs → (i : ℕ) × (get_elem? xs i ≡ some x)
In-get_elem? [] x h = elim h [ ]
In-get_elem? (a ∷ xs) x (inl e) = (0, ap some (sym e))
In-get_elem? (a ∷ xs) x (inr h) = let (i, at) = In-get_elem? xs x h in (suc i, at)

-- Every outcome that is decoded is that of its candidate's transaction.
decode_candidates-hash :
    (alloy : Alloy) (index : MonitorIndex) (planned : List ℕ) (block : SourceBlock)
    (candidates : List ℕ) (outcomes : List ExecutionOutcome) (calls : List DecodedCall)
    → decode_candidates alloy index planned block candidates outcomes ≡ ok calls
    → (i : ℕ) (o : ExecutionOutcome) → In (i, o) (zip candidates outcomes)
    → (tx : BlockTransaction) → get_elem? block.transactions i ≡ some tx
    → o.transaction_hash ≡ tx.hash
unfolding decode_candidates decode_candidate
decode_candidates-hash alloy index planned block [] outcomes calls e i o h tx at = elim h [ ]
decode_candidates-hash alloy index planned block (j ∷ js) [] calls e i o h tx at = elim h [ ]
decode_candidates-hash alloy index planned block (j ∷ js) (p ∷ ps) calls e i o h tx at =
    elim (Result-cases (decode_candidate alloy index planned block j p)) [
      | inr (x, fails) ↦ absurd (ground arith)
      | inl (found, here) ↦
          elim (Result-cases (decode_candidates alloy index planned block js ps)) [
            | inr (x, fails) ↦ absurd (ground arith)
            | inl (later, rest) ↦ elim h [
              | inl first ↦ same (
                  subst (λ x. decode_candidate alloy index planned block (x.0) (x.1) ≡ ok found)
                    (sym first) here)
              | inr more ↦
                  decode_candidates-hash alloy index planned block js ps later rest i o more tx at
            ]
          ]
    ]
  where
    same :
        {found : List DecodedCall}
        → decode_candidate alloy index planned block i o ≡ ok found
        → o.transaction_hash ≡ tx.hash
    same {found} run = elim (Bool-cases (o.transaction_hash == tx.hash)) [
      | inl equal ↦ (list_eq.test_iff o.transaction_hash tx.hash).0 equal
      | inr differs ↦ absurd (ground (arith, run, at, differs))
    ]

-- The outcomes that are decoded are as many as the candidates, each of its candidate's transaction.
decode_calls-aligned :
    (alloy : Alloy) (index : MonitorIndex) (planned : List ℕ) (block : SourceBlock)
    (candidates : List ℕ) (outcomes : List ExecutionOutcome) (calls : List DecodedCall)
    → decode_calls alloy index planned block candidates outcomes ≡ ok calls
    → (length candidates ≡ length outcomes)
      × ((i : ℕ) (o : ExecutionOutcome)
          → In (i, o) (zip candidates outcomes)
          → (tx : BlockTransaction) → get_elem? block.transactions i ≡ some tx
          → o.transaction_hash ≡ tx.hash)
unfolding decode_calls
decode_calls-aligned alloy index planned block candidates outcomes calls e =
    elim (Bool-cases (eqb (length candidates) (length outcomes))) [
      | inr differ ↦ absurd (ground (arith, e, differ))
      | inl same ↦ (
        (eqb_iff (length candidates) (length outcomes)).0 same,
        decode_candidates-hash alloy index planned block candidates outcomes calls
            (ground (arith, e, same)),
      )
    ]

-- A planned monitor of calls makes the block one with calls.
any-In : (f : ℕ → Bool) (i : ℕ) (is : List ℕ) → any (eqb i) is ≡ true → f i ≡ true → any f is ≡ true
any-In f i [] h holds = absurd (cc)
any-In f i (j ∷ is) h holds = elim (Bool-cases (eqb i j)) [
  | inl same ↦ let one : i ≡ j = (eqb_iff i j).0 same in ground (arith, one, holds)
  | inr differ ↦ ground (arith, any-In f i is (ground (arith, h, differ)) holds)
]

map_call-In :
    (calls : List DecodedCall) (c : DecodedCall)
    → In (DecodedResult.call c) (map DecodedResult.call calls) ↔ In c calls
map_call-In [] c = ((λ h. h), λ h. h)
map_call-In (d ∷ calls) c = (
  (λ h. elim h [ inl e ↦ inl (ground arith) | inr more ↦ inr ((map_call-In calls c).0 more) ]),
  λ h. elim h [
    | inl e ↦ inl (ap DecodedResult.call e)
    | inr more ↦ inr ((map_call-In calls c).1 more)
  ],
)

module _ {C : Type 0} (ports : Ports C) where
  -- The adapter's outcomes are those of the transactions with the hashes asked for.
  abbrev pub Reports : BlockNumber → (B256 → Bool) → Type 0
  Reports block_number succeeds =
      (hashes : List B256) (outcomes : List ExecutionOutcome)
      → ports.fetch_execution_outcomes block_number hashes ≡ ok outcomes
      → (o : ExecutionOutcome) → In o outcomes
      → o.succeeded ≡ succeeds o.transaction_hash

  fetch_outcomes-Reports :
      (index : MonitorIndex) (block_number : BlockNumber) (succeeds : B256 → Bool)
      → Reports block_number succeeds
      → (hashes : List B256) (outcomes : List ExecutionOutcome)
      → fetch_outcomes ports index block_number hashes ≡ ok outcomes
      → (o : ExecutionOutcome) → In o outcomes
      → o.succeeded ≡ succeeds o.transaction_hash
  unfolding fetch_outcomes
  fetch_outcomes-Reports index n succeeds reports [] outcomes e o h =
      let none_are : outcomes ≡ [] = ground arith in elim (subst (In o) none_are h) [ ]
  fetch_outcomes-Reports index n succeeds reports (x ∷ xs) outcomes e o h =
      reports (x ∷ xs) outcomes e o h

module _ {C : Type 0} (ports : Ports C) (index : MonitorIndex) (plan : BlockPlan)
    (block : SourceBlock) (cache cache' loaded : C) (prepared : PreparedCalls)
    (loads : load_block ports index plan.block_number cache ≡ (ok block, loaded))
    (prepares : prepare_calls ports index plan cache ≡ (ok prepared, cache')) where
  abbrev candidates : List ℕ
  candidates = candidates_from 0 index plan block.transactions

  -- The calls of a block with calls are decoded from the candidates of the loaded block.
  prepare_calls-decodes :
      has_calls index plan ≡ true
      → (outcomes : List ExecutionOutcome) × (calls : List DecodedCall) × (fetch_outcomes ports
            index plan.block_number
            (hashes_at block.transactions candidates)
          ≡ ok outcomes)
        × (decode_calls ports.alloy index plan.monitor_indices block candidates outcomes ≡ ok calls)
        × (prepared.results ≡ map DecodedResult.call calls)
  unfolding prepare_calls
  prepare_calls-decodes has =
      elim (Result-cases
        (fetch_outcomes ports index plan.block_number (hashes_at block.transactions candidates))) [
          | inr (x, fails) ↦ absurd (ground (arith, prepares, has, loads, fails))
          | inl (outcomes, fetched) ↦
              elim (Result-cases
                (decode_calls ports.alloy index plan.monitor_indices block candidates outcomes)) [
                  | inr (x, fails) ↦ absurd (ground (arith, prepares, has, loads, fetched, fails))
                  | inl (calls, decoded) ↦ (
                    outcomes,
                    calls,
                    fetched,
                    decoded,
                    ground (arith, prepares, has, loads, fetched, decoded),
                  )
                ]
        ]

  -- No call is prepared for a block without them.
  prepare_calls-none : has_calls index plan ≡ false → prepared.results ≡ []
  unfolding prepare_calls
  prepare_calls-none has = ground (arith, prepares, has)

  -- When the calls of a planned block are prepared, with an index built of the monitors, they are exactly
  -- those that match a transaction of the block that succeeded: for an active monitor that is planned,
  -- needs the block, has the transaction's address and selector as its target, whose own schema decodes the
  -- calldata and whose filter accepts the parameters. It is assumed that the block that is loaded has the
  -- planned number, that the outcomes fetched are those of the transactions asked for, and that no two
  -- types have one name.
  pub prepare_calls_iff :
      NamesTypes ports.alloy
      → (ms : List Monitor) → new_index ports.alloy ms ≡ ok index
      → block.number ≡ plan.block_number
      → (succeeds : B256 → Bool) → Reports ports plan.block_number succeeds
      → (c : DecodedCall)
      → In (DecodedResult.call c) prepared.results ↔ (
          (tx : BlockTransaction) × In tx block.transactions
          × (succeeds tx.hash ≡ true)
          × CallMatches ports.alloy (keep is_active ms) plan.monitor_indices block tx c)
  prepare_calls_iff names ms built number succeeds reports c =
      elim (Bool-cases (has_calls index plan)) [
        | inr no_calls ↦
            let empty : prepared.results ≡ [] = prepare_calls-none no_calls in
            (
              (λ h. elim (subst (In (DecodedResult.call c)) empty h) [ ]),
              λ (tx, at, succeeded, matches).
                  absurd (ground (arith, no_calls, matches-has_calls tx matches)),
            )
        | inl has ↦
            let (outcomes, calls, fetched, decoded, results) = prepare_calls-decodes has in
            let matched =
              decode_calls_iff ports.alloy names ms index built plan.monitor_indices block
                candidates outcomes calls decoded c in
            (
              (λ h. found outcomes fetched calls decoded (
                  matched.0
                    ((map_call-In calls c).0 (subst (In (DecodedResult.call c)) results h)))),
              λ (tx, at, succeeded, matches). subst (In (DecodedResult.call c)) (sym results) (
                  (map_call-In calls c).1
                    (matched.1 (pair outcomes fetched calls decoded tx at succeeded matches))),
            )
      ]
    where
      over : index.monitors ≡ keep is_active ms
      over = (new_index-IsIndexOf ports.alloy names ms index built).0

      aligned :
          (outcomes : List ExecutionOutcome) (calls : List DecodedCall)
          → decode_calls ports.alloy index plan.monitor_indices block candidates outcomes ≡ ok calls
          → (length candidates ≡ length outcomes)
            × ((i : ℕ) (o : ExecutionOutcome)
                → In (i, o) (zip candidates outcomes)
                → (tx : BlockTransaction) → get_elem? block.transactions i ≡ some tx
                → o.transaction_hash ≡ tx.hash)
      aligned = decode_calls-aligned ports.alloy index plan.monitor_indices block candidates

      matches-has_calls :
          (tx : BlockTransaction)
          → CallMatches ports.alloy (keep is_active ms) plan.monitor_indices block tx c
          → has_calls index plan ≡ true
      matches-has_calls tx (i, m, t, params, here, listed, needs, target, _, _, _, _, _) =
          let here' : get_elem? index.monitors i ≡ some m =
            subst (λ k. get_elem? k i ≡ some m) (sym over) here in
          any-In (λ j. is_some_and (get_elem? index.monitors j) (λ n. is_call n.target)) i
            plan.monitor_indices listed (rw (here', target) refl)

      found :
          (outcomes : List ExecutionOutcome)
          → fetch_outcomes ports index plan.block_number (hashes_at block.transactions candidates)
            ≡ ok outcomes
          → (calls : List DecodedCall)
          → decode_calls ports.alloy index plan.monitor_indices block candidates outcomes ≡ ok calls
          → SomeCandidateMatches ports.alloy names ms index built plan.monitor_indices block
              candidates outcomes c
          → (tx : BlockTransaction) × In tx block.transactions
            × (succeeds tx.hash ≡ true)
            × CallMatches ports.alloy (keep is_active ms) plan.monitor_indices block tx c
      found outcomes fetched calls decoded (i, o, both, (tx, at, succeeded, matches)) =
          let reported : o.succeeded ≡ succeeds o.transaction_hash =
            fetch_outcomes-Reports ports index plan.block_number succeeds reports
              (hashes_at block.transactions candidates) outcomes fetched o
              (zip-right candidates outcomes i o both) in
          let same : o.transaction_hash ≡ tx.hash =
            (aligned outcomes calls decoded).1 i o both tx at in
          (
            tx,
            get_elem?-In block.transactions i tx at,
            ground (arith, reported, same, succeeded),
            matches,
          )

      pair :
          (outcomes : List ExecutionOutcome)
          → fetch_outcomes ports index plan.block_number (hashes_at block.transactions candidates)
            ≡ ok outcomes
          → (calls : List DecodedCall)
          → decode_calls ports.alloy index plan.monitor_indices block candidates outcomes ≡ ok calls
          → (tx : BlockTransaction) → In tx block.transactions
          → succeeds tx.hash ≡ true
          → CallMatches ports.alloy (keep is_active ms) plan.monitor_indices block tx c
          → SomeCandidateMatches ports.alloy names ms index built plan.monitor_indices block
              candidates outcomes c
      pair outcomes fetched calls decoded tx inside succeeded matches =
          let (j, at) = In-get_elem? block.transactions tx inside in
          let listed : In j candidates =
            candidates_from-CallMatches ports.alloy names ms index built plan block number j tx at c
              matches in
          let (o, both) =
            zip-partner candidates outcomes j (aligned outcomes calls decoded).0 listed in
          let reported : o.succeeded ≡ succeeds o.transaction_hash =
            fetch_outcomes-Reports ports index plan.block_number succeeds reports
              (hashes_at block.transactions candidates) outcomes fetched o
              (zip-right candidates outcomes j o both) in
          let same : o.transaction_hash ≡ tx.hash =
            (aligned outcomes calls decoded).1 j o both tx at in
          (j, o, both, (tx, at, ground (arith, reported, same, succeeded), matches))
