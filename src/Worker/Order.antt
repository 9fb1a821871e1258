-- ===== src/Worker/Order.antt =====
-- The order of the commits of a poll of parseon-core/src/worker: what a chain of steps commits, given what
-- each step does.
use parseon.Common.{
  ℕ, zero, suc, ◌≡◌, inl, inr, refl, sym, ap, ◌∙◌, Bool, true, false, Option, none, some, List, [],
  ◌∷◌, ◌++◌, map, get_elem?, length, arith, Result, ok, err, Result-cases,
}
use mathlib.Core.List.{append_assoc, append-nil, map-append}
use parseon.Model.{Chain}
use parseon.Monitor.{Monitor}
use parseon.Scheduler.{BlockPlan}
use parseon.Index.{MonitorIndex}
use parseon.Worker.Effects.{
  BlockCommit, Ports, World, Poll, Stop, failed, pure, try, checked, check, continue, ◌>>=◌,
}
use parseon.Worker.Prepare.{PreparedBlock}
use parseon.Worker.Commit.{Progress, to_commit, store, advance, commit_prepared}

-- A block and the monitors whose cursors its commit moves.
abbrev pub Key : Type 0
Key = ℕ × List (Option Monitor)

abbrev pub commit_key : BlockCommit → Key
commit_key c = (c.block_number, map some c.monitors)

abbrev pub plan_key : MonitorIndex → BlockPlan → Key
plan_key index plan = (plan.block_number, map (get_elem? index.monitors) plan.monitor_indices)

abbrev pub keys : List BlockCommit → List Key
keys commits = map commit_key commits

abbrev pub is_ok : {E A : Type 0} → Result E A → Bool
is_ok (ok a) = true
is_ok (err e) = false

module _ {C : Type 0} where
  -- A step committed a first part of what it had to, and all of it if it did not stop.
  abbrev pub Commits : {A : Type 0} → List BlockCommit → List Key → Result Stop A × World C → Type 0
  Commits before todo out =
      (done : List Key) × (rest : List Key) × (done ++ rest ≡ todo)
      × (keys (out.1).committed ≡ keys before ++ done)
      × (is_ok (out.0) ≡ true → rest ≡ [])

  -- The step commits a part of this, from every state.
  abbrev pub Runs : {A : Type 0} → List Key → Poll C A → Type 0
  Runs todo m = (w : World C) → Commits w.committed todo (m w)

  -- A step that leaves the commits as they are.
  pub Runs-silent :
      {A : Type 0} (m : Poll C A) → ((w : World C) → ((m w).1).committed ≡ w.committed) → Runs [] m
  Runs-silent m same w =
      ([], [], refl, ap keys (same w) ∙ sym (append-nil (keys w.committed)), λ _. refl)

  -- After a step that commits.
  Commits-after :
      {A B : Type 0} (f : A → Poll C B) (before : List BlockCommit) (first second : List Key)
      (out : Result Stop A × World C)
      → Commits before first out
      → ((a : A) (v : World C) → out ≡ (ok a, v) → Commits v.committed second (f a v))
      → Commits before (first ++ second) (continue f out)
  Commits-after f before first second (ok a, v) (done, rest, split, made, all) next =
      let whole : done ≡ first = ground (arith, split, all refl, append-nil done) in
      joined (next a v refl) whole
    where
      joined :
          Commits v.committed second (f a v)
          → done ≡ first
          → Commits before (first ++ second) (f a v)
      joined (done', rest', split', made', all') whole = (
        done ++ done',
        rest',
        (append_assoc done done' rest' ∙ ap (λ x. done ++ x) split' ∙ ap (λ x. x ++ second) whole),
        (made' ∙ ap (λ x. x ++ done') made ∙ append_assoc (keys before) done done'),
        all',
      )
  Commits-after f before first second (err e, v) (done, rest, split, made, all) next = (
    done,
    rest ++ second,
    (sym (append_assoc done rest second) ∙ ap (λ x. x ++ second) split),
    made,
    λ h. absurd (ground arith),
  )

  -- One step after another.
  pub Runs-bind :
      {A B : Type 0} (first second : List Key) (m : Poll C A) (f : A → Poll C B)
      → Runs first m
      → ((a : A) (w v : World C) → m w ≡ (ok a, v) → Runs second (f a))
      → Runs (first ++ second) (m >>= f)
  Runs-bind first second m f run next w =
      Commits-after f w.committed first second (m w) (run w) (λ a v eq. next a w v eq v)

  checked-silent : (left : Option ℕ) (w : World C) → ((checked left w).1).committed ≡ w.committed
  checked-silent none w = refl
  checked-silent (some zero) w = refl
  checked-silent (some (suc n)) w = refl

  -- A check of the token commits nothing.
  pub check-silent : (w : World C) → ((check w).1).committed ≡ w.committed
  unfolding check
  check-silent w = checked-silent w.checks_left w

  module _ (ports : Ports C) (chain : Chain) where
    store-Runs : (commit : BlockCommit) → Runs (commit_key commit ∷ []) (store ports chain commit)
    unfolding store
    store-Runs commit w = elim (Result-cases (ports.commit_block w.committed commit)) [
      | inl (_, eq) ↦
          let kept : ((store ports chain commit w).1).committed ≡ w.committed ++ commit ∷ [] =
            rw (store, eq) refl in
          (
            commit_key commit ∷ [],
            [],
            refl,
            ap keys kept ∙ map-append commit_key w.committed (commit ∷ []),
            λ _. refl,
          )
      | inr (e, eq) ↦
          let stays : store ports chain commit w ≡ (err (failed e), w) = rw (store, eq) refl in
          let fails : is_ok ((store ports chain commit w).0) ≡ false =
            ap (λ x. is_ok (x.0)) stays in
          (
            [],
            commit_key commit ∷ [],
            refl,
            (ap (λ x. keys ((x.1).committed)) stays ∙ sym (append-nil (keys w.committed))),
            λ h. absurd (ground (arith, h, fails)),
          )
    ]

    -- A block that is ready is committed, or the poll stops.
    pub commit_prepared-Runs :
        (prepared : PreparedBlock) (progress : Progress)
        → Runs
            (commit_key (to_commit chain prepared) ∷ [])
            (commit_prepared ports chain prepared progress)
    unfolding commit_prepared
    commit_prepared-Runs prepared progress =
        Runs-bind [] (commit_key (to_commit chain prepared) ∷ []) check _
          (Runs-silent check check-silent)
          (λ _ _ _ _.
            Runs-bind (commit_key (to_commit chain prepared) ∷ []) []
              (store ports chain (to_commit chain prepared)) _
              (store-Runs (to_commit chain prepared))
              (λ _ _ _ _.
                Runs-bind [] []
                  (try (advance prepared.block_number prepared.monitor_indices progress)) _
                  (Runs-silent
                    (try (advance prepared.block_number prepared.monitor_indices progress))
                    (λ w. refl))
                  (λ moved _ _ _.
                    Runs-silent (pure {A = ℕ × Progress} (length prepared.results, moved))
                      (λ w. refl))))
