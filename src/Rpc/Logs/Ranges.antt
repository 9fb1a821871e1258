-- ===== src/Rpc/Logs/Ranges.antt =====
-- The logs of the ranges that parseon-rpc/src/provider.rs cuts, and how many requests they take.
use parseon.Common.{
  ℕ, zero, suc, ◌+◌, ◌-◌, ◌*◌, ◌/◌, ◌≤◌, ◌<◌, ◌≡◌, sym, ap, ◌∙◌, List, [], ◌∷◌, ◌++◌, arith,
}
use mathlib.Core.List.{append_assoc}
use parseon.Model.{BlockNumber, SourceLog}
use parseon.Ports.Source.{BlockRange}
use parseon.Rpc.Logs.{middle, left, right}

-- The logs of consecutive blocks of a chain.
abbrev pub walk : (ℕ → List SourceLog) → BlockNumber → ℕ → List SourceLog
walk chain start zero = []
walk chain start (suc n) = chain start ++ walk chain (start + 1) n

abbrev pub logs_between : (ℕ → List SourceLog) → BlockRange → List SourceLog
logs_between chain range = walk chain range.start (range.end + 1 - range.start)

abbrev pub logs_of_all : (ℕ → List SourceLog) → List BlockRange → List SourceLog
logs_of_all chain [] = []
logs_of_all chain (range ∷ ranges) = logs_between chain range ++ logs_of_all chain ranges

walk-+ :
    (chain : ℕ → List SourceLog) (start a b : ℕ)
    → walk chain start (a + b) ≡ walk chain start a ++ walk chain (start + a) b
walk-+ chain start zero b =
    let z : 0 + b ≡ b = omega arith in
    let at : start ≡ start + 0 = omega arith in
    ap (walk chain start) z ∙ ap (λ k. walk chain k b) at
walk-+ chain start (suc a) b =
    let n : suc a + b ≡ suc (a + b) = omega arith in
    let at : (start + 1) + a ≡ start + suc a = omega arith in
    ap (walk chain start) n
    ∙ ap (λ x. chain start ++ x) (walk-+ chain (start + 1) a b)
    ∙ sym (append_assoc (chain start) (walk chain (start + 1) a) (walk chain ((start + 1) + a) b))
    ∙ ap (λ k. (chain start ++ walk chain (start + 1) a) ++ walk chain k b) at

-- The halves of a range have its logs.
pub logs_between-halves :
    (chain : ℕ → List SourceLog) (range : BlockRange)
    → range.start < range.end
    → logs_between chain (left range) ++ logs_between chain (right range) ≡ logs_between chain range
logs_between-halves chain range wide =
    let half : (range.end - range.start) / 2 < range.end - range.start = omega arith in
    let sum : (middle range + 1 - range.start) + (range.end + 1 - (middle range + 1))
        ≡ range.end + 1 - range.start =
      omega arith in
    let at : range.start + (middle range + 1 - range.start) ≡ middle range + 1 = omega arith in
    ap (λ k. logs_between chain (left range) ++ walk chain k (range.end + 1 - (middle range + 1)))
      (sym at)
    ∙ sym (
        walk-+ chain range.start (middle range + 1 - range.start)
          (range.end + 1 - (middle range + 1)))
    ∙ ap (walk chain range.start) sum

-- How many requests ranges take at most.
abbrev pub work : List BlockRange → ℕ
work [] = 0
work (range ∷ ranges) = 2 * (range.end - range.start) + 1 + work ranges

pub work-halves :
    (range : BlockRange) (ranges : List BlockRange) (n : ℕ)
    → range.start < range.end
    → work (range ∷ ranges) ≤ suc n
    → work (left range ∷ right range ∷ ranges) ≤ n
work-halves range ranges n wide enough =
    let half : (range.end - range.start) / 2 < range.end - range.start = omega arith in omega arith
