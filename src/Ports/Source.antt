-- ===== src/Ports/Source.antt =====
-- parseon-core/src/ports/source.rs: block ranges and log queries.
pub mod Sets
use parseon.Common.{Bool, true, false, Option, none, some, List, [], ◌∷◌, leb, if◌then◌else◌}
use parseon.Common.Eq.{◌==◌, list_eq, nat_eq}
use parseon.Model.{Address, B256, BlockNumber}
use parseon.Filter.Evaluate.{ltb_list}

pub record BlockRange : Type 0 where
  pub start : BlockNumber
  pub end : BlockNumber

-- `BlockRange::new`
unfoldable pub new_range : BlockNumber → BlockNumber → Option BlockRange
new_range start end = if leb start end then some (record { start = start; end = end }) else none

pub record LogTarget : Type 0 where
  pub address : Address
  pub topic0 : B256

-- The derived order: of the addresses, then of the topics.
unfoldable pub ltb_target : LogTarget → LogTarget → Bool
unfolding ltb_list
ltb_target a b =
    if ltb_list a.address b.address
    then true
    else if a.address == b.address
    then ltb_list a.topic0 b.topic0
    else false

-- `BTreeSet::insert`, and a step of sorting without duplicates.
unfoldable pub insert_target : LogTarget → List LogTarget → List LogTarget
unfolding ltb_target
insert_target t [] = t ∷ []
insert_target t (u ∷ us) =
    let later = insert_target t us in
    if ltb_target t u then t ∷ u ∷ us else if ltb_target u t then u ∷ later else u ∷ us

-- `sort_unstable` and `dedup`.
unfoldable pub sort_dedup : List LogTarget → List LogTarget
unfolding insert_target
sort_dedup [] = []
sort_dedup (t ∷ ts) = insert_target t (sort_dedup ts)

pub record LogQuery : Type 0 where
  pub range : BlockRange
  pub targets : List LogTarget

-- `LogQuery::new`
unfoldable pub new_query : BlockRange → List LogTarget → LogQuery
unfolding sort_dedup
new_query range targets = record { range = range; targets = sort_dedup targets }
