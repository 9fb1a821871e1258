-- ===== src/Errors.antt =====
-- The errors that the indexing pipeline of parseon-core reports through `anyhow`.
use parseon.Common.{String}
use parseon.Abi.{AbiError}
use parseon.Filter.Ast.{FilterError}

pub data Error : Type 0 where
  abi : AbiError → Error
  filter : FilterError → Error
  outcome_count_mismatch candidate_outside_block outcome_order_mismatch : Error
  removed_log log_block_number log_without_hash log_without_index log_outside_range : Error
  unknown_monitor unordered_plans param_count_mismatch result_of_other_kind : Error
  -- what the block source and the storage report
  source : String → Error
  storage : String → Error
  -- `InvalidCommand` of services.rs
  invalid_command : String → Error
