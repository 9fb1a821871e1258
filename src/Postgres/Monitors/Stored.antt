-- ===== src/Postgres/Monitors/Stored.antt =====
-- The row that parseon-postgres/src/monitor_repo.rs writes for a new monitor is read back by storage.rs.
use parseon.Common.{
  ℕ, ◌≡◌, refl, ap, ◌∙◌, Bool, ◌&&◌, ◌||◌, true, false, Option, none, some, List, [], ◌∷◌, map, eqb,
  length, Result, ok, ◌>>=◌, traverse, All, arith,
}
use parseon.Common.Int.{ℤ, pos, ltb_ℤ}
use parseon.Common.Eq.{string_eq}
use parseon.Model.{AbiParam, Target}
use parseon.Filter.Ast.{FilterDefinition, Filter, Codecs}
use parseon.Filter.Definition.{compile}
use parseon.Monitor.{Monitor}
use parseon.Abi.{Alloy, is_supported_type, new_param, parse_abi_type}
use parseon.Index.{map_err}
use parseon.Errors.{Error}
use parseon.Ports.Storage.{NewMonitor, MonitorRecord}
use parseon.Postgres.Types.{from_i64, from_monitor_id, address, selector, b256}
use parseon.Model.{new_monitor_id}
use parseon.Postgres.Tables.{MonitorRow}
use parseon.Postgres.Read.{stored_param, kind_of, params_of}
use parseon.Postgres.Columns.{as_str}
use parseon.Postgres.Monitors.{hash_fits, is_allowed}
use parseon.Postgres.Loaded.{
  opt_from_i64, ast_of, version_of, definition_of, filter_of, address_of, hash_of, target_of_kind,
  row_of, to_abi, target, monitor_record, to_monitor,
}

-- A parameter whose type parses back from its name.
abbrev pub IsRead : Alloy → AbiParam → Type 0
IsRead alloy p = alloy.parse_type (alloy.type_name p.ty) ≡ some p.ty

-- A parameter of a scalar type that parses back.
abbrev pub IsStorable : Alloy → AbiParam → Type 0
IsStorable alloy p = (is_supported_type p.ty ≡ true) × IsRead alloy p

-- The record of a new monitor, and the monitor that the worker loads.
abbrev pub record_of : NewMonitor → ℕ → MonitorRecord
record_of input id = record {
  id = id;
  chain = input.chain;
  target = input.target;
  start_block = input.start_block;
  end_block = input.end_block;
  cursor = none;
  completed = false;
  enabled = true;
  filter = input.filter;
}

abbrev pub compiled_filter : Codecs → Option FilterDefinition → Target → Result Error Filter
compiled_filter codecs none target = ok Filter.all
compiled_filter codecs (some definition) target =
    map_err Error.filter (compile codecs definition target)

abbrev pub monitor_of : NewMonitor → ℕ → Filter → Monitor
monitor_of input id filter = record {
  id = id;
  chain = input.chain;
  target = input.target;
  start_block = input.start_block;
  end_block = input.end_block;
  cursor = none;
  completed = false;
  enabled = true;
  filter = filter;
}

abbrev pub stored_block : Option ℕ → Option ℤ
stored_block none = none
stored_block (some block) = some (pos block)

-- The row of a new monitor under an id.
abbrev pub new_row : Alloy → NewMonitor → ℕ → MonitorRow
new_row alloy input id =
    row_of alloy input (pos input.chain.id) (pos input.start_block) (stored_block input.end_block)
      (pos id)

module _ (alloy : Alloy) where
  to_abi-stored : (p : AbiParam) → IsStorable alloy p → to_abi alloy (stored_param alloy p) ≡ ok p
  unfolding to_abi parse_abi_type new_param
  to_abi-stored p storable = rw storable.1 (rw storable.0 (rw storable.0 refl))

  params-stored :
      (ps : List AbiParam)
      → All (IsStorable alloy) ps
      → traverse (λ param. map_err Error.abi (to_abi alloy param)) (map (stored_param alloy) ps)
        ≡ ok ps
  params-stored [] h = refl
  params-stored (p ∷ ps) h = rw (to_abi-stored p h.0) (rw (params-stored ps h.1) refl)

  -- What `target` does with the columns of a target.
  target-stored :
      (t : Target)
      → All (IsStorable alloy) (params_of t)
      → eqb (length (address_of t)) 20 ≡ true
      → hash_fits (as_str (kind_of t)) (hash_of t) ≡ true
      → (do
        found ← address (address_of t)
        params ←
            traverse
              (λ param. map_err Error.abi (to_abi alloy param))
              (map (stored_param alloy) (params_of t))
        target_of_kind (as_str (kind_of t)) found (hash_of t) params)
        ≡ ok t
  unfolding address selector b256
  target-stored (Target.call t) scalar sized hashed =
      rw sized
        (rw (params-stored t.inputs scalar) (rw (short (eqb (length t.selector) 4) hashed) refl))
    where
      short : (a : Bool) → ((true && a) || (false && eqb (length t.selector) 32)) ≡ true → a ≡ true
      short a h = ground (arith, h)
  target-stored (Target.event t) scalar sized hashed =
      rw sized
        (rw (params-stored t.params scalar) (rw (long (eqb (length t.topic0) 32) hashed) refl))
    where
      long : (a : Bool) → ((false && eqb (length t.topic0) 4) || (true && a)) ≡ true → a ≡ true
      long a h = ground (arith, h)

  module _ (input : NewMonitor) (id : ℕ) where
    target-row :
        All (IsStorable alloy) (params_of input.target)
        → is_allowed (new_row alloy input id) ≡ true
        → target alloy (new_row alloy input id) ≡ ok input.target
    unfolding target
    target-row scalar allowed =
        target-stored input.target scalar (ground (arith, allowed)) (ground (arith, allowed))

    id-row : is_allowed (new_row alloy input id) ≡ true → from_monitor_id (pos id) ≡ ok id
    unfolding from_monitor_id from_i64 new_monitor_id
    id-row allowed = rw (positive id (ground (arith, allowed))) refl
      where
        positive : (n : ℕ) → ltb_ℤ (pos 0) (pos n) ≡ true → eqb n 0 ≡ false
        positive n h = ground (arith, h)

    block-row : (e : Option ℕ) → opt_from_i64 (stored_block e) ≡ ok e
    unfolding from_i64
    block-row none = refl
    block-row (some e) = refl

    definition-row : (f : Option FilterDefinition) → definition_of (ast_of f) (version_of f) ≡ ok f
    definition-row none = refl
    definition-row (some f) = refl

    filter-row :
        (codecs : Codecs) (f : Option FilterDefinition) (t : Target)
        → filter_of alloy codecs t (ast_of f) (version_of f) ≡ compiled_filter codecs f t
    filter-row codecs none t = refl
    filter-row codecs (some f) t = refl

    -- The record of the row.
    pub monitor_record-row :
        All (IsStorable alloy) (params_of input.target)
        → is_allowed (new_row alloy input id) ≡ true
        → monitor_record alloy (new_row alloy input id) ≡ ok (record_of input id)
    unfolding monitor_record from_i64
    monitor_record-row scalar allowed =
        ap (λ f. finish f (from_monitor_id (pos id)) (target alloy (new_row alloy input id)) end)
          (definition-row input.filter)
        ∙ ap (λ i. finish (ok input.filter) i (target alloy (new_row alloy input id)) end)
            (id-row allowed)
        ∙ ap (λ t. finish (ok input.filter) (ok id) t end) (target-row scalar allowed)
        ∙ ap (λ e. finish (ok input.filter) (ok id) (ok input.target) e) (block-row input.end_block)
      where
        end : Result Error (Option ℕ)
        end = opt_from_i64 (stored_block input.end_block)

        finish :
            Result Error (Option FilterDefinition)
            → Result Error ℕ
            → Result Error Target
            → Result Error (Option ℕ)
            → Result Error MonitorRecord
        finish filter id found end_block = do
          f ← filter
          i ← id
          t ← found
          e ← end_block
          ok (record {
            id = i;
            chain = record { id = input.chain.id };
            target = t;
            start_block = input.start_block;
            end_block = e;
            cursor = none;
            completed = false;
            enabled = true;
            filter = f;
          })

    -- The monitor of the row.
    pub to_monitor-row :
        (codecs : Codecs)
        → All (IsStorable alloy) (params_of input.target)
        → is_allowed (new_row alloy input id) ≡ true
        → to_monitor alloy codecs (new_row alloy input id) ≡ (
            compiled_filter codecs input.filter input.target >>= λ filter.
            ok (monitor_of input id filter))
    unfolding to_monitor from_i64
    to_monitor-row codecs scalar allowed =
        ap (λ t. finish t filter_at (from_monitor_id (pos id)) end) (target-row scalar allowed)
        ∙ ap (λ i. finish (ok input.target) filter_at i end) (id-row allowed)
        ∙ ap (λ e. finish (ok input.target) filter_at (ok id) e) (block-row input.end_block)
        ∙ ap (λ (f : Result Error Filter). f >>= λ filter. ok (monitor_of input id filter))
            (filter-row codecs input.filter input.target)
      where
        end : Result Error (Option ℕ)
        end = opt_from_i64 (stored_block input.end_block)

        filter_at : Target → Result Error Filter
        filter_at t = filter_of alloy codecs t (ast_of input.filter) (version_of input.filter)

        finish :
            Result Error Target
            → (Target → Result Error Filter)
            → Result Error ℕ
            → Result Error (Option ℕ)
            → Result Error Monitor
        finish found filter id end_block = do
          t ← found
          f ← filter t
          i ← id
          e ← end_block
          ok (record {
            id = i;
            chain = record { id = input.chain.id };
            target = t;
            start_block = input.start_block;
            end_block = e;
            cursor = none;
            completed = false;
            enabled = true;
            filter = f;
          })
