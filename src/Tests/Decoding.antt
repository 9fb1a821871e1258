-- ===== src/Tests/Decoding.antt =====
-- The index and the decoders of parseon-core/src/indexer.rs at concrete inputs.
use parseon.Common.{◌≡◌, refl, ◌↔◌, true, false, List, [], ◌∷◌, In, ok, some}
use parseon.Model.{SolType, SourceLog}
use parseon.Abi.{new_event_decoder}
use parseon.Monitor.{Monitor}
use parseon.Index.{MonitorIndex, new_index, has_call}
use parseon.Index.Decode.{decode_calls, decode_events}
use parseon.Index.Calls.{SomeCandidateMatches, decode_calls_iff}
use parseon.Index.Events.{LogMatches, decode_events_iff}
use parseon.Scheduler.{BlockPlan}
use parseon.Ports.Source.{LogQuery}
use parseon.Worker.Query.{log_query}
use parseon.Worker.Targets.{IsWanted, log_query_iff}
use parseon.Fixtures.{
  block_at, call_at, call_monitor, event_at, event_monitor, log_at, outcome, toy_alloy,
  toy_alloy-NamesTypes,
}

abbrev pub both : List Monitor
both = call_monitor ∷ event_monitor ∷ []

abbrev pub index : MonitorIndex
index = record {
  monitors = both;
  calls =
      (
        (1 ∷ [], 1 ∷ 2 ∷ 3 ∷ 4 ∷ []),
        (
          "u11111111" ∷ [],
          record { monitor_indices = 0 ∷ []; decoder = record { params = SolType.uint 8 ∷ [] } },
        )
            ∷ [],
      )
      ∷ [];
  events =
      (
        (1 ∷ [], 5 ∷ []),
        (
          ("u11111111", false) ∷ [],
          record {
            monitor_indices = 1 ∷ [];
            decoder = record {
              topic0 = 5 ∷ [];
              indexed_types = [];
              body_types = SolType.uint 8 ∷ [];
              indexed = false ∷ [];
            };
          },
        )
            ∷ [],
      )
      ∷ [];
}

pub builds : new_index toy_alloy both ≡ ok index
unfolding new_index new_event_decoder
builds = refl

has_planned : has_call index 10 (1 ∷ []) (1 ∷ 2 ∷ 3 ∷ 4 ∷ []) (0 ∷ []) ≡ true
unfolding has_call
has_planned = refl

has_unplanned : has_call index 10 (1 ∷ []) (1 ∷ 2 ∷ 3 ∷ 4 ∷ []) (1 ∷ []) ≡ false
unfolding has_call
has_unplanned = refl

decodes_calls :
    decode_calls toy_alloy index (0 ∷ []) (block_at 10) (0 ∷ []) (outcome ∷ [])
    ≡ ok (call_at 10 ∷ [])
unfolding decode_calls
decodes_calls = refl

decode_calls_iff_example :
    In (call_at 10) (call_at 10 ∷ [])
    ↔ SomeCandidateMatches toy_alloy toy_alloy-NamesTypes both index builds
        (0 ∷ [])
        (block_at 10)
        (0 ∷ [])
        (outcome ∷ [])
        (call_at 10)
decode_calls_iff_example =
    decode_calls_iff toy_alloy toy_alloy-NamesTypes both index builds (0 ∷ []) (block_at 10)
      (0 ∷ []) (outcome ∷ []) (call_at 10 ∷ []) decodes_calls (call_at 10)

decodes_events :
    decode_events toy_alloy 11 index (0 ∷ 1 ∷ []) (log_at 11 ∷ []) ≡ ok (event_at 11 ∷ [])
unfolding decode_events
decodes_events = refl

decode_events_iff_example : In (event_at 11) (event_at 11 ∷ []) ↔ (
    (log : SourceLog) × In log (log_at 11 ∷ [])
    × LogMatches toy_alloy toy_alloy-NamesTypes both index builds (0 ∷ 1 ∷ []) 11 log (event_at 11))
decode_events_iff_example =
    decode_events_iff toy_alloy toy_alloy-NamesTypes both index builds (0 ∷ 1 ∷ []) 11
      (log_at 11 ∷ []) (event_at 11 ∷ []) decodes_events (event_at 11)

abbrev plans : List BlockPlan
plans =
    record { block_number = 10; monitor_indices = 0 ∷ [] }
    ∷ record { block_number = 11; monitor_indices = 0 ∷ 1 ∷ [] }
    ∷ []

abbrev query : LogQuery
query = record {
  range = record { start = 10; end = 11 };
  targets = record { address = 1 ∷ []; topic0 = 5 ∷ [] } ∷ [];
}

asks : log_query plans index ≡ ok (some query)
unfolding log_query
asks = refl

log_query_iff_example :
    In (record { address = 1 ∷ []; topic0 = 5 ∷ [] }) query.targets
    ↔ IsWanted index plans (record { address = 1 ∷ []; topic0 = 5 ∷ [] })
log_query_iff_example =
    log_query_iff index plans (some query) asks (record { address = 1 ∷ []; topic0 = 5 ∷ [] })
