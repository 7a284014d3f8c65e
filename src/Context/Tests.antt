-- ===== src/Context/Tests.antt =====
-- A history of two turns and a compaction, as the model sees it.
use tantra.Prelude.{String, ◌≡◌, List, [], ◌∷◌, ◌++◌, any, filter, has, map}
use tantra.Json.{Json}
use tantra.Events.{
  SessionEvent, ToolCallCompleted, text_part, tool_call_requested, turn_started,
  tool_call_completed, compaction_applied,
}
use tantra.Context.{assemble_messages, compaction_window, compacted_history}
use tantra.Context.Window.{compaction_window-compacted_history}
use tantra.Context.Pairing.{calls_of, results_of, has-calls_of_assemble}
use tantra.Context.Replay.{requests, assemble_messages-filter}
use tantra.Samples.{one_turn, result_of, applied, start}

abbrev dumps : Json → String
dumps _ = "{}"

-- the compaction keeps the second turn
abbrev history : List SessionEvent
history = one_turn "a" "k1" ++ (one_turn "b" "k2" ++ compaction_applied applied ∷ one_turn "c" "k3")

compaction_window-compacted_history_example :
    compaction_window (compacted_history history) ≡ compaction_window history
compaction_window-compacted_history_example = compaction_window-compacted_history history

-- a call that has no result
abbrev broken : List SessionEvent
broken =
    one_turn "a" "k1"
    ++ turn_started (start "b")
      ∷ text_part (record { sample_id = "b"; text = "and now" })
      ∷ tool_call_requested (record { sample_id = "b"; call_id = "k2"; name = "read"; args = [] })
      ∷ []

has-calls_of_assemble_example :
    has (calls_of (assemble_messages dumps "so far" broken)) "k1"
    ≡ has (results_of (assemble_messages dumps "so far" broken)) "k1"
has-calls_of_assemble_example = has-calls_of_assemble dumps "so far" broken "k1"

abbrev stubs : List ToolCallCompleted
stubs = result_of "k1" ∷ result_of "k2" ∷ []

assemble_messages-filter_example :
    assemble_messages dumps "so far" (
      one_turn "b" "k2"
      ++ (map tool_call_completed (filter (λ r. any (requests r.call_id) (one_turn "b" "k2")) stubs)
          ++ compaction_applied applied ∷ []))
    ≡ assemble_messages dumps "so far" (one_turn "b" "k2" ++ map tool_call_completed stubs)
assemble_messages-filter_example =
    assemble_messages-filter dumps "so far" (one_turn "b" "k2") stubs applied
