-- ===== src/Context/Replay.antt =====
-- Assembling a journal in two parts, and what results of calls that were not requested do: nothing.
use tantra.Prelude.{
  String, ◌≡◌, refl, ap, sym, ◌∙◌, Bool, false, ◌||◌, inl, inr, List, [], ◌∷◌, ◌++◌, arith, any,
  filter, filter_map, has, map, ◌==◌, if◌then◌else◌, Bool-cases,
}
use tantra.Json.{Json}
use tantra.Events.{
  SessionEvent, ToolCallCompleted, CompactionApplied, text_part, reasoning_part,
  tool_call_requested, tool_call_completed, compaction_applied,
}
use tantra.Messages.{AssistantMessage}
use tantra.Context.{
  Assembly, add_text, add_reasoning, add_call, call_of, sample_message, change_sample, open_result,
  assemble_event, assemble_events, opening, emit, assemble_messages,
}

abbrev pub requests : String → SessionEvent → Bool
requests id (tool_call_requested e) = e.call_id == id
requests id _ = false

requested-sample_message :
    (id : String) (st : Assembly) → (sample_message id st).requested ≡ st.requested
unfolding sample_message
requested-sample_message id st = ground arith

requested-change_sample :
    (id : String) (f : AssistantMessage → AssistantMessage) (st : Assembly)
    → (change_sample id f st).requested ≡ st.requested
unfolding change_sample
requested-change_sample id f st = requested-sample_message id st

requested-open_result : (id : String) (st : Assembly) → (open_result id st).requested ≡ st.requested
unfolding open_result
requested-open_result id st = ground arith

module _ (dumps : Json → String) where
  has-requested_event :
      (st : Assembly) (e : SessionEvent) (c : String)
      → has (assemble_event dumps st e).requested c ≡ (requests c e || has st.requested c)
  unfolding assemble_event
  has-requested_event st (text_part e) c =
      ap (λ (l : List String). has l c) (requested-change_sample e.sample_id (add_text e.text) st)
  has-requested_event st (reasoning_part e) c =
      ap (λ (l : List String). has l c)
        (requested-change_sample e.sample_id
          (add_reasoning (record { text = e.text; signature = e.signature })) st)
  has-requested_event st (tool_call_requested e) c =
      ap (λ (l : List String). has l c)
        (requested-open_result e.call_id _
          ∙ requested-change_sample e.sample_id (add_call (call_of dumps e)) _)
  has-requested_event st (tool_call_completed e) c = ground arith
  has-requested_event st _ c = refl

  has-requested_events :
      (es : List SessionEvent) (st : Assembly) (c : String)
      → has (assemble_events dumps st es).requested c ≡ (any (requests c) es || has st.requested c)
  unfolding assemble_events
  has-requested_events [] st c = refl
  has-requested_events (e ∷ es) st c =
      ground
        (arith, has-requested_events es (assemble_event dumps st e) c, has-requested_event st e c)

  assemble_events-append :
      (es fs : List SessionEvent) (st : Assembly)
      → assemble_events dumps st (es ++ fs) ≡ assemble_events dumps (assemble_events dumps st es) fs
  unfolding assemble_events
  assemble_events-append [] fs st = refl
  assemble_events-append (e ∷ es) fs st = assemble_events-append es fs (assemble_event dumps st e)

  requested-completed :
      (r : ToolCallCompleted) (st : Assembly)
      → (assemble_event dumps st (tool_call_completed r)).requested ≡ st.requested
  unfolding assemble_event
  requested-completed r st = ground arith

  assemble_event_unrequested :
      (r : ToolCallCompleted) (st : Assembly)
      → has st.requested r.call_id ≡ false
      → assemble_event dumps st (tool_call_completed r) ≡ st
  unfolding assemble_event
  assemble_event_unrequested r st h = ground arith

  -- Results of calls that were not requested may be left out.
  assemble_events-filter :
      (p : ToolCallCompleted → Bool) (rs : List ToolCallCompleted) (st : Assembly)
      → ((r : ToolCallCompleted) → p r ≡ has st.requested r.call_id)
      → assemble_events dumps st (map tool_call_completed (filter p rs))
        ≡ assemble_events dumps st (map tool_call_completed rs)
  unfolding assemble_events
  assemble_events-filter p [] st h = refl
  assemble_events-filter p (r ∷ rs) st h =
      let st' : Assembly = assemble_event dumps st (tool_call_completed r) in
      let also : (x : ToolCallCompleted) → p x ≡ has st'.requested x.call_id =
        λ x. h x ∙ ap (λ (l : List String). has l x.call_id) (sym (requested-completed r st)) in
      let drops : List ToolCallCompleted → Assembly → Assembly =
        λ l t. assemble_events dumps t (map tool_call_completed l) in
      elim (Bool-cases (p r)) [
        | inl w ↦
            ap (λ (b : Bool). drops (if b then r ∷ filter p rs else filter p rs) st) w
            ∙ assemble_events-filter p rs st' also
        | inr w ↦
            ap (λ (b : Bool). drops (if b then r ∷ filter p rs else filter p rs) st) w
            ∙ assemble_events-filter p rs st h
            ∙ ap (drops rs) (sym (assemble_event_unrequested r st (sym (h r) ∙ w)))
      ]

  assemble_events_applied :
      (a : CompactionApplied) (st : Assembly)
      → assemble_events dumps st (compaction_applied a ∷ []) ≡ st
  unfolding assemble_events assemble_event
  assemble_events_applied a st = refl

  or_false : (b : Bool) → (b || false) ≡ b
  or_false b = ground arith

  -- The messages assembled from kept events, the stubs whose calls are requested among those
  -- events, and a compaction are the ones assembled from the kept events and all stubs.
  pub assemble_messages-filter :
      (summary : String) (kept : List SessionEvent) (stubs : List ToolCallCompleted)
      (a : CompactionApplied)
      → assemble_messages dumps summary (
          kept
          ++ (map tool_call_completed (filter (λ r. any (requests r.call_id) kept) stubs)
              ++ compaction_applied a ∷ []))
        ≡ assemble_messages dumps summary (kept ++ map tool_call_completed stubs)
  unfolding assemble_messages
  assemble_messages-filter summary kept stubs a =
      let st : Assembly = assemble_events dumps (opening summary) kept in
      let p : ToolCallCompleted → Bool = λ r. any (requests r.call_id) kept in
      let done : List SessionEvent = map tool_call_completed (filter p stubs) in
      let same : assemble_events dumps (opening summary)
            (kept ++ (done ++ compaction_applied a ∷ []))
          ≡ assemble_events dumps (opening summary) (kept ++ map tool_call_completed stubs) =
        assemble_events-append kept (done ++ compaction_applied a ∷ []) (opening summary)
        ∙ assemble_events-append done (compaction_applied a ∷ []) st
        ∙ assemble_events_applied a (assemble_events dumps st done)
        ∙ assemble_events-filter p stubs st
            (λ r. sym (has-requested_events kept (opening summary) r.call_id ∙ or_false _))
        ∙ sym (assemble_events-append kept (map tool_call_completed stubs) (opening summary)) in
      ap (λ (t : Assembly). filter_map (emit t) t.slots) same
