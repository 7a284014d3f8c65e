-- ===== src/Context/Pairing/Finish.antt =====
-- The ids of calls and results, in the messages and in the entries that they come from.
use tantra.Prelude.{
  String, ◌≡◌, ap, true, false, ◌&&◌, ◌||◌, inl, inr, none, some, List, [], ◌∷◌, ◌++◌, arith,
  filter, filter_map, has, has-append, is_some, eq_iff, eq_refl, Bool-cases, Option-cases,
}
use tantra.Prelude.Dict
use tantra.Prelude.Dict.{Dict}
use tantra.Messages.{AssistantMessage, ToolCall, ToolResultMessage, Message, assistant, tool}
use tantra.Context.{Slot, plain, sample, result, Assembly, blank, emit, answered, says_something}

abbrev pub call_ids : List ToolCall → List String
call_ids [] = []
call_ids (call ∷ calls) = call.id ∷ call_ids calls

-- the ids of the tool calls that the assistant's messages make
abbrev pub calls_of : List Message → List String
calls_of [] = []
calls_of (assistant m ∷ ms) = call_ids m.tool_calls ++ calls_of ms
calls_of (_ ∷ ms) = calls_of ms

-- the ids that the tool messages answer
abbrev pub results_of : List Message → List String
results_of [] = []
results_of (tool r ∷ ms) = r.call_id ∷ results_of ms
results_of (_ ∷ ms) = results_of ms

abbrev pub sample_calls : Dict AssistantMessage → String → List String
sample_calls samples id = call_ids (Dict.get_or samples id blank).tool_calls

abbrev pub slot_calls : Dict AssistantMessage → List Slot → List String
slot_calls samples [] = []
slot_calls samples (sample id ∷ slots) = sample_calls samples id ++ slot_calls samples slots
slot_calls samples (_ ∷ slots) = slot_calls samples slots

abbrev pub slot_results : List Slot → List String
slot_results [] = []
slot_results (result id ∷ slots) = id ∷ slot_results slots
slot_results (_ ∷ slots) = slot_results slots

abbrev pub slot_samples : List Slot → List String
slot_samples [] = []
slot_samples (sample id ∷ slots) = id ∷ slot_samples slots
slot_samples (_ ∷ slots) = slot_samples slots

-- Dropping the calls without a result keeps the others.
has-answered :
    (completed : List String) (calls : List ToolCall) (c : String)
    → has (call_ids (filter (λ call. has completed call.id) calls)) c
      ≡ (has completed c && has (call_ids calls) c)
has-answered completed [] c = ground arith
has-answered completed (call ∷ calls) c =
    ground (arith, has-answered completed calls c, eq_iff call.id c)

silent : (m : AssistantMessage) → says_something m ≡ false → m.tool_calls ≡ []
silent m h = ground arith

-- A message that is dropped makes no call that is answered.
has-emit-sample :
    (st : Assembly) (id c : String) (rest : List Message)
    → has (calls_of (elim (emit st (sample id)) [ none ↦ rest | some m ↦ m ∷ rest ])) c
      ≡ ((has st.completed c && has (sample_calls st.samples id) c) || has (calls_of rest) c)
unfolding emit
has-emit-sample st id c rest = elim (Option-cases (Dict.get st.samples id)) [
  | inl p ↦ ground arith
  | inr (m, p) ↦ elim (Bool-cases (says_something (answered st.completed m))) [
    | inl q ↦
        rw (p, emit)
          (rw q (
            ground (
              arith,
              has-append (call_ids (answered st.completed m).tool_calls) (calls_of rest) c,
              has-answered st.completed m.tool_calls c,
            )))
    | inr q ↦
        rw (p, emit)
          (rw q (
            ground (
              arith,
              silent (answered st.completed m) q,
              ap (λ (l : List ToolCall). has (call_ids l) c) (silent (answered st.completed m) q),
              has-answered st.completed m.tool_calls c,
            )))
  ]
]

-- The calls of the messages are the entries' calls that were answered.
pub has-calls_of :
    (st : Assembly) (slots : List Slot) (c : String)
    → has (calls_of (filter_map (emit st) slots)) c
      ≡ (has st.completed c && has (slot_calls st.samples slots) c)
unfolding emit
has-calls_of st [] c = ground arith
has-calls_of st (plain t ∷ slots) c = has-calls_of st slots c
has-calls_of st (sample id ∷ slots) c = ground (
  arith,
  has-emit-sample st id c (filter_map (emit st) slots),
  has-append (sample_calls st.samples id) (slot_calls st.samples slots) c,
  has-calls_of st slots c,
)
has-calls_of st (result id ∷ slots) c = ground (arith, has-calls_of st slots c)

-- The results of the messages are the entries' results that arrived, where each entry has its
-- object, under its own id.
pub has-results_of :
    (st : Assembly) (slots : List Slot) (c : String)
    → ((id : String) (r : ToolResultMessage) → Dict.get st.results id ≡ some r → r.call_id ≡ id)
    → ((id : String) → has (slot_results slots) id ≡ true → is_some (Dict.get st.results id) ≡ true)
    → has (results_of (filter_map (emit st) slots)) c
      ≡ (has st.completed c && has (slot_results slots) c)
unfolding emit
has-results_of st [] c n o = ground arith
has-results_of st (plain t ∷ slots) c n o = has-results_of st slots c n o
has-results_of st (sample id ∷ slots) c n o = ground (arith, has-results_of st slots c n o)
has-results_of st (result id ∷ slots) c n o =
    let later : (j : String)
        → has (slot_results slots) j ≡ true
        → is_some (Dict.get st.results j) ≡ true =
      λ j h. o j (ground arith) in
    elim (Option-cases (Dict.get st.results id)) [
      | inl p ↦ absurd (ground (arith, o id (ground (arith, eq_refl id))))
      | inr (r, p) ↦
          ground
            (arith, has-results_of st slots c n later, n id r p, eq_iff id c, eq_iff r.call_id c)
    ]
