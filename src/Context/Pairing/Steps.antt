-- ===== src/Context/Pairing/Steps.antt =====
-- What holds of the assembly of messages between two of its steps, and that each step keeps it.
use tantra.Prelude.{
  String, ◌≡◌, refl, ap, true, false, ◌||◌, inl, inr, some, List, [], ◌∷◌, ◌++◌, arith, has,
  has-append, is_some, eq_iff, eq_refl, Option-cases,
}
use tantra.Prelude.Dict
use tantra.Prelude.Dict.{Dict, get-put, get-put_self}
use tantra.Messages.{AssistantMessage, ToolCall, ToolResultMessage}
use tantra.Context.{
  plain, sample, result, Assembly, blank, sample_message, change_sample, open_result,
}
use tantra.Context.Pairing.Finish.{call_ids, sample_calls, slot_calls, slot_results, slot_samples}
use tantra.Context.Pairing.Entries.{
  sample_calls-put, has-slot_calls-put, slot_calls-append, slot_results-append, slot_samples-append,
}

pub record Between (calls results : List String) (st : Assembly) : Type 0 where
  pub called :
      (c : String) → (has (slot_calls st.samples st.slots) c || has calls c) ≡ has st.requested c
  pub noted : (c : String) → (has (slot_results st.slots) c || has results c) ≡ has st.requested c
  pub opened : (c : String) → is_some (Dict.get st.results c) ≡ has (slot_results st.slots) c
  pub entered : (id : String) → is_some (Dict.get st.samples id) ≡ has (slot_samples st.slots) id
  pub named : (c : String) (r : ToolResultMessage) → Dict.get st.results c ≡ some r → r.call_id ≡ c
  pub done : (c : String) → has st.completed c ≡ true → has st.requested c ≡ true

module _ {calls results : List String} where
  pub Between-plain :
      (t : String) (st : Assembly)
      → Between calls results st
      → Between calls results (record st { slots = st.slots ++ plain t ∷ [] })
  Between-plain t st b = record {
    called =
        λ c. ground (arith, b.called c, slot_calls-append st.samples st.slots (plain t ∷ []) c);
    noted = λ c. ground (arith, b.noted c, slot_results-append st.slots (plain t ∷ []) c);
    opened = λ c. ground (arith, b.opened c, slot_results-append st.slots (plain t ∷ []) c);
    entered = λ c. ground (arith, b.entered c, slot_samples-append st.slots (plain t ∷ []) c);
    named = b.named;
    done = b.done;
  }

  pub Between-sample_message :
      (id : String) (st : Assembly)
      → Between calls results st
      → Between calls results (sample_message id st)
        × (has (slot_samples (sample_message id st).slots) id ≡ true)
  unfolding sample_message
  Between-sample_message id st b = elim (Option-cases (Dict.get st.samples id)) [
    | inr (m, p) ↦ rw (p, sample_message) (b, ground (arith, b.entered id))
    | inl p ↦
        rw (p, sample_message)
          (
            record {
              called = λ c. ground (
                arith,
                b.called c,
                slot_calls-append (Dict.put st.samples id blank) st.slots (sample id ∷ []) c,
                has-append (sample_calls (Dict.put st.samples id blank) id) [] c,
                sample_calls-put st.samples id id blank,
                ap (λ (l : List String). has l c) (sample_calls-put st.samples id id blank),
                has-slot_calls-put st.samples st.slots id blank [] c (ground arith),
              );
              noted =
                  λ c. ground (arith, b.noted c, slot_results-append st.slots (sample id ∷ []) c);
              opened =
                  λ c. ground (arith, b.opened c, slot_results-append st.slots (sample id ∷ []) c);
              entered = λ j. ground (
                arith,
                b.entered j,
                slot_samples-append st.slots (sample id ∷ []) j,
                get-put st.samples id blank j,
              );
              named = b.named;
              done = b.done;
            },
            ground (arith, slot_samples-append st.slots (sample id ∷ []) id, eq_refl id),
          )
  ]

-- A change that adds `new` to the calls of a sample settles `new`.
pub Between-change_sample :
    {results : List String} (new : List String) (id : String)
    (f : AssistantMessage → AssistantMessage) (st : Assembly)
    → ((m : AssistantMessage) → call_ids (f m).tool_calls ≡ call_ids m.tool_calls ++ new)
    → Between new results st
    → Between [] results (change_sample id f st)
unfolding change_sample
Between-change_sample new id f st e b =
    let (b', entry) = Between-sample_message id st b in
    let st' : Assembly = sample_message id st in
    let m : AssistantMessage = f (Dict.get_or st'.samples id blank) in
    record {
      called = λ c. ground (
        arith,
        b'.called c,
        entry,
        has-slot_calls-put st'.samples st'.slots id m new c (e (Dict.get_or st'.samples id blank)),
      );
      noted = b'.noted;
      opened = b'.opened;
      entered = λ j. ground (arith, b'.entered j, entry, get-put st'.samples id m j, eq_iff id j);
      named = b'.named;
      done = b'.done;
    }

pub Between-open_result :
    (id : String) (st : Assembly) → Between [] (id ∷ []) st → Between [] [] (open_result id st)
unfolding open_result
Between-open_result id st b = elim (Option-cases (Dict.get st.results id)) [
  | inr (r, p) ↦
      rw (p, open_result)
        (record {
          called = b.called;
          noted = λ c. ground (arith, b.noted c, b.opened id, eq_iff id c);
          opened = b.opened;
          entered = b.entered;
          named = b.named;
          done = b.done;
        })
  | inl p ↦
      let r : ToolResultMessage = record { call_id = id; content = ""; is_error = false } in
      rw (p, open_result)
        (record {
          called = λ c.
              ground (arith, b.called c, slot_calls-append st.samples st.slots (result id ∷ []) c);
          noted = λ c. ground (arith, b.noted c, slot_results-append st.slots (result id ∷ []) c);
          opened = λ c. ground (
            arith,
            b.opened c,
            slot_results-append st.slots (result id ∷ []) c,
            get-put st.results id r c,
          );
          entered =
              λ j. ground (arith, b.entered j, slot_samples-append st.slots (result id ∷ []) j);
          named = λ c r' q. ground (arith, b.named c r', get-put st.results id r c, eq_iff id c);
          done = b.done;
        })
]

pub Between-request :
    (id : String) (st : Assembly)
    → Between [] [] st
    → Between (id ∷ []) (id ∷ []) (record st { requested = id ∷ st.requested })
Between-request id st b = record {
  called = λ c. ground (arith, b.called c);
  noted = λ c. ground (arith, b.noted c);
  opened = b.opened;
  entered = b.entered;
  named = b.named;
  done = λ c h. ground (arith, b.done c);
}

pub Between-complete :
    (r : ToolResultMessage) (st : Assembly)
    → has st.requested r.call_id ≡ true
    → Between [] [] st
    → Between [] [] (record st {
      results = Dict.put st.results r.call_id r;
      completed = r.call_id ∷ st.completed;
    })
Between-complete r st h b = record {
  called = b.called;
  noted = b.noted;
  opened = λ c.
      ground (arith, b.opened c, b.noted c, get-put st.results r.call_id r c, eq_iff r.call_id c);
  entered = b.entered;
  named =
      λ c r' q. ground (arith, b.named c r', get-put st.results r.call_id r c, eq_iff r.call_id c);
  done = λ c q. ground (arith, b.done c, eq_iff r.call_id c);
}

pub call_ids-append : (xs ys : List ToolCall) → call_ids (xs ++ ys) ≡ call_ids xs ++ call_ids ys
call_ids-append [] ys = refl
call_ids-append (x ∷ xs) ys = ap (◌∷◌ x.id) (call_ids-append xs ys)
