-- ===== src/Context/Pairing/Entries.antt =====
-- What the entries of `assemble_messages` add up to when an entry is put or appended.
use tantra.Prelude.{
  String, ◌≡◌, refl, ◌&&◌, ◌||◌, inl, inr, List, [], ◌∷◌, ◌++◌, arith, has, has-append, ◌==◌,
  eq_iff, eq_refl, if◌then◌else◌, Bool-cases,
}
use tantra.Prelude.Dict
use tantra.Prelude.Dict.{Dict, get-put, get-put_self}
use tantra.Messages.{AssistantMessage}
use tantra.Context.{Slot, plain, sample, result}
use tantra.Context.Pairing.Finish.{call_ids, sample_calls, slot_calls, slot_results, slot_samples}

pub sample_calls-put :
    (samples : Dict AssistantMessage) (id j : String) (m : AssistantMessage)
    → sample_calls (Dict.put samples id m) j
      ≡ (if id == j then call_ids m.tool_calls else sample_calls samples j)
sample_calls-put samples id j m = ground (arith, get-put samples id m j)

pub has-sample_calls-put :
    (samples : Dict AssistantMessage) (id j : String) (m : AssistantMessage) (new : List String)
    (c : String)
    → call_ids m.tool_calls ≡ sample_calls samples id ++ new
    → has (sample_calls (Dict.put samples id m) j) c
      ≡ (has (sample_calls samples j) c || ((j == id) && has new c))
has-sample_calls-put samples id j m new c h = elim (Bool-cases (id == j)) [
  | inl e ↦
      let q : id ≡ j = (eq_iff id j).0 e in
      rw (← q) (simp (sample_calls-put, eq_refl, h) (has-append (sample_calls samples id) new c))
  | inr e ↦ simp (sample_calls-put, e) (ground (arith, eq_iff id j, eq_iff j id))
]

-- A change of one sample that adds `new` to its calls adds `new` to the calls of all entries, if
-- the sample has an entry.
pub has-slot_calls-put :
    (samples : Dict AssistantMessage) (slots : List Slot) (id : String) (m : AssistantMessage)
    (new : List String) (c : String)
    → call_ids m.tool_calls ≡ sample_calls samples id ++ new
    → has (slot_calls (Dict.put samples id m) slots) c
      ≡ (has (slot_calls samples slots) c || (has (slot_samples slots) id && has new c))
has-slot_calls-put samples [] id m new c h = refl
has-slot_calls-put samples (plain t ∷ slots) id m new c h =
    has-slot_calls-put samples slots id m new c h
has-slot_calls-put samples (result j ∷ slots) id m new c h =
    has-slot_calls-put samples slots id m new c h
has-slot_calls-put samples (sample j ∷ slots) id m new c h =
    let samples' : Dict AssistantMessage = Dict.put samples id m in
    ground (
      arith,
      has-append (sample_calls samples' j) (slot_calls samples' slots) c,
      has-append (sample_calls samples j) (slot_calls samples slots) c,
      has-sample_calls-put samples id j m new c h,
      has-slot_calls-put samples slots id m new c h,
    )

pub slot_calls-append :
    (samples : Dict AssistantMessage) (xs ys : List Slot) (c : String)
    → has (slot_calls samples (xs ++ ys)) c
      ≡ (has (slot_calls samples xs) c || has (slot_calls samples ys) c)
slot_calls-append samples [] ys c = refl
slot_calls-append samples (plain t ∷ xs) ys c = slot_calls-append samples xs ys c
slot_calls-append samples (result j ∷ xs) ys c = slot_calls-append samples xs ys c
slot_calls-append samples (sample j ∷ xs) ys c = ground (
  arith,
  has-append (sample_calls samples j) (slot_calls samples (xs ++ ys)) c,
  has-append (sample_calls samples j) (slot_calls samples xs) c,
  slot_calls-append samples xs ys c,
)

pub slot_results-append :
    (xs ys : List Slot) (c : String)
    → has (slot_results (xs ++ ys)) c ≡ (has (slot_results xs) c || has (slot_results ys) c)
slot_results-append [] ys c = refl
slot_results-append (plain t ∷ xs) ys c = slot_results-append xs ys c
slot_results-append (sample j ∷ xs) ys c = slot_results-append xs ys c
slot_results-append (result j ∷ xs) ys c = ground (arith, slot_results-append xs ys c)

pub slot_samples-append :
    (xs ys : List Slot) (c : String)
    → has (slot_samples (xs ++ ys)) c ≡ (has (slot_samples xs) c || has (slot_samples ys) c)
slot_samples-append [] ys c = refl
slot_samples-append (plain t ∷ xs) ys c = slot_samples-append xs ys c
slot_samples-append (result j ∷ xs) ys c = slot_samples-append xs ys c
slot_samples-append (sample j ∷ xs) ys c = ground (arith, slot_samples-append xs ys c)

-- What was requested is what the entries call, with `calls` still to be called, and what has a
-- result, with `results` still to be opened; each object has its entry, each result stands under
-- its own id, and only requested calls were completed.
