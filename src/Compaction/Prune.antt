-- ===== src/Compaction/Prune.antt =====
-- compaction.py: `_stub` and `_prune`. `skill_tool` is `SKILL_TOOL` of skills.py.
use Prim.Native.String.{count, ◌++◌ as append_text}
use package.text.Mathlib.Text.{starts_with}
use mathlib.Core.List.{reverse}
use tantra.Prelude.{
  ℕ, ◌+◌, ◌/◌, String, Bool, false, ◌&&◌, ◌||◌, not, none, some, List, [], ◌∷◌, ◌++◌, any, leb, ltb,
  ◌==◌, if◌then◌else◌,
}
use tantra.Prelude.Int.{ℤ, pos, sub_ℕ, ◌+ℤ◌, ◌-ℤ◌, div_4, leb_ℤ}
use tantra.Prelude.Dict
use tantra.Prelude.Dict.{Dict}
use tantra.Json.{text}
use tantra.Events.{SessionEvent, ToolCallCompleted, tool_call_completed, tool_call_requested}
use tantra.Context.{as_content}
use tantra.Compaction.Estimate.{Codec}

abbrev pub skill_tool : String
skill_tool = "skill"

abbrev pub min_result_chars : ℕ
min_result_chars = 256

-- `{event.call_id: event.name for event in window if isinstance(event, ToolCallRequested)}`
abbrev pub names_of : List SessionEvent → Dict String → Dict String
names_of [] names = names
names_of (tool_call_requested e ∷ es) names = names_of es (Dict.put names e.call_id e.name)
names_of (_ ∷ es) names = names_of es names

abbrev pub completes : String → SessionEvent → Bool
completes id (tool_call_completed e) = e.call_id == id
completes id _ = false

-- a result that may be stubbed, with its content and its tool's name
pub record Candidate : Type 0 where
  pub event : ToolCallCompleted
  pub content : String
  pub name : String

module _ (codec : Codec) where
  unfoldable pub stub : String → String → String
  stub name content = append_text "[pruned: " (
      append_text name
        (append_text " output, " (append_text (codec.decimal (count content)) " chars omitted]")))

  -- the tests on one result, of which no later one has its call: `latest[call_id] is event`
  abbrev pub as_candidate : Dict String → ToolCallCompleted → List Candidate
  as_candidate names e = elim (Dict.get names e.call_id) [
    | none ↦ []
    | some name ↦
        let content = as_content codec.dumps e.result in
        if not (name == skill_tool)
          && leb min_result_chars (count content)
          && not (starts_with content "[pruned:")
        then record { event = e; content = content; name = name } ∷ []
        else []
  ]

  unfoldable pub candidates : Dict String → List SessionEvent → List Candidate
  candidates names [] = []
  candidates names (tool_call_completed e ∷ es) =
      let rest = candidates names es in
      if any (completes e.call_id) es then rest else as_candidate names e ++ rest
  candidates names (_ ∷ es) = candidates names es

  -- the stub of a candidate
  abbrev pub stub_of : Candidate → String
  stub_of c = stub c.name c.content

  abbrev pub stub_event : Candidate → ToolCallCompleted
  stub_event c = record {
    call_id = c.event.call_id;
    result = text (stub_of c);
    is_error = c.event.is_error;
  }

  abbrev pub sum_contents : List Candidate → ℕ
  sum_contents [] = 0
  sum_contents (c ∷ cs) = count c.content + sum_contents cs

  abbrev pub sum_stubs : List Candidate → ℕ
  sum_stubs [] = 0
  sum_stubs (c ∷ cs) = count (stub_of c) + sum_stubs cs

  -- the last loop: stubs until the target is met, and what they gained
  unfoldable pub cut : ℕ → ℤ → ℤ → List Candidate → List ToolCallCompleted × ℤ
  cut before target gained [] = ([], gained)
  cut before target gained (c ∷ cs) =
      let gained' = gained +ℤ div_4 (sub_ℕ (count c.content) (count (stub_of c))) in
      let rest = cut before target gained' cs in
      if leb_ℤ (pos before -ℤ gained') target
      then (stub_event c ∷ [], gained')
      else (stub_event c ∷ rest.0, rest.1)

  -- `pool - stubbed < prune_gain_min` is tested with the subtraction moved over.
  unfoldable pub prune :
      ℕ → ℕ → List SessionEvent → Dict String → ℕ → ℤ → List ToolCallCompleted × ℤ
  unfolding candidates cut stub
  prune prune_pool_min prune_gain_min window names before target =
      let found = candidates names window in
      let pool = sum_contents found / 4 in
      let stubbed = sum_stubs found / 4 in
      if ltb pool prune_pool_min || ltb pool (prune_gain_min + stubbed)
      then ([], pos 0)
      else cut before target (pos 0) (reverse found)
