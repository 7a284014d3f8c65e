-- ===== src/Compaction/Estimate.antt =====
-- compaction.py: the estimates of a request's size, and where its tail starts. A `Codec` stands for
-- what the code asks of Python's `json` and `str`: `dumps` is `json.dumps`, `decimal` prints a
-- number, `message_size` is the length of a message's JSON and `request_size` that of a request's.
use Prim.Native.String.{count}
use tantra.Prelude.{ℕ, suc, ◌+◌, ◌/◌, String, Option, none, some, List, [], ◌∷◌, drop, take, max}
use tantra.Prelude.Int.{ℤ, pos, pos_part, sub_ℕ, ◌+ℤ◌, div_4}
use tantra.Prelude.Dict
use tantra.Prelude.Dict.{Dict}
use tantra.Json.{Json}
use tantra.Events.{
  SessionEvent, Usage, ToolCallCompleted, turn_started, sample_completed, compaction_applied,
  tool_call_completed,
}
use tantra.Messages.{Message, SampleRequest}
use tantra.Context.{as_content, assemble_messages}

pub record Codec : Type 0 where
  pub dumps : Json → String
  pub decimal : ℕ → String
  pub message_size : Message → ℕ
  pub request_size : SampleRequest → ℕ

abbrev pub sum_sizes : (Message → ℕ) → List Message → ℕ
sum_sizes size [] = 0
sum_sizes size (m ∷ ms) = size m + sum_sizes size ms

-- `_reported`
abbrev pub reported : Usage → ℕ
reported u = u.input_tokens + u.cache_read_tokens + u.cache_write_tokens + u.output_tokens

-- The first loop of `_estimate_tokens`: the last sample that reports its usage, with its index, if
-- no compaction follows it.
pub data Mark : Type 0 where
  no_mark : Mark
  reset : Mark
  based : ℕ → ℕ → Mark

abbrev pub mark_of : SessionEvent → Mark
mark_of (sample_completed e) = based 0 (reported e.usage)
mark_of (compaction_applied e) = reset
mark_of _ = no_mark

abbrev pub later : Mark → Mark → Mark
later first no_mark = first
later first reset = reset
later first (based i n) = based (suc i) n

unfoldable pub last_mark : List SessionEvent → Mark
last_mark [] = no_mark
last_mark (e ∷ es) = later (mark_of e) (last_mark es)

module _ (codec : Codec) where
  open codec use {dumps, message_size, request_size}

  unfoldable pub rough_messages : List Message → ℕ
  rough_messages messages = sum_sizes message_size messages / 4

  unfoldable pub rough : List SessionEvent → String → ℕ
  unfolding rough_messages
  rough events summary = rough_messages (assemble_messages dumps summary events)

  unfoldable pub estimate_request_tokens : SampleRequest → ℕ
  estimate_request_tokens request = (request_size request + 3) / 4

  -- the length of a result, as the model reads it
  abbrev pub content_size : ToolCallCompleted → ℕ
  content_size e = count (as_content dumps e.result)

  -- the sizes of the results that the sample had read
  abbrev pub counted_sizes : List SessionEvent → Dict ℕ → Dict ℕ
  counted_sizes [] sizes = sizes
  counted_sizes (tool_call_completed e ∷ es) sizes =
      counted_sizes es (Dict.put sizes e.call_id (content_size e))
  counted_sizes (_ ∷ es) sizes = counted_sizes es sizes

  -- what was added since: a result that replaces one counts for the difference
  abbrev pub added_size : List SessionEvent → Dict ℕ → ℤ → ℤ
  added_size [] sizes added = added
  added_size (turn_started e ∷ es) sizes added = added_size es sizes (added +ℤ pos (count e.input))
  added_size (tool_call_completed e ∷ es) sizes added =
      added_size es (Dict.put sizes e.call_id (content_size e))
        (added +ℤ sub_ℕ (content_size e) (Dict.get_or sizes e.call_id 0))
  added_size (_ ∷ es) sizes added = added_size es sizes added

  -- `_estimate_tokens`: the larger of the two is at least `rough_size`, so not negative
  unfoldable pub estimate_from : List SessionEvent → ℕ → ℕ
  unfolding last_mark
  estimate_from events rough_size = elim (last_mark events) [
    | no_mark ↦ rough_size
    | reset ↦ rough_size
    | based i base ↦
        let sizes = counted_sizes (take i events) [] in
        let added = added_size (drop (suc i) events) sizes (pos 0) in
        max (pos_part (pos base +ℤ div_4 added)) rough_size
  ]

  unfoldable pub estimate_tokens : List SessionEvent → String → ℕ
  unfolding estimate_from rough
  estimate_tokens events summary = estimate_from events (rough events summary)

  -- `_projected`, with `ctx.sample_request`
  unfoldable pub projected : Option SampleRequest → String → List SessionEvent → ℕ
  unfolding rough estimate_request_tokens
  projected none summary events = rough events summary
  projected (some request) summary events =
      estimate_request_tokens (record request { messages = assemble_messages dumps summary events })
