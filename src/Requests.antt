-- ===== src/Requests.antt =====
-- context.py: the request for a sample, `build_sample_request`, and `resolve_model`. `dumps` is
-- `json.dumps`.
use Prim.Native.String.{◌++◌ as append_text}
use tantra.Prelude.{
  String, Bool, Option, none, some, List, [], ◌∷◌, ◌++◌, ◌==◌, if◌then◌else◌, map, or_text, to_list,
}
use tantra.Prelude.Dict.{Dict}
use tantra.Prelude.Outcome.{Outcome, or_raise, tantra_error}
use tantra.Json.{Json}
use tantra.Events.{SessionEvent}
use tantra.Messages.{SystemBlock, ToolSchema, SampleRequest}
use tantra.Context.{build_messages}
use tantra.Skills.{SkillInfo}

abbrev pub skills_guidance : String
skills_guidance =
    "Available skills can be loaded on demand with the skill tool. Load a skill when its description matches the task or the user explicitly requests it:"

abbrev pub child_lifecycle_guidance : String
child_lifecycle_guidance =
    "When your turn ends, your parent receives your final message as your reply, or your submitted output if you submit one. Put the complete result there. Use send only for messages during a turn. Your parent may send you more work."

-- `separator.join(parts)`
abbrev pub join : String → List String → String
join separator [] = ""
join separator (part ∷ []) = part
join separator (part ∷ more ∷ parts) =
    append_text part (append_text separator (join separator (more ∷ parts)))

abbrev pub skill_line : SkillInfo → String
skill_line skill = append_text "- " (append_text skill.name (append_text ": " skill.description))

abbrev pub skills_section : List SkillInfo → List String
skills_section [] = []
skills_section (skill ∷ skills) =
    append_text "Skills\n\n" (join "\n" (skills_guidance ∷ map skill_line (skill ∷ skills))) ∷ []

abbrev pub lifecycle_section : Bool → List String
lifecycle_section child_lifecycle =
    if child_lifecycle then append_text "Child lifecycle\n\n" child_lifecycle_guidance ∷ [] else []

-- `_execution_environment_block`
unfoldable pub execution_environment : List SkillInfo → Bool → Option SystemBlock
execution_environment skills child_lifecycle =
    elim (skills_section skills ++ lifecycle_section child_lifecycle) [
      | [] ↦ none
      | section ∷ sections ↦ some (record {
        text = append_text "Execution environment\n\n" (join "\n\n" (section ∷ sections));
        cache = Bool.false;
      })
    ]

unfoldable pub build_sample_request :
    (Json → String)
    → String
    → String
    → List SessionEvent
    → List ToolSchema
    → Dict Json
    → List SkillInfo
    → Bool
    → SampleRequest
unfolding execution_environment
build_sample_request dumps model prompt events tools params skills child_lifecycle = record {
  model = model;
  system =
      (if prompt == "" then [] else record { text = prompt; cache = Bool.false } ∷ [])
      ++ to_list (execution_environment skills child_lifecycle);
  messages = build_messages dumps events;
  tools = tools;
  params = params;
}

-- the agent's model, or the runtime's
unfoldable pub resolve_model : Option String → Option String → Outcome String
resolve_model agent_model default_model =
    or_raise (or_text agent_model (or_text default_model none)) tantra_error
