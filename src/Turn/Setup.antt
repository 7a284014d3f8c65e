-- ===== src/Turn/Setup.antt =====
-- What a turn is run with: the agent's tools, hooks and permissions, and the world around it.
use tantra.Prelude.{String, Bool, Option, List}
use tantra.Prelude.Dict.{Dict}
use tantra.Prelude.Outcome.{Outcome}
use tantra.Json.{Json}
use tantra.Events.{SessionEvent, ToolCallRequested, AskRaised, AskAnswered, InputQueued}
use tantra.Permissions.{Permission}
use tantra.Turn.{Engine}
use tantra.Turn.Parts.{Checked}

pub record Tool : Type 0 where
  pub permission : Option Permission
  pub validate : Dict Json → Checked (Dict Json)

pub data HookOutcome : Type 0 where
  passes : HookOutcome
  denial : String → HookOutcome
  escalation : String → HookOutcome
  replaced : ToolCallRequested → HookOutcome

-- a hook of a turn; each of its methods may raise
pub record Hook : Type 0 where
  pub before_turn : Engine → Outcome (Unit {0})
  pub before_sample : Engine → Outcome (Unit {0})
  pub before_tool : Engine → ToolCallRequested → Outcome HookOutcome
  pub after_tool : Engine → ToolCallRequested → Json → Bool → Outcome (Option Json)
  pub after_turn : Engine → SessionEvent → Outcome (Unit {0})

-- a tool's run: the messages it emitted, and what it returned or the error it raised
pub record Ran : Type 0 where
  pub messages : List String
  pub result : Json
  pub is_error : Bool

-- What the runtime wrote while an ask was open: commands, the answer, and commands.
pub record Answered : Type 0 where
  pub before : List InputQueued
  pub answer : AskAnswered
  pub after : List InputQueued

pub record PreparedCall : Type 0 where
  pub call : ToolCallRequested
  pub effective : ToolCallRequested
  pub kwargs : Dict Json

-- `output_schema` is its validation; `allow_asks` and `can_ask` say whether people can be asked, `dumps`
-- is `json.dumps`, and `reload` reads back what it gives.
pub record Setup : Type 0 where
  pub compacts : Bool
  pub output_schema : Option (Dict Json → Checked Json)
  pub permissions : List (String × Permission)
  pub default_permission : Permission
  pub permission_chain : List (List (String × Permission))
  pub tools : Dict Tool
  pub hooks : List Hook
  pub allow_asks : Bool
  pub can_ask : Bool
  pub fnmatch : String → String → Bool
  pub dumps : Dict Json → String
  pub reload : Dict Json → Json
  pub repr : String → String
  pub uuid : Engine → String
  pub human : Engine → AskRaised → Answered
  pub run_tool : Engine → PreparedCall → Ran
  pub choices : Engine → List (List Bool)
