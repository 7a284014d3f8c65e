-- ===== src/Turn/Counts.antt =====
-- How often a list of events requests a call, and how often it completes one.
use tantra.Prelude.{
  ℕ, ◌+◌, String, ◌≡◌, refl, Bool, true, false, List, [], ◌∷◌, ◌++◌, arith, ◌==◌, map,
  if◌then◌else◌, Option, none, some,
}
use tantra.Json.{Json}
use tantra.Events.{
  SessionEvent, ToolCallRequested, text_part, sample_completed, tool_progress, tool_call_requested,
  tool_call_completed,
}
use tantra.Messages.{StreamEnd, ReasoningBlock}
use tantra.Turn.{Engine}
use tantra.Turn.Parts.{
  Request, reasoning_event, text_events, rejected, requested, completion, parts,
}
use tantra.Turn.Setup.{PreparedCall, Setup}
use tantra.Turn.Batch.{weave, weave_all, transformed, end_of_run, raise_first, invocation}
use tantra.Prelude.Outcome.{Outcome, ok, raise}
use tantra.Json.{Json}

abbrev pub is_request : String → SessionEvent → ℕ
is_request id (tool_call_requested e) = if e.call_id == id then 1 else 0
is_request id _ = 0

abbrev pub is_completion : String → SessionEvent → ℕ
is_completion id (tool_call_completed e) = if e.call_id == id then 1 else 0
is_completion id _ = 0

-- the sum of `f` over events
unfoldable pub total : (SessionEvent → ℕ) → List SessionEvent → ℕ
total f [] = 0
total f (e ∷ es) = f e + total f es

abbrev pub requests : String → List SessionEvent → ℕ
requests id = total (is_request id)

abbrev pub completions : String → List SessionEvent → ℕ
completions id = total (is_completion id)

module _ (f : SessionEvent → ℕ) where
  pub total-append : (xs ys : List SessionEvent) → total f (xs ++ ys) ≡ total f xs + total f ys
  unfolding total
  total-append [] ys = ground arith
  total-append (x ∷ xs) ys = ground (arith, total-append xs ys)

  pub total-weave :
      (cs : List Bool) (xs ys : List SessionEvent)
      → total f (weave cs xs ys) ≡ total f xs + total f ys
  unfolding total
  total-weave [] xs ys = total-append xs ys
  total-weave (c ∷ cs) [] ys = ground arith
  total-weave (c ∷ cs) (x ∷ xs) [] = ground arith
  total-weave (true ∷ cs) (x ∷ xs) (y ∷ ys) = ground (arith, total-weave cs xs (y ∷ ys))
  total-weave (false ∷ cs) (x ∷ xs) (y ∷ ys) = ground (arith, total-weave cs (x ∷ xs) ys)

-- what is owed for calls
abbrev pub owed : String → ToolCallRequested → ℕ
owed id call = if call.call_id == id then 1 else 0

abbrev pub owed_option : String → Option PreparedCall → ℕ
owed_option id none = 0
owed_option id (some p) = owed id p.call

abbrev pub owed_prepared : String → List PreparedCall → ℕ
owed_prepared id [] = 0
owed_prepared id (p ∷ ps) = owed id p.call + owed_prepared id ps

abbrev pub owed_requests : String → List Request → ℕ
owed_requests id [] = 0
owed_requests id ((call, none) ∷ rs) = owed id call + owed_requests id rs
owed_requests id ((call, some _) ∷ rs) = owed_requests id rs

-- events that a function makes, none of which counts
pub total-map {ℓ} :
    {A : Type ℓ} (f : SessionEvent → ℕ) (g : A → SessionEvent)
    → ((a : A) → f (g a) ≡ 0)
    → (l : List A) → total f (map g l) ≡ 0
unfolding total
total-map f g h [] = refl
total-map f g h (a ∷ l) = ground (arith, h a, total-map f g h l)

pub completions-completion :
    (id call_id : String) (result : Json) (is_error : Bool)
    → (completions id (completion call_id result is_error) ≡ (if call_id == id then 1 else 0))
      × (requests id (completion call_id result is_error) ≡ 0)
unfolding total
completions-completion id call_id result is_error = (ground arith, ground arith)

pub requests-rejected : (id : String) (rs : List Request) → requests id (rejected rs) ≡ 0
unfolding total
requests-rejected id [] = refl
requests-rejected id ((call, none) ∷ rs) = requests-rejected id rs
requests-rejected id ((call, some e) ∷ rs) = ground (arith, requests-rejected id rs)

pub completions-requested : (id : String) (rs : List Request) → completions id (requested rs) ≡ 0
unfolding total
completions-requested id [] = refl
completions-requested id ((call, e) ∷ rs) = ground (arith, completions-requested id rs)

-- Each call is requested, and its completion is written at once or is owed.
pub requests-requested :
    (id : String) (rs : List Request)
    → requests id (requested rs) ≡ completions id (rejected rs) + owed_requests id rs
unfolding total
requests-requested id [] = ground arith
requests-requested id ((call, none) ∷ rs) = ground (arith, requests-requested id rs)
requests-requested id ((call, some e) ∷ rs) = ground (arith, requests-requested id rs)

-- of a sample only the calls and the completions of invalid ones can count
total-parts :
    (f : SessionEvent → ℕ) (sample_id : String) (end : StreamEnd) (rs : List Request)
    → ((block : ReasoningBlock) → f (reasoning_event sample_id block) ≡ 0)
    → total f (text_events sample_id end.text) ≡ 0
    → f (
        sample_completed
          (record { sample_id = sample_id; usage = end.usage; finish_reason = end.finish_reason }))
      ≡ 0
    → total f (parts sample_id end rs) ≡ total f (requested rs) + total f (rejected rs)
unfolding total parts
total-parts f sample_id end rs h t c =
    let done : SessionEvent =
      sample_completed
        (record { sample_id = sample_id; usage = end.usage; finish_reason = end.finish_reason }) in
    let calls = requested rs ++ (done ∷ rejected rs) in
    let x =
      total-append f (map (reasoning_event sample_id) end.reasoning)
        (text_events sample_id end.text ++ calls) in
    let y = total-append f (text_events sample_id end.text) calls in
    let z = total-append f (requested rs) (done ∷ rejected rs) in
    let w = total-map f (reasoning_event sample_id) h end.reasoning in omega arith

text_events_nothing :
    (f : SessionEvent → ℕ) (sample_id said : String)
    → f (text_part (record { sample_id = sample_id; text = said })) ≡ 0
    → total f (text_events sample_id said) ≡ 0
unfolding total
text_events_nothing f sample_id said h = ground arith

pub requests-parts :
    (id sample_id : String) (end : StreamEnd) (rs : List Request)
    → requests id (parts sample_id end rs)
      ≡ completions id (parts sample_id end rs) + owed_requests id rs
requests-parts id sample_id end rs =
    let x =
      total-parts (is_request id) sample_id end rs (λ b. refl)
        (text_events_nothing (is_request id) sample_id end.text refl) refl in
    let y =
      total-parts (is_completion id) sample_id end rs (λ b. refl)
        (text_events_nothing (is_completion id) sample_id end.text refl) refl in
    let z = requests-requested id rs in
    let u = requests-rejected id rs in let v = completions-requested id rs in omega arith

module _ (setup : Setup) (id : String) where
  completions-end_of_run :
      (call : ToolCallRequested) (is_error : Bool) (r : Outcome Json) (result : Json)
      → r ≡ ok result
      → (completions id (end_of_run setup call is_error r) ≡ owed id call)
        × (requests id (end_of_run setup call is_error r) ≡ 0)
  unfolding total
  completions-end_of_run call is_error (ok given) result h = (ground arith, ground arith)
  completions-end_of_run call is_error (raise e) result h = absurd (ground arith)

  -- A run whose hooks do not raise completes its call.
  completions-invocation :
      (e : Engine) (p : PreparedCall) (result : Json)
      → transformed setup e p ≡ ok result
      → (completions id (invocation setup e p) ≡ owed id p.call)
        × (requests id (invocation setup e p) ≡ 0)
  unfolding invocation total
  completions-invocation e p result h =
      let ran = setup.run_tool e p in
      let says : String → SessionEvent =
        λ message. tool_progress (record { call_id = p.call.call_id; message = message }) in
      let last : List SessionEvent = end_of_run setup p.call ran.is_error (transformed setup e p) in
      let x = total-append (is_completion id) (map says ran.messages) last in
      let y = total-append (is_request id) (map says ran.messages) last in
      let z = total-map (is_completion id) says (λ m. refl) ran.messages in
      let w = total-map (is_request id) says (λ m. refl) ran.messages in
      let (c, d) = completions-end_of_run p.call ran.is_error (transformed setup e p) result h in
      (omega arith, omega arith)

  raise_first-cons :
      (r : Outcome Json) (rs : List (Outcome Json)) (s t : Engine)
      → raise_first setup (r ∷ rs) s ≡ (ok tt, t)
      → (result : Json) × (r ≡ ok result) × (raise_first setup rs s ≡ (ok tt, t))
  raise_first-cons (ok result) rs s t h = (result, refl, h)
  raise_first-cons (raise e) rs s t h = absurd (ground arith)

  pub completions-runs :
      (e s t : Engine) (cs : List (List Bool)) (ps : List PreparedCall)
      → raise_first setup (map (transformed setup e) ps) s ≡ (ok tt, t)
      → (completions id (weave_all cs (map (invocation setup e) ps)) ≡ owed_prepared id ps)
        × (requests id (weave_all cs (map (invocation setup e) ps)) ≡ 0)
  unfolding total
  completions-runs e s t cs [] h = (refl, refl)
  completions-runs e s t [] (p ∷ ps) h =
      let (result, g, k) =
        raise_first-cons (transformed setup e p) (map (transformed setup e) ps) s t h in
      let (a, b) = completions-runs e s t [] ps k in
      let (c, d) = completions-invocation e p result g in
      let run = invocation setup e p in
      let rest = weave_all [] (map (invocation setup e) ps) in
      (
        ground (arith, total-append (is_completion id) run rest),
        ground (arith, total-append (is_request id) run rest),
      )
  completions-runs e s t (w ∷ cs) (p ∷ ps) h =
      let (result, g, k) =
        raise_first-cons (transformed setup e p) (map (transformed setup e) ps) s t h in
      let (a, b) = completions-runs e s t cs ps k in
      let (c, d) = completions-invocation e p result g in
      let run = invocation setup e p in
      let rest = weave_all cs (map (invocation setup e) ps) in
      (
        ground (arith, total-weave (is_completion id) w run rest),
        ground (arith, total-weave (is_request id) w run rest),
      )
