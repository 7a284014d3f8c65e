-- ===== src/Turn/IdTests.antt =====
-- Three calls, two of which the model gave the same id.
use Prim.Native.String.{count, ◌++◌ as append_text}
use package.text.Mathlib.TextLemmas.{length-append}
use tantra.Prelude.{ℕ, zero, suc, ◌≤◌, String, ◌≡◌, refl, ap, List, [], ◌∷◌, arith, map}
use tantra.Prelude.Outcome.{ok}
use tantra.Messages.{ToolCall}
use tantra.Turn.Parts.{unique_calls}
use tantra.Turn.Ids.{AreNew, asks_for, unique_calls-AreNew}

abbrev calls : List ToolCall
calls =
    record { id = "c1"; name = "echo"; args = "{}" }
    ∷ record { id = "c2"; name = "fly"; args = "{}" }
    ∷ record { id = "c2"; name = "echo"; args = "oops" }
    ∷ []

-- a text for each attempt
abbrev ticks : ℕ → String
ticks zero = ""
ticks (suc n) = append_text "x" (ticks n)

count-ticks : (n : ℕ) → count (ticks n) ≡ n
count-ticks zero = refl
count-ticks (suc n) = ground (arith, length-append "x" (ticks n), count-ticks n)

ticks-distinct : (index a b : ℕ) → a ≤ 5 → b ≤ 5 → ticks a ≡ ticks b → a ≡ b
ticks-distinct index a b l m p = ground (arith, count-ticks a, count-ticks b, ap count p)

unique_calls-AreNew_example :
    (named : List ToolCall) × (taken : List String) × (unique_calls
        (λ index attempt. ticks attempt)
        0
        ("c1" ∷ "" ∷ [])
        calls
      ≡ ok (named, taken))
    × AreNew ("c1" ∷ "" ∷ []) named
    × (map asks_for named ≡ map asks_for calls)
unique_calls-AreNew_example =
    unique_calls-AreNew (λ index attempt. ticks attempt) 5 ticks-distinct 0 ("c1" ∷ "" ∷ []) calls
      (omega arith)
