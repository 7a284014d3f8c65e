-- ===== src/Pages/Tests.antt =====
-- A cache of three published events.
use tantra.Prelude.{ℕ, ◌≡◌, refl, true, some, List, [], ◌∷◌, is_some, last?}
use tantra.Prelude.Dict
use tantra.Events.{Stamped, turn_started}
use tantra.Pages.{opened, retain, publish, advance, store_recent, push, admit, cached}
use tantra.Pages.Runs.{Numbered}
use tantra.Pages.Steps.{
  Step, retains, publishes, after_steps, AreEntries, cached-Numbered, after_steps-opened-AreEntries,
}
use tantra.Samples.{start}

abbrev item : ℕ → Stamped
item n = record { seq = n; event = turn_started (start "a") }

abbrev size_of : Stamped → ℕ
size_of _ = 100

abbrev steps : List Step
steps = retains "root" ∷ publishes "root" (item 4 ∷ item 5 ∷ item 6 ∷ []) ∷ []

after_steps-opened-AreEntries_example : AreEntries (after_steps size_of steps opened).recent
after_steps-opened-AreEntries_example = after_steps-opened-AreEntries size_of steps

two_cached : (cached "root" 4 (after_steps size_of steps opened)).0 ≡ some (item 5 ∷ item 6 ∷ [])
unfolding cached retain publish advance store_recent push admit Dict.get Dict.put Dict.remove
two_cached = refl

cached-Numbered_example :
    Numbered 5 (item 5 ∷ item 6 ∷ []) × (is_some (last? (item 5 ∷ item 6 ∷ [])) ≡ true)
cached-Numbered_example = cached-Numbered size_of steps "root" 4 (item 5 ∷ item 6 ∷ []) two_cached
