-- ===== src/Journal/Tests.antt =====
-- reduce_journal at work.
use tantra.Prelude.{◌≡◌, refl, [], ◌∷◌}
use tantra.Journal.{reduce_journal}
use tantra.Journal.Machine.{run, idle}
use tantra.Journal.Refines.{reduce_journal-run}
use tantra.Samples.{journal, command}

-- the second turn runs, and the third command waits
pending_third : (reduce_journal journal).pending ≡ command "c" "third" ∷ []
unfolding reduce_journal
pending_third = refl

reduce_journal-run_example :
    ((reduce_journal journal).pending ≡ (run idle journal).queue)
    × ((reduce_journal journal).incomplete ≡ (run idle journal).running)
reduce_journal-run_example =
    reduce_journal-run journal
      ((refl, refl), ((refl, refl), (tt, ((refl, refl), ((refl, refl), ((refl, refl), tt))))))
