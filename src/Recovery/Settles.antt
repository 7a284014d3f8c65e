-- ===== src/Recovery/Settles.antt =====
-- After recovery no turn is left running.
use tantra.Prelude.{
  String, ◌≡◌, refl, ap, ◌∙◌, sym, inl, inr, Option, none, some, List, [], ◌∷◌, ◌++◌, has, arith,
  map, eq_iff, eq_refl, if◌then◌else◌, Bool-cases, Option-cases,
}
use tantra.Prelude.Dict.{Dict}
use tantra.Events.{SessionEvent, TurnStarted, Stamped}
use tantra.Journal.{reduce_journal}
use tantra.Journal.Machine.{Live, idle, run, advance, IsJournal}
use tantra.Journal.Refines.{reduce_journal-run}
use tantra.Recovery.{
  reduce_operational, recovery_events, events_of, cancel, cancelled_turns, interrupt,
}

run-append : (s : Live) (xs ys : List SessionEvent) → run s (xs ++ ys) ≡ run (run s xs) ys
run-append s [] ys = refl
run-append s (x ∷ xs) ys = run-append (advance s x) xs ys

IsJournal-append :
    (s : Live) (xs ys : List SessionEvent)
    → IsJournal s xs
    → IsJournal (run s xs) ys
    → IsJournal s (xs ++ ys)
IsJournal-append s [] ys h k = k
IsJournal-append s (x ∷ xs) ys h k = (h.0, IsJournal-append (advance s x) xs ys h.1 k)

IsJournal-interrupt :
    (s : Live) (settled : List String) (t : Option TurnStarted) → IsJournal s (interrupt settled t)
IsJournal-interrupt s settled none = tt
IsJournal-interrupt s settled (some t) = elim (Bool-cases (has settled t.turn_id)) [
  | inl p ↦ rw p tt
  | inr p ↦ rw p (tt, tt)
]

IsJournal-cancel :
    (s : Live) (turns : List String) (ys : List SessionEvent)
    → ((u : Live) → IsJournal u ys)
    → IsJournal s (map cancel turns ++ ys)
IsJournal-cancel s [] ys h = h s
IsJournal-cancel s (t ∷ ts) ys h = (tt, IsJournal-cancel (advance s (cancel t)) ts ys h)

-- what still runs after some turns were cancelled
abbrev unless : List String → Option TurnStarted → Option TurnStarted
unless turns none = none
unless turns (some t) = if has turns t.turn_id then none else some t

running-cancel :
    (s : Live) (turns : List String) → (run s (map cancel turns)).running ≡ unless turns s.running
running-cancel s [] = elim (Option-cases s.running) [ inl p ↦ rw p refl | inr (t, p) ↦ rw p refl ]
running-cancel s (t ∷ ts) = elim (Option-cases s.running) [
  | inl p ↦ ground (arith, running-cancel (advance s (cancel t)) ts)
  | inr (u, p) ↦
      ground
        (arith, running-cancel (advance s (cancel t)) ts, eq_iff u.turn_id t, eq_iff t u.turn_id)
]

running-interrupt :
    (s : Live) (settled : List String) (t : Option TurnStarted)
    → s.running ≡ unless settled t
    → (run s (interrupt settled t)).running ≡ none
running-interrupt s settled none h = h
running-interrupt s settled (some t) h = elim (Bool-cases (has settled t.turn_id)) [
  | inl p ↦ ground arith
  | inr p ↦ ground (arith, eq_refl t.turn_id)
]

-- When the events of recovery are appended to an actor's journal, no turn is incomplete, whatever
-- was cancelled. The journal is one that the runtime writes: a turn starts when none runs, under
-- an id that has not ended, and commands come under new ids.
pub incomplete-recovery_events :
    (cancelled : Dict (List String)) (actor : String) (journal : List Stamped)
    → IsJournal idle (events_of journal)
    → (reduce_journal (
        events_of journal
        ++ recovery_events cancelled actor (reduce_operational journal))).incomplete
      ≡ none
unfolding recovery_events reduce_operational
incomplete-recovery_events cancelled actor journal j =
    let events : List SessionEvent = events_of journal in
    let settled : List String = cancelled_turns cancelled actor (reduce_operational journal) in
    let left : Option TurnStarted = (reduce_journal events).incomplete in
    let new : List SessionEvent = map cancel settled ++ interrupt settled left in
    let was : left ≡ (run idle events).running = (reduce_journal-run events j).1 in
    let u : Live = run (run idle events) (map cancel settled) in
    let k : IsJournal idle (events ++ new) = IsJournal-append idle events new j (
      IsJournal-cancel (run idle events) settled (interrupt settled left)
        (λ v. IsJournal-interrupt v settled left)) in
    (reduce_journal-run (events ++ new) k).1
    ∙ ap (λ s. s.running) (run-append idle events new)
    ∙ ap (λ s. s.running)
        (run-append (run idle events) (map cancel settled) (interrupt settled left))
    ∙ running-interrupt u settled left
        (running-cancel (run idle events) settled ∙ ap (unless settled) (sym was))
