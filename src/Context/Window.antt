-- ===== src/Context/Window.antt =====
-- The window that a compaction leaves, and the history that is kept for it.
use tantra.Prelude.{
  ℕ, zero, suc, ◌-◌, ◌≤◌, ◌<◌, String, ◌≡◌, refl, sym, ap, ◌∙◌, inl, inr, none, some, List, [], ◌∷◌,
  arith, drop, drop-drop, length-drop, length, min, Option-cases,
}
use tantra.Events.{SessionEvent, CompactionApplied}
use tantra.Context.{last_applied, find_turn, floor_of, compaction_window, compacted_history}

last_applied-lt :
    (xs : List SessionEvent) (i : ℕ) (a : CompactionApplied)
    → last_applied xs ≡ some (i, a)
    → i < length xs
unfolding last_applied
last_applied-lt [] i a h = absurd (ground arith)
last_applied-lt (x ∷ xs) i a h = elim (Option-cases (last_applied xs)) [
  | inl p ↦ ground arith
  | inr ((j, b), p) ↦ ground (arith, last_applied-lt xs j b p)
]

last_applied-drop :
    (xs : List SessionEvent) (k i : ℕ) (a : CompactionApplied)
    → last_applied xs ≡ some (i, a)
    → k ≤ i
    → last_applied (drop k xs) ≡ some (i - k, a)
unfolding last_applied
last_applied-drop xs zero i a h l = rw h (ground arith)
last_applied-drop [] (suc k) i a h l = absurd (ground arith)
last_applied-drop (x ∷ xs) (suc k) i a h l = elim (Option-cases (last_applied xs)) [
  | inl p ↦ absurd (ground arith)
  | inr ((j, b), p) ↦ ground (arith, last_applied-drop xs k j b p)
]

find_turn-lt :
    (id : String) (xs : List SessionEvent) (i : ℕ) → find_turn id xs ≡ some i → i < length xs
unfolding find_turn
find_turn-lt id [] i h = absurd (ground arith)
find_turn-lt id (x ∷ xs) i h = elim (Option-cases (find_turn id xs)) [
  | inl p ↦ ground arith
  | inr (j, p) ↦ ground (arith, find_turn-lt id xs j p)
]

find_turn-drop :
    (id : String) (xs : List SessionEvent) (k i : ℕ)
    → find_turn id xs ≡ some i
    → k ≤ i
    → find_turn id (drop k xs) ≡ some (i - k)
unfolding find_turn
find_turn-drop id xs zero i h l = rw h (ground arith)
find_turn-drop id [] (suc k) i h l = absurd (ground arith)
find_turn-drop id (x ∷ xs) (suc k) i h l = elim (Option-cases (find_turn id xs)) [
  | inl p ↦ absurd (ground arith)
  | inr (j, p) ↦ ground (arith, find_turn-drop id xs k j p)
]

find_turn-drop-none :
    (id : String) (xs : List SessionEvent) (k : ℕ)
    → find_turn id xs ≡ none
    → find_turn id (drop k xs) ≡ none
unfolding find_turn
find_turn-drop-none id xs zero h = h
find_turn-drop-none id [] (suc k) h = refl
find_turn-drop-none id (x ∷ xs) (suc k) h = elim (Option-cases (find_turn id xs)) [
  | inl p ↦ find_turn-drop-none id xs k p
  | inr (j, p) ↦ absurd (ground arith)
]

floor_of-le :
    (l : ℕ) (a : CompactionApplied) (xs : List SessionEvent)
    → l < length xs
    → floor_of l a xs ≤ length xs
floor_of-le l a xs h = elim (Option-cases a.floor_turn_id) [
  | inl p ↦ ground arith
  | inr (id, p) ↦ elim (Option-cases (find_turn id xs)) [
    | inl q ↦ ground arith
    | inr (i, q) ↦ ground (arith, find_turn-lt id xs i q)
  ]
]

floor_of-drop :
    (l k : ℕ) (a : CompactionApplied) (xs : List SessionEvent)
    → k ≤ l
    → k ≤ floor_of l a xs
    → floor_of (l - k) a (drop k xs) ≡ floor_of l a xs - k
floor_of-drop l k a xs h g = elim (Option-cases a.floor_turn_id) [
  | inl p ↦ ground arith
  | inr (id, p) ↦ elim (Option-cases (find_turn id xs)) [
    | inl q ↦ ground (arith, find_turn-drop-none id xs k q)
    | inr (i, q) ↦ ground (arith, find_turn-drop id xs k i q)
  ]
]

compaction_window-some :
    (xs : List SessionEvent) (l : ℕ) (a : CompactionApplied)
    → last_applied xs ≡ some (l, a)
    → compaction_window xs ≡ (a.summary, drop (floor_of l a xs) xs)
unfolding compaction_window
compaction_window-some xs l a h = ground arith

compacted_history-some :
    (xs : List SessionEvent) (l : ℕ) (a : CompactionApplied)
    → last_applied xs ≡ some (l, a)
    → compacted_history xs ≡ drop (min l (floor_of l a xs)) xs
unfolding compacted_history
compacted_history-some xs l a h =
    let w : compaction_window xs ≡ (a.summary, drop (floor_of l a xs) xs) =
      compaction_window-some xs l a h in
    let n : length xs - length (drop (floor_of l a xs) xs) ≡ floor_of l a xs =
      omega
        (arith, length-drop (floor_of l a xs) xs, floor_of-le l a xs (last_applied-lt xs l a h)) in
    ground arith

compacted_history-none :
    (xs : List SessionEvent) → last_applied xs ≡ none → compacted_history xs ≡ xs
unfolding compacted_history compaction_window
compacted_history-none xs h = ground arith

-- Trimming the history at the last compaction changes neither the summary nor the window of
-- events that a request is assembled from.
pub compaction_window-compacted_history :
    (events : List SessionEvent)
    → compaction_window (compacted_history events) ≡ compaction_window events
compaction_window-compacted_history events = elim (Option-cases (last_applied events)) [
  | inl p ↦ ap compaction_window (compacted_history-none events p)
  | inr ((l, a), p) ↦
      let f : ℕ = floor_of l a events in
      let k : ℕ = min l f in
      ap compaction_window (compacted_history-some events l a p)
      ∙ compaction_window-some (drop k events) (l - k) a
          (last_applied-drop events k l a p (omega arith))
      ∙ ap (λ (n : ℕ). (a.summary, drop n (drop k events)))
          (floor_of-drop l k a events (omega arith) (omega arith))
      ∙ ap (λ (w : List SessionEvent). (a.summary, w)) (drop-drop (f - k) k events)
      ∙ ap (λ (n : ℕ). (a.summary, drop n events)) (omega arith)
      ∙ sym (compaction_window-some events l a p)
]
