-- ===== src/Compaction/Tail/Budget.antt =====
-- What `_tail_start` returns: `tail_turns` has no part in it.
use mathlib.Core.List.{reverse, reverse-append}
use tantra.Prelude.{
  ℕ, ◌+◌, ◌-◌, ◌≤◌, ◌≡◌, refl, sym, ap, ◌∙◌, ◌⊎◌, inl, inr, List, [], ◌∷◌, ◌++◌, some, Bool, false,
  arith, drop, take, take-append-drop, length, min, max, last?, Bool-cases, Option-cases,
}
use tantra.Events.{SessionEvent}
use tantra.Compaction.Estimate.{Codec, rough}
use tantra.Compaction.Tail.{
  stopped, through, boundary_of, scan, tail_start, starts_from, over_budget,
}

-- Two loops in a row are one.
scan-append :
    (over : ℕ → Bool) (b : ℕ) (xs ys : List ℕ)
    → boundary_of (scan over b (xs ++ ys))
      ≡ (elim (scan over b xs) [ stopped c ↦ c | through c ↦ boundary_of (scan over c ys) ])
unfolding scan
scan-append over b [] ys = refl
scan-append over b (x ∷ xs) ys = ground (arith, scan-append over x xs ys)

-- all starts but the last, from the last one back
abbrev earlier : List ℕ → List ℕ
earlier starts = reverse (take (length starts - 1) starts)

length-pos : (starts : List ℕ) (last : ℕ) → last? starts ≡ some last → 1 ≤ length starts
length-pos [] last h = absurd (ground arith)
length-pos (x ∷ xs) last h = omega arith

module _ (codec : Codec) (events : List SessionEvent) (budget : ℕ) where
  tail_start-eq-scan :
      (tail_turns last : ℕ)
      → last? (starts_from 0 events) ≡ some last
      → tail_start codec events budget tail_turns
        ≡ boundary_of (scan (over_budget codec events budget) last (earlier (starts_from 0 events)))
  unfolding tail_start
  tail_start-eq-scan tail_turns last h =
      let starts : List ℕ = starts_from 0 events in
      let n : ℕ = length starts in
      let p : ℕ = min (max tail_turns 1) n in
      let over : ℕ → Bool = over_budget codec events budget in
      let early : List ℕ = take (n - p) starts in
      let recent : List ℕ = take (p - 1) (drop (n - p) starts) in
      let k : (n - p) + (p - 1) ≡ n - 1 = omega (arith, length-pos starts last h) in
      let joined : early ++ recent ≡ take (n - 1) starts =
        take-append-drop (n - p) (p - 1) starts ∙ ap (λ (m : ℕ). take m starts) k in
      rw (h, tail_start)
        (sym (scan-append over last (reverse recent) (reverse early))
          ∙ ap (λ (l : List ℕ). boundary_of (scan over last l))
              (sym (reverse-append early recent) ∙ ap reverse joined))

  -- `_tail_start` returns the same index whatever `tail_turns` is.
  pub tail_start_ignores_tail_turns :
      (t t' : ℕ) → tail_start codec events budget t ≡ tail_start codec events budget t'
  tail_start_ignores_tail_turns t t' = elim (Option-cases (last? (starts_from 0 events))) [
    | inl p ↦ unfold tail_start in rw (p, tail_start)
    | inr (last, p) ↦ tail_start-eq-scan t last p ∙ sym (tail_start-eq-scan t' last p)
  ]

  scan_fits :
      (over : ℕ → Bool) (b : ℕ) (xs : List ℕ)
      → (boundary_of (scan over b xs) ≡ b) ⊎ (over (boundary_of (scan over b xs)) ≡ false)
  unfolding scan
  scan_fits over b [] = inl refl
  scan_fits over b (x ∷ xs) = elim (Bool-cases (over x)) [
    | inl e ↦ inl (ground arith)
    | inr e ↦ elim (scan_fits over x xs) [ inl f ↦ inr (ground arith) | inr f ↦ inr (ground arith) ]
  ]

  -- Where there is a turn, `_tail_start` returns the start of the last one, or an index from which
  -- the events are estimated to fit the budget.
  pub tail_start_fits :
      (tail_turns last : ℕ)
      → last? (starts_from 0 events) ≡ some last
      → (tail_start codec events budget tail_turns ≡ last)
        ⊎ (rough codec (drop (tail_start codec events budget tail_turns) events) "" ≤ budget)
  tail_start_fits tail_turns last h =
      rw (tail_start-eq-scan tail_turns last h)
        (elim (scan_fits (over_budget codec events budget) last (earlier (starts_from 0 events))) [
          | inl e ↦ inl e
          | inr e ↦ inr (ground arith)
        ])
