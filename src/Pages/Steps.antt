-- ===== src/Pages/Steps.antt =====
-- The cache over any sequence of calls.
use tantra.Prelude.{
  ℕ, ◌+◌, ◌-◌, String, ◌≡◌, sym, subst, true, ◌||◌, not, inl, inr, some, List, [], ◌∷◌, All, arith,
  Bool-cases, Option-cases, is_some, last?, length, ltb, ◌==◌,
}
use tantra.Prelude.Dict
use tantra.Prelude.Dict.{Dict}
use tantra.Events.{Stamped}
use tantra.Pages.{
  Recent, CommittedPages, opened, retain, advance, forget, invalidate, release, evict, store_recent,
  publish, cached, close, was_deleted, after_number, spans, fresh, has_items, admit_all,
  cache_actors, cache_bytes,
}
use tantra.Pages.Runs.{IsEntry, IsEntry-fresh, admit_all-IsEntry, Numbered, after_number-Numbered}

abbrev pub AreEntries : Dict Recent → Type 0
AreEntries = All (λ e. IsEntry e.1)

AreEntries-remove : (d : Dict Recent) (sid : String) → AreEntries d → AreEntries (Dict.remove d sid)
unfolding Dict.remove
AreEntries-remove [] sid h = tt
AreEntries-remove ((j, e) ∷ d) sid h = elim (Bool-cases (j == sid)) [
  | inl p ↦ rw p (AreEntries-remove d sid h.1)
  | inr p ↦ rw p (h.0, AreEntries-remove d sid h.1)
]

AreEntries-put :
    (d : Dict Recent) (sid : String) (entry : Recent)
    → IsEntry entry
    → AreEntries d
    → AreEntries (Dict.put d sid entry)
unfolding Dict.put
AreEntries-put [] sid entry i h = (i, tt)
AreEntries-put ((j, e) ∷ d) sid entry i h = elim (Bool-cases (j == sid)) [
  | inl p ↦ rw p (i, h.1)
  | inr p ↦ rw p (h.0, AreEntries-put d sid entry i h.1)
]

AreEntries-get :
    (d : Dict Recent) (sid : String) (entry : Recent)
    → AreEntries d
    → Dict.get d sid ≡ some entry
    → IsEntry entry
unfolding Dict.get
AreEntries-get [] sid entry h p = absurd (ground arith)
AreEntries-get ((j, e) ∷ d) sid entry h p = elim (Bool-cases (j == sid)) [
  | inl q ↦ let r : e ≡ entry = ground arith in subst IsEntry r h.0
  | inr q ↦ AreEntries-get d sid entry h.1 (ground arith)
]

AreEntries-evict : (d : Dict Recent) (size : ℕ) → AreEntries d → AreEntries (evict d size).0
AreEntries-evict [] size h = tt
AreEntries-evict ((sid, e) ∷ d) size h =
    elim (Bool-cases (ltb cache_actors (length ((sid, e) ∷ d)) || ltb cache_bytes size)) [
      | inl p ↦ rw p (AreEntries-evict d (size - e.size) h.1)
      | inr p ↦ rw p h
    ]

forget-AreEntries :
    (sid : String) (s : CommittedPages) → AreEntries s.recent → AreEntries (forget sid s).recent
unfolding forget
forget-AreEntries sid s h = elim (Option-cases (Dict.get s.recent sid)) [
  | inl p ↦ rw (p, forget) h
  | inr (e, p) ↦ rw (p, forget) (AreEntries-remove s.recent sid h)
]

invalidate-AreEntries :
    (sid : String) (s : CommittedPages) → AreEntries s.recent → AreEntries (invalidate sid s).recent
unfolding invalidate
invalidate-AreEntries sid s h = elim (Option-cases (Dict.get (forget sid s).readers sid)) [
  | inl p ↦ rw (p, invalidate) (forget-AreEntries sid s h)
  | inr (e, p) ↦ rw (p, invalidate) (forget-AreEntries sid s h)
]

release-AreEntries :
    (sid : String) (s : CommittedPages) → AreEntries s.recent → AreEntries (release sid s).recent
unfolding release
release-AreEntries sid s h = elim (Option-cases (Dict.get s.readers sid)) [
  | inl p ↦ rw (p, release) h
  | inr (state, p) ↦ elim (Bool-cases (ltb 1 state.users)) [
    | inl q ↦ rw (p, release) (rw q h)
    | inr q ↦
        rw (p, release)
          (rw q (forget-AreEntries sid (record s { readers = Dict.remove s.readers sid }) h))
  ]
]

advance-recent :
    (sid : String) (seq : ℕ) (s : CommittedPages) → (advance sid seq s).recent ≡ s.recent
unfolding advance
advance-recent sid seq s = ground arith

retain-recent : (sid : String) (s : CommittedPages) → (retain sid s).recent ≡ s.recent
unfolding retain
retain-recent sid s = ground arith

get_or-IsEntry : (d : Dict Recent) (sid : String) → AreEntries d → IsEntry (Dict.get_or d sid fresh)
get_or-IsEntry d sid h = elim (Option-cases (Dict.get d sid)) [
  | inl p ↦ rw (p, Dict.get_or) IsEntry-fresh
  | inr (e, p) ↦ rw (p, Dict.get_or) (AreEntries-get d sid e h p)
]

module _ (size_of : Stamped → ℕ) where
  store_recent-AreEntries :
      (sid : String) (items : List Stamped) (s : CommittedPages)
      → AreEntries s.recent
      → AreEntries (store_recent size_of sid items s).recent
  unfolding store_recent
  store_recent-AreEntries sid items s h =
      let entry : Recent = Dict.get_or s.recent sid fresh in
      let entry' : Recent = admit_all size_of entry items in
      let others : AreEntries (Dict.remove s.recent sid) = AreEntries-remove s.recent sid h in
      let i : IsEntry entry' =
        admit_all-IsEntry size_of items entry (get_or-IsEntry s.recent sid h) in
      elim (Bool-cases (has_items entry')) [
        | inl p ↦ rw (p, store_recent) (AreEntries-evict _ _ (AreEntries-put _ sid entry' i others))
        | inr p ↦ rw (p, store_recent) (AreEntries-evict _ _ others)
      ]

  publish-AreEntries :
      (sid : String) (items : List Stamped) (s : CommittedPages)
      → AreEntries s.recent
      → AreEntries (publish size_of sid items s).recent
  unfolding publish
  publish-AreEntries sid items s h = elim (Option-cases (last? items)) [
    | inl p ↦ rw (p, publish) h
    | inr (x, p) ↦
        elim (Bool-cases (
          not (is_some (Dict.get s.readers sid))
          || was_deleted (Dict.get s.readers sid)
          || s.closed)) [
            | inl q ↦ rw (p, publish) (rw q h)
            | inr q ↦
                rw (p, publish)
                  (rw q (
                    store_recent-AreEntries sid items (advance sid x.seq s)
                      (subst AreEntries (sym (advance-recent sid x.seq s)) h)))
          ]
  ]

cached-AreEntries :
    (sid : String) (after : ℕ) (s : CommittedPages)
    → AreEntries s.recent
    → AreEntries (cached sid after s).1.recent
unfolding cached
cached-AreEntries sid after s h = elim (Option-cases (Dict.get s.recent sid)) [
  | inl p ↦ rw (p, cached) h
  | inr (e, p) ↦ elim (Bool-cases (spans (after + 1) e)) [
    | inl q ↦
        rw (p, cached)
          (rw q (
            AreEntries-put _ sid e (AreEntries-get s.recent sid e h p)
              (AreEntries-remove s.recent sid h)))
    | inr q ↦ rw (p, cached) (rw q h)
  ]
]

-- what readers and writers do with the cache
pub data Step : Type 0 where
  retains releases invalidates : String → Step
  advances : String → ℕ → Step
  publishes : String → List Stamped → Step
  reads : String → ℕ → Step
  closes : Step

module _ (size_of : Stamped → ℕ) where
  abbrev pub after_step : Step → CommittedPages → CommittedPages
  after_step (retains sid) s = retain sid s
  after_step (releases sid) s = release sid s
  after_step (invalidates sid) s = invalidate sid s
  after_step (advances sid seq) s = advance sid seq s
  after_step (publishes sid items) s = publish size_of sid items s
  after_step (reads sid after) s = (cached sid after s).1
  after_step closes s = close s

  abbrev pub after_steps : List Step → CommittedPages → CommittedPages
  after_steps [] s = s
  after_steps (c ∷ cs) s = after_steps cs (after_step c s)

  after_step-AreEntries :
      (c : Step) (s : CommittedPages) → AreEntries s.recent → AreEntries (after_step c s).recent
  unfolding close
  after_step-AreEntries (retains sid) s h = subst AreEntries (sym (retain-recent sid s)) h
  after_step-AreEntries (releases sid) s h = release-AreEntries sid s h
  after_step-AreEntries (invalidates sid) s h = invalidate-AreEntries sid s h
  after_step-AreEntries (advances sid seq) s h = subst AreEntries (sym (advance-recent sid seq s)) h
  after_step-AreEntries (publishes sid items) s h = publish-AreEntries size_of sid items s h
  after_step-AreEntries (reads sid after) s h = cached-AreEntries sid after s h
  after_step-AreEntries closes s h = tt

  after_steps-AreEntries :
      (cs : List Step) (s : CommittedPages)
      → AreEntries s.recent
      → AreEntries (after_steps cs s).recent
  after_steps-AreEntries [] s h = h
  after_steps-AreEntries (c ∷ cs) s h =
      after_steps-AreEntries cs (after_step c s) (after_step-AreEntries c s h)

  -- After any calls on a new cache, each session's entry holds events with consecutive numbers, at
  -- most `actor_events` of them, its size is 1024 and the sum of their sizes, and it is at most
  -- `actor_bytes`, whatever events were published and whatever they measure.
  pub after_steps-opened-AreEntries : (cs : List Step) → AreEntries (after_steps cs opened).recent
  after_steps-opened-AreEntries cs = after_steps-AreEntries cs opened tt

  -- Whatever calls came before on a new cache, a page that it answers from memory has an event, and
  -- its events are numbered from the one after `after` on, with no gap.
  pub cached-Numbered :
      (cs : List Step) (sid : String) (after : ℕ) (page : List Stamped)
      → (cached sid after (after_steps cs opened)).0 ≡ some page
      → Numbered (after + 1) page × (is_some (last? page) ≡ true)
  unfolding cached
  cached-Numbered cs sid after page h =
      let s : CommittedPages = after_steps cs opened in
      elim (Option-cases (Dict.get s.recent sid)) [
        | inl p ↦ absurd (ground arith)
        | inr (e, p) ↦ elim (Bool-cases (spans (after + 1) e)) [
          | inl q ↦
              let r : after_number after e.items ≡ page = ground arith in
              let i : IsEntry e =
                AreEntries-get s.recent sid e (after_steps-opened-AreEntries cs) p in
              subst (λ l. Numbered (after + 1) l × (is_some (last? l) ≡ true)) r
                (after_number-Numbered after e i q)
          | inr q ↦ absurd (ground arith)
        ]
      ]
