-- ===== src/MemoryStore/Retries.antt =====
-- `enqueue` of a command that was accepted before, after whatever calls came in between.
use tantra.Prelude.{
  ℕ, ◌+◌, String, ◌≡◌, ap, subst, Bool, true, false, ◌||◌, inl, inr, Option, none, some, List, [],
  ◌∷◌, ◌++◌, arith, has, Bool-cases, Option-cases, length, append-nil,
}
use tantra.Prelude.Dict
use tantra.Prelude.Dict.{get-put, get-put_self, get-remove, put_self}
use tantra.Prelude.Outcome.{Outcome, Error, ok, raise, Outcome-cases, invalid_command_reuse}
use tantra.Events.{SessionEvent, SessionHeader, Stamped, InputQueued, input_queued, same_input}
use tantra.Header.{Patch, reduce_header}
use tantra.MemoryStore.{
  MemoryStore, EnqueueResult, create, put_header, patch_header, append, enqueue, find_command,
  log_of, store_header, stamp, memory_put, has_opt,
}
use tantra.MemoryStore.Tree.{delete_tree, delete_checks, drop_all}
use tantra.MemoryStore.Commands.{Accepted, enqueue-Accepted}
use tantra.MemoryStore.Calls.{
  Call, creates, puts, patches, appends, enqueues, deletes, remembers, after_call, after_calls,
}
use tantra.MemoryStore.Remains.{
  Stands, Remains, Remains-header, Remains-log, Remains-drop_all, Remains-new,
}

-- What is found at the beginning of a log is found when the log has grown.
find_command-some :
    (e : InputQueued) (log more : List Stamped) (n : ℕ)
    → find_command e log ≡ ok (some n)
    → find_command e (log ++ more) ≡ ok (some n)
unfolding find_command
find_command-some e [] more n h = absurd (ground arith)
find_command-some e (x ∷ log) more n h = ground (arith, find_command-some e log more n)

find_command-raise :
    (e : InputQueued) (log more : List Stamped) (x : Error)
    → find_command e log ≡ raise x
    → find_command e (log ++ more) ≡ raise x
unfolding find_command
find_command-raise e [] more x h = absurd (ground arith)
find_command-raise e (y ∷ log) more x h = ground (arith, find_command-raise e log more x)

module _ (P : List Stamped → Type 0) (grows : (log more : List Stamped) → P log → P (log ++ more))
    (sid : String) where
  module _ (uuid : String → Option String) where
    Remains-store_header :
        {A : Type 0} (now : ℕ) (j : String) (h k : SessionHeader) (events : List SessionEvent)
        (seq : ℕ) (a : A) (s : MemoryStore)
        → Dict.get s.headers j ≡ some k
        → Remains P grows sid s
        → Remains P grows sid (store_header uuid now j h events seq a s).1
    unfolding store_header
    Remains-store_header now j h k events seq a s p r =
        elim (Outcome-cases (reduce_header uuid now h events)) [
          | inl (stored, q) ↦ rw (q, store_header) (Remains-header P grows sid j _ k s p r)
          | inr (x, q) ↦ rw (q, store_header) r
        ]

    -- a log that is written as it was
    Remains-relog :
        (j : String) (s : MemoryStore)
        → Remains P grows sid s
        → Remains P grows sid (record s { events = Dict.put s.events j (log_of s j) })
    Remains-relog j s r =
        subst (λ log. Remains P grows sid (record s { events = Dict.put s.events j log }))
          (append-nil (log_of s j)) (Remains-log P grows sid j [] s r)

    Remains-append :
        (now : ℕ) (j : String) (events : List SessionEvent) (s : MemoryStore)
        → Remains P grows sid s
        → Remains P grows sid (append uuid now j events s).1
    unfolding append
    Remains-append now j events s r = elim (Option-cases (Dict.get s.headers j)) [
      | inl p ↦ rw (p, append) r
      | inr (h, p) ↦
          rw (p, append)
            (Remains-store_header now j h h events (h.last_seq + length events)
              (h.last_seq + length events) _ p
              (Remains-log P grows sid j (stamp h.last_seq events) s r))
    ]

    Remains-enqueue :
        (now : ℕ) (j : String) (e : InputQueued) (s : MemoryStore)
        → Remains P grows sid s
        → Remains P grows sid (enqueue uuid now j e s).1
    unfolding enqueue
    Remains-enqueue now j e s r = elim (Option-cases (Dict.get s.headers j)) [
      | inl p ↦ rw (p, enqueue) r
      | inr (h, p) ↦ elim (Outcome-cases (find_command e (log_of s j))) [
        | inr (x, q) ↦ rw (p, q, enqueue) (Remains-relog j s r)
        | inl (some n, q) ↦ rw (p, q, enqueue) (Remains-relog j s r)
        | inl (none, q) ↦
            rw (p, q, enqueue)
              (Remains-store_header now j h h _ (h.last_seq + 1) _ _ p (
                Remains-log P grows sid j
                  (record { seq = h.last_seq + 1; event = input_queued e } ∷ []) s r))
      ]
    ]

    Remains-create :
        (h : SessionHeader) (s : MemoryStore)
        → Remains P grows sid s
        → Remains P grows sid (create h s).1
    unfolding create
    Remains-create h s r = elim (Bool-cases (Dict.contains s.headers h.id || has s.deleted h.id)) [
      | inl p ↦ rw (p, create) r
      | inr p ↦ elim (Bool-cases (has_opt s.deleted h.root_id || has_opt s.deleted h.parent_id)) [
        | inl q ↦ rw (p, create) (rw q r)
        | inr q ↦ rw (p, create) (rw q (Remains-new P grows sid h s p r))
      ]
    ]

    Remains-delete_tree :
        (digest : List SessionHeader → String) (active : Bool)
        (before : List String → Outcome (Unit {0})) (expected : Option String) (id : String)
        (s : MemoryStore)
        → Remains P grows sid s
        → Remains P grows sid (delete_tree digest active before expected id s).1
    unfolding delete_tree
    Remains-delete_tree digest active before expected id s r =
        elim (Option-cases (Dict.get s.headers id)) [
          | inl p ↦ rw (p, delete_tree) r
          | inr (root, p) ↦
              elim (Outcome-cases (delete_checks digest active before expected id root s)) [
                | inr (x, q) ↦ rw (p, q, delete_tree) r
                | inl (ids, q) ↦ elim (Outcome-cases (drop_all ids s).0) [
                  | inl (u, t) ↦
                      rw (p, q, delete_tree) (rw t (Remains-drop_all P grows sid ids s r))
                  | inr (x, t) ↦
                      rw (p, q, delete_tree) (rw t (Remains-drop_all P grows sid ids s r))
                ]
              ]
        ]

    Remains-put_header :
        (now : ℕ) (h : SessionHeader) (s : MemoryStore)
        → Remains P grows sid s
        → Remains P grows sid (put_header now h s).1
    unfolding put_header
    Remains-put_header now h s r = elim (Option-cases (Dict.get s.headers h.id)) [
      | inl p ↦ rw (p, put_header) r
      | inr (k, p) ↦ rw (p, put_header) (Remains-header P grows sid h.id _ k s p r)
    ]

    Remains-patch_header :
        (now : ℕ) (j : String) (patch : Patch) (s : MemoryStore)
        → Remains P grows sid s
        → Remains P grows sid (patch_header now j patch s).1
    unfolding patch_header
    Remains-patch_header now j patch s r = elim (Option-cases (Dict.get s.headers j)) [
      | inl p ↦ rw (p, patch_header) r
      | inr (k, p) ↦ rw (p, patch_header) (Remains-header P grows sid j _ k s p r)
    ]

    Remains-after_call :
        (c : Call) (s : MemoryStore)
        → Remains P grows sid s
        → Remains P grows sid (after_call uuid c s)
    unfolding memory_put log_of
    Remains-after_call (creates h) s r = Remains-create h s r
    Remains-after_call (puts now h) s r = Remains-put_header now h s r
    Remains-after_call (patches now j patch) s r = Remains-patch_header now j patch s r
    Remains-after_call (appends now j events) s r = Remains-append now j events s r
    Remains-after_call (enqueues now j e) s r = Remains-enqueue now j e s r
    Remains-after_call (deletes digest active before expected id) s r =
        Remains-delete_tree digest active before expected id s r
    Remains-after_call (remembers row) s (inl p) = inl p
    Remains-after_call (remembers row) s (inr r) =
        inr (record { header = r.header; known = r.known; logged = r.logged; found = r.found })

    Remains-after_calls :
        (cs : List Call) (s : MemoryStore)
        → Remains P grows sid s
        → Remains P grows sid (after_calls uuid cs s)
    Remains-after_calls [] s r = r
    Remains-after_calls (c ∷ cs) s r =
        Remains-after_calls cs (after_call uuid c s) (Remains-after_call c s r)

    -- A session that is there after the calls has a log with `P`.
    Stands-after_calls :
        (cs : List Call) (s : MemoryStore) (h : SessionHeader)
        → Stands P grows sid s
        → Dict.get (after_calls uuid cs s).headers sid ≡ some h
        → Stands P grows sid (after_calls uuid cs s)
    Stands-after_calls cs s h r p = elim (Remains-after_calls cs s (inr r)) [
      | inl (q, d) ↦ absurd (ground arith)
      | inr t ↦ t
    ]

module _ (uuid : String → Option String) (now now' : ℕ) (cs : List Call) where
  -- A command that was accepted is, after any calls that leave its session there, accepted again
  -- with the same number, marked as a duplicate, and nothing is written.
  pub enqueue_again :
      (sid : String) (e : InputQueued) (s s1 : MemoryStore) (r : EnqueueResult) (h : SessionHeader)
      → enqueue uuid now sid e s ≡ (ok r, s1)
      → Dict.get (after_calls uuid cs s1).headers sid ≡ some h
      → enqueue uuid now' sid e (after_calls uuid cs s1)
        ≡ (ok (record { seq = r.seq; duplicate = true }), after_calls uuid cs s1)
  unfolding enqueue
  enqueue_again sid e s s1 r h t p =
      let a : Accepted sid e r s1 = enqueue-Accepted uuid now sid e s s1 r t in
      let s2 : MemoryStore = after_calls uuid cs s1 in
      let stands : Stands (λ log. find_command e log ≡ ok (some r.seq)) _ sid s2 =
        Stands-after_calls (λ log. find_command e log ≡ ok (some r.seq))
          (λ log more. find_command-some e log more r.seq) sid uuid cs s1 h
          (record { header = a.header; known = a.known; logged = a.logged; found = a.again }) p in
      rw (stands.known, enqueue)
        (rw stands.found (
          ap (λ l. (ok (record { seq = r.seq; duplicate = true }), record s2 { events = l }))
            (put_self s2.events sid (log_of s2 sid) stands.logged)))

  -- Once a command was accepted as new, another command under its id, with other contents, is
  -- refused with `InvalidCommandReuse` after any calls that leave the session there, and nothing is
  -- written.
  pub enqueue_reuse :
      (sid : String) (e e' : InputQueued) (s s1 : MemoryStore) (r : EnqueueResult)
      (h : SessionHeader)
      → enqueue uuid now sid e s ≡ (ok r, s1)
      → r.duplicate ≡ false
      → e.command_id ≡ e'.command_id
      → same_input e e' ≡ false
      → Dict.get (after_calls uuid cs s1).headers sid ≡ some h
      → enqueue uuid now' sid e' (after_calls uuid cs s1)
        ≡ (raise (invalid_command_reuse e'.command_id), after_calls uuid cs s1)
  unfolding enqueue
  enqueue_reuse sid e e' s s1 r h t f i d p =
      let a : Accepted sid e r s1 = enqueue-Accepted uuid now sid e s s1 r t in
      let s2 : MemoryStore = after_calls uuid cs s1 in
      let stands : Stands (λ log. find_command e' log ≡ raise (invalid_command_reuse e'.command_id))
          _ sid s2 =
        Stands-after_calls
          (λ log. find_command e' log ≡ raise (invalid_command_reuse e'.command_id))
          (λ log more. find_command-raise e' log more _) sid uuid cs s1 h
          (record {
            header = a.header;
            known = a.known;
            logged = a.logged;
            found = a.refused e' i d f;
          })
          p in
      rw (stands.known, enqueue)
        (rw stands.found (
          ap (λ l. (raise (invalid_command_reuse e'.command_id), record s2 { events = l }))
            (put_self s2.events sid (log_of s2 sid) stands.logged)))
