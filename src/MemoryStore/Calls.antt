-- ===== src/MemoryStore/Calls.antt =====
-- Any sequence of calls keeps the invariant.
use tantra.Prelude.{
  ℕ, ◌+◌, String, ◌≡◌, refl, Bool, false, inl, inr, Option, none, some, List, [], ◌∷◌, ◌++◌, arith,
  length-append, All, ◌==◌, eq_iff, Bool-cases, Option-cases,
}
use tantra.Prelude.Dict
use tantra.Prelude.Dict.{get-put, get-remove}
use tantra.Prelude.Outcome.{Outcome, Outcome-cases}
use tantra.Events.{SessionEvent, SessionHeader, InputQueued, input_queued}
use tantra.Header.{Patch}
use tantra.Header.Agrees.{HasUuid}
use tantra.Memories.{MemoryRecord}
use tantra.MemoryStore.{
  MemoryStore, empty, create, put_header, patch_header, append, enqueue, find_command, log_of,
  memory_put,
}
use tantra.MemoryStore.Tree.{delete_tree, delete_checks, erase, drop_all}
use tantra.MemoryStore.Invariant.{
  IsValid, IsStamped-append, IsValid-empty, log_of-put, create-IsValid, put_header-IsValid,
  patch_header-IsValid, append-IsValid, store_header-IsValid,
}

-- Only the sessions' headers, logs and the deleted ids matter.
IsValid-same :
    (s t : MemoryStore)
    → t.headers ≡ s.headers
    → t.deleted ≡ s.deleted
    → ((j : String) → log_of t j ≡ log_of s j)
    → IsValid s
    → IsValid t
IsValid-same s t h d l v = record {
  named = λ j k p. v.named j k (rw h at p);
  counted = λ j k p. rw (l j) (v.counted j k (rw h at p));
  stamped = λ j k p. rw (l j) (v.stamped j k (rw h at p));
  gone = λ j p. rw h (v.gone j (rw d at p));
}

log_of-rewrite :
    (s : MemoryStore) (sid j : String)
    → log_of (record s { events = Dict.put s.events sid (log_of s sid) }) j ≡ log_of s j
log_of-rewrite s sid j = ground (arith, log_of-put s s.headers sid (log_of s sid) j, eq_iff sid j)

IsValid-relog :
    (s : MemoryStore) (sid : String)
    → IsValid s
    → IsValid (record s { events = Dict.put s.events sid (log_of s sid) })
IsValid-relog s sid v = IsValid-same s _ refl refl (log_of-rewrite s sid) v

memory_put-IsValid : (row : MemoryRecord) (s : MemoryStore) → IsValid s → IsValid (memory_put row s)
unfolding memory_put log_of
memory_put-IsValid row s v = IsValid-same s _ refl refl (λ j. refl) v

log_of-remove :
    (s : MemoryStore) (headers : Dict.Dict SessionHeader) (deleted : List String) (id j : String)
    → (id == j) ≡ false
    → log_of (record s { headers = headers; events = Dict.remove s.events id; deleted = deleted }) j
      ≡ log_of s j
unfolding log_of
log_of-remove s headers deleted id j e = ground (arith, get-remove s.events id j)

erase-IsValid : (id : String) (s : MemoryStore) → IsValid s → IsValid (erase id s)
erase-IsValid id s v = record {
  named = λ j k p. ground (arith, v.named j k, get-remove s.headers id j);
  counted = λ j k p. elim (Bool-cases (id == j)) [
    | inl e ↦ absurd (ground (arith, get-remove s.headers id j))
    | inr e ↦ rw (log_of-remove s _ _ id j e) (v.counted j k (simp (get-remove, e) at p))
  ];
  stamped = λ j k p. elim (Bool-cases (id == j)) [
    | inl e ↦ absurd (ground (arith, get-remove s.headers id j))
    | inr e ↦ rw (log_of-remove s _ _ id j e) (v.stamped j k (simp (get-remove, e) at p))
  ];
  gone = λ j p. ground (arith, v.gone j, get-remove s.headers id j);
}

drop_all-IsValid : (ids : List String) (s : MemoryStore) → IsValid s → IsValid (drop_all ids s).1
unfolding drop_all
drop_all-IsValid [] s v = v
drop_all-IsValid (id ∷ ids) s v = elim (Option-cases (Dict.get s.headers id)) [
  | inl p ↦ rw (p, drop_all) v
  | inr (k, p) ↦ rw (p, drop_all) (drop_all-IsValid ids (erase id s) (erase-IsValid id s v))
]

module _ (uuid : String → Option String) (now : ℕ) where
  enqueue-IsValid :
      (sid : String) (e : InputQueued) (s : MemoryStore)
      → IsValid s
      → IsValid (enqueue uuid now sid e s).1
  unfolding enqueue
  enqueue-IsValid sid e s v = elim (Option-cases (Dict.get s.headers sid)) [
    | inl p ↦ rw (p, enqueue) v
    | inr (h, p) ↦ elim (Outcome-cases (find_command e (log_of s sid))) [
      | inr (x, q) ↦ rw (p, q, enqueue) (IsValid-relog s sid v)
      | inl (some n, q) ↦ rw (p, q, enqueue) (IsValid-relog s sid v)
      | inl (none, q) ↦
          rw (p, q, enqueue)
            (store_header-IsValid uuid now sid h (input_queued e ∷ [])
              (log_of s sid ++ record { seq = h.last_seq + 1; event = input_queued e } ∷ [])
              (h.last_seq + 1) _ s (tt, tt) v p
              (omega (
                arith,
                length-append (log_of s sid)
                    (record { seq = h.last_seq + 1; event = input_queued e } ∷ []),
                v.counted sid h p,
              ))
              (IsStamped-append 0 h.last_seq (log_of s sid) _ (omega (arith, v.counted sid h p))
                (v.stamped sid h p) (omega arith, tt)))
    ]
  ]

module _ (digest : List SessionHeader → String) (allow_active : Bool)
    (before_delete : List String → Outcome (Unit {0})) (expected : Option String) where
  delete_tree-IsValid :
      (sid : String) (s : MemoryStore)
      → IsValid s
      → IsValid (delete_tree digest allow_active before_delete expected sid s).1
  unfolding delete_tree
  delete_tree-IsValid sid s v = elim (Option-cases (Dict.get s.headers sid)) [
    | inl p ↦ rw (p, delete_tree) v
    | inr (root, p) ↦
        elim (Outcome-cases (delete_checks digest allow_active before_delete expected sid root s)) [
          | inl (ids, q) ↦ elim (Outcome-cases (drop_all ids s).0) [
            | inl (u, t) ↦ rw (p, q, delete_tree) (rw t (drop_all-IsValid ids s v))
            | inr (x, t) ↦ rw (p, q, delete_tree) (rw t (drop_all-IsValid ids s v))
          ]
          | inr (x, q) ↦ rw (p, q, delete_tree) v
        ]
  ]

-- The calls that change a store, with the clock's reading where they take it. A new session's
-- header has no events yet, and terminal events carry UUIDs.
pub data Call : Type 0 where
  creates : SessionHeader → Call
  puts : ℕ → SessionHeader → Call
  patches : ℕ → String → Patch → Call
  appends : ℕ → String → List SessionEvent → Call
  enqueues : ℕ → String → InputQueued → Call
  deletes :
      (List SessionHeader → String)
      → Bool
      → (List String → Outcome (Unit {0}))
      → Option String
      → String
      → Call
  remembers : MemoryRecord → Call

module _ (uuid : String → Option String) where
  abbrev pub after_call : Call → MemoryStore → MemoryStore
  after_call (creates header) s = (create header s).1
  after_call (puts now h) s = (put_header now h s).1
  after_call (patches now sid p) s = (patch_header now sid p s).1
  after_call (appends now sid events) s = (append uuid now sid events s).1
  after_call (enqueues now sid e) s = (enqueue uuid now sid e s).1
  after_call (deletes digest active hook expected sid) s =
      (delete_tree digest active hook expected sid s).1
  after_call (remembers row) s = memory_put row s

  abbrev pub after_calls : List Call → MemoryStore → MemoryStore
  after_calls [] s = s
  after_calls (c ∷ cs) s = after_calls cs (after_call c s)

  -- A session is created with an empty log, and the turns that end have UUIDs.
  abbrev pub IsSound : Call → Type 0
  IsSound (creates header) = header.last_seq ≡ 0
  IsSound (appends _ _ events) = All (HasUuid uuid) events
  IsSound _ = Unit

  after_call-IsValid :
      (c : Call) (s : MemoryStore) → IsSound c → IsValid s → IsValid (after_call c s)
  after_call-IsValid (creates header) s w v = create-IsValid header s w v
  after_call-IsValid (puts now h) s w v = put_header-IsValid now h s v
  after_call-IsValid (patches now sid p) s w v = patch_header-IsValid now sid p s v
  after_call-IsValid (appends now sid events) s w v = append-IsValid uuid now sid events s w v
  after_call-IsValid (enqueues now sid e) s w v = enqueue-IsValid uuid now sid e s v
  after_call-IsValid (deletes digest active hook expected sid) s w v =
      delete_tree-IsValid digest active hook expected sid s v
  after_call-IsValid (remembers row) s w v = memory_put-IsValid row s v

  after_calls-IsValid :
      (cs : List Call) (s : MemoryStore) → All IsSound cs → IsValid s → IsValid (after_calls cs s)
  after_calls-IsValid [] s w v = v
  after_calls-IsValid (c ∷ cs) s (w, ws) v =
      after_calls-IsValid cs (after_call c s) ws (after_call-IsValid c s w v)

  -- After any calls on an empty store, those that raise included, each session's log is numbered
  -- from 1 without a gap up to the header's `last_seq`, each header stands under its own id, and no
  -- deleted id has a header, provided that sessions are created with `last_seq` 0 and the turn ids
  -- of appended terminal events are UUIDs.
  pub calls_keep-IsValid : (cs : List Call) → All IsSound cs → IsValid (after_calls cs empty)
  calls_keep-IsValid cs w = after_calls-IsValid cs empty w IsValid-empty
