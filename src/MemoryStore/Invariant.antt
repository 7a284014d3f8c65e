-- ===== src/MemoryStore/Invariant.antt =====
-- What holds between any two calls of a `MemoryStore`, and that each method keeps it.
use tantra.Prelude.{
  ℕ, suc, ◌+◌, String, ◌≡◌, refl, sym, ap, ◌∙◌, Bool, true, false, inl, inr, Option, none, some,
  List, [], ◌∷◌, ◌++◌, arith, has, length, length-append, All, ◌==◌, eq_iff, Bool-cases,
  Option-cases, if◌then◌else◌, ◌||◌,
}
use tantra.Prelude.Dict
use tantra.Prelude.Dict.{get-put, get-put_self, dict_laws}
use tantra.Prelude.Outcome.{ok, Outcome-cases}
use tantra.Events.{
  SessionEvent, SessionHeader, Stamped, input_queued, turn_completed, turn_failed, turn_cancelled,
  turn_interrupted,
}
use tantra.Header.{Patch, apply_patch, apply_event, apply_events, reduce_header}
use tantra.Header.Agrees.{HasUuid, reduce_header-ok}
use tantra.MemoryStore.{
  MemoryStore, has_opt, empty, create, put_header, patch_header, append, log_of, stamp,
  store_header,
}

-- the items are numbered from `n + 1` on, with no gap
abbrev pub IsStamped : ℕ → List Stamped → Type 0
IsStamped n [] = Unit
IsStamped n (x ∷ xs) = (x.seq ≡ suc n) × IsStamped (suc n) xs

-- Under each key stands the header of that id, its log is numbered 1, 2, … up to `last_seq`, and an
-- id that was deleted has no header.
pub record IsValid (s : MemoryStore) : Type 0 where
  pub named : (sid : String) (h : SessionHeader) → Dict.get s.headers sid ≡ some h → h.id ≡ sid
  pub counted :
      (sid : String) (h : SessionHeader)
      → Dict.get s.headers sid ≡ some h
      → length (log_of s sid) ≡ h.last_seq
  pub stamped :
      (sid : String) (h : SessionHeader)
      → Dict.get s.headers sid ≡ some h
      → IsStamped 0 (log_of s sid)
  pub gone : (sid : String) → has s.deleted sid ≡ true → Dict.get s.headers sid ≡ none

pub stamp-IsStamped : (n : ℕ) (es : List SessionEvent) → IsStamped n (stamp n es)
unfolding stamp
stamp-IsStamped n [] = tt
stamp-IsStamped n (e ∷ es) = (refl, stamp-IsStamped (suc n) es)

pub length-stamp : (n : ℕ) (es : List SessionEvent) → length (stamp n es) ≡ length es
unfolding stamp
length-stamp n [] = refl
length-stamp n (e ∷ es) = ap suc (length-stamp (suc n) es)

pub IsStamped-append :
    (n m : ℕ) (xs ys : List Stamped)
    → n + length xs ≡ m
    → IsStamped n xs
    → IsStamped m ys
    → IsStamped n (xs ++ ys)
IsStamped-append n m [] ys e a b = let q : m ≡ n = omega arith in rw q at b
IsStamped-append n m (x ∷ xs) ys e a b = (a.0, IsStamped-append (suc n) m xs ys (omega arith) a.1 b)

pub IsValid-empty : IsValid empty
unfolding Dict.get
IsValid-empty = record {
  named = λ sid h p. cc;
  counted = λ sid h p. cc;
  stamped = λ sid h p. cc;
  gone = λ sid p. cc;
}

pub log_of-put :
    (s : MemoryStore) (headers : Dict.Dict SessionHeader) (sid : String) (log : List Stamped)
    (j : String)
    → log_of (record s { headers = headers; events = Dict.put s.events sid log }) j
      ≡ (if sid == j then log else log_of s j)
unfolding log_of
log_of-put s headers sid log j = ground (arith, get-put s.events sid log j)

-- A header and its log may be written under an id that was not deleted.
IsValid-write :
    (s : MemoryStore) (sid : String) (h : SessionHeader) (log : List Stamped)
    → IsValid s
    → has s.deleted sid ≡ false
    → h.id ≡ sid
    → length log ≡ h.last_seq
    → IsStamped 0 log
    → IsValid (record s { headers = Dict.put s.headers sid h; events = Dict.put s.events sid log })
IsValid-write s sid h log v d i c t = record {
  named = λ j k p. ground (arith, v.named j k, get-put s.headers sid h j, eq_iff sid j);
  counted = λ j k p. elim (Bool-cases (sid == j)) [
    | inl e ↦ simp (log_of-put, e) (ground (arith, get-put s.headers sid h j))
    | inr e ↦ simp (log_of-put, e) (v.counted j k (simp (get-put, e) at p))
  ];
  stamped = λ j k p. elim (Bool-cases (sid == j)) [
    | inl e ↦ simp (log_of-put, e) t
    | inr e ↦ simp (log_of-put, e) (v.stamped j k (simp (get-put, e) at p))
  ];
  gone = λ j p. ground (arith, v.gone j, get-put s.headers sid h j, eq_iff sid j);
}

-- A header may be replaced by one of the same id and the same number of events.
IsValid-replace :
    (s : MemoryStore) (sid : String) (old h : SessionHeader)
    → IsValid s
    → Dict.get s.headers sid ≡ some old
    → h.id ≡ sid
    → h.last_seq ≡ old.last_seq
    → IsValid (record s { headers = Dict.put s.headers sid h })
unfolding log_of
IsValid-replace s sid old h v o i c = record {
  named = λ j k p. ground (arith, v.named j k, get-put s.headers sid h j, eq_iff sid j);
  counted = λ j k p.
      ground (arith, v.counted j k, v.counted sid old o, get-put s.headers sid h j, eq_iff sid j);
  stamped = λ j k p. elim (Bool-cases (sid == j)) [
    | inl e ↦ let q : sid ≡ j = (eq_iff sid j).0 e in rw q at (v.stamped sid old o)
    | inr e ↦ v.stamped j k (simp (get-put, e) at p)
  ];
  gone = λ j p. ground (arith, v.gone j, v.gone sid, get-put s.headers sid h j, eq_iff sid j);
}

not_deleted :
    (s : MemoryStore) (sid : String) {h : SessionHeader}
    → IsValid s
    → Dict.get s.headers sid ≡ some h
    → has s.deleted sid ≡ false
not_deleted s sid v p = ground (arith, v.gone sid)

pub create-IsValid :
    (header : SessionHeader) (s : MemoryStore)
    → header.last_seq ≡ 0
    → IsValid s
    → IsValid (create header s).1
unfolding create
create-IsValid header s z v =
    let known : Bool = Dict.contains s.headers header.id || has s.deleted header.id in
    let orphan : Bool = has_opt s.deleted header.root_id || has_opt s.deleted header.parent_id in
    elim (Bool-cases known) [
      | inl e ↦ rw e v
      | inr e ↦ elim (Bool-cases orphan) [
        | inl f ↦ rw (e, f) v
        | inr f ↦ rw (e, f) (IsValid-write s header.id header [] v (ground arith) refl (sym z) tt)
      ]
    ]

pub put_header-IsValid :
    (now : ℕ) (h : SessionHeader) (s : MemoryStore) → IsValid s → IsValid (put_header now h s).1
unfolding put_header
put_header-IsValid now h s v = elim (Option-cases (Dict.get s.headers h.id)) [
  | inl e ↦ rw (e, put_header) v
  | inr (current, e) ↦ rw (e, put_header) (IsValid-replace s h.id current _ v e refl refl)
]

pub patch_header-IsValid :
    (now : ℕ) (sid : String) (p : Patch) (s : MemoryStore)
    → IsValid s
    → IsValid (patch_header now sid p s).1
unfolding patch_header apply_patch
patch_header-IsValid now sid p s v = elim (Option-cases (Dict.get s.headers sid)) [
  | inl e ↦ rw (e, patch_header) v
  | inr (current, e) ↦
      rw (e, patch_header) (IsValid-replace s sid current _ v e (v.named sid current e) refl)
]

module _ (uuid : String → Option String) where
  apply_event-id :
      (h h' : SessionHeader) (e : SessionEvent) → apply_event uuid h e ≡ ok h' → h'.id ≡ h.id
  unfolding apply_event
  apply_event-id h h' (input_queued e) p = ground arith
  apply_event-id h h' (turn_completed e) p = ground arith
  apply_event-id h h' (turn_failed e) p = ground arith
  apply_event-id h h' (turn_cancelled e) p = ground arith
  apply_event-id h h' (turn_interrupted e) p = ground arith
  apply_event-id h h' _ p = ground arith

  apply_events-id :
      (h h' : SessionHeader) (es : List SessionEvent)
      → apply_events uuid h es ≡ ok h'
      → h'.id ≡ h.id
  unfolding apply_events
  apply_events-id h h' [] p = ground arith
  apply_events-id h h' (e ∷ es) p = elim (Outcome-cases (apply_event uuid h e)) [
    | inl (h1, q) ↦ apply_events-id h1 h' es (ground arith) ∙ apply_event-id h h1 e q
    | inr (x, q) ↦ absurd (ground arith)
  ]

  reduce_header-id :
      (now : ℕ) (h h' : SessionHeader) (es : List SessionEvent)
      → reduce_header uuid now h es ≡ ok h'
      → h'.id ≡ h.id
  unfolding reduce_header
  reduce_header-id now h h' es p = elim (Outcome-cases (apply_events uuid h es)) [
    | inl (h1, q) ↦ ground (arith, apply_events-id h h1 es q)
    | inr (x, q) ↦ absurd (ground arith)
  ]

  -- A header is stored after its log, which grew by `es`.
  pub store_header-IsValid :
      {A : Type 0} (now : ℕ) (sid : String) (h : SessionHeader) (es : List SessionEvent)
      (log : List Stamped) (seq : ℕ) (a : A) (s : MemoryStore)
      → All (HasUuid uuid) es
      → IsValid s
      → Dict.get s.headers sid ≡ some h
      → length log ≡ seq
      → IsStamped 0 log
      → IsValid
          (store_header uuid now sid h es seq a (record s { events = Dict.put s.events sid log })).1
  unfolding store_header
  store_header-IsValid now sid h es log seq a s w v p c t =
      let (h1, q) = reduce_header-ok uuid now h es w in
      rw (q, store_header)
        (IsValid-write s sid (record h1 { last_seq = seq }) log v (not_deleted s sid v p)
          (reduce_header-id now h h1 es q ∙ v.named sid h p) c t)

  pub append-IsValid :
      (now : ℕ) (sid : String) (es : List SessionEvent) (s : MemoryStore)
      → All (HasUuid uuid) es
      → IsValid s
      → IsValid (append uuid now sid es s).1
  unfolding append
  append-IsValid now sid es s w v = elim (Option-cases (Dict.get s.headers sid)) [
    | inl e ↦ rw (e, append) v
    | inr (h, e) ↦
        rw (e, append)
          (store_header-IsValid now sid h es (log_of s sid ++ stamp h.last_seq es)
            (h.last_seq + length es) (h.last_seq + length es) s w v e
            (omega (
              arith,
              length-append (log_of s sid) (stamp h.last_seq es),
              length-stamp h.last_seq es,
              v.counted sid h e,
            ))
            (IsStamped-append 0 h.last_seq (log_of s sid) (stamp h.last_seq es)
              (omega (arith, v.counted sid h e)) (v.stamped sid h e)
              (stamp-IsStamped h.last_seq es)))
  ]
