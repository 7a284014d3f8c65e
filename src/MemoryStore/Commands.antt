-- ===== src/MemoryStore/Commands.antt =====
-- `enqueue`: a command is accepted once.
use tantra.Prelude.{
  ℕ, suc, ◌+◌, String, ◌≡◌, refl, sym, ap, ◌∙◌, subst, Bool, true, false, inl, inr, Option, none,
  some, List, [], ◌∷◌, ◌++◌, arith, has, length, length-append, ◌==◌, eq_iff, eq_refl, eqb_refl,
  Bool-cases, Option-cases, if◌then◌else◌,
}
use tantra.Prelude.Dict
use tantra.Prelude.Dict.{get-put, get-put_self, put_self}
use tantra.Prelude.Outcome.{ok, raise, Outcome-cases, invalid_command_reuse}
use tantra.Events.{
  SessionHeader, Stamped, InputQueued, input_queued, same_input, Origin, same_origin,
}
use tantra.Header.{reduce_header}
use tantra.MemoryStore.Invariant.{log_of-put}
use tantra.MemoryStore.{
  MemoryStore, EnqueueResult, Result, enqueue, find_command, log_of, store_header,
}

same_text_refl : (o : Option String) → tantra.Prelude.same_text o o ≡ true
same_text_refl none = refl
same_text_refl (some s) = eq_refl s

same_origin_refl : (o : Option Origin) → same_origin o o ≡ true
same_origin_refl o = ground arith

same_input_refl : (e : InputQueued) → same_input e e ≡ true
unfolding same_input
same_input_refl e = ground (
  arith,
  same_text_refl e.submitted_by,
  same_text_refl e.sender_id,
  same_origin_refl e.origin,
  eq_refl e.command_id,
  eq_refl e.input,
)

-- A command that is not in the log is found at its end once it is written there, and one with
-- other contents is refused.
find_command-append :
    (e e' : InputQueued) (log : List Stamped) (n : ℕ)
    → e.command_id ≡ e'.command_id
    → find_command e log ≡ ok none
    → find_command e' (log ++ record { seq = n; event = input_queued e } ∷ [])
      ≡ (if same_input e e' then ok (some n) else raise (invalid_command_reuse e'.command_id))
unfolding find_command
find_command-append e e' [] n i h = ground (arith, eq_iff e.command_id e'.command_id)
find_command-append e e' (x ∷ log) n i h = ground (arith, find_command-append e e' log n i)

-- What an `enqueue` that returns leaves behind: the session, with its log, in which the command is
-- found under the returned number.
pub record Accepted (sid : String) (e : InputQueued) (r : EnqueueResult) (s : MemoryStore)
    : Type 0 where
  pub header : SessionHeader
  pub known : Dict.get s.headers sid ≡ some header
  pub logged : Dict.get s.events sid ≡ some (log_of s sid)
  pub again : find_command e (log_of s sid) ≡ ok (some r.seq)
  pub refused :
      (e' : InputQueued)
      → e.command_id ≡ e'.command_id
      → same_input e e' ≡ false
      → r.duplicate ≡ false
      → find_command e' (log_of s sid) ≡ raise (invalid_command_reuse e'.command_id)

abbrev IsAccepted : String → InputQueued → Result EnqueueResult → Type 0
IsAccepted sid e (ok r, s) = Accepted sid e r s
IsAccepted sid e (raise x, s) = Unit

log_of-put_self :
    (s : MemoryStore) (headers : Dict.Dict SessionHeader) (sid : String) (log : List Stamped)
    → log_of (record s { headers = headers; events = Dict.put s.events sid log }) sid ≡ log
log_of-put_self s headers sid log = simp (log_of-put, eq_refl)

Accepted-new :
    (sid : String) (e : InputQueued) (s : MemoryStore) (h : SessionHeader) (n : ℕ)
    → find_command e (log_of s sid) ≡ ok none
    → Accepted sid e
        (record { seq = n; duplicate = false })
        (record s {
          headers = Dict.put s.headers sid h;
          events =
              Dict.put s.events sid
                (log_of s sid ++ record { seq = n; event = input_queued e } ∷ []);
        })
Accepted-new sid e s h n q = record {
  header = h;
  known = get-put_self s.headers sid h;
  logged = simp (log_of-put_self, get-put_self);
  again = simp (log_of-put_self, find_command-append e e (log_of s sid) n refl q, same_input_refl);
  refused = λ e' i d _. simp (log_of-put_self, find_command-append e e' (log_of s sid) n i q, d);
}

Accepted-old :
    (sid : String) (e : InputQueued) (s : MemoryStore) (h : SessionHeader) (n : ℕ)
    → Dict.get s.headers sid ≡ some h
    → find_command e (log_of s sid) ≡ ok (some n)
    → Accepted sid e
        (record { seq = n; duplicate = true })
        (record s { events = Dict.put s.events sid (log_of s sid) })
Accepted-old sid e s h n p q = record {
  header = h;
  known = p;
  logged = simp (log_of-put_self s s.headers, get-put_self);
  again = simp (log_of-put_self s s.headers, q);
  refused = λ e' i d f. cc;
}

module _ (uuid : String → Option String) (now : ℕ) where
  enqueue-IsAccepted :
      (sid : String) (e : InputQueued) (s : MemoryStore)
      → IsAccepted sid e (enqueue uuid now sid e s)
  unfolding enqueue store_header
  enqueue-IsAccepted sid e s = elim (Option-cases (Dict.get s.headers sid)) [
    | inl p ↦ rw (p, enqueue) tt
    | inr (header, p) ↦ elim (Outcome-cases (find_command e (log_of s sid))) [
      | inr (x, q) ↦ rw (p, q, enqueue) tt
      | inl (none, q) ↦ elim (Outcome-cases (reduce_header uuid now header (input_queued e ∷ []))) [
        | inl (h1, k) ↦
            rw (p, q, enqueue)
              (rw (k, store_header) (Accepted-new sid e s _ (header.last_seq + 1) q))
        | inr (x, k) ↦ rw (p, q, enqueue) (rw (k, store_header) tt)
      ]
      | inl (some n, q) ↦ rw (p, q, enqueue) (Accepted-old sid e s header n p q)
    ]
  ]

  pub enqueue-Accepted :
      (sid : String) (e : InputQueued) (s s1 : MemoryStore) (r : EnqueueResult)
      → enqueue uuid now sid e s ≡ (ok r, s1)
      → Accepted sid e r s1
  enqueue-Accepted sid e s s1 r h = subst (IsAccepted sid e) h (enqueue-IsAccepted sid e s)
