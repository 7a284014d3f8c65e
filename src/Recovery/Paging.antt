-- ===== src/Recovery/Paging.antt =====
-- Reading a journal by pages gives all of it.
use tantra.Prelude.{
  ℕ, zero, suc, ◌+◌, ◌-◌, ◌≤◌, ◌<◌, String, ◌≡◌, ◌≢◌, refl, ap, ◌∙◌, sym, subst, inl, inr, none,
  some, List, [], ◌∷◌, ◌++◌, arith, last?, length, length-append, length-drop, take, drop,
  drop-drop, Option-cases,
}
use tantra.Prelude.Dict
use tantra.Events.{Stamped, SessionHeader}
use tantra.MemoryStore.{MemoryStore, log_of, read_page}
use tantra.MemoryStore.Invariant.{IsStamped, IsValid}
use tantra.Recovery.{read_journal}

take-append-drop_taken {ℓ} :
    {A : Type ℓ} (k : ℕ) (xs : List A) → take k xs ++ drop (length (take k xs)) xs ≡ xs
take-append-drop_taken zero xs = refl
take-append-drop_taken (suc k) [] = refl
take-append-drop_taken (suc k) (x ∷ xs) = ap (◌∷◌ x) (take-append-drop_taken k xs)

last-cons {ℓ} : {A : Type ℓ} (x : A) (xs : List A) → last? (x ∷ xs) ≢ none
last-cons x [] h = absurd (ground arith)
last-cons x (y ∷ ys) h = last-cons y ys h

last-take-nil {ℓ} : {A : Type ℓ} (k : ℕ) (xs : List A) → last? (take (suc k) xs) ≡ none → xs ≡ []
last-take-nil k [] h = refl
last-take-nil k (x ∷ xs) h = absurd (ground (arith, last-cons x (take k xs)))

IsStamped-drop :
    (n k : ℕ) (xs : List Stamped) → k ≤ length xs → IsStamped n xs → IsStamped (n + k) (drop k xs)
IsStamped-drop n zero xs l h = let e : n + zero ≡ n = omega arith in rw e h
IsStamped-drop n (suc k) [] l h = absurd (omega arith)
IsStamped-drop n (suc k) (x ∷ xs) l h =
    let e : suc n + k ≡ n + suc k = omega arith in
    subst (λ m. IsStamped m (drop k xs)) e (IsStamped-drop (suc n) k xs (omega arith) h.1)

IsStamped-take : (n k : ℕ) (xs : List Stamped) → IsStamped n xs → IsStamped n (take k xs)
IsStamped-take n zero xs h = tt
IsStamped-take n (suc k) [] h = tt
IsStamped-take n (suc k) (x ∷ xs) h = (h.0, IsStamped-take (suc n) k xs h.1)

last-seq :
    (n : ℕ) (xs : List Stamped) (x : Stamped)
    → IsStamped n xs
    → last? xs ≡ some x
    → (x.seq ≡ n + length xs) × (n < x.seq)
last-seq n [] x h e = absurd (ground arith)
last-seq n (y ∷ []) x h e = (ground arith, ground arith)
last-seq n (y ∷ z ∷ xs) x h e =
    let i = last-seq (suc n) (z ∷ xs) x h.1 e in (omega arith, omega arith)

read_journal-drop :
    (fuel : ℕ) (sid : String) (after : ℕ) (s : MemoryStore)
    → IsStamped 0 (log_of s sid)
    → after ≤ length (log_of s sid)
    → length (log_of s sid) < after + fuel
    → read_journal fuel sid after s ≡ some (drop after (log_of s sid))
unfolding read_journal read_page
read_journal-drop zero sid after s h l f = absurd (omega arith)
read_journal-drop (suc fuel) sid after s h l f =
    let log : List Stamped = log_of s sid in
    let rest : List Stamped = drop after log in
    let page : List Stamped = take 1000 rest in
    let zero_after : 0 + after ≡ after = omega arith in
    let numbered : IsStamped after rest =
      subst (λ m. IsStamped m rest) zero_after (IsStamped-drop 0 after log l h) in
    elim (Option-cases (last? page)) [
      | inl p ↦ rw (p, read_journal) (ap some (sym (last-take-nil 999 rest p)))
      | inr (item, p) ↦
          let (number, more) : (item.seq ≡ after + length page) × (after < item.seq) =
            last-seq after page item (IsStamped-take after 1000 rest numbered) p in
          let joined : page ++ drop (length page) rest ≡ rest = take-append-drop_taken 1000 rest in
          let counted : length page + length (drop (length page) rest) ≡ length log - after =
            sym (length-append page (drop (length page) rest))
            ∙ ap length joined
            ∙ length-drop after log in
          let found : read_journal fuel sid item.seq s ≡ some (drop item.seq log) =
            read_journal-drop fuel sid item.seq s h (omega arith) (omega arith) in
          rw (p, read_journal)
            (rw found (
              ap (λ (n : ℕ). some (page ++ drop n log)) number
              ∙ ap (λ (l : List Stamped). some (page ++ l))
                  (sym (drop-drop (length page) after log))
              ∙ ap some joined))
    ]

-- The loop of `_journal` ends on a valid store, after at most one page more than there are events,
-- and gives the session's whole log.
pub read_journal-log_of :
    (sid : String) (s : MemoryStore) {h : SessionHeader}
    → IsValid s
    → Dict.get s.headers sid ≡ some h
    → read_journal (suc (length (log_of s sid))) sid 0 s ≡ some (log_of s sid)
read_journal-log_of sid s v p =
    read_journal-drop (suc (length (log_of s sid))) sid 0 s (v.stamped sid _ p) (omega arith)
      (omega arith)
