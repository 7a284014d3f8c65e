-- ===== src/MemoryStore/Reads.antt =====
-- `read_page` slices the log by position, `read` filters it by number: they agree.
use tantra.Prelude.{
  ℕ, zero, suc, ◌+◌, ◌≤◌, String, ◌≡◌, refl, sym, ap, inl, inr, Option, some, List, [], ◌∷◌, ◌++◌,
  arith, filter, map, length, take, drop, drop-append_length, ltb,
}
use tantra.Prelude.Dict
use tantra.Prelude.Dict.{get-put_self}
use tantra.Prelude.Outcome.{ok, Outcome-cases}
use tantra.Events.{SessionEvent, SessionHeader, Stamped}
use tantra.Header.{reduce_header}
use tantra.MemoryStore.{MemoryStore, append, store_header, stamp, read_page, read, log_of}
use tantra.MemoryStore.Invariant.{IsValid, IsStamped, length-stamp}

abbrev pub newer : ℕ → List Stamped → List Stamped
newer m = filter (λ item. ltb m item.seq)

newer_all : (n m : ℕ) (xs : List Stamped) → m ≤ n → IsStamped n xs → newer m xs ≡ xs
newer_all n m [] h t = refl
newer_all n m (x ∷ xs) h t = ground (arith, newer_all (suc n) m xs (omega arith) t.1)

drop-eq-newer :
    (n k m : ℕ) (xs : List Stamped) → n + k ≡ m → IsStamped n xs → drop k xs ≡ newer m xs
drop-eq-newer n zero m [] e t = refl
drop-eq-newer n (suc k) m [] e t = refl
drop-eq-newer n zero m (x ∷ xs) e t = ground (arith, newer_all (suc n) m xs (omega arith) t.1)
drop-eq-newer n (suc k) m (x ∷ xs) e t =
    ground (arith, drop-eq-newer (suc n) k m xs (omega arith) t.1)

-- In a valid store a page of a known session holds the first `limit` of the events that `read`
-- yields after the same number.
pub read_page-eq-take-read :
    (sid : String) (after limit : ℕ) (s : MemoryStore) {h : SessionHeader}
    → IsValid s
    → Dict.get s.headers sid ≡ some h
    → read_page sid after limit s ≡ take limit (read sid after s)
unfolding read_page read
read_page-eq-take-read sid after limit s v p =
    ap (take limit) (drop-eq-newer 0 after after (log_of s sid) (omega arith) (v.stamped sid _ p))

take_all {ℓ} : {A : Type ℓ} (n : ℕ) (xs : List A) → length xs ≤ n → take n xs ≡ xs
take_all zero [] h = refl
take_all zero (x ∷ xs) h = absurd (omega arith)
take_all (suc n) [] h = refl
take_all (suc n) (x ∷ xs) h = ap (λ l. x ∷ l) (take_all n xs (omega arith))

event-stamp : (n : ℕ) (es : List SessionEvent) → map (λ (x : Stamped). x.event) (stamp n es) ≡ es
unfolding stamp
event-stamp n [] = refl
event-stamp n (e ∷ es) = ap (λ l. e ∷ l) (event-stamp (suc n) es)

-- the log after an append that returned
append-log_of :
    (uuid : String → Option String) (now : ℕ) (sid : String) (es : List SessionEvent)
    (s s' : MemoryStore) (last : ℕ) (h : SessionHeader)
    → Dict.get s.headers sid ≡ some h
    → append uuid now sid es s ≡ (ok last, s')
    → (last ≡ h.last_seq + length es) × (log_of s' sid ≡ log_of s sid ++ stamp h.last_seq es)
unfolding append store_header log_of
append-log_of uuid now sid es s s' last h p q = elim (Outcome-cases (reduce_header uuid now h es)) [
  | inr (x, r) ↦ absurd (ground arith)
  | inl (stored, r) ↦
      let log = log_of s sid ++ stamp h.last_seq es in
      let t : s'.events ≡ Dict.put s.events sid log = ground arith in
      (ground arith, rw t (rw (get-put_self s.events sid log, Dict.get_or) refl))
]

-- In a valid store the events of an append that returns are read back, in order, from the number that
-- the session had before on, where the page is long enough, and the number that is returned is that
-- number and as many as there are events.
pub read_page-append :
    (uuid : String → Option String) (now : ℕ) (sid : String) (es : List SessionEvent)
    (s s' : MemoryStore) (last limit : ℕ) (h : SessionHeader)
    → IsValid s
    → Dict.get s.headers sid ≡ some h
    → append uuid now sid es s ≡ (ok last, s')
    → length es ≤ limit
    → (last ≡ h.last_seq + length es)
      × (map (λ (x : Stamped). x.event) (read_page sid h.last_seq limit s') ≡ es)
unfolding read_page
read_page-append uuid now sid es s s' last limit h v p q l =
    let (a, b) = append-log_of uuid now sid es s s' last h p q in
    let c : drop h.last_seq (log_of s' sid) ≡ stamp h.last_seq es = rw b (
      rw (sym (v.counted sid h p))
        (drop-append_length (log_of s sid) (stamp (length (log_of s sid)) es))) in
    (
      a,
      rw c (
          rw (take_all limit (stamp h.last_seq es) (omega (arith, length-stamp h.last_seq es)))
            (event-stamp h.last_seq es)),
    )
