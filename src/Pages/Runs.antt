-- ===== src/Pages/Runs.antt =====
-- What the cache keeps of a session is a run of consecutive events within the bounds.
use tantra.Prelude.{
  ℕ, suc, ◌+◌, ◌-◌, ◌≤◌, ◌<◌, ◌≡◌, refl, ap, sym, true, ◌||◌, inl, inr, none, some, List, [], ◌∷◌,
  ◌++◌, arith, Bool-cases, Option-cases, eqb, subst, filter, is_some, last?, leb, length, ltb, map,
}
use tantra.Events.{Stamped}
use tantra.Pages.{
  Recent, fresh, trim, push, admit, admit_all, actor_events, actor_bytes, after_number, spans,
}

-- the events are numbered from `n` on, with no gap
abbrev pub Numbered : ℕ → List Stamped → Type 0
Numbered n [] = Unit
Numbered n (x ∷ xs) = (x.seq ≡ n) × Numbered (suc n) xs

abbrev pub sum_sizes : List (Stamped × ℕ) → ℕ
sum_sizes [] = 0
sum_sizes ((_, n) ∷ items) = n + sum_sizes items

abbrev pub events_of : List (Stamped × ℕ) → List Stamped
events_of = map (λ e. e.0)

-- consecutive events, at most `actor_events` of them, whose sizes are accounted for and stay within
-- `actor_bytes`
pub record IsEntry (entry : Recent) : Type 0 where
  pub first : ℕ
  pub numbered : Numbered first (events_of entry.items)
  pub sized : entry.size ≡ 1024 + sum_sizes entry.items
  pub few : length entry.items ≤ actor_events
  pub small : entry.size ≤ actor_bytes

pub IsEntry-fresh : IsEntry fresh
IsEntry-fresh = record {
  first = 0;
  numbered = tt;
  sized = refl;
  few = omega arith;
  small = omega arith;
}

trim-IsEntry :
    (n : ℕ) (items : List (Stamped × ℕ)) (size : ℕ)
    → Numbered n (events_of items)
    → size ≡ 1024 + sum_sizes items
    → IsEntry (trim items size)
trim-IsEntry n [] size h e = record {
  first = 0;
  numbered = tt;
  sized = e;
  few = omega arith;
  small = omega arith;
}
trim-IsEntry n ((x, k) ∷ items) size h e =
    let rest : IsEntry (trim items (size - k)) =
      trim-IsEntry (suc n) items (size - k) h.1 (omega arith) in
    elim (Bool-cases (ltb actor_events (length ((x, k) ∷ items)) || ltb actor_bytes size)) [
      | inl p ↦ rw p rest
      | inr p ↦
          rw p (record {
            first = n;
            numbered = h;
            sized = e;
            few = ground arith;
            small = ground arith;
          })
    ]

Numbered-append :
    (n : ℕ) (items : List (Stamped × ℕ)) (x : Stamped) (k : ℕ)
    → Numbered n (events_of items)
    → x.seq ≡ n + length items
    → Numbered n (events_of (items ++ (x, k) ∷ []))
Numbered-append n [] x k h e = (omega arith, tt)
Numbered-append n ((y, j) ∷ items) x k h e =
    (h.0, Numbered-append (suc n) items x k h.1 (omega arith))

sum_sizes-append :
    (items : List (Stamped × ℕ)) (x : Stamped) (k : ℕ)
    → sum_sizes (items ++ (x, k) ∷ []) ≡ sum_sizes items + k
sum_sizes-append [] x k = omega arith
sum_sizes-append ((y, j) ∷ items) x k = let h = sum_sizes-append items x k in omega arith

last-seq :
    (n : ℕ) (items : List (Stamped × ℕ)) (x : Stamped) (k : ℕ)
    → Numbered n (events_of items)
    → last? items ≡ some (x, k)
    → x.seq + 1 ≡ n + length items
last-seq n [] x k h e = absurd (ground arith)
last-seq n ((y, j) ∷ []) x k h e = ground arith
last-seq n ((y, j) ∷ z ∷ items) x k h e =
    let i = last-seq (suc n) (z ∷ items) x k h.1 e in omega arith

last-nil : (items : List (Stamped × ℕ)) → last? items ≡ none → items ≡ []
last-nil [] e = refl
last-nil (x ∷ []) e = absurd (ground arith)
last-nil (x ∷ y ∷ items) e =
    let i : y ∷ items ≡ [] = last-nil (y ∷ items) e in absurd (ground arith)

module _ (size_of : Stamped → ℕ) where
  push-IsEntry :
      (n : ℕ) (entry : Recent) (x : Stamped)
      → Numbered n (events_of entry.items)
      → entry.size ≡ 1024 + sum_sizes entry.items
      → x.seq ≡ n + length entry.items
      → IsEntry (push size_of entry x)
  unfolding push
  push-IsEntry n entry x h s e = elim (Bool-cases (ltb actor_bytes (size_of x + 1024))) [
    | inl p ↦ rw (p, push) IsEntry-fresh
    | inr p ↦
        rw (p, push)
          (trim-IsEntry n (entry.items ++ (x, size_of x) ∷ []) (entry.size + size_of x)
            (Numbered-append n entry.items x (size_of x) h e)
            (let q = sum_sizes-append entry.items x (size_of x) in omega arith))
  ]

  admit-IsEntry : (entry : Recent) (x : Stamped) → IsEntry entry → IsEntry (admit size_of entry x)
  unfolding admit
  admit-IsEntry entry x h = elim (Option-cases (last? entry.items)) [
    | inl p ↦
        let q : entry.items ≡ [] = last-nil entry.items p in
        rw (p, admit)
          (push-IsEntry x.seq entry x (subst (λ l. Numbered x.seq (events_of l)) (sym q) tt) h.sized
            (let e : length entry.items ≡ 0 = ap length q in omega arith))
    | inr ((newest, k), p) ↦ elim (Bool-cases (leb x.seq newest.seq)) [
      | inl q ↦ rw (p, admit) (rw q h)
      | inr q ↦ elim (Bool-cases (eqb x.seq (newest.seq + 1))) [
        | inl r ↦
            let e = last-seq h.first entry.items newest k h.numbered p in
            rw (p, admit)
              (rw q (rw r (push-IsEntry h.first entry x h.numbered h.sized (ground arith))))
        | inr r ↦ rw (p, admit) (rw q (rw r (push-IsEntry x.seq fresh x tt refl (omega arith))))
      ]
    ]
  ]

  pub admit_all-IsEntry :
      (xs : List Stamped) (entry : Recent) → IsEntry entry → IsEntry (admit_all size_of entry xs)
  admit_all-IsEntry [] entry h = h
  admit_all-IsEntry (x ∷ xs) entry h =
      admit_all-IsEntry xs (admit size_of entry x) (admit-IsEntry entry x h)

-- What the cache hands out

newer_all :
    (n after : ℕ) (xs : List Stamped)
    → after < n
    → Numbered n xs
    → filter (λ item. ltb after item.seq) xs ≡ xs
newer_all n after [] l h = refl
newer_all n after (x ∷ xs) l h = ground (arith, newer_all (suc n) after xs (omega arith) h.1)

newer-Numbered :
    (n after : ℕ) (xs : List Stamped)
    → n ≤ after + 1
    → Numbered n xs
    → Numbered (after + 1) (filter (λ item. ltb after item.seq) xs)
newer-Numbered n after [] l h = tt
newer-Numbered n after (x ∷ xs) l h = elim (Bool-cases (ltb after x.seq)) [
  | inl p ↦ rw p (
      rw (newer_all (suc n) after xs (ground arith) h.1)
        (let e : after + 1 ≡ n = ground arith in rw e h))
  | inr p ↦ rw p (newer-Numbered (suc n) after xs (ground arith) h.1)
]

last-cons : (x : Stamped) (xs : List Stamped) → is_some (last? (x ∷ xs)) ≡ true
last-cons x [] = refl
last-cons x (y ∷ ys) = last-cons y ys

has_newer :
    (after : ℕ) (items : List (Stamped × ℕ)) (x : Stamped) (k : ℕ)
    → last? items ≡ some (x, k)
    → ltb after x.seq ≡ true
    → is_some (last? (after_number after items)) ≡ true
has_newer after [] x k e h = absurd (ground arith)
has_newer after ((y, j) ∷ []) x k e h = ground arith
has_newer after ((y, j) ∷ z ∷ items) x k e h =
    let rest : is_some (last? (after_number after (z ∷ items))) ≡ true =
      has_newer after (z ∷ items) x k e h in
    elim (Bool-cases (ltb after y.seq)) [
      | inl p ↦ rw p (last-cons y (after_number after (z ∷ items)))
      | inr p ↦ rw p rest
    ]

span_bounds :
    (n seq : ℕ) (items : List (Stamped × ℕ)) (size : ℕ)
    → Numbered n (events_of items)
    → spans seq (record { items = items; size = size }) ≡ true
    → (n ≤ seq) × (x : Stamped) × (k : ℕ) × (last? items ≡ some (x, k)) × (seq ≤ x.seq)
span_bounds n seq [] size h s = absurd (ground arith)
span_bounds n seq ((o, j) ∷ rest) size h s = elim (Option-cases (last? ((o, j) ∷ rest))) [
  | inl p ↦ absurd (ground arith)
  | inr ((x, k), p) ↦ (ground arith, x, k, p, ground arith)
]

-- What lies within the span of an entry is answered with the events from there on.
pub after_number-Numbered :
    (after : ℕ) (entry : Recent)
    → IsEntry entry
    → spans (after + 1) entry ≡ true
    → Numbered (after + 1) (after_number after entry.items)
      × (is_some (last? (after_number after entry.items)) ≡ true)
after_number-Numbered after entry h s =
    let (low, x, k, p, high) =
      span_bounds h.first (after + 1) entry.items entry.size h.numbered s in
    (
      newer-Numbered h.first after (events_of entry.items) low h.numbered,
      has_newer after entry.items x k p (ground arith),
    )
