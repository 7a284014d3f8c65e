-- ===== src/Turn/Ids.antt =====
-- The calls of a turn get ids that no other call has.
use tantra.Prelude.{
  ℕ, zero, suc, ◌+◌, ◌≤◌, ◌<◌, String, ◌≡◌, ◌≢◌, refl, ap, true, false, not, List, [], ◌∷◌, arith,
  ◌==◌, eq_iff, filter, map, has, length, Bool-cases, inl, inr,
}
use tantra.Prelude.Outcome.{ok}
use tantra.Messages.{ToolCall}
use tantra.Turn.Parts.{free_id, unique_calls}

abbrev without : String → List String → List String
without y = filter (λ x. not (x == y))

length-without : (y : String) (l : List String) → length (without y l) ≤ length l
length-without y [] = omega arith
length-without y (x ∷ l) = ground (arith, length-without y l)

shorter-without : (y : String) (l : List String) → has l y ≡ true → length (without y l) < length l
shorter-without y [] h = absurd (ground arith)
shorter-without y (x ∷ l) h = elim (Bool-cases (x == y)) [
  | inl p ↦ ground (arith, length-without y l)
  | inr p ↦ ground (arith, shorter-without y l (ground arith))
]

has-without : (y z : String) (l : List String) → z ≢ y → has l z ≡ true → has (without y l) z ≡ true
has-without y z [] n h = h
has-without y z (x ∷ l) n h = elim (Bool-cases (x == z)) [
  | inl p ↦ ground (arith, eq_iff x z, eq_iff x y)
  | inr p ↦ elim (Bool-cases (x == y)) [
    | inl q ↦ ground (arith, has-without y z l n (ground arith))
    | inr q ↦ ground (arith, has-without y z l n (ground arith))
  ]
]

-- no id is taken, or that of a call before
abbrev pub AreNew : List String → List ToolCall → Type 0
AreNew taken [] = Unit {0}
AreNew taken (call ∷ calls) = (has taken call.id ≡ false) × AreNew (call.id ∷ taken) calls

abbrev pub asks_for : ToolCall → String × String
asks_for call = (call.name, call.args)

-- `limit` bounds the attempts for which the digests are known to be distinct.
module _ (digest : ℕ → ℕ → String) (limit : ℕ)
    (distinct : (index a b : ℕ)
      → a ≤ limit
      → b ≤ limit
      → digest index a ≡ digest index b
      → a ≡ b) where
  -- `left` are the taken ids that further digests may be.
  free_id-search :
      (fuel : ℕ) (taken left : List String) (index attempt : ℕ)
      → length left ≤ fuel
      → attempt + fuel ≤ limit
      → ((j : ℕ)
          → attempt ≤ j
          → j ≤ limit
          → has taken (digest index j) ≡ true
          → has left (digest index j) ≡ true)
      → (id : String) × (free_id digest fuel taken index (suc attempt) (digest index attempt)
          ≡ ok id)
        × (has taken id ≡ false)
  unfolding free_id
  free_id-search zero taken left index attempt l b h =
      elim (Bool-cases (has taken (digest index attempt))) [
        | inr p ↦ (digest index attempt, (rw p refl), p)
        | inl p ↦
            let q : has left (digest index attempt) ≡ true =
              h attempt (omega arith) (omega arith) p in
            let r = shorter-without (digest index attempt) left q in absurd (omega arith)
      ]
  free_id-search (suc fuel) taken left index attempt l b h =
      let next : String = digest index attempt in
      elim (Bool-cases (has taken next)) [
        | inr p ↦ (next, (rw p refl), p)
        | inl p ↦
            let q : has left next ≡ true = h attempt (omega arith) (omega arith) p in
            let r = shorter-without next left q in
            let (id, found, free) =
              free_id-search fuel taken (without next left) index (suc attempt) (omega arith)
                (omega arith)
                (λ j m k t.
                  has-without next (digest index j) left
                    (λ e.
                      let w : j ≡ attempt = distinct index j attempt k (omega arith) e in
                      absurd (omega arith))
                    (h j (omega arith) k t)) in
            (id, (rw p found), free)
      ]

  -- the id is that of the call, or a digest
  free_id-ok :
      (taken : List String) (index : ℕ) (id : String)
      → length taken ≤ limit
      → (new : String) × (free_id digest (suc (length taken)) taken index 0 id ≡ ok new)
        × (has taken new ≡ false)
  unfolding free_id
  free_id-ok taken index id b = elim (Bool-cases (has taken id)) [
    | inr p ↦ (id, (rw p refl), p)
    | inl p ↦
        let (new, found, free) =
          free_id-search (length taken) taken taken index 0 (omega arith) (omega arith)
            (λ j m k t. t) in
        (new, (rw p found), free)
  ]

  -- Where the digests of as many attempts as ids are taken, and as the sample has calls, are distinct
  -- for each call, the naming of the calls of a sample ends, whatever ids the model gave them, and every call keeps its name and arguments and has an
  -- id that was not taken and that no call before it in the sample has.
  pub unique_calls-AreNew :
      (index : ℕ) (taken : List String) (calls : List ToolCall)
      → length taken + length calls ≤ limit
      → (named : List ToolCall) × (all_taken : List String) × (unique_calls digest index taken calls
          ≡ ok (named, all_taken))
        × AreNew taken named
        × (map asks_for named ≡ map asks_for calls)
  unfolding unique_calls
  unique_calls-AreNew index taken [] b = ([], taken, refl, tt, refl)
  unique_calls-AreNew index taken (call ∷ calls) b =
      let (new, found, free) = free_id-ok taken index call.id (omega arith) in
      let (named, all_taken, p, q, r) =
        unique_calls-AreNew (suc index) (new ∷ taken) calls (omega arith) in
      (
        record call { id = new } ∷ named,
        all_taken,
        (rw (found, unique_calls) (rw p refl)),
        (free, q),
        ap (λ l. asks_for call ∷ l) r,
      )
