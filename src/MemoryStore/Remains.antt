-- ===== src/MemoryStore/Remains.antt =====
-- What is in a session's log stays there, or the session is deleted.
use tantra.Prelude.{
  String, ◌≡◌, refl, ap, sym, ◌∙◌, subst, true, false, ◌⊎◌, ◌||◌, inl, inr, none, some, List, [],
  ◌∷◌, ◌++◌, arith, has, ◌==◌, eq_iff, Bool-cases, Option-cases,
}
use tantra.Prelude.Dict
use tantra.Prelude.Dict.{get-put, get-put_self, get-remove, put_self}
use tantra.Events.{SessionHeader, Stamped}
use tantra.MemoryStore.{MemoryStore, log_of}
use tantra.MemoryStore.Tree.{erase, drop_all}

module _ (P : List Stamped → Type 0) (grows : (log more : List Stamped) → P log → P (log ++ more))
    (sid : String) where
  -- The session is there and its log satisfies `P`, or it was deleted.
  pub record Stands (s : MemoryStore) : Type 0 where
    pub header : SessionHeader
    pub known : Dict.get s.headers sid ≡ some header
    pub logged : Dict.get s.events sid ≡ some (log_of s sid)
    pub found : P (log_of s sid)

  abbrev pub Remains : MemoryStore → Type 0
  Remains s = ((Dict.get s.headers sid ≡ none) × (has s.deleted sid ≡ true)) ⊎ Stands s

  pub Remains-header :
      (j : String) (h k : SessionHeader) (s : MemoryStore)
      → Dict.get s.headers j ≡ some k
      → Remains s
      → Remains (record s { headers = Dict.put s.headers j h })
  unfolding log_of
  Remains-header j h k s p (inl (q, d)) =
      inl (ground (arith, get-put s.headers j h sid, eq_iff j sid), d)
  Remains-header j h k s p (inr r) = elim (Bool-cases (j == sid)) [
    | inl e ↦ inr (record {
      header = h;
      known = rw (get-put s.headers j h sid) (rw e refl);
      logged = r.logged;
      found = r.found;
    })
    | inr e ↦ inr (record {
      header = r.header;
      known = rw (get-put s.headers j h sid) (rw e r.known);
      logged = r.logged;
      found = r.found;
    })
  ]

  pub Remains-log :
      (j : String) (more : List Stamped) (s : MemoryStore)
      → Remains s
      → Remains (record s { events = Dict.put s.events j (log_of s j ++ more) })
  unfolding log_of
  Remains-log j more s (inl q) = inl q
  Remains-log j more s (inr r) = elim (Bool-cases (j == sid)) [
    | inl e ↦
        let same : j ≡ sid = (eq_iff j sid).0 e in
        let log : List Stamped = log_of s j ++ more in
        let at : Dict.get (Dict.put s.events j log) sid ≡ some log =
          rw (get-put s.events j log sid) (rw e refl) in
        inr (record {
          header = r.header;
          known = r.known;
          logged = rw (at, Dict.get_or) refl;
          found =
              rw (at, Dict.get_or)
                (grows (log_of s j) more (subst (λ i. P (log_of s i)) (sym same) r.found));
        })
    | inr e ↦
        let log : List Stamped = log_of s j ++ more in
        let at : Dict.get (Dict.put s.events j log) sid ≡ Dict.get s.events sid =
          rw (get-put s.events j log sid) (rw e refl) in
        inr (record {
          header = r.header;
          known = r.known;
          logged = rw (at, Dict.get_or) r.logged;
          found = rw (at, Dict.get_or) r.found;
        })
  ]

  pub Remains-erase : (id : String) (s : MemoryStore) → Remains s → Remains (erase id s)
  unfolding log_of
  Remains-erase id s (inl (q, d)) = inl (ground (arith, get-remove s.headers id sid), ground arith)
  Remains-erase id s (inr r) = elim (Bool-cases (id == sid)) [
    | inl e ↦ inl (ground (arith, get-remove s.headers id sid), ground arith)
    | inr e ↦
        let at : Dict.get (Dict.remove s.events id) sid ≡ Dict.get s.events sid =
          rw (get-remove s.events id sid) (rw e refl) in
        inr (record {
          header = r.header;
          known = rw (get-remove s.headers id sid) (rw e r.known);
          logged = rw (at, Dict.get_or) r.logged;
          found = rw (at, Dict.get_or) r.found;
        })
  ]

  pub Remains-drop_all :
      (ids : List String) (s : MemoryStore) → Remains s → Remains (drop_all ids s).1
  unfolding drop_all
  Remains-drop_all [] s r = r
  Remains-drop_all (id ∷ ids) s r = elim (Option-cases (Dict.get s.headers id)) [
    | inl p ↦ rw (p, drop_all) r
    | inr (k, p) ↦ rw (p, drop_all) (Remains-drop_all ids (erase id s) (Remains-erase id s r))
  ]

  pub Remains-new :
      (h : SessionHeader) (s : MemoryStore)
      → (Dict.contains s.headers h.id || has s.deleted h.id) ≡ false
      → Remains s
      → Remains
          (record s { headers = Dict.put s.headers h.id h; events = Dict.put s.events h.id [] })
  unfolding log_of
  Remains-new h s p (inl (q, d)) = elim (Bool-cases (h.id == sid)) [
    | inl e ↦
        let same : h.id ≡ sid = (eq_iff h.id sid).0 e in
        let gone : has s.deleted h.id ≡ true = subst (λ i. has s.deleted i ≡ true) (sym same) d in
        absurd (ground arith)
    | inr e ↦ inl (rw (get-put s.headers h.id h sid) (rw e q), d)
  ]
  Remains-new h s p (inr r) = elim (Bool-cases (h.id == sid)) [
    | inl e ↦
        let same : h.id ≡ sid = (eq_iff h.id sid).0 e in
        let there : Dict.get s.headers h.id ≡ some r.header =
          ap (Dict.get s.headers) same ∙ r.known in
        absurd (ground arith)
    | inr e ↦
        let at : Dict.get (Dict.put s.events h.id []) sid ≡ Dict.get s.events sid =
          rw (get-put s.events h.id [] sid) (rw e refl) in
        inr (record {
          header = r.header;
          known = rw (get-put s.headers h.id h sid) (rw e r.known);
          logged = rw (at, Dict.get_or) r.logged;
          found = rw (at, Dict.get_or) r.found;
        })
  ]
