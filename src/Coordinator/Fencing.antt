-- ===== src/Coordinator/Fencing.antt =====
-- The generation fences off the owners of the past.
mod Rows
mod Statements
mod Leases
use tantra.Prelude.{
  ℕ, suc, ◌<◌, String, ◌≡◌, refl, ap, sym, ◌∙◌, subst, Bool, true, false, ◌&&◌, not, ◌⊎◌, inl, inr,
  Option, none, some, List, [], ◌∷◌, ◌==◌, eq_iff, All, arith, Bool-cases, Option-cases,
  if◌then◌else◌, is_some, is_text, eqb, ltb, has,
}
use tantra.Prelude.Dict
use tantra.Prelude.Dict.{Dict, get-put, get-put_self}
use tantra.Prelude.Outcome.{Outcome, Error, ok, raise, Outcome-cases, writer_replaced}
use tantra.Coordinator.{
  Ownership, ChangeKind, CommandEnvelope, CommandReply, WriterToken, request_change, writer_change,
  activity_change, recovery_change, deleted_change, ownership_change,
}
use tantra.Coordinator.Database.{
  Database, RootRow, unowned, holds, set_root, update_root, unlease, publish,
}
use tantra.Coordinator.Lease.{
  acquire, take_over, renew, release, relinquish_failed_prestart, let_go, taken,
}
use tantra.Coordinator.Transaction.{
  Tx, note_activity, notice, is_mine, writer_is, fail, ◌>>=◌, ◌>>◌, pure, on_root, transact,
  assert_fence, change, claim_writer, release_writer, validate_writer, set_active, set_recovery,
  reply, finish_deletion, relinquish_unrecovered,
}
use tantra.Coordinator.Requests.{put_request}
use tantra.Coordinator.System.{
  Statement, claims, drops_writer, validates, activates, notes_recovery, replies, finishes_deletion,
  relinquishes, execute, execute_all, Step, acquires, renews, releases, gives_up, requests,
  transacts, Write, World, write_of, perform, commit, Reach, begins, goes_on,
}
use Rows.{Behind, Keeps, Keeps-refl}
use Statements.{execute_all-KeepsRoots}
use Leases.{
  acquire-Keeps, renew-Keeps, release-Keeps, relinquish_failed_prestart-Keeps, put_request-roots,
}

-- The commits of a root, the latest first, are in the order of their generations, and those of one
-- generation are by one instance.
abbrev pub IsFenced : Write → Write → Type 0
IsFenced w v =
    ((v.root == w.root) ≡ false)
    ⊎ (v.generation < w.generation)
    ⊎ ((v.generation ≡ w.generation) × (v.instance ≡ w.instance))

abbrev pub AreFenced : List Write → Type 0
AreFenced [] = Unit
AreFenced (w ∷ ws) = All (IsFenced w) ws × AreFenced ws

abbrev AreBehind : Database → List Write → Type 0
AreBehind db = All (λ w. Behind (Dict.get db.roots w.root) w)

AreBehind-Keeps :
    (db db' : Database) (ws : List Write)
    → Keeps db.roots db'.roots
    → AreBehind db ws
    → AreBehind db' ws
AreBehind-Keeps db db' [] k h = tt
AreBehind-Keeps db db' (w ∷ ws) k (b, bs) = (k.at w b, AreBehind-Keeps db db' ws k bs)

holds-row :
    (now : ℕ) (o : Ownership) (row : RootRow)
    → holds now o (some row) ≡ true
    → (row.owner ≡ some o.instance_id) × (row.generation ≡ o.generation)
holds-row now o row h = elim (Option-cases row.owner) [
  | inl p ↦ absurd (ground arith)
  | inr (owner, p) ↦ (ground (arith, eq_iff owner o.instance_id), ground arith)
]

-- Who holds the lease now comes after all that are behind.
IsFenced-holds :
    (now : ℕ) (o : Ownership) (db : Database) (v : Write)
    → holds now o (Dict.get db.roots o.root_id) ≡ true
    → Behind (Dict.get db.roots v.root) v
    → IsFenced (write_of o) v
IsFenced-holds now o db v h b = elim (Bool-cases (v.root == o.root_id)) [
  | inr q ↦ inl q
  | inl q ↦ elim (Option-cases (Dict.get db.roots o.root_id)) [
    | inl p ↦ absurd (let f : false ≡ true = subst (λ r. holds now o r ≡ true) p h in ground arith)
    | inr (row, p) ↦
        let (owner, generation) = holds-row now o row (subst (λ r. holds now o r ≡ true) p h) in
        let e : v.root ≡ o.root_id = ground (arith, eq_iff v.root o.root_id) in
        let here : Behind (some row) v = subst (λ r. Behind r v) (ap (Dict.get db.roots) e ∙ p) b in
        ground arith
  ]
]

Behind-holds :
    (now : ℕ) (o : Ownership) (db : Database)
    → holds now o (Dict.get db.roots o.root_id) ≡ true
    → Behind (Dict.get db.roots o.root_id) (write_of o)
Behind-holds now o db h = elim (Option-cases (Dict.get db.roots o.root_id)) [
  | inl p ↦ absurd (let f : false ≡ true = subst (λ r. holds now o r ≡ true) p h in ground arith)
  | inr (row, p) ↦
      let (owner, generation) = holds-row now o row (subst (λ r. holds now o r ≡ true) p h) in
      subst (λ r. Behind r (write_of o)) (sym p) (inr (sym generation, inr owner))
]

record Sound (w : World) : Type 0 where
  fenced : AreFenced w.writes
  behind : AreBehind w.db w.writes

AreFenced-holds :
    (now : ℕ) (o : Ownership) (db : Database) (ws : List Write)
    → holds now o (Dict.get db.roots o.root_id) ≡ true
    → AreBehind db ws
    → All (IsFenced (write_of o)) ws
AreFenced-holds now o db [] h b = tt
AreFenced-holds now o db (w ∷ ws) h (b, bs) =
    (IsFenced-holds now o db w h b, AreFenced-holds now o db ws h bs)

commit-Sound :
    (now : ℕ) (o : Ownership) (ss : List Statement) (w : World)
    → Sound w
    → Sound (commit o (transact o now (execute_all o ss) w.db) w.writes)
unfolding transact
commit-Sound now o ss w h = elim (Bool-cases (holds now o (Dict.get w.db.roots o.root_id))) [
  | inr p ↦ rw (p, transact) h
  | inl p ↦
      let db' : Database = (execute_all o ss w.db).1 in
      let k : Keeps w.db.roots db'.roots = (execute_all-KeepsRoots o ss).after w.db in
      elim (Outcome-cases (execute_all o ss w.db).0) [
        | inr (x, q) ↦ rw (p, transact) (rw q h)
        | inl (_, q) ↦
            rw (p, transact)
              (rw q (record {
                fenced = (AreFenced-holds now o w.db w.writes p h.behind, h.fenced);
                behind = (
                  k.at (write_of o) (Behind-holds now o w.db p),
                  AreBehind-Keeps w.db db' w.writes k h.behind,
                );
              }))
      ]
]

module _ (same_envelope : CommandEnvelope → CommandEnvelope → Bool) where
  moved :
      (w : World) (db : Database)
      → Keeps w.db.roots db.roots
      → Sound w
      → Sound (record w { db = db })
  moved w db k h = record {
    fenced = h.fenced;
    behind = AreBehind-Keeps w.db db w.writes k h.behind;
  }

  perform-Sound : (s : Step) (w : World) → Sound w → Sound (perform same_envelope s w)
  perform-Sound (acquires instance ttl now later root) w h =
      moved w _ (acquire-Keeps instance ttl now later root w.db) h
  perform-Sound (renews ttl now later o) w h = moved w _ (renew-Keeps ttl now later o w.db) h
  perform-Sound (releases now work_now later o) w h =
      moved w _ (release-Keeps now work_now later o w.db) h
  perform-Sound (gives_up now work_now later o actor) w h =
      moved w _ (relinquish_failed_prestart-Keeps now work_now later o actor w.db) h
  perform-Sound (requests now e o) w h =
      moved w _
        (subst (Keeps w.db.roots) (sym (put_request-roots same_envelope now e o w.db))
          (Keeps-refl w.db.roots))
        h
  perform-Sound (transacts now o ss) w h = commit-Sound now o ss w h

  Reach-Sound : {start : Database} {w : World} → Reach same_envelope start w → Sound w
  Reach-Sound begins = record { fenced = tt; behind = tt }
  Reach-Sound (goes_on {w} r s) = perform-Sound s w (Reach-Sound r)

  -- Whatever instances share a database, and whatever their clocks read, the transactions that
  -- commit for a tree do so in the order of the generations they run under, and those of one
  -- generation are all by one instance.
  pub AreFenced-writes :
      {start : Database} {w : World} → Reach same_envelope start w → AreFenced w.writes
  AreFenced-writes r = (Reach-Sound r).fenced
