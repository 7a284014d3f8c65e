-- ===== src/Coordinator/System.antt =====
-- Instances that share a database, in any order of steps. Each step is one transaction, with any
-- readings of the clock, by any instance and under any ownership, also one that has expired.
use tantra.Prelude.{ℕ, String, Bool, List, [], ◌∷◌}
use tantra.Prelude.Dict.{Dict}
use tantra.Prelude.Outcome.{Outcome, ok, raise}
use tantra.Json.{Json}
use tantra.Coordinator.{Ownership, WriterToken, CommandEnvelope, CommandReply}
use tantra.Coordinator.Database.{Database}
use tantra.Coordinator.Lease.{acquire, renew, release, relinquish_failed_prestart}
use tantra.Coordinator.Transaction.{
  Tx, ◌>>=◌, ◌>>◌, pure, transact, claim_writer, release_writer, validate_writer, set_active,
  set_recovery, reply, finish_deletion, relinquish_unrecovered,
}
use tantra.Coordinator.Requests.{put_request}

-- the statements of a transaction, with their readings of the clock
pub data Statement : Type 0 where
  claims : ℕ → String → Statement
  drops_writer : ℕ → ℕ → WriterToken → Statement
  validates : ℕ → WriterToken → Statement
  activates : ℕ → String → Bool → Statement
  notes_recovery : ℕ → Dict Json → Statement
  replies : ℕ → CommandReply → Statement
  finishes_deletion : ℕ → Statement
  relinquishes : ℕ → Statement

abbrev pub execute : Ownership → Statement → Tx (Unit {0})
execute o (claims now connection) = claim_writer o now connection >>= λ _. pure tt
execute o (drops_writer now later token) = release_writer o now later token >>= λ _. pure tt
execute o (validates now token) = validate_writer o now token
execute o (activates now actor active) = set_active o now actor active
execute o (notes_recovery now state) = set_recovery o now state
execute o (replies now answer) = reply o now answer
execute o (finishes_deletion now) = finish_deletion o now
execute o (relinquishes now) = relinquish_unrecovered o now

abbrev pub execute_all : Ownership → List Statement → Tx (Unit {0})
execute_all o [] = pure tt
execute_all o (s ∷ ss) = execute o s >> execute_all o ss

pub data Step : Type 0 where
  acquires : (instance : String) → ℕ → ℕ → ℕ → String → Step
  renews : ℕ → ℕ → ℕ → Ownership → Step
  releases : ℕ → ℕ → ℕ → Ownership → Step
  gives_up : ℕ → ℕ → ℕ → Ownership → String → Step
  requests : ℕ → CommandEnvelope → Ownership → Step
  transacts : ℕ → Ownership → List Statement → Step

-- a committed transaction: its root, and the instance and generation that it ran under
pub record Write : Type 0 where
  pub root : String
  pub instance : String
  pub generation : ℕ

-- the commits, the latest first
pub record World : Type 0 where
  pub db : Database
  pub writes : List Write

abbrev pub write_of : Ownership → Write
write_of o = record { root = o.root_id; instance = o.instance_id; generation = o.generation }

abbrev pub commit : Ownership → Outcome (Unit {0}) × Database → List Write → World
commit o (ok _, db) writes = record { db = db; writes = write_of o ∷ writes }
commit o (raise _, db) writes = record { db = db; writes = writes }

module _ (same_envelope : CommandEnvelope → CommandEnvelope → Bool) where
  abbrev pub perform : Step → World → World
  perform (acquires instance ttl now later root) w = record w {
    db = (acquire instance ttl now later root w.db).1;
  }
  perform (renews ttl now later o) w = record w { db = (renew ttl now later o w.db).1 }
  perform (releases now work_now later o) w = record w {
    db = (release now work_now later o w.db).1;
  }
  perform (gives_up now work_now later o actor) w = record w {
    db = (relinquish_failed_prestart now work_now later o actor w.db).1;
  }
  perform (requests now e o) w = record w { db = (put_request same_envelope now e o w.db).1 }
  perform (transacts now o statements) w =
      commit o (transact o now (execute_all o statements) w.db) w.writes

  abbrev pub perform_all : List Step → World → World
  perform_all [] w = w
  perform_all (s ∷ ss) w = perform_all ss (perform s w)

  -- the worlds that steps lead to from a world without commits
  pub data Reach (start : Database) : World → Type 0 where
    begins : Reach start (record { db = start; writes = [] })
    goes_on : {w : World} → Reach start w → (s : Step) → Reach start (perform s w)
