-- ===== src/Backend/Laws.antt =====
-- What is relied on of the database: a statement is done or fails and changes nothing, a unique
-- index refuses a second row, a deletion counts its rows, and a transaction is committed whole or rolled back. Any call may
-- fail at any time. Redis, gobreaker and RabbitMQ leave the tables alone.
use feed_system_golang.Base.{
  ℕ, mysql, length, select, ◌≡◌, ◌⊎◌, Bool, true, false, List, Error, Result, ok, err, Exec, Elem,
}
use feed_system_golang.Backend.{Backend}
use feed_system_golang.Backend.Quiet.{Quiet}
use feed_system_golang.Backend.Entity.{Video, Account, Comment, Social, OutboxMsg}
use feed_system_golang.Backend.Sql.{Write, Query, Outcome, apply, violates, deleted, is_deletion}
use feed_system_golang.Backend.Redis.{Command, Reply}
use feed_system_golang.Backend.Events.{Event}

module _ {W : Type 0} (env : Backend W) where
  open env use {tables}

  abbrev pub Refused : Write → W → Type 0
  Refused s w = (e : Error) × ((env.exec s w).0 ≡ err e) × (tables (env.exec s w).1 ≡ tables w)

  abbrev pub Executed : Write → W → Type 0
  Executed s w =
      (o : Outcome) × ((env.exec s w).0 ≡ ok o)
      × (tables (env.exec s w).1 ≡ apply s o.last_insert_id (tables w))
      × (violates s (tables w) ≡ false)
      × (is_deletion s ≡ true → o.rows_affected ≡ deleted s (tables w))

  abbrev pub RolledBack : Exec W (Unit {0}) → W → Type 0
  RolledBack body w =
      (e : Error) × ((env.transaction body w).0 ≡ err e)
      × (tables (env.transaction body w).1 ≡ tables w)

  -- The body ran from a world with the same tables, and succeeded.
  abbrev pub Committed : Exec W (Unit {0}) → W → Type 0
  Committed body w =
      (begun : W) × (tables begun ≡ tables w)
      × ((body begun).0 ≡ ok tt)
      × ((env.transaction body w).0 ≡ ok tt)
      × (tables (env.transaction body w).1 ≡ tables (body begun).1)

  abbrev pub Counts : {A : Type 0} → (A → Bool) → List A → Result ℕ → Type 0
  Counts p rows r = ((e : Error) × (r ≡ err e)) ⊎ (r ≡ ok (length (select p rows)))

  -- The rows of an answer are rows of the table.
  abbrev pub Answers : {A : Type 0} → List A → Result (List A) → Type 0
  Answers rows r =
      ((e : Error) × (r ≡ err e))
      ⊎ ((found : _) × (r ≡ ok found) × ((a : _) → Elem a found → Elem a rows))

  abbrev pub Finds : {A : Type 0} → (A → Bool) → List A → Result A → Type 0
  Finds p rows r = ((e : Error) × (r ≡ err e)) ⊎ ((a : _) × (r ≡ ok a) × (p a ≡ true) × Elem a rows)

  pub record MysqlLaws : Type 0 where
    pub exec_cases : (s : Write) (w : W) → Refused s w ⊎ Executed s w
    -- MySQL's error 1062
    pub duplicate_is_there :
        (s : Write) (w : W) → (env.exec s w).0 ≡ err (mysql 1062) → violates s (tables w) ≡ true
    pub transaction_cases :
        (body : Exec W (Unit {0})) (w : W) → RolledBack body w ⊎ Committed body w
    pub first_video-Quiet : (p : Video → Bool) → Quiet env (env.first_video p)
    pub first_video-Finds :
        (p : Video → Bool) (w : W) → Finds p (tables w).videos (env.first_video p w).0
    pub first_account-Quiet : (p : Account → Bool) → Quiet env (env.first_account p)
    pub first_account-Finds :
        (p : Account → Bool) (w : W) → Finds p (tables w).accounts (env.first_account p w).0
    pub first_comment-Quiet : (p : Comment → Bool) → Quiet env (env.first_comment p)
    pub first_comment-Finds :
        (p : Comment → Bool) (w : W) → Finds p (tables w).comments (env.first_comment p w).0
    pub count_socials-Quiet : (p : Social → Bool) → Quiet env (env.count_socials p)
    pub count_socials-Counts :
        (p : Social → Bool) (w : W) → Counts p (tables w).socials (env.count_socials p w).0
    pub find_outbox-Quiet : (q : Query OutboxMsg) → Quiet env (env.find_outbox q)
    pub find_outbox-Answers :
        (q : Query OutboxMsg) (w : W) → Answers (tables w).outbox (env.find_outbox q w).0

  pub record QuietLaws : Type 0 where
    pub command-Quiet : (c : Command) → Quiet env (env.command c)
    pub pipeline-Quiet : (cs : List Command) → Quiet env (env.pipeline cs)
    pub publish-Quiet : (e : Event) → Quiet env (env.publish e)
    pub breaker_execute-Quiet :
        (m : Exec W (Result Reply)) → Quiet env m → Quiet env (env.breaker_execute m)

  -- `published` is what RabbitMQ was given: it is not taken back, and what is sent without an error
  -- is there.
  pub record PublishLaws (published : W → List Event) : Type 0 where
    pub publish_sends :
        (e : Event) (w : W) → (env.publish e w).0 ≡ ok tt → Elem e (published (env.publish e w).1)
    pub publish_keeps :
        (e : Event) (w : W) (x : Event)
        → Elem x (published w)
        → Elem x (published (env.publish e w).1)
    pub exec_keeps :
        (s : Write) (w : W) (x : Event) → Elem x (published w) → Elem x (published (env.exec s w).1)
    pub find_outbox_keeps :
        (q : Query OutboxMsg) (w : W) (x : Event)
        → Elem x (published w)
        → Elem x (published (env.find_outbox q w).1)
