-- ===== src/Backend.antt =====
-- What the program uses and does not implement: MySQL through gorm, Redis through go-redis, the
-- circuit breaker gobreaker, RabbitMQ, and the clock. They are fields of `Backend`, over an abstract
-- state `W` of the world; `Backend.Laws` says what is relied on.
pub mod Entity
pub mod Sql
pub mod Redis
pub mod Events
pub mod Quiet
pub mod Raises
pub mod Laws
pub mod Keeps
pub mod Memory
use feed_system_golang.Base.{ℕ, ℤ, Bool, List, Result, Exec}
use Entity.{Video, Like, Comment, Social, Account, OutboxMsg}
use Sql.{Write, Outcome, Query, Tables}
use Redis.{Command, Reply}
use Events.{Event}

-- gobreaker's states.
pub data BreakerState : Type 0 where
  closed half_open open_ : BreakerState

pub record Backend (W : Type 0) : Type 0 where
  -- The committed rows, and those that the running transaction has written.
  pub tables : W → Tables
  -- `Create`, `Update`, `UpdateColumn` and `Delete`.
  pub exec : Write → Exec W Outcome
  -- `db.Transaction(fn)`.
  pub transaction : Exec W (Unit {0}) → Exec W (Unit {0})
  -- `First`: a row that passes the test, or ErrRecordNotFound.
  pub first_video : (Video → Bool) → Exec W Video
  pub first_account : (Account → Bool) → Exec W Account
  pub first_comment : (Comment → Bool) → Exec W Comment
  -- `Find` and `Count`.
  pub find_videos : Query Video → Exec W (List Video)
  pub find_likes : Query Like → Exec W (List Like)
  pub find_comments : Query Comment → Exec W (List Comment)
  pub find_socials : Query Social → Exec W (List Social)
  pub find_accounts : Query Account → Exec W (List Account)
  pub find_outbox : Query OutboxMsg → Exec W (List OutboxMsg)
  pub count_likes : (Like → Bool) → Exec W ℕ
  pub count_socials : (Social → Bool) → Exec W ℕ
  -- A command, and a pipeline of commands with the reply to each.
  pub command : Command → Exec W Reply
  pub pipeline : List Command → Exec W (List (Result Reply))
  -- gobreaker's `Execute` and `State`.
  pub breaker_execute : Exec W (Result Reply) → Exec W (Result Reply)
  pub breaker_state : W → BreakerState
  -- `PublishWithContext`.
  pub publish : Event → Exec W (Unit {0})
  -- `time.Now().UnixMilli()`.
  pub clock : W → ℤ
