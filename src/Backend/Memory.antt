-- ===== src/Backend/Memory.antt =====
-- A database of lists, an empty Redis, a closed breaker and a queue that takes every message: the
-- world at which the tests run, and the laws in it.
pub mod Laws
use feed_system_golang.Base.{
  ℕ, suc, ℤ, pos, Bool, true, false, Option, none, some, List, [], ◌∷◌, map, select, length, take,
  drop, Error, redis_nil, record_not_found, mysql, Result, ok, err, Exec, ◌++◌, if◌then◌else◌,
}
use feed_system_golang.Backend.{Backend, BreakerState}
use feed_system_golang.Backend.Entity.{Video, Account, Comment}
use feed_system_golang.Backend.Sql.{Tables, Write, Outcome, Query, apply, violates, deleted}
use feed_system_golang.Backend.Redis.{Command, Reply, get, done}
use feed_system_golang.Backend.Events.{Event}

pub record Memory : Type 0 where
  pub tables : Tables
  pub next_id : ℕ
  pub sent : List Event

abbrev pub execute_write : Write → Exec Memory Outcome
execute_write s m = if violates s m.tables then (err (mysql 1062), m) else (
  ok (record { rows_affected = deleted s m.tables; last_insert_id = m.next_id }),
  record m { tables = apply s m.next_id m.tables; next_id = suc m.next_id },
)

abbrev pub finish : Tables → Result (Unit {0}) → Memory → Result (Unit {0}) × Memory
finish before (ok u) m = (ok u, m)
finish before (err e) m = (err e, record m { tables = before })

abbrev pub run_transaction : Exec Memory (Unit {0}) → Exec Memory (Unit {0})
run_transaction body m = let (r, after) = body m in finish m.tables r after

abbrev pub first_row : {A : Type 0} → (A → Bool) → List A → Result A
first_row p [] = err record_not_found
first_row p (x ∷ xs) = if p x then ok x else first_row p xs

abbrev pub cut : {A : Type 0} → Option ℕ → List A → List A
cut none xs = xs
cut (some n) xs = take n xs

-- The rows come in the order of the list.
abbrev pub rows : {A : Type 0} → List A → Query A → List A
rows xs q = cut q.limit (drop q.offset (select q.matches xs))

abbrev pub answer : Command → Result Reply
answer (get key) = err redis_nil
answer _ = ok done

abbrev pub memory : Backend Memory
memory = record {
  tables = λ m. m.tables;
  exec = execute_write;
  transaction = run_transaction;
  first_video = λ p m. (first_row p m.tables.videos, m);
  first_account = λ p m. (first_row p m.tables.accounts, m);
  first_comment = λ p m. (first_row p m.tables.comments, m);
  find_videos = λ q m. (ok (rows m.tables.videos q), m);
  find_likes = λ q m. (ok (rows m.tables.likes q), m);
  find_comments = λ q m. (ok (rows m.tables.comments q), m);
  find_socials = λ q m. (ok (rows m.tables.socials q), m);
  find_accounts = λ q m. (ok (rows m.tables.accounts q), m);
  find_outbox = λ q m. (ok (rows m.tables.outbox q), m);
  count_likes = λ p m. (ok (length (select p m.tables.likes)), m);
  count_socials = λ p m. (ok (length (select p m.tables.socials)), m);
  command = λ c m. (answer c, m);
  pipeline = λ cs m. (ok (map answer cs), m);
  breaker_execute = λ f m. f m;
  breaker_state = λ m. BreakerState.closed;
  publish = λ e m. (ok tt, record m { sent = m.sent ++ e ∷ [] });
  clock = λ m. pos 1700000000000;
}

abbrev pub no_tables : Tables
no_tables = record {
  accounts = [];
  socials = [];
  videos = [];
  likes = [];
  comments = [];
  outbox = [];
}

abbrev pub memory_of : Tables → Memory
memory_of t = record { tables = t; next_id = 100; sent = [] }
