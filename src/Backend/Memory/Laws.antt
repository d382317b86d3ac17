-- ===== src/Backend/Memory/Laws.antt =====
-- The world of lists obeys the laws.
use feed_system_golang.Base.{
  none, some, select, drop, Elem-take, Elem-drop, select-Elem, subst, Elem, Elem-append_left,
  Elem-append_right, ◌≡◌, refl, ◌⊎◌, inl, inr, Bool, List, [], ◌∷◌, Result, ok, err, Exec,
  Bool-cases, mysql, record_not_found, arith,
}
use feed_system_golang.Backend.Sql.{Write, Query, violates}
use feed_system_golang.Backend.Laws.{
  MysqlLaws, QuietLaws, PublishLaws, Refused, Executed, RolledBack, Committed, Finds,
}
use feed_system_golang.Backend.Memory.{Memory, memory, first_row, cut, rows, execute_write}
use feed_system_golang.Cache.Breaking.{BreakerLaws}

exec-cases : (s : Write) (m : Memory) → Refused memory s m ⊎ Executed memory s m
exec-cases s m = elim (Bool-cases (violates s m.tables)) [
  | inl duplicate ↦ inl (mysql 1062, ground arith, ground arith)
  | inr fresh ↦ inr (
    record { rows_affected = _; last_insert_id = m.next_id },
    ground arith,
    ground arith,
    fresh,
    λ _. refl,
  )
]

finish-cases :
    (body : Exec Memory (Unit {0})) (m : Memory) (r : Result (Unit {0}))
    → (body m).0 ≡ r
    → RolledBack memory body m ⊎ Committed memory body m
finish-cases body m (ok tt) q = inr (m, refl, q, ground arith, ground arith)
finish-cases body m (err e) q = inl (e, ground arith, ground arith)

first_row-Finds : {A : Type 0} (p : A → Bool) (xs : List A) → Finds memory p xs (first_row p xs)
first_row-Finds p [] = inl (record_not_found, refl)
first_row-Finds p (x ∷ xs) = elim (Bool-cases (p x)) [
  | inl found ↦ inr (x, ground arith, found, inl refl)
  | inr missed ↦ elim (first_row-Finds p xs) [
    | inl (e, q) ↦ inl (e, ground arith)
    | inr (a, q, found, i) ↦ inr (a, ground arith, found, inr i)
  ]
]

Elem-rows :
    {A : Type 0} (xs : List A) (q : Query A) (a : A)
    → Elem a (rows xs q)
    → Elem a (select q.matches xs)
Elem-rows xs q a i = Elem-drop q.offset (select q.matches xs) a (
    elim q.limit
        as (λ l.
          Elem a (cut l (drop q.offset (select q.matches xs)))
          → Elem a (drop q.offset (select q.matches xs))) [
            | none ↦ λ j. j
            | some n ↦ λ j. Elem-take n (drop q.offset (select q.matches xs)) a j
          ]
      i)

pub memory-MysqlLaws : MysqlLaws memory
memory-MysqlLaws = record {
  exec_cases = exec-cases;
  duplicate_is_there = λ s m q. ground arith;
  transaction_cases = λ body m. finish-cases body m (body m).0 refl;
  first_video-Quiet = λ p. record { at = λ m. refl };
  first_video-Finds = λ p m. first_row-Finds p m.tables.videos;
  first_account-Quiet = λ p. record { at = λ m. refl };
  first_account-Finds = λ p m. first_row-Finds p m.tables.accounts;
  first_comment-Quiet = λ p. record { at = λ m. refl };
  first_comment-Finds = λ p m. first_row-Finds p m.tables.comments;
  count_socials-Quiet = λ p. record { at = λ m. refl };
  count_socials-Counts = λ p m. inr refl;
  find_outbox-Quiet = λ q. record { at = λ m. refl };
  find_outbox-Answers = λ q m.
      inr
        (_, refl, λ a i. select-Elem q.matches m.tables.outbox a (Elem-rows m.tables.outbox q a i));
}

pub memory-QuietLaws : QuietLaws memory
memory-QuietLaws = record {
  command-Quiet = λ c. record { at = λ m. refl };
  pipeline-Quiet = λ cs. record { at = λ m. refl };
  publish-Quiet = λ e. record { at = λ m. refl };
  breaker_execute-Quiet = λ f q. record { at = λ m. q.at m };
}

pub memory-BreakerLaws : BreakerLaws memory
memory-BreakerLaws = record { execute_cases = λ f m. inr (m, refl) }

exec-sent : (s : Write) (m : Memory) → m.sent ≡ (execute_write s m).1.sent
exec-sent s m = ground arith

pub memory-PublishLaws : PublishLaws memory (λ m. m.sent)
memory-PublishLaws = record {
  publish_sends = λ e m q. Elem-append_right e m.sent (e ∷ []) (inl refl);
  publish_keeps = λ e m x i. Elem-append_left x m.sent (e ∷ []) i;
  exec_keeps = λ s m x i. subst (Elem x) (exec-sent s m) i;
  find_outbox_keeps = λ q m x i. i;
}
