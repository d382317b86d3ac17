-- ===== src/Worker/Outbox/Draining.antt =====
-- The poller empties the outbox, once the queue and the database answer.
use feed_system_golang.Base.{
  Elem-select, select-passes, ℕ, zero, suc, ◌+◌, ◌*◌, ◌≤◌, min, ◌≡◌, ◌≢◌, refl, sym, subst, inl,
  inr, Bool, List, [], ◌∷◌, select, length, Distinct, All-at, Elem-map, ok, pure, attempt, ◌>>=◌,
  ◌==◌, ==_iff, Elem, select-Elem, arith,
}
use feed_system_golang.Backend.{Backend}
use feed_system_golang.Backend.Entity.{OutboxMsg}
use feed_system_golang.Backend.Sql.{Tables}
use feed_system_golang.Backend.Events.{Event}
use feed_system_golang.Backend.Laws.{MysqlLaws, QuietLaws, PublishLaws}
use feed_system_golang.Worker.Outbox.{
  pending, deliver_message, deliver_all, deliver_found, poll, poll_rounds,
}
use feed_system_golang.Worker.Outbox.Sending.{Announced}
use feed_system_golang.Worker.Outbox.Delivery.{poll_rounds-Announced}
use feed_system_golang.Worker.Outbox.Waiting.{
  ids, waiting, Drained, shorter_by_one, still_selected, Distinct-select, Drained-same,
  Drained-then, different, Distinct-Keyed, no_more,
}
use feed_system_golang.Worker.Outbox.Health.{IsSendable, HealthLaws, message_deleted}

module _ {W : Type 0} {env : Backend W} {published : W → List Event} (laws : MysqlLaws env)
    (quiet : QuietLaws env) (sent : PublishLaws env published) (health : HealthLaws env)
    (has_fanout_mq : Bool) where
  open env use {tables}

  message-Drained :
      (m : OutboxMsg) (w : W)
      → IsSendable m
      → Elem m (waiting (tables w))
      → Drained 1 (tables w) (tables (deliver_message env has_fanout_mq m w).1)
  message-Drained m w h i =
      let (_, gone) = message_deleted laws quiet sent health has_fanout_mq m w h in
      record {
        fewer =
            subst (λ l. length (select pending.matches l) + 1 ≤ length (waiting (tables w)))
              (sym gone)
              (omega (
                arith,
                shorter_by_one pending.matches (λ k. k.id == m.id) (tables w).outbox m i
                    ((==_iff m.id m.id).1 refl),
              ));
        old = λ k j. select-Elem _ (tables w).outbox k (subst (Elem k) gone j);
        keyed = λ d.
            subst (λ l. Distinct (ids l)) (sym gone)
              (Distinct-select (λ k. k.id) _ (tables w).outbox d);
      }

  -- The other messages of a page still wait.
  left_waiting :
      (m k : OutboxMsg) (w : W)
      → IsSendable m
      → m.id ≢ k.id
      → Elem k (waiting (tables w))
      → Elem k (waiting (tables (deliver_message env has_fanout_mq m w).1))
  left_waiting m k w h other i =
      subst (λ l. Elem k (select pending.matches l))
        (sym (message_deleted laws quiet sent health has_fanout_mq m w h).1)
        (still_selected pending.matches (λ k. k.id == m.id) (tables w).outbox k i
          (different m.id k.id other))

  all-Drained :
      (msgs : List OutboxMsg) (w : W)
      → ((m : OutboxMsg) → Elem m msgs → IsSendable m)
      → ((m : OutboxMsg) → Elem m msgs → Elem m (waiting (tables w)))
      → Distinct (ids msgs)
      → ((deliver_all env has_fanout_mq msgs w).0 ≡ ok tt)
        × Drained (length msgs) (tables w) (tables (deliver_all env has_fanout_mq msgs w).1)
  unfolding deliver_all pure ◌>>=◌
  all-Drained [] w h i d = (refl, Drained-same (tables w))
  all-Drained (m ∷ msgs) w h i d =
      let first = message-Drained m w (h m (inl refl)) (i m (inl refl)) in
      let w1 = (deliver_message env has_fanout_mq m w).1 in
      let (done, rest) =
        all-Drained msgs w1 (λ k j. h k (inr j))
          (λ k j.
            left_waiting m k w (h m (inl refl))
              (All-at (λ y. m.id ≢ y) (ids msgs) d.0 k.id (Elem-map (λ k. k.id) k msgs j))
              (i k (inr j)))
          d.1 in
      rw ((message_deleted laws quiet sent health has_fanout_mq m w (h m (inl refl))).0)
        (done, Drained-then (length msgs) (tables w) (tables w1) _ first rest)

  Sendables : Tables → Type 0
  Sendables t = (m : OutboxMsg) → Elem m t.outbox → IsSendable m

  poll-Drained :
      (w : W)
      → Sendables (tables w)
      → Distinct (ids (tables w).outbox)
      → ((poll env has_fanout_mq w).0 ≡ ok tt)
        × Drained
            (min 100 (length (waiting (tables w))))
            (tables w)
            (tables (poll env has_fanout_mq w).1)
  unfolding poll deliver_found attempt ◌>>=◌ Sendables
  poll-Drained w h d =
      let (found, q, there, once, full) = health.find_outbox_works pending 100 w refl refl in
      let w1 = (env.find_outbox pending w).1 in
      let same : tables w1 ≡ tables w = (laws.find_outbox-Quiet pending).at w in
      let (done, fewer) =
        all-Drained found w1
          (λ m i. h m (select-Elem pending.matches (tables w).outbox m (there m i)))
          (λ m i. subst (λ t. Elem m (waiting t)) (sym same) (there m i)) (once d) in
      rw q (
        done,
        subst (λ n. Drained n (tables w) (tables (deliver_all env has_fanout_mq found w1).1)) full
            (subst
              (λ t. Drained (length found) t (tables (deliver_all env has_fanout_mq found w1).1))
              same fewer),
      )

  rounds_emptied :
      (n : ℕ) (w : W)
      → Sendables (tables w)
      → Distinct (ids (tables w).outbox)
      → length (waiting (tables w)) ≤ n * 100
      → length (waiting (tables (poll_rounds env has_fanout_mq n w).1)) ≡ 0
  unfolding poll_rounds pure ◌>>=◌ Sendables
  rounds_emptied zero w h d few = omega arith
  rounds_emptied (suc n) w h d few =
      let (done, fewer) = poll-Drained w h d in
      rw done (
        rounds_emptied n (poll env has_fanout_mq w).1 (λ m i. h m (fewer.old m i)) (fewer.keyed d)
          (omega (arith, fewer.fewer)))

  -- The poller alone with a queue and a database that answer, and an outbox whose ids are a key and
  -- whose messages name a video and its author: after as many rounds as there are hundreds of
  -- waiting messages, or more, none waits, and each that waited was announced to the queues.
  pub poll_rounds-drained :
      (n : ℕ) (w : W)
      → ((m : OutboxMsg) → Elem m (tables w).outbox → IsSendable m)
      → Distinct (ids (tables w).outbox)
      → length (waiting (tables w)) ≤ n * 100
      → (length (waiting (tables (poll_rounds env has_fanout_mq n w).1)) ≡ 0)
        × ((m : OutboxMsg)
            → Elem m (waiting (tables w))
            → Announced published has_fanout_mq m (poll_rounds env has_fanout_mq n w).1)
  unfolding Sendables
  poll_rounds-drained n w h d few = (empty, announced)
    where
      empty : length (waiting (tables (poll_rounds env has_fanout_mq n w).1)) ≡ 0
      empty = rounds_emptied n w h d few

      announced :
          (m : OutboxMsg)
          → Elem m (waiting (tables w))
          → Announced published has_fanout_mq m (poll_rounds env has_fanout_mq n w).1
      announced m i =
          elim (poll_rounds-Announced laws quiet sent has_fanout_mq n w
            (Distinct-Keyed (tables w).outbox d) m
            (select-Elem pending.matches (tables w).outbox m i)) [
              | inl there ↦ absurd (
                  no_more _ m empty (
                    Elem-select pending.matches _ m there
                      (select-passes pending.matches (tables w).outbox m i)))
              | inr sent_both ↦ sent_both
            ]
