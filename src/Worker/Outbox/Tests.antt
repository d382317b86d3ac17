-- ===== src/Worker/Outbox/Tests.antt =====
-- The poller at one pending message.
use feed_system_golang.Base.{
  ℕ, zero, suc, min, ap, subst, ◌≢◌, ◌≡◌, refl, sym, ◌∙◌, ◌⊎◌, inl, inr, true, some, List, [], ◌∷◌,
  pos, length, take, select, ok, Distinct, All-Elem, All-at, Elem-map, Elem-map_inv, Elem-take,
  Elem, ◌>>=◌, arith,
}
use feed_system_golang.Backend.Entity.{OutboxMsg}
use feed_system_golang.Backend.Sql.{Query}
use feed_system_golang.Backend.Memory.{Memory, memory, memory_of, no_tables, rows}
use feed_system_golang.Backend.Memory.Laws.{memory-MysqlLaws, memory-QuietLaws, memory-PublishLaws}
use feed_system_golang.Mq.{send_timeline, send_fanout}
use feed_system_golang.Worker.Outbox.{poll_rounds}
use feed_system_golang.Worker.Outbox.Delivery.{Keyed, poll_rounds-Announced}
use feed_system_golang.Worker.Outbox.Waiting.{ids, waiting, Distinct-select}
use feed_system_golang.Worker.Outbox.Health.{IsSendable, HealthLaws}
use feed_system_golang.Worker.Outbox.Draining.{poll_rounds-drained}
use feed_system_golang.Worker.Outbox.Sending.{Announced}

abbrev message : OutboxMsg
message = record {
  id = 4;
  video_id = 7;
  author_id = 1;
  event_type = "video_published";
  create_time = pos 5;
  status = "pending";
}

abbrev start : Memory
start = memory_of (record no_tables { outbox = message ∷ [] })

emptied : (memory.tables (poll_rounds memory true 2 start).1).outbox ≡ []
unfolding poll_rounds ◌>>=◌ send_timeline send_fanout
emptied = refl

start-Keyed : Keyed (memory.tables start).outbox
start-Keyed a b (inl p) (inl q) e = p ∙ sym q
start-Keyed a b (inl p) (inr j) e = absurd j
start-Keyed a b (inr i) j e = absurd i

poll_rounds-Announced_example :
    Elem message (memory.tables (poll_rounds memory true 2 start).1).outbox
    ⊎ Announced (λ m. m.sent) true message (poll_rounds memory true 2 start).1
poll_rounds-Announced_example =
    poll_rounds-Announced memory-MysqlLaws memory-QuietLaws memory-PublishLaws true 2 start
      start-Keyed message (inl refl)

Distinct-take : (n : ℕ) (xs : List OutboxMsg) → Distinct (ids xs) → Distinct (ids (take n xs))
Distinct-take zero xs d = tt
Distinct-take (suc n) [] d = tt
Distinct-take (suc n) (x ∷ xs) d = (
  All-Elem (λ y. x.id ≢ y) (ids (take n xs))
      (λ y i.
        let (m, j, e) = Elem-map_inv (λ k. k.id) y (take n xs) i in
        All-at (λ y. x.id ≢ y) (ids xs) d.0 y
          (subst (λ y. Elem y (ids xs)) (sym e) (Elem-map (λ k. k.id) m xs (Elem-take n xs m j)))),
  Distinct-take n xs d.1,
)

length-take-min : {A : Type 0} (n : ℕ) (xs : List A) → length (take n xs) ≡ min n (length xs)
length-take-min zero xs = omega arith
length-take-min (suc n) [] = omega arith
length-take-min (suc n) (x ∷ xs) = omega (arith, length-take-min n xs)

page :
    (q : Query OutboxMsg) (n : ℕ) (m : Memory)
    → q.offset ≡ 0
    → q.limit ≡ some n
    → rows m.tables.outbox q ≡ take n (select q.matches m.tables.outbox)
page q n m h k = rw h (rw k refl)

memory-HealthLaws : HealthLaws memory
memory-HealthLaws = record {
  publish_works = λ e m. refl;
  delete_works = λ p m. (_, refl);
  find_outbox_works = λ q n m h k.
      let l = select q.matches m.tables.outbox in
      (
        take n l,
        ap ok (page q n m h k),
        (λ a i. Elem-take n l a i),
        (λ d. Distinct-take n l (Distinct-select (λ x. x.id) q.matches m.tables.outbox d)),
        length-take-min n l,
      );
}

start-IsSendable : (m : OutboxMsg) → Elem m (memory.tables start).outbox → IsSendable m
start-IsSendable m (inl e) = subst IsSendable (sym e) (refl, refl)
start-IsSendable m (inr i) = absurd i

poll_rounds-drained_example :
    (length (waiting (memory.tables (poll_rounds memory true 1 start).1)) ≡ 0)
    × ((m : OutboxMsg)
        → Elem m (waiting (memory.tables start))
        → Announced (λ w. w.sent) true m (poll_rounds memory true 1 start).1)
poll_rounds-drained_example =
    poll_rounds-drained memory-MysqlLaws memory-QuietLaws memory-PublishLaws memory-HealthLaws true
      1 start start-IsSendable (tt, tt) (omega arith)
