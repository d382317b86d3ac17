-- ===== src/Worker/Outbox/Delivery.antt =====
-- No outbox message is lost: it stays, or it was announced.
use feed_system_golang.Base.{
  ok_same, ℕ, zero, suc, ◌≡◌, refl, sym, subst, ◌∙◌, ◌⊎◌, inl, inr, Bool, false, List, [], ◌∷◌,
  Result, ok, err, Exec, pure, attempt, ignore, continue, ◌>>=◌, ◌==◌, ==_iff, Elem, select-Elem,
  Bool-cases, arith,
}
use feed_system_golang.Backend.{Backend}
use feed_system_golang.Backend.Entity.{OutboxMsg}
use feed_system_golang.Backend.Sql.{Outcome, apply, delete_outbox, delete_where}
use feed_system_golang.Backend.Events.{Event}
use feed_system_golang.Backend.Laws.{MysqlLaws, QuietLaws, PublishLaws}
use feed_system_golang.Worker.Outbox.{
  pending, announce, remove_announced, deliver_message, deliver_all, deliver_found, poll,
  poll_rounds,
}
use feed_system_golang.Worker.Outbox.Sending.{
  Announced, announce_sent, announce-Sends, announce-Quiet,
}

-- `id` is the primary key.
abbrev pub Keyed : List OutboxMsg → Type 0
Keyed rows = (a b : OutboxMsg) → Elem a rows → Elem b rows → a.id ≡ b.id → a ≡ b

delete_where-Elem :
    {A : Type 0} (p : A → Bool) (xs : List A) (a : A)
    → Elem a xs
    → p a ≡ false
    → Elem a (delete_where p xs)
delete_where-Elem p [] a i h = absurd i
delete_where-Elem p (x ∷ xs) a (inl e) h = ground arith
delete_where-Elem p (x ∷ xs) a (inr i) h = ground (arith, delete_where-Elem p xs a i)

module _ {W : Type 0} {env : Backend W} {published : W → List Event} (laws : MysqlLaws env)
    (quiet : QuietLaws env) (sent : PublishLaws env published) (has_fanout_mq : Bool) where
  open env use {tables}

  -- From the table `rows`: no row is new, and each is there or was announced.
  record Delivered (rows : List OutboxMsg) (w : W) : Type 0 where
    pub old : (m : OutboxMsg) → Elem m (tables w).outbox → Elem m rows
    pub known :
        (m : OutboxMsg)
        → Elem m rows
        → Elem m (tables w).outbox ⊎ Announced published has_fanout_mq m w

  module _ (rows : List OutboxMsg) (keyed : Keyed rows) where
    -- A step that leaves the tables alone and takes no message back.
    still :
        (w after : W)
        → tables after ≡ tables w
        → ((x : Event) → Elem x (published w) → Elem x (published after))
        → Delivered rows w
        → Delivered rows after
    still w after q s d = record {
      old = λ m i. d.old m (subst (λ t. Elem m t.outbox) q i);
      known = λ m i. elim (d.known m i) [
        | inl there ↦ inl (subst (λ t. Elem m t.outbox) (sym q) there)
        | inr (a, b) ↦ inr (s _ a, λ on. s _ (b on))
      ];
    }

    module _ (msg : OutboxMsg) (found : Elem msg rows) where
      is_it : OutboxMsg → Bool
      is_it m = m.id == msg.id

      abbrev remove : Exec W Outcome
      remove = env.exec (delete_outbox (λ m. m.id == msg.id))

      -- A row other than the announced one survives its deletion.
      spared :
          (w : W) (o : Outcome) (m : OutboxMsg)
          → tables (remove w).1
            ≡ apply (delete_outbox (λ m. m.id == msg.id)) o.last_insert_id (tables w)
          → Elem m rows
          → Announced published has_fanout_mq msg (remove w).1
          → Elem m (tables w).outbox
          → Elem m (tables (remove w).1).outbox ⊎ Announced published has_fanout_mq m (remove w).1
      spared w o m done i a there = elim (Bool-cases (m.id == msg.id)) [
        | inl same ↦ inr (
            subst (λ k. Announced published has_fanout_mq k (remove w).1)
              (sym (keyed m msg i found ((==_iff m.id msg.id).0 same))) a)
        | inr other ↦ inl (
            subst (λ t. Elem m t.outbox) (sym done)
              (delete_where-Elem (λ k. k.id == msg.id) (tables w).outbox m there other))
      ]

      deleted-Delivered :
          (w : W)
          → Announced published has_fanout_mq msg w
          → Delivered rows w
          → Delivered rows (remove w).1
      deleted-Delivered w (a, b) d =
          elim (laws.exec_cases (delete_outbox (λ m. m.id == msg.id)) w) [
            | inl (e, q, same) ↦ still w _ same keeps d
            | inr (o, q, done, _, _) ↦ record {
              old = λ m i.
                  d.old m (select-Elem _ (tables w).outbox m (subst (λ t. Elem m t.outbox) done i));
              known = λ m i. elim (d.known m i) [
                | inl there ↦ spared w o m done i (keeps _ a, λ on. keeps _ (b on)) there
                | inr (c, f) ↦ inr (keeps _ c, λ on. keeps _ (f on))
              ];
            }
          ]
        where
          keeps : (x : Event) → Elem x (published w) → Elem x (published (remove w).1)
          keeps x i = sent.exec_keeps _ w x i

      after_announce :
          (r : Result (Unit {0})) (w : W)
          → (r ≡ ok tt → Announced published has_fanout_mq msg w)
          → Delivered rows w
          → Delivered rows (remove_announced env has_fanout_mq msg r w).1
      unfolding remove_announced pure ignore
      after_announce (err e) w a d = d
      after_announce (ok u) w a d = deleted-Delivered w (a refl) d

      message-Delivered :
          (w : W) → Delivered rows w → Delivered rows (deliver_message env has_fanout_mq msg w).1
      unfolding deliver_message attempt ◌>>=◌
      message-Delivered w d =
          after_announce (announce env has_fanout_mq msg w).0 _
            (announce_sent quiet sent has_fanout_mq msg w)
            (still w _ ((announce-Quiet quiet sent has_fanout_mq msg).at w)
              ((announce-Sends quiet sent has_fanout_mq msg).at w) d)

    continued :
        {A : Type 0} (r : Result A) (w : W) (n : Exec W (Unit {0}))
        → ((v : W) → Delivered rows v → Delivered rows (n v).1)
        → Delivered rows w
        → Delivered rows (continue r (λ _. n) w).1
    continued (ok a) w n k d = k w d
    continued (err e) w n k d = d

    all-Delivered :
        (msgs : List OutboxMsg)
        → ((m : OutboxMsg) → Elem m msgs → Elem m rows)
        → (w : W) → Delivered rows w
        → Delivered rows (deliver_all env has_fanout_mq msgs w).1
    unfolding deliver_all ◌>>=◌ pure
    all-Delivered [] f w d = d
    all-Delivered (msg ∷ msgs) f w d =
        continued (deliver_message env has_fanout_mq msg w).0 _ (deliver_all env has_fanout_mq msgs)
          (all-Delivered msgs (λ m i. f m (inr i))) (message-Delivered msg (f msg (inl refl)) w d)

    found-Delivered :
        (r : Result (List OutboxMsg)) (w : W)
        → ((msgs : List OutboxMsg) → r ≡ ok msgs → (m : OutboxMsg) → Elem m msgs → Elem m rows)
        → Delivered rows w
        → Delivered rows (deliver_found env has_fanout_mq r w).1
    unfolding deliver_found pure
    found-Delivered (err e) w f d = d
    found-Delivered (ok msgs) w f d = all-Delivered msgs (f msgs refl) w d

    found_old :
        (w : W)
        → Delivered rows w
        → (msgs : List OutboxMsg) → (env.find_outbox pending w).0 ≡ ok msgs
        → (m : OutboxMsg) → Elem m msgs
        → Elem m rows
    found_old w d msgs q m i = elim (laws.find_outbox-Answers pending w) [
      | inl (e, failed) ↦ cc
      | inr (answer, q', f) ↦ d.old m (f m (subst (Elem m) (ok_same msgs answer (sym q ∙ q')) i))
    ]

    poll-Delivered : (w : W) → Delivered rows w → Delivered rows (poll env has_fanout_mq w).1
    unfolding poll attempt ◌>>=◌
    poll-Delivered w d =
        found-Delivered (env.find_outbox pending w).0 _ (found_old w d)
          (still w _ ((laws.find_outbox-Quiet pending).at w) (sent.find_outbox_keeps pending w) d)

    rounds-Delivered :
        (n : ℕ) (w : W) → Delivered rows w → Delivered rows (poll_rounds env has_fanout_mq n w).1
    unfolding poll_rounds ◌>>=◌ pure
    rounds-Delivered zero w d = d
    rounds-Delivered (suc n) w d =
        continued (poll env has_fanout_mq w).0 _ (poll_rounds env has_fanout_mq n)
          (rounds-Delivered n) (poll-Delivered w d)

  -- Whatever calls fail, after any number of rounds of the poller: each message that was in the
  -- outbox is still there, or its timeline event was sent, and its fanout event too if there is
  -- such a queue. The ids of the outbox are a key.
  pub poll_rounds-Announced :
      (n : ℕ) (w : W)
      → Keyed (tables w).outbox
      → (m : OutboxMsg) → Elem m (tables w).outbox
      → Elem m (tables (poll_rounds env has_fanout_mq n w).1).outbox
        ⊎ Announced published has_fanout_mq m (poll_rounds env has_fanout_mq n w).1
  poll_rounds-Announced n w keyed m i =
      (rounds-Delivered (tables w).outbox keyed n w
          (record { old = λ k j. j; known = λ k j. inl j })).known
        m i
