-- ===== src/Worker/Delivery.antt =====
-- `handleDelivery` and the loop of `Run`, the same in the like, comment, social and popularity workers.
use feed_system_golang.Base.{List, [], ◌∷◌, Result, ok, err, Exec, pure, attempt, ◌>>=◌}

-- `Ack(false)`, or `Nack(false, true)`: the message goes back into the queue.
pub data Verdict : Type 0 where
  ack requeue : Verdict

abbrev pub verdict : Result (Unit {0}) → Verdict
verdict (ok u) = Verdict.ack
verdict (err e) = Verdict.requeue

module _ {W : Type 0} where
  unfoldable pub handle_delivery : Exec W (Unit {0}) → Exec W Verdict
  handle_delivery process = do r ← attempt process; pure (verdict r)

  -- The loop of `Run` over the messages that come, until the channel closes.
  unfoldable pub deliver : {M : Type 0} → (M → Exec W (Unit {0})) → List M → W → W
  unfolding handle_delivery
  deliver process [] w = w
  deliver process (body ∷ bodies) w = deliver process bodies (handle_delivery (process body) w).1
