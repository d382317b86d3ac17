-- ===== src/Social/Contract.antt =====
-- What `Follow` and `Unfollow` of the service do to the relation.
use feed_system_golang.Base.{
  ℕ, ◌≡◌, refl, sym, ap, ◌∙◌, ◌⊎◌, inl, inr, Bool, true, false, not, Error, message, Result, ok,
  err, Exec, raise, ◌>>=◌, if◌then◌else◌, ◌==◌, ◌&&◌, ◌||◌, arith,
}
use feed_system_golang.Backend.{Backend}
use feed_system_golang.Backend.Entity.{Social}
use feed_system_golang.Backend.Sql.{Outcome, apply, Tables, insert_social, delete_socials}
use feed_system_golang.Backend.Quiet.{Quiet, quiet_rules}
use feed_system_golang.Backend.Laws.{MysqlLaws, QuietLaws}
use feed_system_golang.Backend.Keeps.{quiet_then}
use feed_system_golang.Mq.Quiet.{send_follow-Quiet, send_unfollow-Quiet}
use feed_system_golang.Account.Repo.{find_by_id}
use feed_system_golang.Social.Repo.{is_pair, insert_follow, delete_follow, is_followed}
use feed_system_golang.Social.Relation.{follows, any-append, any-unfollowed}
use feed_system_golang.Social.Service.{
  notify, follow_unless, follow_other, follow, unfollow_if, unfollow,
}

module _ {W : Type 0} {env : Backend W} (laws : MysqlLaws env) (quiet : QuietLaws env) where
  open env use {tables}

  -- A refusal changes nothing; a success adds the pair, which was not there.
  abbrev pub FollowOutcome : Social → Tables → Result (Unit {0}) × W → Type 0
  FollowOutcome s t done =
      ((e : Error) × (done.0 ≡ err e) × (tables done.1 ≡ t))
      ⊎ ((done.0 ≡ ok tt)
          × (follows s.follower_id s.vlogger_id t ≡ false)
          × ((a b : ℕ) → follows a b (tables done.1) ≡ (follows a b t || is_pair a b s)))

  abbrev pub UnfollowOutcome : Social → Tables → Result (Unit {0}) × W → Type 0
  UnfollowOutcome s t done =
      ((e : Error) × (done.0 ≡ err e) × (tables done.1 ≡ t))
      ⊎ ((done.0 ≡ ok tt)
          × ((a b : ℕ)
              → follows a b (tables done.1)
                ≡ (not (s.follower_id == a && s.vlogger_id == b) && follows a b t)))

  pub insert_follow-outcome :
      (s : Social) (t : Tables) (w : W) → tables w ≡ t → FollowOutcome s t (insert_follow env s w)
  unfolding insert_follow ◌>>=◌
  insert_follow-outcome s t w h = elim (laws.exec_cases (insert_social s) w) [
    | inl (e, q, same) ↦ inl (e, ground arith, ground arith)
    | inr (o, q, done, fresh, _) ↦ inr (
      ground arith,
      ap (λ u. follows s.follower_id s.vlogger_id u) (sym h) ∙ fresh,
      λ a b.
          ap (λ u. follows a b u)
            (after o q ∙ done ∙ ap (apply (insert_social s) o.last_insert_id) h)
          ∙ any-append (is_pair a b) t.socials (record s { id = o.last_insert_id }),
    )
  ]
    where
      after :
          (o : Outcome)
          → (env.exec (insert_social s) w).0 ≡ ok o
          → tables (insert_follow env s w).1 ≡ tables (env.exec (insert_social s) w).1
      after o q = ground arith

  pub delete_follow-outcome :
      (s : Social) (t : Tables) (w : W) → tables w ≡ t → UnfollowOutcome s t (delete_follow env s w)
  unfolding delete_follow ◌>>=◌
  delete_follow-outcome s t w h =
      elim (laws.exec_cases (delete_socials (is_pair s.follower_id s.vlogger_id)) w) [
        | inl (e, q, same) ↦ inl (e, ground arith, ground arith)
        | inr (o, q, done, fresh, _) ↦ inr (
          ground arith,
          λ a b.
              ap (λ u. follows a b u)
                (after o q
                  ∙ done
                  ∙ ap
                      (apply (delete_socials (is_pair s.follower_id s.vlogger_id)) o.last_insert_id)
                      h)
              ∙ any-unfollowed a b s.follower_id s.vlogger_id t.socials,
        )
      ]
    where
      after :
          (o : Outcome)
          → (env.exec (delete_socials (is_pair s.follower_id s.vlogger_id)) w).0 ≡ ok o
          → tables (delete_follow env s w).1
            ≡ tables (env.exec (delete_socials (is_pair s.follower_id s.vlogger_id)) w).1
      after o q = ground arith

  notify-Quiet :
      (has_mq : Bool) (send : Exec W (Unit {0}))
      → Quiet env send
      → Quiet env (notify env has_mq send)
  unfolding notify
  notify-Quiet has_mq send q = search quiet_rules

  refusal :
      (s : Social) (t : Tables) (e : Error) (w : W) → tables w ≡ t → FollowOutcome s t (err e, w)
  refusal s t e w h = inl (e, refl, h)

  find_by_id-Quiet : (id : ℕ) → Quiet env (find_by_id env id)
  unfolding find_by_id
  find_by_id-Quiet id = laws.first_account-Quiet (λ a. a.id == id)

  is_followed-Quiet : (s : Social) → Quiet env (is_followed env s)
  unfolding is_followed
  is_followed-Quiet s = search (quiet_rules, laws.count_socials-Quiet)

  module _ (has_mq : Bool) (s : Social) (t : Tables) where
    follow_unless-outcome :
        (followed : Bool) (w : W)
        → tables w ≡ t
        → FollowOutcome s t (follow_unless env has_mq s followed w)
    unfolding follow_unless raise
    follow_unless-outcome true w h = inl (message "already followed", refl, h)
    follow_unless-outcome false w h =
        quiet_then t (FollowOutcome s t) (refusal s t) _ _ w
          (notify-Quiet has_mq _ (send_follow-Quiet quiet s.follower_id s.vlogger_id)) h
          (λ _ _ h'. insert_follow-outcome s t _ h')

    follow_other-outcome : (w : W) → tables w ≡ t → FollowOutcome s t (follow_other env has_mq s w)
    unfolding follow_other
    follow_other-outcome w h =
        quiet_then t (FollowOutcome s t) (refusal s t) _ _ w (is_followed-Quiet s) h
          (λ followed _ h'. follow_unless-outcome followed _ h')

    follow-outcome : (w : W) → tables w ≡ t → FollowOutcome s t (follow env has_mq s w)
    unfolding follow raise
    follow-outcome w h =
        quiet_then t (FollowOutcome s t) (refusal s t) _ _ w (find_by_id-Quiet s.follower_id) h
          (λ _ _ h'.
            quiet_then t (FollowOutcome s t) (refusal s t) _ _ _ (find_by_id-Quiet s.vlogger_id) h'
              (λ _ _ h''. other_than_self (s.follower_id == s.vlogger_id) _ h''))
      where
        other_than_self :
            (self : Bool) (w : W)
            → tables w ≡ t
            → FollowOutcome s t (
                (if self then raise (message "can not follow self") else follow_other env has_mq s)
                  w)
        other_than_self true w h = inl (message "can not follow self", refl, h)
        other_than_self false w h = follow_other-outcome w h

    unrefused : (e : Error) (w : W) → tables w ≡ t → UnfollowOutcome s t (err e, w)
    unrefused e w h = inl (e, refl, h)

    unfollow_if-outcome :
        (followed : Bool) (w : W)
        → tables w ≡ t
        → UnfollowOutcome s t (unfollow_if env has_mq s followed w)
    unfolding unfollow_if raise
    unfollow_if-outcome false w h = inl (message "not followed", refl, h)
    unfollow_if-outcome true w h =
        quiet_then t (UnfollowOutcome s t) unrefused _ _ w
          (notify-Quiet has_mq _ (send_unfollow-Quiet quiet s.follower_id s.vlogger_id)) h
          (λ _ _ h'. delete_follow-outcome s t _ h')

    unfollow-outcome : (w : W) → tables w ≡ t → UnfollowOutcome s t (unfollow env has_mq s w)
    unfolding unfollow
    unfollow-outcome w h =
        quiet_then t (UnfollowOutcome s t) unrefused _ _ w (find_by_id-Quiet s.follower_id) h
          (λ _ _ h'.
            quiet_then t (UnfollowOutcome s t) unrefused _ _ _ (find_by_id-Quiet s.vlogger_id) h'
              (λ _ _ h''.
                quiet_then t (UnfollowOutcome s t) unrefused _ _ _ (is_followed-Quiet s) h''
                  (λ followed _ i. unfollow_if-outcome followed _ i)))

  -- Whatever calls fail: `Follow` and `Unfollow` of the service either answer an error and leave
  -- every table as it was, or succeed, and then the relation of who follows whom has changed at the
  -- one pair: `Follow` adds it, which was not there before, and `Unfollow` takes it away.
  pub follow-unfollow-outcome :
      (has_mq : Bool) (s : Social) (w : W)
      → FollowOutcome s (tables w) (follow env has_mq s w)
        × UnfollowOutcome s (tables w) (unfollow env has_mq s w)
  follow-unfollow-outcome has_mq s w =
      (follow-outcome has_mq s (tables w) w refl, unfollow-outcome has_mq s (tables w) w refl)
