-- ===== src/Worker/Social/Relation.antt =====
-- What a message to the social worker does to the relation of who follows whom.
use feed_system_golang.Base.{
  ℕ, String, ◌≡◌, refl, sym, ap, subst, ◌∙◌, ◌⊎◌, inl, inr, Bool, true, false, not, Option, none,
  some, Error, mysql, Result, ok, err, Exec, pure, raise, give, attempt, ignore, ◌>>=◌,
  if◌then◌else◌, ◌==◌, ◌&&◌, ◌||◌, str_eq, Bool-cases, arith,
}
use feed_system_golang.Backend.{Backend}
use feed_system_golang.Backend.Entity.{Social}
use feed_system_golang.Backend.Events.{SocialEvent}
use feed_system_golang.Backend.Sql.{Tables, insert_social}
use feed_system_golang.Backend.Quiet.{Quiet}
use feed_system_golang.Backend.Laws.{MysqlLaws, QuietLaws}
use feed_system_golang.Cache.{Client}
use feed_system_golang.Video.Repo.{is_duplicate_key}
use feed_system_golang.Social.Repo.{is_pair, insert_follow, delete_follow}
use feed_system_golang.Social.Relation.{follows}
use feed_system_golang.Social.Contract.{
  FollowOutcome, UnfollowOutcome, insert_follow-outcome, delete_follow-outcome,
}
use feed_system_golang.Worker.Social.{
  tolerate, apply_follow, finish_unfollow, apply_unfollow, dispatch, process, on_follow,
}
use feed_system_golang.Worker.Social.Upkeep.{on_follow-Quiet, on_unfollow-Quiet}

-- Does `a` follow `b` after a message, if `x` says whether it did before?
abbrev pub told : String → ℕ → ℕ → ℕ → ℕ → Bool → Bool
told action f v a b x =
    if f == 0 || v == 0
    then x
    else if str_eq action "follow"
    then x || f == a && v == b
    else if str_eq action "unfollow"
    then not (f == a && v == b) && x
    else x

abbrev pub change_of : Option SocialEvent → ℕ → ℕ → Bool → Bool
change_of none a b x = x
change_of (some evt) a b x = told evt.action evt.follower_id evt.vlogger_id a b x

module _ {W : Type 0} {env : Backend W} (laws : MysqlLaws env) (quiet : QuietLaws env)
    (cache : Option Client) where
  open env use {tables}

  -- The relation is the one that `change` makes of that before, or there is an error and the
  -- tables are the same.
  abbrev pub Outcome : (ℕ → ℕ → Bool → Bool) → Tables → Result (Unit {0}) × W → Type 0
  Outcome change t done =
      ((e : Error) × (done.0 ≡ err e) × (tables done.1 ≡ t))
      ⊎ ((done.0 ≡ ok tt) × ((a b : ℕ) → follows a b (tables done.1) ≡ change a b (follows a b t)))

  -- The upkeep that comes last changes nothing, and has no error.
  ignored :
      (change : ℕ → ℕ → Bool → Bool) (t : Tables) (m : Exec W (Unit {0})) (w : W)
      → Quiet env m
      → ((a b : ℕ) → follows a b (tables w) ≡ change a b (follows a b t))
      → Outcome change t (ignore m w)
  unfolding ignore
  ignored change t m w q h = inr (refl, λ a b. ap (λ u. follows a b u) (q.at w) ∙ h a b)

  follow_change : Social → ℕ → ℕ → Bool → Bool
  follow_change s a b x = x || is_pair a b s

  duplicate : (e : Error) → is_duplicate_key e ≡ true → e ≡ mysql 1062
  duplicate e h = ground arith

  same_as : (s : Social) (a b : ℕ) → is_pair a b s ≡ true → (s.follower_id ≡ a) × (s.vlogger_id ≡ b)
  same_as s a b h = (ground arith, ground arith)

  -- A second row is refused because the pair is there.
  already :
      (s : Social) (a b : ℕ) (t : Tables)
      → follows s.follower_id s.vlogger_id t ≡ true
      → follows a b t ≡ (follows a b t || is_pair a b s)
  already s a b t h = elim (Bool-cases (is_pair a b s)) [
    | inl same ↦
        let (p, q) = same_as s a b same in
        let there : follows a b t ≡ true =
          subst (λ y. follows a y t ≡ true) q (subst (λ x. follows x s.vlogger_id t ≡ true) p h) in
        ground arith
    | inr other ↦ ground arith
  ]

  refused_pair :
      (s : Social) (w : W)
      → (insert_follow env s w).0 ≡ err (mysql 1062)
      → follows s.follower_id s.vlogger_id (tables w) ≡ true
  unfolding insert_follow ◌>>=◌
  refused_pair s w q = laws.duplicate_is_there (insert_social s) w (ground arith)

  module _ (s : Social) (t : Tables) where
    upkeep : W → Result (Unit {0}) × W
    upkeep = ignore (on_follow env cache s.follower_id s.vlogger_id)

    tolerate_if : Bool → Error → Exec W (Unit {0})
    tolerate_if d e = if d then pure tt else raise e

    after_insert :
        (r : Result (Unit {0})) (w : W)
        → FollowOutcome laws quiet s t (r, w)
        → (r ≡ err (mysql 1062) → follows s.follower_id s.vlogger_id t ≡ true)
        → Outcome (follow_change s) t ((tolerate env cache r >>= λ _. upkeep) w)
    unfolding tolerate tolerate_if ◌>>=◌ follow_change upkeep
    after_insert (ok u) w (inl (e, q, same)) there = cc
    after_insert (ok u) w (inr (_, _, changed)) there =
        ignored (follow_change s) t _ w
          (on_follow-Quiet laws quiet cache s.follower_id s.vlogger_id) changed
    after_insert (err e) w (inr (q, _, _)) there = cc
    after_insert (err e) w (inl (e', q, same)) there = tolerated (is_duplicate_key e) refl
      where
        tolerated :
            (d : Bool)
            → is_duplicate_key e ≡ d
            → Outcome (follow_change s) t ((tolerate_if d e >>= λ _. upkeep) w)
        tolerated false d = inl (e, refl, same)
        tolerated true d =
            ignored (follow_change s) t _ w
              (on_follow-Quiet laws quiet cache s.follower_id s.vlogger_id)
              (λ a b.
                ap (λ u. follows a b u) same ∙ already s a b t (there (ap err (duplicate e d))))

    apply_follow-outcome :
        (w : W) → tables w ≡ t → Outcome (follow_change s) t (apply_follow env cache s w)
    unfolding apply_follow attempt upkeep ◌>>=◌
    apply_follow-outcome w h =
        after_insert (insert_follow env s w).0 (insert_follow env s w).1
          (insert_follow-outcome laws quiet s t w h)
          (λ q. ap (λ u. follows s.follower_id s.vlogger_id u) (sym h) ∙ refused_pair s w q)

    unfollow_change : ℕ → ℕ → Bool → Bool
    unfollow_change a b x = not (s.follower_id == a && s.vlogger_id == b) && x

    after_delete :
        (r : Result (Unit {0})) (w : W)
        → UnfollowOutcome laws quiet s t (r, w)
        → Outcome unfollow_change t (finish_unfollow env cache s r w)
    unfolding finish_unfollow ◌>>=◌ ignore give unfollow_change
    after_delete r w (inl (e, q, same)) =
        inl (e, q, (on_unfollow-Quiet laws quiet cache s.follower_id s.vlogger_id).at w ∙ same)
    after_delete r w (inr (q, changed)) = inr (
      q,
      λ a b.
          ap (λ u. follows a b u)
            ((on_unfollow-Quiet laws quiet cache s.follower_id s.vlogger_id).at w)
          ∙ changed a b,
    )

    apply_unfollow-outcome :
        (w : W) → tables w ≡ t → Outcome unfollow_change t (apply_unfollow env cache s w)
    unfolding apply_unfollow attempt ◌>>=◌
    apply_unfollow-outcome w h =
        after_delete (delete_follow env s w).0 (delete_follow env s w).1
          (delete_follow-outcome laws quiet s t w h)

  no_change : (t : Tables) (w : W) → tables w ≡ t → Outcome (λ a b x. x) t (pure tt w)
  unfolding pure
  no_change t w h = inr (refl, λ a b. ap (λ u. follows a b u) h)

  choose :
      (b : Bool) (c d : ℕ → ℕ → Bool → Bool) (t : Tables) (m n : Exec W (Unit {0})) (w : W)
      → Outcome c t (m w)
      → Outcome d t (n w)
      → Outcome (λ x y before. if b then c x y before else d x y before) t ((if b then m else n) w)
  choose true c d t m n w p q = p
  choose false c d t m n w p q = q

  -- Whatever calls fail: after a message, the relation of who follows whom is what the message
  -- tells, or the message is put back with an error and every table is as it was. What a message
  -- tells is `told`: a follow adds its pair, also when it was there, an unfollow takes it away, and
  -- all else, an unreadable message included, changes nothing.
  pub process-outcome :
      (body : Option SocialEvent) (w : W)
      → Outcome (change_of body) (tables w) (process env cache body w)
  unfolding process dispatch follow_change unfollow_change
  process-outcome none w = no_change (tables w) w refl
  process-outcome (some evt) w =
      let t = tables w in
      let s : Social = record {
        id = 0;
        follower_id = evt.follower_id;
        vlogger_id = evt.vlogger_id;
      } in
      let keep : ℕ → ℕ → Bool → Bool = λ a b x. x in
      let unfollowed : ℕ → ℕ → Bool → Bool =
        λ a b x. if str_eq evt.action "unfollow" then unfollow_change s t a b x else x in
      let changed : ℕ → ℕ → Bool → Bool =
        λ a b x. if str_eq evt.action "follow" then follow_change s a b x else unfollowed a b x in
      choose (evt.follower_id == 0 || evt.vlogger_id == 0) keep changed t _ _ w (no_change t w refl)
        (choose (str_eq evt.action "follow") (follow_change s) unfollowed t _ _ w
          (apply_follow-outcome s t w refl)
          (choose (str_eq evt.action "unfollow") (unfollow_change s t) keep t _ _ w
            (apply_unfollow-outcome s t w refl) (no_change t w refl)))
