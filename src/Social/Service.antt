-- ===== src/Social/Service.antt =====
-- social/service.go

use feed_system_golang.Base.{
  ℕ, Bool, true, false, List, message, Exec, pure, raise, ignore, ◌>>=◌, ◌>>◌, ◌==◌, if◌then◌else◌,
}
use feed_system_golang.Backend.{Backend}
use feed_system_golang.Backend.Entity.{Social, Account}
use feed_system_golang.Mq.{send_follow, send_unfollow}
use feed_system_golang.Account.Repo.{find_by_id}
use feed_system_golang.Social.Repo.{
  insert_follow, delete_follow, all_followers, all_vloggers, is_followed,
}

module _ {W : Type 0} (env : Backend W) (has_social_mq : Bool) where
  -- An error of the queue is ignored.
  unfoldable pub notify : Exec W (Unit {0}) → Exec W (Unit {0})
  notify send = if has_social_mq then ignore send else pure tt

  unfoldable pub follow_unless : Social → Bool → Exec W (Unit {0})
  follow_unless social true = raise (message "already followed")
  follow_unless social false = do
    notify (send_follow env social.follower_id social.vlogger_id)
    insert_follow env social

  unfoldable pub follow_other : Social → Exec W (Unit {0})
  follow_other social = do followed ← is_followed env social; follow_unless social followed

  unfoldable pub follow : Social → Exec W (Unit {0})
  unfolding notify follow_unless follow_other
  follow social = do
    find_by_id env social.follower_id
    find_by_id env social.vlogger_id
    if social.follower_id == social.vlogger_id
        then raise (message "can not follow self")
        else follow_other social

  unfoldable pub unfollow_if : Social → Bool → Exec W (Unit {0})
  unfollow_if social false = raise (message "not followed")
  unfollow_if social true = do
    notify (send_unfollow env social.follower_id social.vlogger_id)
    delete_follow env social

  unfoldable pub unfollow : Social → Exec W (Unit {0})
  unfolding notify unfollow_if
  unfollow social = do
    find_by_id env social.follower_id
    find_by_id env social.vlogger_id
    followed ← is_followed env social
    unfollow_if social followed

  unfoldable pub get_all_followers : ℕ → Exec W (List Account)
  get_all_followers vlogger_id = do find_by_id env vlogger_id; all_followers env vlogger_id

  unfoldable pub get_all_vloggers : ℕ → Exec W (List Account)
  get_all_vloggers follower_id = do find_by_id env follower_id; all_vloggers env follower_id

  unfoldable pub check_followed : Social → Exec W Bool
  check_followed social = do
    find_by_id env social.follower_id
    find_by_id env social.vlogger_id
    is_followed env social
