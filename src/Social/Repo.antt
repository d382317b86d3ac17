-- ===== src/Social/Repo.antt =====
-- social/repo.go
use feed_system_golang.Base.{
  ℕ, ltb, Bool, none, List, [], ◌∷◌, map, false, ◌==◌, ◌&&◌, Exec, pure, ◌>>=◌, ◌>>◌,
}
use feed_system_golang.Backend.{Backend}
use feed_system_golang.Backend.Entity.{Social, Account}
use feed_system_golang.Backend.Sql.{Query, any, insert_social, delete_socials}

abbrev pub is_pair : ℕ → ℕ → Social → Bool
is_pair follower_id vlogger_id s = s.follower_id == follower_id && s.vlogger_id == vlogger_id

-- `Where(...)` alone.
abbrev pub where_only : {A : Type 0} → (A → Bool) → Query A
where_only p = record { matches = p; before = λ a b. false; offset = 0; limit = none }

module _ {W : Type 0} (env : Backend W) where
  unfoldable pub insert_follow : Social → Exec W (Unit {0})
  insert_follow social = do env.exec (insert_social social); pure tt

  unfoldable pub delete_follow : Social → Exec W (Unit {0})
  delete_follow social = do
    env.exec (delete_socials (is_pair social.follower_id social.vlogger_id))
    pure tt

  -- No query for an empty list of ids.
  unfoldable pub accounts_in : List ℕ → Exec W (List Account)
  accounts_in [] = pure []
  accounts_in (id ∷ ids) = env.find_accounts (where_only (λ a. any (λ i. i == a.id) (id ∷ ids)))

  unfoldable pub all_followers : ℕ → Exec W (List Account)
  unfolding accounts_in
  all_followers vlogger_id = do
    relations ← env.find_socials (where_only (λ s. s.vlogger_id == vlogger_id))
    accounts_in (map (λ s. s.follower_id) relations)

  unfoldable pub all_vloggers : ℕ → Exec W (List Account)
  unfolding accounts_in
  all_vloggers follower_id = do
    relations ← env.find_socials (where_only (λ s. s.follower_id == follower_id))
    accounts_in (map (λ s. s.vlogger_id) relations)

  unfoldable pub is_followed : Social → Exec W Bool
  is_followed social = do
    n ← env.count_socials (is_pair social.follower_id social.vlogger_id)
    pure (ltb 0 n)

  unfoldable pub all_follower_ids : ℕ → Exec W (List ℕ)
  all_follower_ids vlogger_id = do
    relations ← env.find_socials (where_only (λ s. s.vlogger_id == vlogger_id))
    pure (map (λ s. s.follower_id) relations)

  unfoldable pub count_followers : ℕ → Exec W ℕ
  count_followers vlogger_id = env.count_socials (λ s. s.vlogger_id == vlogger_id)
