-- ===== src/Backend/Sql.antt =====
-- The statements that the repositories send, and what each asks of the tables.
use feed_system_golang.Base.{
  ℕ, Bool, true, false, not, Option, List, [], ◌∷◌, ◌++◌, map, select, length, ◌==◌, ◌&&◌, ◌||◌,
  str_eq, if◌then◌else◌,
}
use feed_system_golang.Backend.Entity.{Video, Like, Comment, Social, Account, OutboxMsg}

pub record Tables : Type 0 where
  pub accounts : List Account
  pub socials : List Social
  pub videos : List Video
  pub likes : List Like
  pub comments : List Comment
  pub outbox : List OutboxMsg

-- `Where`, `Order`, `Offset` and `Limit`.
pub record Query (A : Type 0) : Type 0 where
  pub matches : A → Bool
  pub before : A → A → Bool
  pub offset : ℕ
  pub limit : Option ℕ

pub record Outcome : Type 0 where
  pub rows_affected : ℕ
  pub last_insert_id : ℕ

pub data Write : Type 0 where
  insert_account : Account → Write
  insert_social : Social → Write
  insert_video : Video → Write
  insert_like : Like → Write
  insert_comment : Comment → Write
  insert_outbox : OutboxMsg → Write
  update_accounts : (Account → Bool) → (Account → Account) → Write
  update_videos : (Video → Bool) → (Video → Video) → Write
  delete_socials : (Social → Bool) → Write
  delete_videos : (Video → Bool) → Write
  delete_likes : (Like → Bool) → Write
  delete_comments : (Comment → Bool) → Write
  delete_outbox : (OutboxMsg → Bool) → Write

abbrev pub update_where : {A : Type 0} → (A → Bool) → (A → A) → List A → List A
update_where p f = map (λ a. if p a then f a else a)

abbrev pub delete_where : {A : Type 0} → (A → Bool) → List A → List A
delete_where p = select (λ a. not (p a))

-- The tables after a statement that succeeds; `id` is the key that an insertion is given.
abbrev pub apply : Write → ℕ → Tables → Tables
apply (insert_account a) id t = record t { accounts = t.accounts ++ record a { id = id } ∷ [] }
apply (insert_social s) id t = record t { socials = t.socials ++ record s { id = id } ∷ [] }
apply (insert_video v) id t = record t { videos = t.videos ++ record v { id = id } ∷ [] }
apply (insert_like l) id t = record t { likes = t.likes ++ record l { id = id } ∷ [] }
apply (insert_comment c) id t = record t { comments = t.comments ++ record c { id = id } ∷ [] }
apply (insert_outbox m) id t = record t { outbox = t.outbox ++ record m { id = id } ∷ [] }
apply (update_accounts p f) id t = record t { accounts = update_where p f t.accounts }
apply (update_videos p f) id t = record t { videos = update_where p f t.videos }
apply (delete_socials p) id t = record t { socials = delete_where p t.socials }
apply (delete_videos p) id t = record t { videos = delete_where p t.videos }
apply (delete_likes p) id t = record t { likes = delete_where p t.likes }
apply (delete_comments p) id t = record t { comments = delete_where p t.comments }
apply (delete_outbox p) id t = record t { outbox = delete_where p t.outbox }

abbrev pub any : {A : Type 0} → (A → Bool) → List A → Bool
any p [] = false
any p (x ∷ xs) = p x || any p xs

-- The unique indexes of the tables `accounts`, `socials` and `likes`.
abbrev pub violates : Write → Tables → Bool
violates (insert_account a) t = any (λ b. str_eq b.username a.username) t.accounts
violates (insert_social s) t =
    any (λ r. r.follower_id == s.follower_id && r.vlogger_id == s.vlogger_id) t.socials
violates (insert_like l) t =
    any (λ r. r.video_id == l.video_id && r.account_id == l.account_id) t.likes
violates (update_accounts p f) t =
    any (λ a. p a && any (λ b. not (b.id == a.id) && str_eq b.username (f a).username) t.accounts)
      t.accounts
violates _ t = false

-- The rows that a deletion takes away.
abbrev pub deleted : Write → Tables → ℕ
deleted (delete_socials p) t = length (select p t.socials)
deleted (delete_videos p) t = length (select p t.videos)
deleted (delete_likes p) t = length (select p t.likes)
deleted (delete_comments p) t = length (select p t.comments)
deleted (delete_outbox p) t = length (select p t.outbox)
deleted _ t = 0

abbrev pub is_deletion : Write → Bool
is_deletion (delete_socials p) = true
is_deletion (delete_videos p) = true
is_deletion (delete_likes p) = true
is_deletion (delete_comments p) = true
is_deletion (delete_outbox p) = true
is_deletion _ = false
