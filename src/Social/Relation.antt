-- ===== src/Social/Relation.antt =====
-- The relation that the table `socials` holds, and how the repository's statements change it.
use feed_system_golang.Base.{
  ℕ, ◌≡◌, Bool, not, ltb, length, select, List, [], ◌∷◌, ◌++◌, ◌==◌, ◌&&◌, ◌||◌, arith,
}
use feed_system_golang.Backend.Entity.{Social}
use feed_system_golang.Backend.Sql.{Tables, any, delete_where}
use feed_system_golang.Social.Repo.{is_pair}

-- Does `a` follow `b`?
abbrev pub follows : ℕ → ℕ → Tables → Bool
follows a b t = any (is_pair a b) t.socials

pub any-append :
    {A : Type 0} (p : A → Bool) (xs : List A) (x : A) → any p (xs ++ x ∷ []) ≡ (any p xs || p x)
any-append p [] x = ground arith
any-append p (y ∷ xs) x = ground (arith, any-append p xs x)

same_pair :
    (a b f v : ℕ) (s : Social)
    → (is_pair a b s && not (is_pair f v s)) ≡ (is_pair a b s && not (f == a && v == b))
same_pair a b f v s = ground arith

pub any-unfollowed :
    (a b f v : ℕ) (ss : List Social)
    → any (is_pair a b) (delete_where (is_pair f v) ss)
      ≡ (not (f == a && v == b) && any (is_pair a b) ss)
any-unfollowed a b f v [] = ground arith
any-unfollowed a b f v (s ∷ ss) = ground (arith, any-unfollowed a b f v ss, same_pair a b f v s)

pub any-counted :
    {A : Type 0} (p : A → Bool) (xs : List A) → ltb 0 (length (select p xs)) ≡ any p xs
any-counted p [] = ground arith
any-counted p (x ∷ xs) = ground (arith, any-counted p xs)
