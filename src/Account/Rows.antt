-- ===== src/Account/Rows.antt =====
-- What the statements of account/repo.go leave in the rows.
use feed_system_golang.Base.{ℕ, ◌≡◌, sym, ap, ◌∙◌, String, Elem, Elem-map_inv, arith, if◌then◌else◌}
use feed_system_golang.Backend.Entity.{Account}
use feed_system_golang.Backend.Sql.{Tables, apply, update_accounts}
use feed_system_golang.Account.Repo.{has_id, set_token}

-- Every row of the account holds the token.
abbrev pub Holds : ℕ → String → Tables → Type 0
Holds id token t = (a : Account) → Elem a t.accounts → a.id ≡ id → a.token ≡ token

held_row :
    (id : ℕ) (token : String) (b : Account)
    → (if has_id id b then set_token token b else b).id ≡ id
    → (if has_id id b then set_token token b else b).token ≡ token
held_row id token b h = ground arith

-- The rows after the token was stored.
pub Holds-update :
    (id : ℕ) (token : String) (key : ℕ) (t : Tables)
    → Holds id token (apply (update_accounts (has_id id) (set_token token)) key t)
Holds-update id token key t a i same =
    let (b, _, e) =
      Elem-map_inv (λ c. if has_id id c then set_token token c else c) a t.accounts i in
    ap (λ x. x.token) e ∙ held_row id token b (sym (ap (λ x. x.id) e) ∙ same)
