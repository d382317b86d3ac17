-- ===== src/Account/Session.antt =====
-- The token middleware against the stored tokens.
use feed_system_golang.Base.{
  ℕ, ◌≡◌, refl, subst, ◌⊎◌, inl, inr, String, str_eq, eq_iff, true, false, Option, none, some,
  Error, Result, ok, err, Exec, pure, ignore, attempt, ◌>>=◌, Bool-cases, Elem, arith, ◌==◌,
}
use feed_system_golang.Backend.{Backend}
use feed_system_golang.Backend.Entity.{Account}
use feed_system_golang.Backend.Redis.{Value, account, text}
use feed_system_golang.Backend.Sql.{Tables}
use feed_system_golang.Backend.Laws.{MysqlLaws, QuietLaws}
use feed_system_golang.Cache.{Client}
use feed_system_golang.Cache.Commands.{when_cached, get_bytes, set_bytes}
use feed_system_golang.Cache.Quiet.{get_bytes-Quiet}
use feed_system_golang.Account.Token.{Claims, one_day}
use feed_system_golang.Account.Repo.{find_by_id}
use feed_system_golang.Account.Auth.{
  Identity, let_through, is_token, check_row, check_stored, check_cached, check_client, check,
}

abbrev pub claimed : Claims → Identity
claimed claims = record { account_id = claims.account_id; username = claims.username }

-- The row of the account holds the token, which is not empty.
abbrev pub Stored : Claims → String → Tables → Identity → Type 0
Stored claims token t who =
    (a : Account) × Elem a t.accounts
    × (a.id ≡ claims.account_id)
    × (a.token ≡ token)
    × (str_eq a.token "" ≡ false)
    × (who ≡ record { account_id = a.id; username = a.username })

module _ {W : Type 0} {env : Backend W} (laws : MysqlLaws env) (quiet : QuietLaws env)
    (cache : Option Client) where
  open env use {tables}

  -- The cache answered at the account's key.
  abbrev pub Cached : Claims → String → W → Identity → Type 0
  Cached claims token w who =
      (o : Option Value) × ((get_bytes env cache (account claims.account_id) w).0 ≡ ok o)
      × (is_token o token ≡ true)
      × (who ≡ claimed claims)

  pub when_cached_ok :
      (c : Option Client) (m : Exec W (Unit {0})) (w : W) → (when_cached c m w).0 ≡ ok tt
  unfolding when_cached ignore pure
  when_cached_ok none m w = refl
  when_cached_ok (some client) m w = refl

  -- Passing on an identity, after the cache was told.
  passed_on :
      (m : Exec W (Unit {0})) (i who : Identity) (w : W)
      → ((when_cached cache m >>= λ _. pure (let_through (some i))) w).0
        ≡ ok (let_through (some who))
      → who ≡ i
  unfolding ◌>>=◌
  passed_on m i who w h = ground (arith, when_cached_ok cache m w, h)

  check_row-Stored :
      (claims : Claims) (token : String) (t : Tables) (r : Result Account) (w : W) (who : Identity)
      → ((a : Account) → r ≡ ok a → (a.id ≡ claims.account_id) × Elem a t.accounts)
      → (check_row env cache token r w).0 ≡ ok (let_through (some who))
      → Stored claims token t who
  unfolding check_row ◌>>=◌
  check_row-Stored claims token t (err e) w who found h = ground arith
  check_row-Stored claims token t (ok a) w who found h = elim (Bool-cases (str_eq a.token "")) [
    | inl cleared ↦ ground (arith, cleared)
    | inr kept ↦ elim (Bool-cases (str_eq a.token token)) [
      | inr other ↦ ground (arith, kept, other)
      | inl same ↦ (
        a,
        (found a refl).1,
        (found a refl).0,
        (eq_iff a.token token).0 same,
        kept,
        passed_on (set_bytes env cache (account a.id) (text a.token) one_day)
            (record { account_id = a.id; username = a.username }) who w
            (ground (arith, kept, same, h)),
      )
    ]
  ]

  pub found_row :
      (id : ℕ) (w : W) (a : Account)
      → (find_by_id env id w).0 ≡ ok a
      → (a.id ≡ id) × Elem a (tables w).accounts
  unfolding find_by_id
  found_row id w a q = elim (laws.first_account-Finds (λ b. b.id == id) w) [
    | inl (e, failed) ↦ cc
    | inr (d, found, same, i) ↦ ground (arith, found, q, same, i)
  ]

  check_stored-Stored :
      (claims : Claims) (token : String) (w : W) (who : Identity)
      → (check_stored env cache claims token w).0 ≡ ok (let_through (some who))
      → Stored claims token (tables w) who
  unfolding check_stored find_by_id ◌>>=◌
  check_stored-Stored claims token w who h =
      check_row-Stored claims token (tables w) (find_by_id env claims.account_id w).0
        (find_by_id env claims.account_id w).1 who (λ a q. found_row claims.account_id w a q) h

  abbrev pub Vouched : Claims → String → W → Identity → Type 0
  Vouched claims token w who =
      Cached claims token w who
      ⊎ (Stored claims token (tables w) who
          × ((cache ≡ none)
              ⊎ ((e : Error) × ((get_bytes env cache (account claims.account_id) w).0 ≡ err e))))

  check_cached-Vouched :
      (claims : Claims) (token : String) (w : W) (who : Identity) (r : Result (Option Value))
      → (get_bytes env cache (account claims.account_id) w).0 ≡ r
      → (check_cached env cache claims token r
          (get_bytes env cache (account claims.account_id) w).1).0
        ≡ ok (let_through (some who))
      → Vouched claims token w who
  unfolding check_cached pure
  check_cached-Vouched claims token w who (err e) q h = inr (
    subst (λ t. Stored claims token t who)
        ((get_bytes-Quiet quiet cache (account claims.account_id)).at w)
        (check_stored-Stored claims token _ who h),
    inr (e, q),
  )
  check_cached-Vouched claims token w who (ok o) q h = elim (Bool-cases (is_token o token)) [
    | inl same ↦ inl (o, q, same, ground (arith, same, h))
    | inr other ↦ ground (arith, other, h)
  ]

  check_client-Vouched :
      (c : Option Client) (claims : Claims) (token : String) (w : W) (who : Identity)
      → cache ≡ c
      → (check_client env cache c claims token w).0 ≡ ok (let_through (some who))
      → Vouched claims token w who
  unfolding check_client attempt ◌>>=◌
  check_client-Vouched none claims token w who absent h =
      inr (check_stored-Stored claims token w who h, inl absent)
  check_client-Vouched (some client) claims token w who q h =
      check_cached-Vouched claims token w who (get_bytes env cache (account claims.account_id) w).0
        refl h

  -- The token check lets a request through as `who` only in two cases: the cache answered this very
  -- token at the account's key, and `who` is what the token claims; or there is no cache, or it
  -- failed or missed, and a row of the account holds the token, which is not empty, and `who` is the
  -- row's id and name.
  pub check_sound :
      (claims : Claims) (token : String) (w : W) (who : Identity)
      → (check env cache claims token w).0 ≡ ok (let_through (some who))
      → Cached claims token w who
        ⊎ (Stored claims token (tables w) who
            × ((cache ≡ none)
                ⊎ ((e : Error) × ((get_bytes env cache (account claims.account_id) w).0 ≡ err e))))
  unfolding check
  check_sound claims token w who h = check_client-Vouched cache claims token w who refl h
