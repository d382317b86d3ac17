-- ===== src/Video/Stored.antt =====
-- Where an uploaded file lies, and under which address it is answered.
use feed_system_golang.Base.{
  ℕ, ℤ, ◌≡◌, ◌≢◌, refl, sym, ◌⊎◌, inl, inr, String, str_eq, eq_iff, true, false, Bool-cases, List,
  [], ◌∷◌, Error, Result, ok, err, Result-cases, pure, gets, ◌>>=◌, ◌>>◌, arith,
}
use Prim.Native.String.{◌++◌}
use feed_system_golang.Backend.{Backend}
use feed_system_golang.Backend.Keeps.{bind_both}
use feed_system_golang.Video.Upload.{
  FileHeader, Files, Origin, Uploaded, UploadKind, scheme_of, rand_hex, ext_of, folder_of, url_of,
  uploaded_at, store,
}

-- The proxy's scheme, or else the one that the connection has.
abbrev pub IsScheme : Origin → String → Type 0
IsScheme o scheme =
    ((o.forwarded_proto ≢ "") × (scheme ≡ o.forwarded_proto))
    ⊎ ((o.forwarded_proto ≡ "") × (o.has_tls ≡ true) × (scheme ≡ "https"))
    ⊎ ((o.forwarded_proto ≡ "") × (o.has_tls ≡ false) × (scheme ≡ "http"))

scheme_of-IsScheme : (o : Origin) → IsScheme o (scheme_of o)
scheme_of-IsScheme o = elim (Bool-cases (str_eq o.forwarded_proto "")) [
  | inr named ↦
      inl ((λ same. ground (arith, named, eq_iff o.forwarded_proto "", same)), rw named refl)
  | inl unnamed ↦ inr (elim (Bool-cases o.has_tls) [
    | inl secure ↦
        inl ((eq_iff o.forwarded_proto "").0 unnamed, secure, rw unnamed (rw secure refl))
    | inr plain ↦ inr ((eq_iff o.forwarded_proto "").0 unnamed, plain, rw unnamed (rw plain refl))
  ])
]

module _ {W : Type 0} (env : Backend W) (files : Files W) where
  abbrev pub extension : FileHeader → String
  extension file = files.to_lower (files.ext file.file_name)

  -- The folder of an account for a day: .run/uploads, the kind, the account, the day.
  abbrev pub day_folder : String → ℕ → ℤ → String
  day_folder kind author_id now = files.file_join (
      files.file_join (".run" ∷ "uploads" ∷ [])
      ∷ files.file_join (kind ∷ files.decimal author_id ∷ files.date_text now ∷ [])
      ∷ [])

  -- The file was written in that folder, under sixteen random bytes and its extension, and the answer
  -- has twice the address of that file: /static, the kind, the account, the day, the name.
  abbrev pub IsStored : String → Origin → ℕ → FileHeader → ℤ → Uploaded → Type 0
  IsStored kind o author_id file now u =
      (bytes : List ℕ) × ((before : W) × ((files.random_bytes 16 before).0 ≡ ok bytes))
      × ((before : W) × ((files.save_uploaded_file file
              (files.file_join
                (day_folder kind author_id now ∷ (files.hex_text bytes ++ extension file) ∷ []))
              before).0
            ≡ ok tt))
      × ((scheme : String) × IsScheme o scheme
          × (u.url
              ≡ scheme
                ++ "://"
                ++ o.host
                ++ files.url_join (
                    "/static"
                    ∷ kind
                    ∷ files.decimal author_id
                    ∷ files.date_text now
                    ∷ (files.hex_text bytes ++ extension file)
                    ∷ [])))
      × (u.same_url ≡ u.url)

  -- The folder, the random bytes or the file failed with this error.
  abbrev pub HasFailed : String → ℕ → FileHeader → ℤ → Error → Type 0
  HasFailed kind author_id file now e =
      ((before : W) × ((files.mkdir_all (day_folder kind author_id now) before).0 ≡ err e))
      ⊎ ((before : W) × ((files.random_bytes 16 before).0 ≡ err e))
      ⊎ ((bytes : List ℕ) × (before : W) × ((files.save_uploaded_file file
              (files.file_join
                (day_folder kind author_id now ∷ (files.hex_text bytes ++ extension file) ∷ []))
              before).0
            ≡ err e))

  rand_hex_named :
      (n : ℕ) (w : W) (name : String)
      → (rand_hex env files n w).0 ≡ ok name
      → (bytes : List ℕ) × ((files.random_bytes n w).0 ≡ ok bytes) × (files.hex_text bytes ≡ name)
  unfolding rand_hex pure ◌>>=◌
  rand_hex_named n w name h = elim (Result-cases (files.random_bytes n w).0) [
    | inl (e, q) ↦ ground (arith, q, h)
    | inr (bytes, q) ↦ (bytes, q, ground (arith, q, h))
  ]

  rand_hex_failed :
      (n : ℕ) (w : W) (e : Error)
      → (rand_hex env files n w).0 ≡ err e
      → (files.random_bytes n w).0 ≡ err e
  unfolding rand_hex pure ◌>>=◌
  rand_hex_failed n w e h = elim (Result-cases (files.random_bytes n w).0) [
    | inl (e', q) ↦ ground (arith, q, h)
    | inr (bytes, q) ↦ ground (arith, q, h)
  ]

  module _ (kind : UploadKind) (o : Origin) (author_id : ℕ) (file : FileHeader) (now : ℤ) where
    unfoldable pub StoreOutcome : Result Uploaded → Type 0
    StoreOutcome (ok u) = IsStored kind.folder o author_id file now u
    StoreOutcome (err e) = HasFailed kind.folder author_id file now e

    -- The last steps, once the name is there.
    saved_outcome :
        (name : String) (w : W) (bytes : List ℕ)
        → ((before : W) × ((files.random_bytes 16 before).0 ≡ ok bytes))
        → files.hex_text bytes ≡ name
        → StoreOutcome
            ((files.save_uploaded_file file (
                  files.file_join
                    (folder_of env files kind author_id now ∷ (name ++ ext_of env files file) ∷ []))
                >> pure (
                    uploaded_at env files o
                      (url_of env files kind author_id now (name ++ ext_of env files file))))
              w).0
    unfolding pure StoreOutcome
    saved_outcome name w bytes drawn e = rw (sym e) (
        bind_both (λ r. StoreOutcome r.0) (files.save_uploaded_file file _) _ w
          (λ e failed. inr (inr (bytes, w, failed)))
          (λ _ saved. (bytes, drawn, (w, saved), (scheme_of o, scheme_of-IsScheme o, refl), refl)))

  pub store_outcome :
      (kind : UploadKind) (o : Origin) (author_id : ℕ) (file : FileHeader) (w : W)
      → StoreOutcome kind o author_id file (env.clock w) (store env files kind o author_id file w).0
  unfolding store gets StoreOutcome ◌>>=◌
  store_outcome kind o author_id file w =
      let Done = StoreOutcome kind o author_id file (env.clock w) in
      bind_both (λ r. Done r.0) (files.mkdir_all (folder_of env files kind author_id (env.clock w)))
        _ w (λ e failed. inl (w, failed))
        (λ _ _.
          bind_both (λ r. Done r.0) (rand_hex env files 16) _ _
            (λ e failed. inr (inl (_, rand_hex_failed 16 _ e failed)))
            (λ name chosen.
              let (bytes, drawn, e) = rand_hex_named 16 _ name chosen in
              saved_outcome kind o author_id file (env.clock w) name _ bytes (_, drawn) e))
