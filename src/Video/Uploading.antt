-- ===== src/Video/Uploading.antt =====
-- What the upload handlers let onto the disk.
use feed_system_golang.Base.{
  ℕ, ℤ, pos, ◌≤ℤ◌, ◌<ℤ◌, ◌≡◌, ◌⊎◌, String, Option, none, some, Error, Result, ok, err,
}
use feed_system_golang.Backend.{Backend}
use feed_system_golang.Account.Auth.{get_account_id}
use feed_system_golang.Http.Context.{GinContext, Answer, ok_json, refuse}
use feed_system_golang.Video.Upload.{FileHeader, Files, Origin, Uploaded}
use feed_system_golang.Video.Stored.{extension, IsStored, HasFailed}

-- What a cover may be.
abbrev pub IsPicture : String → Type 0
IsPicture ext = (ext ≡ ".jpg") ⊎ (ext ≡ ".jpeg") ⊎ (ext ≡ ".png") ⊎ (ext ≡ ".webp")

module _ {W : Type 0} (env : Backend W) (files : Files W) where
  -- No account, no file, an empty one, one that is too large, or one of another kind.
  abbrev pub IsRefusable : ℤ → (String → Type 0) → Option FileHeader → GinContext → Type 0
  IsRefusable most Allowed form_file c =
      ((e : Error) × (get_account_id c.account_id ≡ err e))
      ⊎ (form_file ≡ none)
      ⊎ ((file : FileHeader) × (form_file ≡ some file)
          × ((file.size ≤ℤ pos 0) ⊎ (most <ℤ file.size) ⊎ (¬ Allowed (extension env files file))))

  abbrev pub UploadOutcome :
      String
      → ℤ
      → (String → Type 0)
      → Origin
      → Option FileHeader
      → GinContext
      → W
      → Result (Answer Uploaded) × W
      → Type 0
  UploadOutcome kind most Allowed o form_file c w r =
      (IsRefusable most Allowed form_file c × ((e : Error) × (r ≡ (ok (refuse 400 e), w))))
      ⊎ ((author_id : ℕ) × (file : FileHeader) × (get_account_id c.account_id ≡ ok author_id)
          × (form_file ≡ some file)
          × (pos 0 <ℤ file.size)
          × (file.size ≤ℤ most)
          × Allowed (extension env files file)
          × (((e : Error) × (r.0 ≡ ok (refuse 500 e))
                × HasFailed env files kind author_id file (env.clock w) e)
              ⊎ ((u : Uploaded) × (r.0 ≡ ok (ok_json u))
                  × IsStored env files kind o author_id file (env.clock w) u)))
