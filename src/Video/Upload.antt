-- ===== src/Video/Upload.antt =====
-- UploadVideo and UploadCover of video/video_handler.go. The disk, the paths' functions and the
-- random bytes are fields of `Files`.
use feed_system_golang.Base.{
  ℕ, ℤ, pos, leb_ℤ, ltb_ℤ, ◌*◌, ◌||◌, String, str_eq, Bool, Option, none, some, List, [], ◌∷◌,
  message, Exec, pure, gets, ◌>>=◌, ◌>>◌, if◌then◌else◌,
}
use Prim.Native.String.{◌++◌}
use feed_system_golang.Backend.{Backend}
use feed_system_golang.Http.Context.{GinContext, Answer, refuse, respond, with_account}

-- `multipart.FileHeader`
pub record FileHeader : Type 0 where
  pub file_name : String
  pub size : ℤ

pub record Files (W : Type 0) : Type 0 where
  -- `strings.ToLower(filepath.Ext(name))`, in two steps.
  pub ext : String → String
  pub to_lower : String → String
  -- `time.Format("20060102")`, and a number in decimal.
  pub date_text : ℤ → String
  pub decimal : ℕ → String
  -- `filepath.Join` and `path.Join`.
  pub file_join : List String → String
  pub url_join : List String → String
  -- `os.MkdirAll` and `c.SaveUploadedFile`.
  pub mkdir_all : String → Exec W (Unit {0})
  pub save_uploaded_file : FileHeader → String → Exec W (Unit {0})
  -- `rand.Read` of so many bytes, whose error is ignored, and `hex.EncodeToString`.
  pub random_bytes : ℕ → Exec W (List ℕ)
  pub hex_text : List ℕ → String

-- What building an address reads of the request: TLS, `X-Forwarded-Proto` and the host.
pub record Origin : Type 0 where
  pub has_tls : Bool
  pub forwarded_proto : String
  pub host : String

-- `url` and `play_url`, or `url` and `cover_url`: twice the same address.
pub record Uploaded : Type 0 where
  pub url : String
  pub same_url : String

abbrev pub scheme_of : Origin → String
scheme_of o =
    if str_eq o.forwarded_proto ""
    then (if o.has_tls then "https" else "http")
    else o.forwarded_proto

abbrev pub build_absolute_url : Origin → String → String
build_absolute_url o p = scheme_of o ++ "://" ++ o.host ++ p

-- `200 << 20` and `10 << 20`.
abbrev pub max_video_size : ℤ
max_video_size = pos (200 * 1048576)

abbrev pub max_cover_size : ℤ
max_cover_size = pos (10 * 1048576)

abbrev pub is_video_ext : String → Bool
is_video_ext ext = str_eq ext ".mp4"

abbrev pub is_cover_ext : String → Bool
is_cover_ext ext =
    str_eq ext ".jpg" || (str_eq ext ".jpeg" || (str_eq ext ".png" || str_eq ext ".webp"))

-- What the two handlers differ in: the folder, the greatest size, the extensions.
pub record UploadKind : Type 0 where
  pub folder : String
  pub max_size : ℤ
  pub is_allowed : String → Bool
  pub complaint : String

abbrev pub video_upload : UploadKind
video_upload = record {
  folder = "videos";
  max_size = max_video_size;
  is_allowed = is_video_ext;
  complaint = "only .mp4 is allowed";
}

abbrev pub cover_upload : UploadKind
cover_upload = record {
  folder = "covers";
  max_size = max_cover_size;
  is_allowed = is_cover_ext;
  complaint = "only .jpg/.jpeg/.png/.webp is allowed";
}

abbrev pub is_bad_size : ℤ → ℤ → Bool
is_bad_size max size = leb_ℤ size (pos 0) || ltb_ℤ max size

module _ {W : Type 0} (env : Backend W) (files : Files W) where
  unfoldable pub rand_hex : ℕ → Exec W String
  rand_hex n = do b ← files.random_bytes n; pure (files.hex_text b)

  abbrev pub ext_of : FileHeader → String
  ext_of file = files.to_lower (files.ext file.file_name)

  -- The account's folder for the day, on the disk.
  abbrev pub folder_of : UploadKind → ℕ → ℤ → String
  folder_of kind author_id now = files.file_join (
      files.file_join (".run" ∷ "uploads" ∷ [])
      ∷ files.file_join (kind.folder ∷ files.decimal author_id ∷ files.date_text now ∷ [])
      ∷ [])

  abbrev pub url_of : UploadKind → ℕ → ℤ → String → String
  url_of kind author_id now file_name =
      files.url_join
        ("/static" ∷ kind.folder ∷ files.decimal author_id ∷ files.date_text now ∷ file_name ∷ [])

  abbrev pub uploaded_at : Origin → String → Uploaded
  uploaded_at o url_path = record {
    url = build_absolute_url o url_path;
    same_url = build_absolute_url o url_path;
  }

  unfoldable pub store : UploadKind → Origin → ℕ → FileHeader → Exec W Uploaded
  store kind o author_id file = do
    now ← gets env.clock
    files.mkdir_all (folder_of kind author_id now)
    name ← rand_hex 16
    files.save_uploaded_file file
        (files.file_join (folder_of kind author_id now ∷ (name ++ ext_of file) ∷ []))
    pure (uploaded_at o (url_of kind author_id now (name ++ ext_of file)))

  -- The size is looked at first, and then the extension.
  unfoldable pub store_checked : UploadKind → Origin → ℕ → FileHeader → Exec W (Answer Uploaded)
  store_checked kind o author_id file =
      if is_bad_size kind.max_size file.size
      then pure (refuse 400 (message "invalid file size"))
      else if kind.is_allowed (ext_of file)
      then respond 500 (store kind o author_id file)
      else pure (refuse 400 (message kind.complaint))

  unfoldable pub upload_file :
      UploadKind → Origin → ℕ → Option FileHeader → Exec W (Answer Uploaded)
  upload_file kind o author_id none = pure (refuse 400 (message "missing file"))
  upload_file kind o author_id (some file) = store_checked kind o author_id file

  unfoldable pub upload :
      UploadKind → Origin → Option FileHeader → GinContext → Exec W (Answer Uploaded)
  unfolding upload_file store_checked store
  upload kind o form_file c =
      with_account 400 c (λ author_id. upload_file kind o author_id form_file)

  unfoldable pub handle_upload_video :
      Origin → Option FileHeader → GinContext → Exec W (Answer Uploaded)
  unfolding upload
  handle_upload_video = upload video_upload

  unfoldable pub handle_upload_cover :
      Origin → Option FileHeader → GinContext → Exec W (Answer Uploaded)
  unfolding upload
  handle_upload_cover = upload cover_upload
