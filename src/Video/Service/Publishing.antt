-- ===== src/Video/Service/Publishing.antt =====
-- A published video and its outbox message.
use feed_system_golang.Base.{
  ℕ, ◌≡◌, sym, ap, subst, ◌∙◌, ◌⊎◌, inl, inr, String, str_eq, false, Option, Error, message, Result,
  ok, err, raise, ◌>>=◌, Bool-cases, arith,
}
use feed_system_golang.Backend.{Backend}
use feed_system_golang.Backend.Entity.{Video, OutboxMsg}
use feed_system_golang.Backend.Sql.{Tables, apply, insert_video, insert_outbox}
use feed_system_golang.Backend.Laws.{MysqlLaws}
use feed_system_golang.Cache.{Client}
use feed_system_golang.Video.Repo.{insert_published, publish_video}
use feed_system_golang.Video.Service.{DetailCache, trimmed_video, publish_trimmed, publish}

-- The message that announces a video.
abbrev pub announcing : ℕ → Video → OutboxMsg
announcing id v = record {
  id = 0;
  video_id = id;
  author_id = v.author_id;
  event_type = "video_published";
  create_time = v.create_time;
  status = "pending";
}

-- The video under a new key, and its message under another.
abbrev pub StoredWithMessage : Video → Tables → Tables → Type 0
StoredWithMessage v t after =
    (id : ℕ) × (key : ℕ) × (after
      ≡ apply (insert_outbox (announcing id v)) key (apply (insert_video v) id t))

-- A refusal changes nothing; a success stores both rows, of a video whose texts are not empty.
abbrev pub PublishOutcome :
    {W : Type 0} → Backend W → Video → Tables → Result (Unit {0}) × W → Type 0
PublishOutcome env v t done =
    ((e : Error) × (done.0 ≡ err e) × (env.tables done.1 ≡ t))
    ⊎ ((done.0 ≡ ok tt)
        × (str_eq v.title "" ≡ false)
        × (str_eq v.play_url "" ≡ false)
        × (str_eq v.cover_url "" ≡ false)
        × StoredWithMessage v t (env.tables done.1))

module _ {W : Type 0} {env : Backend W} (laws : MysqlLaws env) where
  open env use {tables}

  insert_published_ok :
      (v : Video) (w : W)
      → (insert_published env v w).0 ≡ ok tt
      → StoredWithMessage v (tables w) (tables (insert_published env v w).1)
  unfolding insert_published ◌>>=◌
  insert_published_ok v w h = elim (laws.exec_cases (insert_video v) w) [
    | inl (e, q, _) ↦ ground (arith, q, h)
    | inr (o, q, done, _, _) ↦
        let between = (env.exec (insert_video v) w).1 in
        elim (laws.exec_cases (insert_outbox (announcing o.last_insert_id v)) between) [
          | inl (e, q', _) ↦ ground (arith, q, q', h)
          | inr (o', q', done', _, _) ↦
              (o.last_insert_id, o'.last_insert_id, ground (arith, q, q', done, done'))
        ]
  ]

  publish_video-outcome :
      (v : Video) (w : W)
      → ((e : Error) × ((publish_video env v w).0 ≡ err e)
          × (tables (publish_video env v w).1 ≡ tables w))
        ⊎ (((publish_video env v w).0 ≡ ok tt)
            × StoredWithMessage v (tables w) (tables (publish_video env v w).1))
  unfolding publish_video
  publish_video-outcome v w = elim (laws.transaction_cases (insert_published env v) w) [
    | inl rolled ↦ inl rolled
    | inr (begun, same, done, committed, after) ↦
        let (id, key, stored) = insert_published_ok v begun done in
        inr (
          committed,
          (
            id,
            key,
            after
                ∙ stored
                ∙ ap
                    (λ t. apply (insert_outbox (announcing id v)) key (apply (insert_video v) id t))
                    same,
          ),
        )
  ]

  module _ (local : DetailCache W) (cache : Option Client) where
    publish_trimmed-outcome :
        (v : Video) (w : W) → PublishOutcome env v (tables w) (publish_trimmed env local cache v w)
    unfolding publish_trimmed raise
    publish_trimmed-outcome v w = elim (Bool-cases (str_eq v.title "")) [
      | inl empty ↦ inl (message "title is required", ground (arith, empty), ground (arith, empty))
      | inr titled ↦ elim (Bool-cases (str_eq v.play_url "")) [
        | inl empty ↦ inl (
          message "play url is required",
          ground (arith, titled, empty),
          ground (arith, titled, empty),
        )
        | inr played ↦ elim (Bool-cases (str_eq v.cover_url "")) [
          | inl empty ↦ inl (
            message "cover url is required",
            ground (arith, titled, played, empty),
            ground (arith, titled, played, empty),
          )
          | inr covered ↦
              let step : publish_trimmed env local cache v w ≡ publish_video env v w =
                ground (arith, titled, played, covered) in
              subst (PublishOutcome env v (tables w)) (sym step) (elim (publish_video-outcome v w) [
                | inl refused ↦ inl refused
                | inr (done, stored) ↦ inr (done, titled, played, covered, stored)
              ])
        ]
      ]
    ]

    -- Whatever calls fail: publishing a video either answers an error and leaves every table as it
    -- was, or stores the trimmed video, whose title and addresses are not empty, together with a
    -- pending outbox message that carries its key.
    pub publish-outcome :
        (trim : String → String) (v : Video) (w : W)
        → PublishOutcome env (trimmed_video trim v) (tables w) (publish env local cache trim v w)
    unfolding publish
    publish-outcome trim v w = publish_trimmed-outcome (trimmed_video trim v) w
