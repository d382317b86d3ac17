-- ===== src/Lib.antt =====
-- A model of the backend of a short video feed (backend_repeat/internal): services that answer
-- requests, repositories over MySQL, a Redis client behind a circuit breaker, producers of
-- RabbitMQ messages, and workers that consume them.
--
-- What the program calls and does not implement is a parameter: `Backend.Backend` is a record of
-- MySQL statements and transactions (gorm), Redis commands (go-redis), the breaker (gobreaker),
-- message publishing and the clock, over an abstract state `W` of the world. `Backend.Laws` and
-- `Cache.Breaking` state what is relied on: any call may fail at any time; a statement is done or
-- changes nothing; a unique index refuses a second row; a transaction is committed whole or
-- rolled back; Redis and the queues leave the tables alone. `Backend.Memory` is a concrete world
-- that obeys the laws, at which the theorems are instantiated. Calls run one after another: what
-- one transaction sees of another that runs beside it is not modelled, so a call of the model
-- stands for one whose transactions are serialised by the database.
--
-- The files:
-- - Base: numbers, lists, integers and `Exec`, the results with an error and a state that Go's
--   `(value, error)` becomes.
-- - Backend/Entity: the rows, of account/entity.go, social/entity.go, video/video_entity.go,
--   like_entity.go and comment_entity.go. Backend/Sql: the statements and what each does to the
--   tables. Backend/Redis: the commands and keys. Backend/Events: the messages of
--   middleware/rabbitmq. Backend/Quiet and Backend/Keeps: rules for actions that leave the tables
--   alone, or keep an invariant of them.
-- - Cache: middleware/redis/breaker.go (`Execute` is `execute`, `IsBreakerOpen` is
--   `is_breaker_open`). Cache/Commands: cache.go, zset.go, set.go and redis.go of
--   middleware/redis, one function per method.
-- - Mq: the producers of middleware/rabbitmq (`send_like` is `LikeMQ.Like`, and so on).
-- - Video/Repo: video/video_repo.go and like_repo.go. Video/Popularity:
--   video/popularity_cache.go. Video/Likes: video/like_service.go. Video/Comments:
--   video/comment_service.go and comment_repo.go. Video/Tally and Video/Counters: the tables'
--   counters against their rows.
-- - Worker/Delivery and Worker/Like: worker/likeworker.go, with the loop of `Run` as a recursion
--   over the messages that come.
-- - Feed/Merge: `mergeAndDedup` of feed/service.go and its cursors. Its fuel is the number of
--   videos in the streams, and each round takes one of them, so the loop is never cut short.
-- - Account/Repo and Account/Service: account/repo.go and account/service.go. Account/Token:
--   auth/jwt.go. Account/Auth: middleware/jwt/jwt.go. Account/Session, Entering, Revoking and
--   Renaming: the token check, a login, a logout and a rename against the rows.
-- - RateLimit/Limiter and RateLimit/Script: middleware/ratelimit/ratelimit.go and
--   sliding_window.go. RateLimit/Window, Fixed and Refusal: how many requests pass, and when one
--   is refused.
-- - Social/Repo and Social/Service: social/repo.go and social/service.go. Social/Relation and
--   Social/Contract: the table as a relation, and the service against it.
-- - Worker/Social: worker/socialworker.go. Worker/Comment: worker/commentworker.go and
--   popularityworker.go. Worker/Outbox: worker/outboxworker.go; a round of its endless loop is
--   `poll`, and `poll_rounds` is any number of them.
-- - Feed/Repo: feed/repo.go and BatchGetLiked of video/like_repo.go. Feed/Listing: feed/entity.go
--   and the feeds from MySQL of feed/service.go. Feed/Lookup, Latest, Popularity and Following:
--   GetVideoByIDs, ListLatest, ListByPopularity and ListByFollowing of feed/service.go; the fuel
--   of `list_latest` counts how often a caller waits for another's rebuilding of the timeline,
--   which the source does not bound. Feed/Handler: feed/handler.go. Feed/Sorting, Pages, Bounds
--   and Pulling: what the pages hold, and how much is pulled. Backend/Raises, Feed/Errors and
--   Refusals: the errors of ListLatest.
-- - Video/Service: video/video_service.go; Publishing and Deleting: what it does to the rows.
--   Worker/Fanout: worker/fanoutworker.go; Batches: its loop over the followers, whose fuel is
--   their number.
-- - Account/Handler, Social/Handler, Video/Handler, Video/LikeHandler, Video/CommentHandler and
--   Video/Upload: account/handler.go, social/handler.go, video/video_handler.go (the uploads in
--   Video/Upload), like_handler.go and comment_handler.go. Video/Stored and Uploading: where an
--   upload ends. Http/Context: gin's context and answers. Http/Call, Http/Middleware and
--   Http/Router: http/router.go, with one constructor of `Call` for each route, what stands
--   before the handlers, and `serve` for what a route runs. Account/Guard, Account/Accepting,
--   Http/Guard, Http/Acting and Http/Commenting: whom the token middleware accepts, and on whose
--   behalf a route acts. Worker/Outbox/Health, Waiting and Draining: a queue and a database that
--   answer, and how fast the poller empties the outbox.
-- - Feed/Cursor: a page and what comes after it, which Feed/Pages and Feed/PopularPages use.
--   Startup/Config: config/loadconfig.go. Startup/Connection: middleware/rabbitmq/rabbitmq.go,
--   the constructors of the producers, db/db.go and the opening of the Redis client. Startup/Api:
--   cmd/main.go with the queues of http/router.go; Startup/Workers: cmd/worker/main.go (both
--   under backend_repeat). Startup/Broker: what is relied on of RabbitMQ's bindings;
--   Startup/Bound and Producers: which queues are bound after the start.
-- - The modules called Tests run the definitions at concrete inputs, which some take from a
--   module Sample, and instantiate the theorems.
--
-- Not modelled: metrics, logs and time-outs, which no result depends on (a time-out is a call
-- that fails); the JSON text of messages and cached values, which are kept as values; overflow of
-- counters, since MySQL and Go keep them in 64 bits and each step is one; the pprof server,
-- signals and the graceful end of the server, which are the Go library's.
pub mod Base
pub mod Backend
pub mod Cache
pub mod Mq
pub mod Account
pub mod Social
pub mod RateLimit
pub mod Video
pub mod Worker
pub mod Feed
pub mod Http
pub mod Startup
