-- ===== src/Http/Sample.antt =====
-- Libraries, a process and a request that the witnesses on the routes share.
use feed_system_golang.Base.{
  ℕ, refl, pos, String, str_eq, none, [], ◌∷◌, message, Result, ok, err, true, false, if◌then◌else◌,
}
use feed_system_golang.Backend.Entity.{Account, Video, Comment}
use feed_system_golang.Backend.Quiet.{Quiet}
use feed_system_golang.Backend.Memory.{Memory, memory, memory_of, no_tables}
use feed_system_golang.Account.Token.{Jwt, Claims, Method}
use feed_system_golang.Account.Auth.{Headers}
use feed_system_golang.Video.Upload.{Files}
use feed_system_golang.Http.Context.{GinContext}
use feed_system_golang.Http.Router.{Parts}

abbrev annas : Claims
annas = record {
  account_id = 7;
  username = "ann";
  expires_at = pos 1700086400000;
  issued_at = pos 1700000000000;
  not_before = pos 1700000000000;
}

abbrev jwt : Jwt Memory
jwt = record {
  secret_variable = "";
  numeric_date = λ t. t;
  sign = λ secret c. ok "t7";
  parse =
      λ key token m. (if str_eq token "t7" then ok (annas, true) else err (message "malformed"), m);
}

abbrev headers : Headers
headers = record {
  split_two = λ header. if str_eq header "Bearer t7" then "Bearer" ∷ "t7" ∷ [] else header ∷ [];
  equal_fold = λ a b. str_eq a b;
}

abbrev pub files : Files Memory
files = record {
  ext = λ name. if str_eq name "c.png" then ".png" else "";
  to_lower = λ text. text;
  date_text = λ now. "20231114";
  decimal = λ n. "7";
  file_join = λ parts. "folder";
  url_join = λ parts. "/static/covers/7/20231114/00.png";
  mkdir_all = λ folder m. (ok tt, m);
  save_uploaded_file = λ file path m. (ok tt, m);
  random_bytes = λ n m. (ok (0 ∷ []), m);
  hex_text = λ bytes. "00";
}

abbrev pub parts : Parts Memory
parts = record {
  env = memory;
  cache = none;
  jwt = jwt;
  headers = headers;
  bcrypt = record {
    generate = λ password m. (ok password, m);
    compare_hash =
        λ hash password. if str_eq hash password then ok tt else err (message "mismatch");
  };
  limiting = record {
    trim_space = λ s. s;
    decimal = λ n. "7";
    run_sliding = λ key window max now member m. (ok (pos 1), m);
    nanos = λ m. pos 0;
    next_seq = λ m. (ok 1, m);
    member_text = λ t n. "0:1";
  };
  files = files;
  details = record {
    held = λ id m. none;
    hold = λ id v m. (ok tt, m);
    unhold = λ id m. (ok tt, m);
  };
  wait = λ m. (ok tt, m);
  lock_token = ok "lock";
  trim_space = λ s. s;
  liked_videos = λ id m. (ok [], m);
  flights = record {
    rebuild_flight = λ f m. (ok (true, false), m);
    videos_flight = λ f m. (ok ([], false), m);
  };
  local = record { held = λ id m. none; hold = λ id v m. (ok tt, m) };
  heap = record { push = λ x xs. x ∷ xs; pop = λ xs. none };
  sorts = record { sort_big = λ l. l; sort_videos = λ l. l };
  waits = 1;
  has_like_mq = true;
  has_comment_mq = true;
  has_popularity_mq = true;
  has_social_mq = true;
}

abbrev ann : Account
ann = record { id = 7; username = "ann"; password = "p7"; token = "t7"; follower_count = pos 0 }

abbrev video_3 : Video
video_3 = record {
  id = 3;
  author_id = 7;
  username = "ann";
  title = "t";
  description = "";
  play_url = "p";
  cover_url = "c";
  create_time = pos 5;
  likes_count = pos 0;
  popularity = pos 0;
}

abbrev comment_5 : Comment
comment_5 = record {
  id = 5;
  username = "ann";
  video_id = 3;
  author_id = 7;
  content = "fine";
  created_at = pos 6;
}

abbrev pub start : Memory
start =
    memory_of
      (record no_tables { accounts = ann ∷ []; videos = video_3 ∷ []; comments = comment_5 ∷ [] })

abbrev pub request : GinContext
request = record {
  authorization = "Bearer t7";
  client_ip = "127.0.0.1";
  account_id = none;
  username = none;
}

pub parse-Quiet :
    (key : Method → Result String) (token : String) → Quiet memory (jwt.parse key token)
parse-Quiet key token = record { at = λ m. refl }

pub unhold-Quiet : (id : ℕ) → Quiet memory (parts.details.unhold id)
unhold-Quiet id = record { at = λ m. refl }
