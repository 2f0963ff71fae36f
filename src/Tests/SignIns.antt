-- ===== src/Tests/SignIns.antt =====
-- Signing in, and the request that follows.
use Prim.Native.String.{len, slice}
use aita.Common.{
  ℕ, ◌+◌, pos, String, str_eq, ◌≡◌, refl, subst, true, none, some, [], ◌∷◌, arith, if◌then◌else◌,
}
use aita.Errcode.{foreign}
use aita.Exec.{ok, err}
use aita.Models.{Session, User}
use aita.Dto.Session.{AuthContext}
use aita.Dto.User.{UserResponse}
use aita.Pkg.Crypto.{Primitives, IsEncoding}
use aita.Pkg.Singleflight.{calm}
use aita.Db.Driver.{rows, failure, other}
use aita.Service.Session.{session_duration}
use aita.Api.Request.{LoginRequest}
use aita.Api.Response.{LoginResponse, login_data, success, Sent, Bound, bound}
use aita.Api.Router.{Call, login_call, me_call, is_protected}
use aita.Api.Auth.{extract_bearer_token}
use aita.Main.App.{Ants, Platform, Moment, answer}
use aita.Main.Login.{IsSound}
use aita.Main.SignIn.{handled, login-answer}
use aita.Tests.Entries.{Texts, held, client, json_of, readable, writing, put}

abbrev token : String
token = "0123456789abcdef0123456789abcdef0123456789ab"

abbrev pub crypto : Primitives Texts String
crypto = record {
  bytes_of = λ v. v;
  string_of = λ v. v;
  generate_from_password = λ v cost s. (ok v, s);
  compare_hash_and_password = λ h v s. (if str_eq h v then ok tt else err (foreign 8), s);
  random_bytes = λ n s. (ok token, s);
  sum_256 = λ v. v;
  encode_to_string = λ v. v;
}

abbrev alice : User
alice = record {
  id = pos 7;
  username = "alice";
  email = "alice@example.com";
  password_hash = "secret words";
  created_at = 100;
  follower_count = pos 1;
  following_count = pos 2;
}

abbrev pub session : Session
session = record {
  id = pos 0;
  user_id = pos 7;
  token_hash = token;
  expires_at = 1000 + session_duration;
  created_at = 1000;
}

abbrev pool : Ants Texts
pool = record { submit = λ m s. (ok tt, s); taken = λ s. (ok tt, s) }

abbrev pub platform : Platform Texts String
platform = record {
  redis = client;
  streams = record {
    text_of = λ e. "";
    x_group_create_mk_stream = λ stream group start s. (ok tt, s);
    x_add = λ stream n values s. (ok tt, s);
    x_read_group = λ group consumer stream id n d s. (ok [], s);
    x_ack = λ stream group id s. (ok tt, s);
  };
  users = users;
  users_tx = users;
  tweets = record {
    insert = λ id content url s. (failure other, s);
    select_by_id = λ id s. (failure other, s);
    update_content = λ content id s. (failure other, s);
    delete_by_id = λ id s. (failure other, s);
    select_any = λ ids s. (failure other, s);
    query_ids = λ query a b c s. (failure other, s);
  };
  follows = follows;
  follows_tx = follows;
  crypto = crypto;
  rand = record { draw = λ n s. (ok 0, s); nine_tenths = λ n. n; two_tenths = λ n. 0 };
  codec = record {
    format = λ n. "";
    parse_int = λ v. (pos 0, none);
    unix = λ t. pos t;
    from_unix = λ n. 0;
  };
  session_json = json_of session;
  tweet_json = record { marshal = λ m. err (foreign 1); unmarshal = λ v. err (foreign 1) };
  user_json = record { marshal = λ m. err (foreign 1); unmarshal = λ v. err (foreign 1) };
  user_flights = record { do_chan = λ key fn. fn };
  tweet_flights = record { do_chan = λ key fn. fn };
  follow_flights = record { do_chan = λ key fn. fn };
  home_flights = record { do_chan = λ key fn. fn };
  backfill_pool = pool;
  worker_pool = pool;
  mq = record { stream = "s"; group = "g"; consumer = "c" };
  request_strings = record { trim_space = λ v. v; email_matches = λ v. true };
  header_strings = record {
    split_n = λ v sep n. slice v 0 6 ∷ slice v 7 (len v) ∷ [];
    equal_fold = λ v w. str_eq v "Bearer";
    trim_space = λ v. v;
  };
  parse_id = λ v. none;
  go = λ m s. (m s).1;
}
  where
    users : aita.Db.User.UserTable Texts
    users = record {
      insert = λ name email hash s. (failure other, s);
      select_by_email = λ email s. (rows alice, s);
      select_by_id = λ id s. (rows alice, s);
      add_to_follower_count = λ delta id s. (failure other, s);
      add_to_following_count = λ delta id s. (failure other, s);
      select_names = λ ids s. (failure other, s);
    }

    follows : aita.Db.Follow.FollowTable Texts
    follows = record {
      insert = λ a b s. (failure other, s);
      select_followings = λ a s. (failure other, s);
      select_followers = λ a s. (failure other, s);
      select_relation = λ a b s. (failure other, s);
      delete_pair = λ a b s. (failure other, s);
    }

abbrev pub at : ℕ → Moment
at n = record {
  stored = n;
  expires_from = n;
  created_at = n;
  authenticated = n;
  checked = n;
  remaining = n;
  refreshed = n;
  edited = n;
  waits = calm;
}

sound : IsSound held platform
sound = record {
  writing = writing;
  readable = readable session;
  encoding = record { encodes = λ b s s' h. encoded b s s' h };
}
  where
    encoded : (b : String) (s s' : Texts) → crypto.random_bytes 32 s ≡ (ok b, s') → len b ≡ 44
    encoded b s s' h = subst (λ v. len v ≡ 44) (same b s s' h) refl
      where
        same : (b : String) (s s' : Texts) → crypto.random_bytes 32 s ≡ (ok b, s') → token ≡ b
        same b s s' h = ground arith

abbrev pub body : Bound LoginRequest
body = bound (record { email = "alice@example.com"; password = "secret words" })

abbrev shown : UserResponse
shown = record { id = pos 7; username = "alice"; email = "alice@example.com"; created_at = 100 }

abbrev signed : LoginResponse
signed = record { session_token = token; user = some shown }

-- Redis after the login.
abbrev signed_in : Texts
signed_in = put (aita.Pkg.Redis.session_data token) (some "session") (λ h. none)

logs_in :
    answer platform (at 1000) "" (login_call body) (λ h. none)
    ≡ (ok (200, success (login_data signed)), signed_in)
unfolding answer aita.Api.Router.serve aita.Api.User.login aita.Api.Response.with_body
    aita.Api.Response.or_refuse aita.Api.Request.validate_login aita.Service.User.login
    aita.Service.User.exists_by_email aita.Repository.User.as_interface
    aita.Repository.User.get_by_email aita.Db.User.as_store aita.Db.User.get_by_email
    aita.Dto.User.new_user_record aita.Pkg.Crypto.as_hasher aita.Pkg.Crypto.compare_hash
    aita.Service.Session.issue aita.Pkg.Crypto.as_token_manager aita.Pkg.Crypto.generate_token
    aita.Pkg.Crypto.hash_token aita.Repository.Session.as_interface aita.Repository.Session.create
    aita.Db.Session.as_store aita.Db.Session.create aita.Dto.Session.to_model
    aita.Dto.Session.to_session_record aita.Dto.Session.to_auth_record
    aita.Dto.User.to_user_response success
logs_in = refl

knows_alice :
    (aita.Main.App.user_info platform (at 2000)).exists
      (pos 7)
      ((aita.Main.App.session_repository platform (at 2000)).get
        ((aita.Main.App.token_manager platform (at 2000)).hash token)
        signed_in).1
    ≡ (ok true, signed_in)
unfolding aita.Service.User.exists aita.Repository.User.as_interface aita.Repository.User.exists
    aita.Cache.User.as_cache aita.Cache.User.user_exists aita.Db.User.as_store
    aita.Db.User.get_full_by_id aita.Repository.Session.as_interface aita.Repository.Session.get
    aita.Db.Session.as_store aita.Db.Session.get_session aita.Pkg.Crypto.as_token_manager
    aita.Pkg.Crypto.hash_token aita.Dto.Session.to_session_record
knows_alice = refl

login-answer_example :
    (v : Texts) × (answer platform
        (at 2000)
        "Bearer 0123456789abcdef0123456789abcdef0123456789ab"
        me_call
        signed_in
      ≡ handled platform (at 2000) (record { user_id = pos 7; token = token; role = "" }) me_call v)
login-answer_example =
    login-answer held platform sound (at 1000) (at 2000) ""
      "Bearer 0123456789abcdef0123456789abcdef0123456789ab" body me_call (λ h. none) signed_in
      signed_in signed shown ((200, success (login_data signed)), logs_in, unfold success in refl)
      refl
      (record {
        known = omega arith;
        stored = omega arith;
        unexpired = omega arith;
        in_life = omega arith;
      })
      (unfold extract_bearer_token in refl) knows_alice (unfold is_protected in refl)
