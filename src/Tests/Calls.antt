-- ===== src/Tests/Calls.antt =====
-- A call of `/me` with the session of user 7, and one without a header.
use aita.Common.{Bool, ℤ, pos, String, ◌≡◌, refl, Option, none, some, []}
use aita.Errcode.{sentinel, session_not_found, get_status_code}
use aita.Exec.{ok, err}
use aita.Dto.User.{UserRecord, to_user_profile}
use aita.Dto.Session.{AuthRecord, AuthContext}
use aita.Service.Session.{should_refresh, validate, authenticate, execute_refresh, refresh_async}
use aita.Service.Session.Laws.{Grants}
use aita.Api.Auth.{extract_bearer_token, get_auth_context, auth_middleware}
use aita.Api.Auth.Identity.{session_service}
use aita.Api.Response.{Response, profile_data, fail_with, success, Sent, or_refuse}
use aita.Api.Response.Status.{IsConsistent}
use aita.Api.User.{UserService, SessionManager, get_me}
use aita.Api.Tweet.{TweetService}
use aita.Api.Follow.{FollowService}
use aita.Api.Router.{me_call, is_protected, handle, serve}
use aita.Api.Router.Answers.{serve-IsConsistent}
use aita.Api.Router.Callers.{serve-Grants}
use aita.Tests.Sessions.{Sessions, repo, users, token, tm, held, lib}

abbrev texts : aita.Api.Request.Strings
texts = record { trim_space = λ s. s; email_matches = λ s. Bool.true }

abbrev alice : UserRecord
alice = record {
  id = pos 7;
  username = "alice";
  email = "alice@example.com";
  password_hash = "hash";
  created_at = 100;
  follower_count = pos 1;
  following_count = pos 2;
}

abbrev accounts : UserService Sessions
accounts = record {
  register = λ name email password s. (ok (some alice), s);
  login = λ email password s. (ok (some alice), s);
  to_my_account = λ id s. (ok (some alice), s);
}

abbrev sessions : SessionManager Sessions
sessions = record { issue = λ id s. (ok none, s); revoke = λ id token s. (ok tt, s) }

abbrev tweets : TweetService Sessions
tweets = record {
  post_tweet = λ id content url s. (err (sentinel session_not_found), s);
  fetch_tweet = λ id s. (ok none, s);
  edit_tweet = λ content id user s. (err (sentinel session_not_found), s);
  remove_tweet = λ id user s. (ok tt, s);
}

abbrev follows : FollowService Sessions
follows = record {
  follow = λ a b s. (ok none, s);
  un_follow = λ a b s. (ok tt, s);
  get_followers = λ a s. (ok [], s);
  get_followings = λ a s. (ok [], s);
  get_relation = λ a b s. (ok none, s);
}

abbrev parse : String → Option ℤ
parse s = some (pos 3)

abbrev header : String
header = "Bearer 0123456789abcdef0123456789abcdef"

abbrev profile : Response
profile = success (profile_data (to_user_profile (some alice)))

abbrev refreshed : Sessions
refreshed = (execute_refresh repo users tm 753 token held).1

serve-Grants_example :
    (who : AuthContext) × (t : String) × (a : AuthRecord) × (s1 : Sessions) × (s2 : Sessions)
    × (extract_bearer_token lib header ≡ ok t)
    × (Grants repo users tm 750 t held (some a) s1)
    × (who.user_id ≡ a.user_id)
    × (handle texts parse accounts sessions tweets follows (some (some who)) me_call s2
        ≡ (ok (200, profile), refreshed))
serve-Grants_example =
    serve-Grants texts parse accounts sessions tweets follows repo users tm (λ m s. (m s).1) 750 751
      752 753 lib header me_call held refreshed 200 profile (unfold is_protected in refl)
      (unfold serve handle auth_middleware session_service validate authenticate should_refresh
          refresh_async is_protected get_me or_refuse get_auth_context in
        refl)
      (unfold success in refl)

abbrev missing : Sent
missing =
    (get_status_code (some (sentinel session_not_found)), fail_with (sentinel session_not_found))

serve-IsConsistent_example : IsConsistent missing
serve-IsConsistent_example =
    serve-IsConsistent texts parse accounts sessions tweets follows
      (session_service repo users tm (λ m s. (m s).1) 750 751 752 753) lib "" me_call held held
      missing (unfold serve handle auth_middleware is_protected extract_bearer_token in refl)
