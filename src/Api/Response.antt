-- ===== src/Api/Response.antt =====
-- internal/pkg/app/response.go: the envelope of an answer. `err.Error()` is the error itself; `any`
-- is the type of what the handlers pass.
pub mod Status
pub mod Paid
pub mod Calm
use aita.Common.{ℕ, ℤ, String, Bool, Option, none, some, List}
use aita.Errcode.{
  Error, Sentinel, BindError, sentinel, foreign, filter_bind_error, get_status_code,
  get_business_code,
}
use aita.Exec.{Result, ok, err, panic, Exec, ◌>>=◌, pure, crash, Attempt, returned, failed, attempt}
use aita.Dto.User.{UserProfile, UserResponse, UserSlimRecord}
use aita.Dto.Tweet.{TweetResponse}
use aita.Dto.Follow.{FollowResponse, RelationResponse}

pub record LoginResponse : Type 0 where
  pub session_token : String
  pub user : Option UserResponse

pub data Payload : Type 0 where
  login_data : LoginResponse → Payload
  profile_data : Option UserProfile → Payload
  tweet_data : TweetResponse → Payload
  follow_data : FollowResponse → Payload
  relation_data : RelationResponse → Payload
  infos_data : List UserSlimRecord → Payload

pub record Response : Type 0 where
  pub payload : Option Payload
  pub message : String
  pub error : Option Error
  pub code : String
  pub meta : Option Payload

-- Fail
unfoldable pub fail_with : Error → Response
unfolding get_business_code
fail_with e = record {
  payload = none;
  message = "";
  error = some e;
  code = get_business_code (some e);
  meta = none;
}

-- Success
unfoldable pub success : Payload → Response
success payload = record {
  payload = some payload;
  message = "";
  error = none;
  code = "SUCCESS";
  meta = none;
}

-- SuccessMsg
unfoldable pub success_msg : String → Response
success_msg msg = record {
  payload = none;
  message = msg;
  error = none;
  code = "SUCCESS";
  meta = none;
}

-- SuccessWithMeta
unfoldable pub success_with_meta : Payload → Payload → Response
success_with_meta payload meta = record {
  payload = some payload;
  message = "";
  error = none;
  code = "SUCCESS";
  meta = some meta;
}

-- What `c.JSON` is given: the status and the body.
abbrev pub Sent : Type 0
Sent = ℕ × Response

-- What `ShouldBindJSON` leads to.
pub data Bound (A : Type 0) : Type 0 where
  bound : A → Bound A
  unbound : BindError → Bound A

-- A binding error as it is, with no sentinel in its chain.
abbrev pub raw_bind_error : Error
raw_bind_error = foreign 200

-- `c.JSON(errcode.GetStatusCode(err), app.Fail(err))`
abbrev pub refused : Error → Sent
refused e = (get_status_code (some e), fail_with e)

module _ {S : Type 0} where
  abbrev pub after : {A : Type 0} → (A → Exec S Sent) → Attempt A → Exec S Sent
  after f (returned a) = f a
  after f (failed e) = pure (refused e)

  -- `x, err := …; if err != nil { c.JSON(…); return }`
  unfoldable pub or_refuse : {A : Type 0} → Exec S A → (A → Exec S Sent) → Exec S Sent
  or_refuse m f = do got ← attempt m; after f got

  abbrev pub filtered : Option Sentinel → Exec S Sent
  filtered none = crash
  filtered (some c) = pure (refused (sentinel c))

  -- A body, with the binding error that `FilterBindError` translates.
  unfoldable pub with_body : {A : Type 0} → Bound A → (A → Exec S Sent) → Exec S Sent
  with_body (bound a) f = f a
  with_body (unbound e) f = filtered (filter_bind_error (some e))
