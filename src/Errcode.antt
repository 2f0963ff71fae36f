-- ===== src/Errcode.antt =====
-- internal/errcode: the sentinel errors, Go's wrapping of errors, and their codes for the client.
pub mod Laws
use aita.Common.{ℕ, String, Bool, true, false, ◌||◌, Option, none, some, if◌then◌else◌}

-- error_code.go, in its order.
pub data Sentinel : Type 0 where
  invalid_request_format invalid_json invalid_id_format edit_time_expired forbidden : Sentinel
  required_field_missing invalid_username_format invalid_email_format : Sentinel
  invalid_password_format invalid_user_id invalid_session_id invalid_token_format : Sentinel
  invalid_url_format invalid_tweet_id invalid_content_format already_following : Sentinel
  cannot_follow_self not_following value_too_long user_not_found session_not_found : Sentinel
  tweet_not_found session_expired username_conflict email_conflict token_conflict : Sentinel
  invalid_credentials internal : Sentinel

-- A Go error: a sentinel of this package, an error that wraps another by `%w`, or an error from
-- elsewhere (a driver, a `fmt.Errorf` with nothing wrapped) with a number to tell it by.
pub data Error : Type 0 where
  sentinel : Sentinel → Error
  wrapped : Error → Error
  foreign : ℕ → Error

-- What `errors.Is` compares at the end of the chain.
unfoldable pub root : Error → Option Sentinel
root (sentinel c) = some c
root (wrapped e) = root e
root (foreign n) = none

pub record Metadata : Type 0 where
  pub http_status : ℕ
  pub business_code : String

-- errorToMetadata: `ErrInternal` has no entry.
unfoldable pub metadata : Sentinel → Option Metadata
metadata invalid_request_format =
    some (record { http_status = 400; business_code = "INVALID_REQUEST_FORMAT" })
metadata invalid_json = some (record { http_status = 400; business_code = "INVALID_JSON_FORMAT" })
metadata invalid_id_format =
    some (record { http_status = 400; business_code = "INVALID_ID_FORMAT" })
metadata required_field_missing =
    some (record { http_status = 400; business_code = "REQUIRED_FIELD_MISSING" })
metadata invalid_username_format =
    some (record { http_status = 400; business_code = "INVALID_USERNAME_FORMAT" })
metadata invalid_email_format =
    some (record { http_status = 400; business_code = "INVALID_EMAIL_FORMAT" })
metadata invalid_password_format =
    some (record { http_status = 400; business_code = "INVALID_PASSWORD_FORMAT" })
metadata invalid_user_id = some (record { http_status = 400; business_code = "INVALID_USER_ID" })
metadata invalid_session_id =
    some (record { http_status = 400; business_code = "INVALID_SESSION_ID" })
metadata invalid_token_format =
    some (record { http_status = 400; business_code = "INVALID_TOKEN_FORMAT" })
metadata invalid_tweet_id = some (record { http_status = 400; business_code = "INVALID_TWEET_ID" })
metadata invalid_url_format =
    some (record { http_status = 400; business_code = "INVALID_URL_FORMAT" })
metadata invalid_content_format =
    some (record { http_status = 400; business_code = "INVALID_CONTENT_FORMAT" })
metadata value_too_long = some (record { http_status = 400; business_code = "VALUE_TOO_LONG" })
metadata already_following =
    some (record { http_status = 400; business_code = "ALREADY_FOLLOWING" })
metadata cannot_follow_self =
    some (record { http_status = 400; business_code = "CANNOT_FOLLOW_SELF" })
metadata not_following = some (record { http_status = 400; business_code = "NOT_FOLLOWING" })
metadata invalid_credentials =
    some (record { http_status = 401; business_code = "INVALID_CREDENTIALS" })
metadata session_expired = some (record { http_status = 401; business_code = "SESSION_EXPIRED" })
metadata session_not_found =
    some (record { http_status = 401; business_code = "SESSION_NOT_FOUND" })
metadata forbidden = some (record { http_status = 403; business_code = "FORBIDDEN_ACCESS" })
metadata user_not_found = some (record { http_status = 404; business_code = "USER_NOT_FOUND" })
metadata tweet_not_found = some (record { http_status = 404; business_code = "TWEET_NOT_FOUND" })
metadata username_conflict =
    some (record { http_status = 409; business_code = "USERNAME_CONFLICT" })
metadata email_conflict = some (record { http_status = 409; business_code = "EMAIL_CONFLICT" })
metadata token_conflict = some (record { http_status = 409; business_code = "TOKEN_CONFLICT" })
metadata edit_time_expired =
    some (record { http_status = 422; business_code = "EDIT_TIME_EXPIRED" })
metadata internal = none

-- The metadata of the entry that `errors.Is` finds; the sentinels differ, so at most one matches,
-- whatever the order in which Go goes through the map.
unfoldable pub find_metadata : Error → Option Metadata
unfolding root metadata
find_metadata e = elim (root e) [ none ↦ none | some c ↦ metadata c ]

-- GetStatusCode; `none` is the nil error.
unfoldable pub get_status_code : Option Error → ℕ
get_status_code none = 200
get_status_code (some e) = elim (find_metadata e) [ none ↦ 500 | some m ↦ m.http_status ]

-- GetBusinessCode
unfoldable pub get_business_code : Option Error → String
get_business_code none = ""
get_business_code (some e) = elim (find_metadata e) [
  | none ↦ "INTERNAL_SERVER_ERROR"
  | some m ↦ m.business_code
]

-- What `errors.Is` and `errors.As` of gin's binding error tell.
pub record BindError : Type 0 where
  pub is_eof : Bool
  pub is_unexpected_eof : Bool
  pub as_syntax_error : Bool
  pub as_unmarshal_type_error : Bool
  pub as_validation_errors : Bool

-- FilterBindError
unfoldable pub filter_bind_error : Option BindError → Option Sentinel
filter_bind_error none = none
filter_bind_error (some b) =
    if b.is_eof || b.is_unexpected_eof
    then some invalid_json
    else if b.as_syntax_error || b.as_unmarshal_type_error
    then some invalid_json
    else if b.as_validation_errors
    then some invalid_request_format
    else some invalid_json

abbrev pub is_not_found : Option Sentinel → Bool
is_not_found (some user_not_found) = true
is_not_found _ = false

-- `errors.Is(err, errcode.ErrUserNotFound)`
unfoldable pub is_user_not_found : Error → Bool
unfolding root
is_user_not_found e = is_not_found (root e)
