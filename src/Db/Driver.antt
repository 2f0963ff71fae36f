-- ===== src/Db/Driver.antt =====
-- What comes back from the driver, and the constants of internal/db/const_db.go.
use aita.Common.{String}

-- What `errors.As` into `*pq.Error` finds.
pub record PqError : Type 0 where
  pub code : String
  pub constraint : String

pub data DriverError : Type 0 where
  no_rows : DriverError
  pq : PqError → DriverError
  other : DriverError

pub data Reply (A : Type 0) : Type 0 where
  rows : A → Reply A
  failure : DriverError → Reply A

abbrev pub Statement : Type 0 → Type 0 → Type 0
Statement S A = S → Reply A × S

abbrev pub string_data_right_truncation : String
string_data_right_truncation = "22001"

abbrev pub foreign_key_violation : String
foreign_key_violation = "23503"

abbrev pub unique_violation : String
unique_violation = "23505"

abbrev pub check_violation : String
check_violation = "23514"

abbrev pub tweet_user_fk : String
tweet_user_fk = "tweets_user_id_fkey"

abbrev pub username_key : String
username_key = "users_username_key"

abbrev pub useremail_key : String
useremail_key = "users_email_key"

abbrev pub unique_follow : String
unique_follow = "unique_follow"

abbrev pub no_self_follow : String
no_self_follow = "no_self_follow"
