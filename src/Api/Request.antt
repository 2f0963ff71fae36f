-- ===== src/Api/Request.antt =====
-- internal/pkg/app/request.go, with IsValidEmail of internal/pkg/utils/helper.go. The functions of
-- strings and regexp are a parameter, `Strings`; a length is `len`, in bytes, and a count of runes
-- is `count`.
use Prim.Native.String.{len, count}
use aita.Common.{
  ℕ, ◌≤◌, String, str_eq, ◌≡◌, Bool, true, false, not, ◌||◌, Option, none, some, ltb, arith,
  if◌then◌else◌,
}
use aita.Errcode.{
  sentinel, required_field_missing, invalid_username_format, invalid_password_format,
  invalid_email_format, invalid_content_format,
}
use aita.Exec.{Result, ok, err}

pub record Strings : Type 0 where
  pub trim_space : String → String
  pub email_matches : String → Bool

pub record SignupRequest : Type 0 where
  pub username : String
  pub email : String
  pub password : String

pub record LoginRequest : Type 0 where
  pub email : String
  pub password : String

pub record CreateTweetRequest : Type 0 where
  pub content : String
  pub image_url : Option String

pub record UpdateTweetRequest : Type 0 where
  pub content : String

abbrev outside : ℕ → ℕ → ℕ → Bool
outside low high n = ltb n low || ltb high n

module _ (lib : Strings) where
  -- IsValidEmail
  unfoldable pub is_valid_email : String → Bool
  is_valid_email s = if outside 3 255 (len s) then false else lib.email_matches s

  -- Validate of a SignupRequest: the request as it is left, or the error.
  abbrev check_signup : SignupRequest → Result SignupRequest
  check_signup r =
      if str_eq r.username "" || str_eq r.email "" || str_eq r.password ""
      then err (sentinel required_field_missing)
      else if outside 4 50 (len r.username)
      then err (sentinel invalid_username_format)
      else if outside 8 72 (len r.password)
      then err (sentinel invalid_password_format)
      else if not (is_valid_email r.email) || ltb 255 (len r.email)
      then err (sentinel invalid_email_format)
      else ok r

  unfoldable pub validate_signup : SignupRequest → Result SignupRequest
  unfolding is_valid_email
  validate_signup r = check_signup (record {
    username = lib.trim_space r.username;
    email = lib.trim_space r.email;
    password = lib.trim_space r.password;
  })

  -- Validate of a LoginRequest
  abbrev check_login : LoginRequest → Result LoginRequest
  check_login r =
      if str_eq r.email "" || str_eq r.password ""
      then err (sentinel required_field_missing)
      else if outside 8 72 (len r.password)
      then err (sentinel invalid_password_format)
      else if not (is_valid_email r.email) || ltb 255 (len r.email)
      then err (sentinel invalid_email_format)
      else ok r

  unfoldable pub validate_login : LoginRequest → Result LoginRequest
  unfolding is_valid_email
  validate_login r =
      check_login (record { email = lib.trim_space r.email; password = lib.trim_space r.password })

  abbrev trimmed_url : Option String → Option String
  trimmed_url none = none
  trimmed_url (some url) =
      if str_eq (lib.trim_space url) "" then none else some (lib.trim_space url)

  -- Validate of a CreateTweetRequest
  unfoldable pub validate_create : CreateTweetRequest → Result CreateTweetRequest
  validate_create r =
      let content = lib.trim_space r.content in
      if str_eq content ""
      then err (sentinel required_field_missing)
      else if ltb 1000 (count content)
      then err (sentinel invalid_content_format)
      else ok (record { content = content; image_url = trimmed_url r.image_url })

  -- Validate of an UpdateTweetRequest
  unfoldable pub validate_update : UpdateTweetRequest → Result UpdateTweetRequest
  validate_update r =
      let content = lib.trim_space r.content in
      if str_eq content ""
      then err (sentinel required_field_missing)
      else if ltb 1000 (count content)
      then err (sentinel invalid_content_format)
      else ok (record { content = content })

  -- What a sign-up that was let through looks like.
  pub record IsSignup (r : SignupRequest) : Type 0 where
    pub username_long : 4 ≤ len r.username
    pub username_short : len r.username ≤ 50
    pub password_long : 8 ≤ len r.password
    pub password_short : len r.password ≤ 72
    pub email_long : 3 ≤ len r.email
    pub email_short : len r.email ≤ 255
    pub email_form : lib.email_matches r.email ≡ true

  -- A sign-up that `Validate` lets through is the trimmed request, its name 4 to 50 bytes, its
  -- password 8 to 72 bytes, and its address 3 to 255 bytes long and of the form that the pattern
  -- asks for.
  pub validate_signup_sound :
      (r q : SignupRequest)
      → validate_signup r ≡ ok q
      → IsSignup q
        × (q.username ≡ lib.trim_space r.username)
        × (q.email ≡ lib.trim_space r.email)
        × (q.password ≡ lib.trim_space r.password)
  unfolding validate_signup
  validate_signup_sound r q h = ground arith

  trimmed_url-nonempty :
      (o : Option String) (url : String) → trimmed_url o ≡ some url → str_eq url "" ≡ false
  trimmed_url-nonempty none url h = cc
  trimmed_url-nonempty (some u) url h = ground arith

  -- A tweet that `Validate` lets through has a content that is not empty and has at most 1000
  -- characters, and no image address that is empty.
  pub validate_create_sound :
      (r q : CreateTweetRequest)
      → validate_create r ≡ ok q
      → (str_eq q.content "" ≡ false)
        × (count q.content ≤ 1000)
        × ((url : String) → q.image_url ≡ some url → str_eq url "" ≡ false)
  unfolding validate_create
  validate_create_sound r q h =
      (ground arith, ground arith, λ url k. trimmed_url-nonempty r.image_url url (ground arith))
