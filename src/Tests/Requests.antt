-- ===== src/Tests/Requests.antt =====
-- Requests and errors, with a pattern that every address has.
use aita.Common.{◌≡◌, refl, true, some}
use aita.Api.Request.{
  Strings, SignupRequest, CreateTweetRequest, is_valid_email, validate_signup, IsSignup,
  validate_signup_sound,
}

abbrev lib : Strings
lib = record { trim_space = λ s. s; email_matches = λ s. true }

abbrev signup : SignupRequest
signup = record { username = "alice"; email = "alice@example.com"; password = "secret words" }

validate_signup_sound_example :
    IsSignup lib signup
    × (signup.username ≡ lib.trim_space "alice")
    × (signup.email ≡ lib.trim_space "alice@example.com")
    × (signup.password ≡ lib.trim_space "secret words")
validate_signup_sound_example =
    validate_signup_sound lib signup signup (unfold validate_signup is_valid_email in refl)

abbrev post : CreateTweetRequest
post = record { content = "hello"; image_url = some "" }
