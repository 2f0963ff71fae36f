-- ===== src/Tests/Answered.antt =====
-- A platform whose parts never panic.
use aita.Common.{str_eq, ◌≡◌, refl, Bool, true, false, none, if◌then◌else◌}
use aita.Errcode.{foreign}
use aita.Exec.{ok, err}
use aita.Exec.Calm.{Lands, Any}
use aita.Api.Response.{Sent}
use aita.Api.Router.{login_call}
use aita.Main.App.{answer}
use aita.Main.Calm.Users.{IsCalmPlatform}
use aita.Main.Calm.{answer_total}
use aita.Tests.Entries.{is_session}
use aita.Tests.SignIns.{platform, session, body, at}

either-Lands : {A : Type 0} (b : Bool) (a : A) → Lands Any (if b then ok a else err (foreign 1))
either-Lands true a = tt
either-Lands false a = tt

calm : IsCalmPlatform platform
calm = record {
  session_json = record {
    marshals = λ m. either-Lands (is_session session m) "session";
    unmarshals = λ v. tt;
  };
  tweet_json = record { marshals = λ m. tt; unmarshals = λ v. tt };
  hashes = λ password cost. record { at = λ s. tt };
  compares = λ h v. record { at = λ s. by_test (str_eq h v) };
  draws = λ n. record { at = λ s. tt };
  user_flights = record { flies = λ key fn c. c };
  tweet_flights = record { flies = λ key fn c. c };
  follow_flights = record { flies = λ key fn c. c };
  backfills = λ m. record { at = λ s. tt };
  works = λ m. record { at = λ s. tt };
}
  where
    by_test : (b : Bool) → Lands Any (if b then ok tt else err (foreign 8))
    by_test true = tt
    by_test false = tt

answer_total_example :
    (sent : Sent) × ((answer platform (at 1000) "" (login_call body) (λ h. none)).0 ≡ ok sent)
answer_total_example = answer_total platform (at 1000) calm "" (login_call body) (λ h. none) refl
