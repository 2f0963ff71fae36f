-- ===== src/Service/Follow/Laws.antt =====
-- What a follow needs: internal/service/follow_service.go.
use aita.Common.{ℤ, is_nonpos, int_eq_ne, ◌≡◌, ◌≢◌, true, false}
use aita.Exec.{ok, panic}
use aita.Service.Follow.{FollowRepository, CountManager, new_follow_service, follow, unfollow}

module _ {S : Type 0} (fr : FollowRepository S) (cm : CountManager S) where
  -- `NewFollowService` leaves the transaction manager nil, so every follow of an existing user by
  -- another user panics, with the state as the existence check left it.
  pub follow_panics :
      (user_id target_id : ℤ) (s s' : S)
      → is_nonpos user_id ≡ false
      → is_nonpos target_id ≡ false
      → user_id ≢ target_id
      → cm.exists target_id s ≡ (ok true, s')
      → follow (new_follow_service fr cm) user_id target_id s ≡ (panic, s')
  unfolding follow new_follow_service
  follow_panics user_id target_id s s' u t apart found =
      rw (u, t, int_eq_ne user_id target_id apart, found)

  -- Every unfollow of an existing user by another user panics likewise.
  pub unfollow_panics :
      (user_id target_id : ℤ) (s s' : S)
      → is_nonpos user_id ≡ false
      → is_nonpos target_id ≡ false
      → user_id ≢ target_id
      → cm.exists target_id s ≡ (ok true, s')
      → unfollow (new_follow_service fr cm) user_id target_id s ≡ (panic, s')
  unfolding unfollow new_follow_service
  unfollow_panics user_id target_id s s' u t apart found =
      rw (u, t, int_eq_ne user_id target_id apart, found)
