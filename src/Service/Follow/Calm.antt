-- ===== src/Service/Follow/Calm.antt =====
-- The reads of internal/service/follow_service.go end without a panic over a repository and a user
-- service that do.
use aita.Common.{ℤ, is_nonpos, int_eq, List, [], ◌∷◌}
use aita.Errcode.{invalid_user_id, cannot_follow_self}
use aita.Exec.Calm.{Any, Calm, Calm-pure, Calm-fail, Calm-if, Calm-bind, Calm-wrap_err}
use aita.Service.Follow.{
  FollowRepository, FollowService, get_follower_ids, get_followers, get_following_ids,
  get_followings, get_relation, infos,
}

pub record IsCalmFollowRepository {S : Type 0} (repo : FollowRepository S) : Type 0 where
  pub followings : (id : ℤ) → Calm Any (repo.get_followings id)
  pub followers : (id : ℤ) → Calm Any (repo.get_followers id)
  pub relations : (a b : ℤ) → Calm Any (repo.check_relation a b)

module _ {S : Type 0} (svc : FollowService S) (calm : IsCalmFollowRepository svc.follow_repository)
    (names : (ids : List ℤ) → Calm Any (svc.count_manager.get_info_lists ids)) where
  infos-Calm : (ids : List ℤ) → Calm Any (infos svc ids)
  infos-Calm [] = Calm-pure [] tt
  infos-Calm (id ∷ ids) = names (id ∷ ids)

  pub get_followers-Calm : (id : ℤ) → Calm Any (get_followers svc id)
  unfolding get_followers get_follower_ids
  get_followers-Calm id =
      Calm-bind (get_follower_ids svc id) _
        (Calm-if (is_nonpos id) _ _ (Calm-fail invalid_user_id)
          (Calm-wrap_err _ (calm.followers id)))
        infos-Calm

  pub get_followings-Calm : (id : ℤ) → Calm Any (get_followings svc id)
  unfolding get_followings get_following_ids
  get_followings-Calm id =
      Calm-bind (get_following_ids svc id) _
        (Calm-if (is_nonpos id) _ _ (Calm-fail invalid_user_id)
          (Calm-wrap_err _ (calm.followings id)))
        infos-Calm

  pub get_relation-Calm : (a b : ℤ) → Calm Any (get_relation svc a b)
  unfolding get_relation
  get_relation-Calm a b = Calm-if _ _ _ (Calm-fail invalid_user_id) (
      Calm-if (int_eq a b) _ _ (Calm-fail cannot_follow_self)
        (Calm-wrap_err _ (calm.relations a b)))
