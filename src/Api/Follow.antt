-- ===== src/Api/Follow.antt =====
-- internal/api/follow_handler.go. `auth` is the value that the context holds under `AuthPayloadKey`,
-- `id_str` the parameter `id` of the path, which `parse` reads.
use aita.Common.{ℤ, String, Option, none, some, List}
use aita.Exec.{Exec, ◌>>=◌, pure, crash, lift, Attempt, returned, failed, attempt}
use aita.Dto.User.{UserSlimRecord}
use aita.Dto.Follow.{FollowRecord, RelationRecord, to_follow_response, to_relation_response}
use aita.Dto.Session.{AuthContext}
use aita.Api.Auth.{get_auth_context, get_id_param}
use aita.Api.Response.{
  follow_data, relation_data, infos_data, fail_with, success, success_msg, Sent, Bound, bound,
  unbound, raw_bind_error, refused, or_refuse,
}

pub record FollowService (S : Type 0) : Type 0 where
  pub follow : ℤ → ℤ → Exec S (Option FollowRecord)
  pub un_follow : ℤ → ℤ → Exec S Unit
  pub get_followers : ℤ → Exec S (List UserSlimRecord)
  pub get_followings : ℤ → Exec S (List UserSlimRecord)
  pub get_relation : ℤ → ℤ → Exec S (Option RelationRecord)

-- FollowRequest and UnFollowRequest of internal/pkg/app/request.go
pub record FollowRequest : Type 0 where
  pub target_id : ℤ

abbrev unfollowed : String
unfollowed = "フォロウィングの削除成功"

module _ {S : Type 0} (parse : String → Option ℤ) (follows : FollowService S) where
  abbrev pub made : Option FollowRecord → Exec S Sent
  made none = crash
  made (some row) = pure (201, success (follow_data (to_follow_response row)))

  -- The error of the binding is not translated here.
  abbrev pub follow_bound : AuthContext → Bound FollowRequest → Exec S Sent
  follow_bound caller (unbound e) = pure (refused raw_bind_error)
  follow_bound caller (bound req) = or_refuse (follows.follow caller.user_id req.target_id) made

  -- Follow
  unfoldable pub follow : Option (Option AuthContext) → Bound FollowRequest → Exec S Sent
  follow auth body = or_refuse (lift (get_auth_context auth)) (λ caller. follow_bound caller body)

  abbrev pub un_follow_bound : AuthContext → Bound FollowRequest → Exec S Sent
  un_follow_bound caller (unbound e) = pure (refused raw_bind_error)
  un_follow_bound caller (bound req) =
      or_refuse (follows.un_follow caller.user_id req.target_id)
        (λ done. pure (200, success_msg unfollowed))

  -- UnFollow
  unfoldable pub un_follow : Option (Option AuthContext) → Bound FollowRequest → Exec S Sent
  un_follow auth body =
      or_refuse (lift (get_auth_context auth)) (λ caller. un_follow_bound caller body)

  -- GetFollowers
  unfoldable pub get_followers : String → Exec S Sent
  get_followers id_str = or_refuse (lift (get_id_param parse id_str)) (λ user_id.
      or_refuse (follows.get_followers user_id) (λ infos. pure (200, success (infos_data infos))))

  -- GetFollowings
  unfoldable pub get_followings : String → Exec S Sent
  get_followings id_str = or_refuse (lift (get_id_param parse id_str)) (λ user_id.
      or_refuse (follows.get_followings user_id) (λ infos. pure (200, success (infos_data infos))))

  abbrev pub related : ℤ → ℤ → Option RelationRecord → Exec S Sent
  related me target relation =
      pure (200, success (relation_data (to_relation_response relation me target)))

  abbrev pub relation_to : AuthContext → Attempt ℤ → Exec S Sent
  relation_to caller (failed e) = pure (400, fail_with e)
  relation_to caller (returned target_id) =
      or_refuse (follows.get_relation caller.user_id target_id) (related caller.user_id target_id)

  abbrev pub relation_for : String → Attempt AuthContext → Exec S Sent
  relation_for id_str (failed e) = pure (401, fail_with e)
  relation_for id_str (returned caller) = do
    target_id ← attempt (lift (get_id_param parse id_str))
    relation_to caller target_id

  -- GetRelation
  unfoldable pub get_relation : Option (Option AuthContext) → String → Exec S Sent
  get_relation auth id_str = do
    caller ← attempt (lift (get_auth_context auth))
    relation_for id_str caller
