-- ===== src/Dto/Follow.antt =====
-- internal/dto/follow_dto.go, with the responses of internal/pkg/app/response.go.
use aita.Common.{ℤ, Bool, false, ◌&&◌, Option, none, some}
use aita.Models.{Time, Follow, RelationShip}

pub record FollowRecord : Type 0 where
  pub follower_id : ℤ
  pub following_id : ℤ
  pub created_at : Time

pub record RelationRecord : Type 0 where
  pub following : Bool
  pub followed_by : Bool
  pub is_mutual : Bool

pub record FollowResponse : Type 0 where
  pub follower_id : ℤ
  pub following_id : ℤ
  pub created_at : Time

pub record RelationResponse : Type 0 where
  pub me_id : ℤ
  pub target_id : ℤ
  pub following : Bool
  pub followed_by : Bool
  pub is_mutual : Bool

-- NewFollowRecord
unfoldable pub new_follow_record : Option Follow → Option FollowRecord
new_follow_record none = none
new_follow_record (some follow) = some (record {
  follower_id = follow.follower_id;
  following_id = follow.following_id;
  created_at = follow.created_at;
})

-- NewRelationRecord
unfoldable pub new_relation_record : Option RelationShip → Option RelationRecord
new_relation_record none = none
new_relation_record (some relation) = some (record {
  following = relation.following;
  followed_by = relation.followed_by;
  is_mutual = relation.following && relation.followed_by;
})

-- ToFollowResponse
unfoldable pub to_follow_response : FollowRecord → FollowResponse
to_follow_response r = record {
  follower_id = r.follower_id;
  following_id = r.following_id;
  created_at = r.created_at;
}

-- ToRelationResponse: a nil record is a relation that does not hold either way.
unfoldable pub to_relation_response : Option RelationRecord → ℤ → ℤ → RelationResponse
to_relation_response none user_id target_id = record {
  me_id = user_id;
  target_id = target_id;
  following = false;
  followed_by = false;
  is_mutual = false;
}
to_relation_response (some r) user_id target_id = record {
  me_id = user_id;
  target_id = target_id;
  following = r.following;
  followed_by = r.followed_by;
  is_mutual = r.is_mutual;
}
