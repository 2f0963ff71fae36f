-- ===== src/Models.antt =====
-- internal/models: the rows that the stores and the caches hand over. A `Time` counts nanoseconds
-- from Go's zero time, so 0 is what `IsZero` tells; all times are in UTC.
use aita.Common.{ℕ, ℤ, String, Bool, Option}

abbrev pub Time : Type 0
Time = ℕ

pub record Session : Type 0 where
  pub id : ℤ
  pub user_id : ℤ
  pub token_hash : String
  pub expires_at : Time
  pub created_at : Time

pub record Tweet : Type 0 where
  pub id : ℤ
  pub user_id : ℤ
  pub content : String
  pub image_url : Option String
  pub created_at : Time
  pub updated_at : Time
  pub is_edited : Bool

pub record User : Type 0 where
  pub id : ℤ
  pub username : String
  pub email : String
  pub password_hash : String
  pub created_at : Time
  pub follower_count : ℤ
  pub following_count : ℤ

pub record UserInfo : Type 0 where
  pub id : ℤ
  pub username : String

-- ToCacheInfo
unfoldable pub to_cache_info : User → UserInfo
to_cache_info u = record { id = u.id; username = u.username }

pub record Follow : Type 0 where
  pub id : ℤ
  pub follower_id : ℤ
  pub following_id : ℤ
  pub created_at : Time

-- `score` is the whole number of seconds that the float64 holds.
pub record CacheMember : Type 0 where
  pub member : ℤ
  pub score : ℤ

pub record RelationShip : Type 0 where
  pub following : Bool
  pub followed_by : Bool
