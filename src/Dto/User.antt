-- ===== src/Dto/User.antt =====
-- internal/dto/user_dto.go, with the response of internal/pkg/app/response.go.
use aita.Common.{ℤ, negsuc, pos, String, Bool, true, false, ◌||◌, Option, none, some, if◌then◌else◌}
use aita.Models.{Time, User, UserInfo}

pub record UserRecord : Type 0 where
  pub id : ℤ
  pub username : String
  pub email : String
  pub password_hash : String
  pub created_at : Time
  pub follower_count : ℤ
  pub following_count : ℤ

pub record UserPageRecord : Type 0 where
  pub id : ℤ
  pub username : String
  pub follower_count : ℤ
  pub following_count : ℤ

-- Nothing builds it.
record UserPage : Type 0 where
  id : ℤ
  username : String
  follower_count : ℤ
  following_count : ℤ

pub record UserSlimRecord : Type 0 where
  pub id : ℤ
  pub username : String

pub record UserProfile : Type 0 where
  pub id : ℤ
  pub username : String
  pub email : String
  pub follower_count : ℤ
  pub following_count : ℤ
  pub created_at : Time

pub record UserResponse : Type 0 where
  pub id : ℤ
  pub username : String
  pub email : String
  pub created_at : Time

-- ToUserResponse
unfoldable pub to_user_response : Option UserRecord → Option UserResponse
to_user_response none = none
to_user_response (some u) =
    some (record { id = u.id; username = u.username; email = u.email; created_at = u.created_at })

-- ToUserModel
unfoldable pub to_user_model : Option UserRecord → Option User
to_user_model none = none
to_user_model (some ur) = some (record {
  id = ur.id;
  username = ur.username;
  email = ur.email;
  password_hash = ur.password_hash;
  created_at = ur.created_at;
  follower_count = ur.follower_count;
  following_count = ur.following_count;
})

-- ToUserProfile
unfoldable pub to_user_profile : Option UserRecord → Option UserProfile
to_user_profile none = none
to_user_profile (some u) = some (record {
  id = u.id;
  username = u.username;
  email = u.email;
  follower_count = u.follower_count;
  following_count = u.following_count;
  created_at = u.created_at;
})

-- NewUserRecord
unfoldable pub new_user_record : Option User → Option UserRecord
new_user_record none = none
new_user_record (some user) = some (record {
  id = user.id;
  username = user.username;
  email = user.email;
  password_hash = user.password_hash;
  created_at = user.created_at;
  follower_count = user.follower_count;
  following_count = user.following_count;
})

-- NewUserSlimRecord
unfoldable pub new_user_slim_record : Option UserInfo → Option UserSlimRecord
new_user_slim_record none = none
new_user_slim_record (some info) = some (record { id = info.id; username = info.username })

abbrev pub is_negative : ℤ → Bool
is_negative (pos n) = false
is_negative (negsuc n) = true

-- NewUserPageRecord
unfoldable pub new_user_page_record : Option UserInfo → ℤ → ℤ → Option UserPageRecord
new_user_page_record none followers followings = none
new_user_page_record (some info) followers followings =
    if is_negative followers || is_negative followings
    then none
    else some (record {
      id = info.id;
      username = info.username;
      follower_count = followers;
      following_count = followings;
    })
