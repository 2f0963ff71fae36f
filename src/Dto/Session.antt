-- ===== src/Dto/Session.antt =====
-- internal/dto/session_dto.go
use aita.Common.{ℤ, String, Option, none, some}
use aita.Models.{Time, Session}

pub record SessionRecord : Type 0 where
  pub user_id : ℤ
  pub token_hash : String
  pub expires_at : Time
  pub created_at : Time

pub record AuthRecord : Type 0 where
  pub user_id : ℤ
  pub token : String
  pub expires_at : Time
  pub created_at : Time

pub record AuthContext : Type 0 where
  pub user_id : ℤ
  pub token : String
  pub role : String

-- ToModel: a fresh model has the zero ID.
unfoldable pub to_model : Option SessionRecord → Option Session
to_model none = none
to_model (some sr) = some (record {
  id = ℤ.pos 0;
  user_id = sr.user_id;
  token_hash = sr.token_hash;
  expires_at = sr.expires_at;
  created_at = sr.created_at;
})

-- ToSessionRecord
unfoldable pub to_session_record : Option Session → Option SessionRecord
to_session_record none = none
to_session_record (some ms) = some (record {
  user_id = ms.user_id;
  token_hash = ms.token_hash;
  expires_at = ms.expires_at;
  created_at = ms.created_at;
})

-- ToAuthRecord
unfoldable pub to_auth_record : Option SessionRecord → String → Option AuthRecord
to_auth_record none token = none
to_auth_record (some s) token = some (record {
  user_id = s.user_id;
  token = token;
  expires_at = s.expires_at;
  created_at = s.created_at;
})
