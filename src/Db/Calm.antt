-- ===== src/Db/Calm.antt =====
-- The stores of internal/db end without a panic, and a row that they return is not nil.
use aita.Common.{
  ℕ, zero, suc, ℤ, String, Bool, true, false, leb, ltb, length, Option, none, some, List, [], ◌∷◌,
  int_eq, pos, if◌then◌else◌, arith,
}
use aita.Errcode.{Sentinel, Error, wrapped, session_expired, session_not_found, token_conflict}
use aita.Exec.{Result, ok, err, panic, lift}
use aita.Exec.Calm.{
  Lands, Any, IsSome, Calm, Calm-pure, Calm-raise, Calm-fail, Calm-lift, Calm-wrap_err, Calm-if,
  Calm-bind,
}
use aita.Models.{Time, Session, User, UserInfo, Tweet}
use aita.Pkg.Json.{Json}
use aita.Pkg.Redis.{
  session_data, get, Reply, Client, is_redis_nil, error_of, as_text, as_number, first_reply,
}
use aita.Pkg.Calm.{Calm-piped, as_text-Lands, as_number-Lands}
use aita.Db.Transactor.{base}
use aita.Db.Driver.{PqError, DriverError, no_rows, pq, other, rows, failure}
use aita.Db.User.{UserTable}
use aita.Db.Tweet.{TweetTable}
use aita.Db.Follow.{FollowTable}
use aita.Db.Session.{
  set_outcome, checked, create_marshalled, create, fetched, get_session, deleted, delete,
}

module _ {S : Type 0} (db tx : UserTable S) where
  pub create_user-Calm : (u : User) → Calm IsSome (aita.Db.User.create db tx base (some u))
  unfolding aita.Db.User.create
  create_user-Calm u = record {
    at = λ s. by_reply (db.insert u.username u.email u.password_hash s).0;
  }
    where
      by_reply : (r : aita.Db.Driver.Reply User) → Lands IsSome (aita.Db.User.inserted r)
      by_reply (rows v) = tt
      by_reply (failure no_rows) = tt
      by_reply (failure _) = tt

  selected-Lands : (r : aita.Db.Driver.Reply User) → Lands IsSome (aita.Db.User.selected r)
  selected-Lands (rows u) = tt
  selected-Lands (failure no_rows) = tt
  selected-Lands (failure _) = tt

  pub get_by_email-Calm :
      (email : String) → Calm IsSome (aita.Db.User.get_by_email db tx base email)
  unfolding aita.Db.User.get_by_email
  get_by_email-Calm email = record { at = λ s. selected-Lands (db.select_by_email email s).0 }

  pub get_full_by_id-Calm : (id : ℤ) → Calm IsSome (aita.Db.User.get_full_by_id db tx base id)
  unfolding aita.Db.User.get_full_by_id
  get_full_by_id-Calm id = record { at = λ s. selected-Lands (db.select_by_id id s).0 }

  pub get_names_by_ids-Calm :
      (ids : List ℤ) → Calm Any (aita.Db.User.get_names_by_ids db tx base ids)
  unfolding aita.Db.User.get_names_by_ids
  get_names_by_ids-Calm [] = Calm-pure [] tt
  get_names_by_ids-Calm (id ∷ ids) = by_length (ltb 500 (length (id ∷ ids)))
    where
      by_reply : (r : aita.Db.Driver.Reply (List UserInfo)) → Lands Any (aita.Db.User.listed r)
      by_reply (rows infos) = tt
      by_reply (failure e) = tt

      by_length :
          (b : Bool)
          → Calm Any (λ s.
            if b
            then (err aita.Db.User.too_many_ids, s)
            else aita.Db.User.select_some db tx base (id ∷ ids) s)
      by_length true = Calm-raise aita.Db.User.too_many_ids
      by_length false = record { at = λ s. by_reply (db.select_names (id ∷ ids) s).0 }

module _ {S : Type 0} (db : TweetTable S) where
  pub create_tweet-Calm : (t : Tweet) → Calm IsSome (aita.Db.Tweet.create_tweet db t)
  unfolding aita.Db.Tweet.create_tweet
  create_tweet-Calm t = record {
    at = λ s. by_reply (db.insert t.user_id t.content t.image_url s).0;
  }
    where
      by_reply : (r : aita.Db.Driver.Reply Tweet) → Lands IsSome (aita.Db.Tweet.inserted r)
      by_reply (rows v) = tt
      by_reply (failure no_rows) = tt
      by_reply (failure other) = tt
      by_reply (failure (pq e)) = ground arith

  pub get_tweet-Calm : (id : ℤ) → Calm IsSome (aita.Db.Tweet.get_tweet_by_tweet_id db id)
  unfolding aita.Db.Tweet.get_tweet_by_tweet_id
  get_tweet-Calm id = record { at = λ s. by_reply (db.select_by_id id s).0 }
    where
      by_reply :
          (r : aita.Db.Driver.Reply aita.Db.Tweet.SelectedTweet)
          → Lands IsSome (aita.Db.Tweet.selected r)
      by_reply (rows v) = tt
      by_reply (failure no_rows) = tt
      by_reply (failure _) = tt

  pub update_content-Calm :
      (content : String) (id : ℤ) → Calm IsSome (aita.Db.Tweet.update_content db content id)
  unfolding aita.Db.Tweet.update_content
  update_content-Calm content id = record { at = λ s. by_reply (db.update_content content id s).0 }
    where
      by_reply : (r : aita.Db.Driver.Reply Tweet) → Lands IsSome (aita.Db.Tweet.updated r)
      by_reply (rows v) = tt
      by_reply (failure no_rows) = tt
      by_reply (failure other) = tt
      by_reply (failure (pq e)) = ground arith

  pub delete_tweet-Calm : (id : ℤ) → Calm Any (aita.Db.Tweet.delete_tweet db id)
  unfolding aita.Db.Tweet.delete_tweet
  delete_tweet-Calm id = record { at = λ s. by_reply (db.delete_by_id id s).0 }
    where
      by_reply : (r : aita.Db.Driver.Reply ℕ) → Lands Any (aita.Db.Tweet.deleted r)
      by_reply (rows zero) = tt
      by_reply (rows (suc n)) = tt
      by_reply (failure e) = tt

module _ {S : Type 0} (db tx : FollowTable S) where
  listed-Lands :
      {A : Type 0} (r : aita.Db.Driver.Reply (List A)) → Lands Any (aita.Db.Follow.listed r)
  listed-Lands (rows a) = tt
  listed-Lands (failure e) = tt

  pub get_followings-Calm : (id : ℤ) → Calm Any (aita.Db.Follow.get_followings db tx base id)
  unfolding aita.Db.Follow.get_followings
  get_followings-Calm id = record { at = λ s. listed-Lands (db.select_followings id s).0 }

  pub get_followers-Calm : (id : ℤ) → Calm Any (aita.Db.Follow.get_followers db tx base id)
  unfolding aita.Db.Follow.get_followers
  get_followers-Calm id = record { at = λ s. listed-Lands (db.select_followers id s).0 }

  pub get_relationship-Calm : (a b : ℤ) → Calm Any (aita.Db.Follow.get_relationship db tx base a b)
  unfolding aita.Db.Follow.get_relationship
  get_relationship-Calm a b = record { at = λ s. by_reply (db.select_relation a b s).0 }
    where
      by_reply :
          (r : aita.Db.Driver.Reply aita.Models.RelationShip) → Lands Any (aita.Db.Follow.related r)
      by_reply (rows a) = tt
      by_reply (failure e) = tt

-- Encoding and decoding never panic.
pub record IsCalmJson {A : Type 0} (json : Json A) : Type 0 where
  pub marshals : (a : A) → Lands Any (json.marshal a)
  pub unmarshals : (v : String) → Lands Any (json.unmarshal v)

module _ {S : Type 0} (json : Json Session) (client : Client S) (calm : IsCalmJson json) where
  set_outcome-Calm :
      (absent : Sentinel) (e : Option Error) → Calm Any (set_outcome json client absent e)
  set_outcome-Calm absent none = Calm-pure tt tt
  set_outcome-Calm absent (some e) =
      Calm-if (is_redis_nil e) _ _ (Calm-fail absent) (Calm-raise (wrapped e))

  checked-Calm :
      (absent : Sentinel) (r : Option Error × List Reply) → Calm Any (checked json client absent r)
  checked-Calm absent (none, replies) = set_outcome-Calm absent (error_of (first_reply replies))
  checked-Calm absent (some e, replies) =
      Calm-if (is_redis_nil e) _ _ (set_outcome-Calm absent (error_of (first_reply replies)))
        (Calm-raise (wrapped e))

  pub create_session-Calm :
      (now : Time) (m : Session) → Calm IsSome (create json client now (some m))
  unfolding create
  create_session-Calm now m = by_bytes (json.marshal m) (calm.marshals m)
    where
      by_bytes :
          (r : Result String) → Lands Any r → Calm IsSome (create_marshalled json client now m r)
      by_bytes panic h = absurd h
      by_bytes (err e) h = Calm-raise (wrapped e)
      by_bytes (ok bytes) h = Calm-if (leb m.expires_at now) _ _ (Calm-fail session_expired) (
          Calm-bind _ _ (Calm-piped client _) (λ executed.
            Calm-bind _ _ (checked-Calm token_conflict executed) (λ done. Calm-pure (some m) tt)))

  pub get_session-Calm : (now : Time) (hash : String) → Calm Any (get_session json client now hash)
  unfolding get_session
  get_session-Calm now hash = record {
    at = λ s.
        (by_text (as_text (client.run (get (session_data hash)) s).0)
            (as_text-Lands (client.run (get (session_data hash)) s).0)).at
          (client.run (get (session_data hash)) s).1;
  }
    where
      by_text : (r : Result String) → Lands Any r → Calm Any (fetched json client now r)
      by_text panic h = absurd h
      by_text (err e) h =
          Calm-if (is_redis_nil e) _ _ (Calm-fail session_not_found) (Calm-raise (wrapped e))
      by_text (ok bytes) h =
          Calm-bind _ _
            (Calm-wrap_err (lift (json.unmarshal bytes))
              (Calm-lift (json.unmarshal bytes) (calm.unmarshals bytes)))
            (λ m.
              Calm-if (ltb m.expires_at now) _ _ (Calm-fail session_expired)
                (Calm-pure (some m) tt))

  pub delete_session-Calm : (m : Session) → Calm Any (delete json client (some m))
  unfolding delete
  delete_session-Calm m = Calm-bind _ _ (Calm-piped client _) by_executed
    where
      by_executed : (r : Option Error × List Reply) → Calm Any (deleted json client r)
      by_executed (some e, replies) = Calm-raise (wrapped e)
      by_executed (none, replies) =
          Calm-bind _ _
            (Calm-wrap_err (lift (as_number (first_reply replies)))
              (Calm-lift (as_number (first_reply replies)) (as_number-Lands (first_reply replies))))
            (λ count.
              Calm-if (int_eq count (pos 0)) _ _ (Calm-fail session_not_found) (Calm-pure tt tt))
