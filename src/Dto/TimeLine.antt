-- ===== src/Dto/TimeLine.antt =====
-- internal/dto/timeline_dto.go: the task that goes through the message queue. The conversions of
-- strconv, fmt and time are a parameter, `Codec`.
use aita.Common.{
  ℕ, ℤ, is_nonpos, IsInt64, String, str_eq, str_eq_ne, ◌≡◌, ◌≢◌, ◌∙◌, true, false, ◌||◌, Option,
  none, some, List, [], ◌∷◌, if◌then◌else◌,
}
use aita.Errcode.{Error, foreign}
use aita.Exec.{Result, ok, err}
use aita.Models.{Time}

abbrev pub action_create : String
action_create = "create"

abbrev pub action_delete : String
action_delete = "delete"

abbrev pub action_update : String
action_update = "update"

pub record FanoutTask : Type 0 where
  pub tweet_id : ℤ
  pub author_id : ℤ
  pub msg_id : String
  pub created_at : Time
  pub action : String

-- `any`: a string, or something else.
pub data Value : Type 0 where
  text : String → Value
  opaque : ℕ → Value

-- `map[string]any`
abbrev pub Values : Type 0
Values = List (String × Value)

-- `values[key].(string)`
unfoldable pub get_text : String → Values → Option String
get_text key [] = none
get_text key ((k, text v) ∷ rest) = if str_eq k key then some v else get_text key rest
get_text key ((k, opaque v) ∷ rest) = if str_eq k key then none else get_text key rest

-- `fmt.Sprintf("%d", n)`, `strconv.ParseInt(s, 10, 64)`, `t.Unix()` and `time.Unix(n, 0)`.
pub record Codec : Type 0 where
  pub format : ℤ → String
  pub parse_int : String → ℤ × Option Error
  pub unix : Time → ℤ
  pub from_unix : ℤ → Time

-- ParseInt64 of internal/pkg/utils/helper.go drops the error.
abbrev pub parse_int64 : Codec → String → ℤ
parse_int64 c s = (c.parse_int s).0

-- NewFanoutTask
unfoldable pub new_fanout_task : ℤ → ℤ → Time → String → FanoutTask
new_fanout_task tweet_id author_id created_at action = record {
  tweet_id = tweet_id;
  author_id = author_id;
  msg_id = "";
  created_at = created_at;
  action = action;
}

-- ToMap
unfoldable pub to_map : Codec → FanoutTask → Values
to_map c t =
    ("tweet_id", text (c.format t.tweet_id))
    ∷ ("author_id", text (c.format t.author_id))
    ∷ ("at", text (c.format (c.unix t.created_at)))
    ∷ ("action", text t.action)
    ∷ []

abbrev pub missing_fields : Error
missing_fields = foreign 4

abbrev pub bad_ids : Error
bad_ids = foreign 5

-- The task that the parsed fields give.
abbrev pub read_numbers : Codec → ℤ → ℤ → ℤ → String → Result FanoutTask
read_numbers c tweet_id author_id at action =
    if is_nonpos tweet_id || is_nonpos author_id
    then err bad_ids
    else ok (record {
      tweet_id = tweet_id;
      author_id = author_id;
      msg_id = "";
      created_at = c.from_unix at;
      action = action;
    })

abbrev pub read_fields : Codec → String → String → String → String → Result FanoutTask
read_fields c tweet_id author_id at action =
    read_numbers c (parse_int64 c tweet_id) (parse_int64 c author_id) (parse_int64 c at) action

abbrev pub from_texts :
    Codec → Option String → Option String → Option String → Option String → Result FanoutTask
from_texts c (some tweet_id) (some author_id) (some at) (some action) =
    read_fields c tweet_id author_id at action
from_texts c _ _ _ _ = err missing_fields

-- FromMap on a new task; the code leaves `MsgID` as it is.
unfoldable pub from_map : Codec → String → Values → Result FanoutTask
unfolding get_text
from_map c msg_id values =
    if str_eq msg_id ""
    then err (foreign 6)
    else from_texts c (get_text "tweet_id" values) (get_text "author_id" values)
        (get_text "at" values) (get_text "action" values)

-- What the code relies on: reading a printed number of 64 bits gives the number.
pub record IsFaithful (c : Codec) : Type 0 where
  pub parse-format : (n : ℤ) → IsInt64 n → c.parse_int (c.format n) ≡ (n, none)

-- The numbers of a task, which Go holds in 64 bits.
abbrev pub Fits : Codec → ℤ → ℤ → Time → Type 0
Fits c tweet_id author_id created_at =
    IsInt64 tweet_id × IsInt64 author_id × IsInt64 (c.unix created_at)

read_fields-format :
    (c : Codec) (tweet_id author_id at : ℤ) (action : String)
    → IsFaithful c
    → IsInt64 tweet_id × IsInt64 author_id × IsInt64 at
    → read_fields c (c.format tweet_id) (c.format author_id) (c.format at) action
      ≡ read_numbers c tweet_id author_id at action
read_fields-format c tweet_id author_id at action h (p, q, r) = λ i.
    read_numbers c (h.parse-format tweet_id p i).0 (h.parse-format author_id q i).0
      (h.parse-format at r i).0 action

-- A task with IDs above 0 comes out of the queue as it went in, its time cut to whole seconds,
-- under every message ID that is not empty, where Go reads a printed int64 back.
pub from_map-to_map :
    (c : Codec) (msg_id : String) (tweet_id author_id : ℤ) (created_at : Time) (action : String)
    → IsFaithful c
    → Fits c tweet_id author_id created_at
    → msg_id ≢ ""
    → is_nonpos tweet_id ≡ false
    → is_nonpos author_id ≡ false
    → from_map c msg_id (to_map c (new_fanout_task tweet_id author_id created_at action))
      ≡ ok (new_fanout_task tweet_id author_id (c.from_unix (c.unix created_at)) action)
unfolding from_map to_map new_fanout_task
from_map-to_map c msg_id tweet_id author_id created_at action h fits named t a =
    rw (str_eq_ne msg_id "" named)
      (read_fields-format c tweet_id author_id (c.unix created_at) action h fits ∙ rw (t, a))

-- A task whose tweet ID is not above 0 is refused on arrival, where Go reads a printed int64 back.
pub from_map-to_map_refused :
    (c : Codec) (msg_id : String) (tweet_id author_id : ℤ) (created_at : Time) (action : String)
    → IsFaithful c
    → Fits c tweet_id author_id created_at
    → msg_id ≢ ""
    → is_nonpos tweet_id ≡ true
    → from_map c msg_id (to_map c (new_fanout_task tweet_id author_id created_at action))
      ≡ err bad_ids
unfolding from_map to_map new_fanout_task
from_map-to_map_refused c msg_id tweet_id author_id created_at action h fits named t =
    rw (str_eq_ne msg_id "" named)
      (read_fields-format c tweet_id author_id (c.unix created_at) action h fits ∙ rw t)
