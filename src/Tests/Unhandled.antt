-- ===== src/Tests/Unhandled.antt =====
-- A stream of one message, which the worker cannot handle.
use aita.Common.{
  ℤ, pos, String, str_eq, str_eq_ne, Bool, true, false, List, [], ◌∷◌, ◌≡◌, ◌≢◌, refl, sym, ◌∙◌,
  subst,
}
use aita.Errcode.{foreign}
use aita.Exec.{Result, ok, err, Exec}
use aita.Dto.TimeLine.{to_map, from_map, get_text, new_fanout_task, action_create}
use aita.Pkg.MessageQueue.{Streams, RedisMq, as_consumer}
use aita.Worker.{Message, TimeLineHelper, initial, handle_task, process_create, start}
use aita.Worker.Pending.{IsGroup, IsApart, start_forgets}
use aita.Tests.Messages.{codec}

-- What the group knows of the message.
data Entry : Type 0 where
  waiting : Entry
  delivered : Entry
  settled : Entry

abbrev message : Message
message = record {
  id = "1-0";
  values = to_map codec (new_fanout_task (pos 3) (pos 7) 5 action_create);
}

abbrev give : Entry → Result (List (List Message)) × Entry
give waiting = (ok ((message ∷ []) ∷ []), delivered)
give delivered = (err (foreign 100), delivered)
give settled = (err (foreign 100), settled)

abbrev settle_if : Bool → Entry → Entry
settle_if true e = settled
settle_if false e = e

abbrev streams : Streams Entry
streams = record {
  text_of = λ e. "";
  x_group_create_mk_stream = λ stream group id e. (ok tt, e);
  x_add = λ stream max values e. (ok tt, e);
  x_read_group = λ group consumer stream id count wait e. give e;
  x_ack = λ stream group id e. (ok tt, settle_if (str_eq id "1-0") e);
}

abbrev mq : RedisMq
mq = record { stream = "tweets"; group = "fanout"; consumer = "api" }

abbrev Pending : Entry → String → Type 0
Pending waiting id = ⊥
Pending delivered id = id ≡ "1-0"
Pending settled id = ⊥

abbrev followers : ℤ → Exec Entry (List ℤ)
followers author e = (err (foreign 2), e)

abbrev timelines : TimeLineHelper Entry
timelines = record { fanout = λ id ids at e. (ok tt, e); forward = λ id ids e. (ok tt, e) }

abbrev submit : Exec Entry Unit
submit e = (ok tt, e)

-- What a reply has made pending.
abbrev Given : Result (List (List Message)) × Entry → Type 0
Given (ok ((m ∷ ms) ∷ entries), e) = Pending e m.id
Given (_, e) = Unit

given : (e : Entry) → Given (give e)
given waiting = refl
given delivered = tt
given settled = tt

new :
    (id : String) (e e' : Entry) (m : Message) (ms : List Message) (entries : List (List Message))
    → give e ≡ (ok ((m ∷ ms) ∷ entries), e')
    → Pending e id
    → m.id ≢ id
new id waiting e' m ms entries got held same = absurd held
new id delivered e' m ms entries got held same = cc
new id settled e' m ms entries got held same = absurd held

kept : (id : String) (e : Entry) → Pending e id → Pending (give e).1 id
kept id waiting held = absurd held
kept id delivered held = held
kept id settled held = absurd held

spared :
    (id other : String) (e : Entry)
    → other ≢ id
    → Pending e id
    → Pending (settle_if (str_eq other "1-0") e) id
spared id other waiting differs held = absurd held
spared id other delivered differs held =
    rw (str_eq_ne other "1-0" (λ e. differs (e ∙ sym held))) held
spared id other settled differs held = absurd held

law : IsGroup Pending streams mq
law = record {
  gives = λ e e' m ms entries got. subst Given got (given e);
  fresh = new;
  reads = λ id. record { at = kept id };
  acks = λ id other differs. record { at = λ e. spared id other e differs };
}

apart : IsApart Pending followers timelines submit
apart = record {
  follows = λ id author. record { at = λ e h. h };
  fans = λ id tweet ids at. record { at = λ e h. h };
  forwards = λ id tweet ids. record { at = λ e h. h };
  submits = λ id. record { at = λ e h. h };
}

fails :
    handle_task codec
      (as_consumer streams mq)
      followers
      timelines
      submit
      message.id
      message.values
      delivered
    ≡ (err (foreign 2), delivered)
unfolding handle_task process_create from_map to_map new_fanout_task get_text
fails = refl

start_forgets_example :
    Pending
      (start codec
        (as_consumer streams mq)
        followers
        timelines
        submit
        ((10, 11) ∷ (20, 21) ∷ (30, 31) ∷ [])
        initial
        waiting).1
      "1-0"
start_forgets_example =
    start_forgets Pending streams mq law codec followers timelines submit apart
      ((20, 21) ∷ (30, 31) ∷ []) 10 11 initial message (foreign 2) waiting delivered delivered refl
      refl fails
