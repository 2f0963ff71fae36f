-- ===== src/Tests/Messages.antt =====
-- The queue and its worker, with numbers that are written in strokes: an even number of them for a
-- number from 0 on, an odd one for a number below.
use Prim.Native.String.{String.◌∷◌, String.[]}
use aita.Common.{
  ℕ, zero, suc, ◌+◌, ℤ, pos, negsuc, pos_part, String, str_eq-false, ◌≡◌, ◌≢◌, refl, ap, none, some,
  List, [], ◌∷◌, arith,
}
use aita.Errcode.{foreign}
use aita.Exec.{ok, err, Exec}
use aita.Dto.TimeLine.{
  Codec, IsFaithful, get_text, new_fanout_task, to_map, from_map, action_create, from_map-to_map,
}
use aita.Worker.{
  MqConsumer, TimeLineHelper, Message, breaker_pause, recovered, handle_task, process_create, start,
}
use aita.Worker.Breaker.{AlwaysFails, start_trips}
use aita.Worker.Tasks.{handle_task-create}

abbrev strokes : ℕ → String
strokes zero = ""
strokes (suc n) = String.◌∷◌ "|" (String.◌∷◌ "|" (strokes n))

abbrev written : ℤ → String
written (pos n) = strokes n
written (negsuc n) = String.◌∷◌ "|" (strokes n)

-- 0, -1, 1, -2, 2, …
abbrev after : ℤ → ℤ
after (pos n) = negsuc n
after (negsuc n) = pos (suc n)

abbrev read : String → ℤ
read String.[] = pos 0
read (String.◌∷◌ c s) = after (read s)

read-strokes : (n : ℕ) → read (strokes n) ≡ pos n
read-strokes zero = refl
read-strokes (suc n) = ap (λ z. after (after z)) (read-strokes n)

read-written : (z : ℤ) → read (written z) ≡ z
read-written (pos n) = read-strokes n
read-written (negsuc n) = ap after (read-strokes n)

abbrev pub codec : Codec
codec = record {
  format = written;
  parse_int = λ s. (read s, none);
  unix = λ t. pos t;
  from_unix = pos_part;
}

pub faithful : IsFaithful codec
faithful = record { parse-format = λ n fits i. (read-written n i, none) }

named : ◌≢◌ {A = String} "1-0" ""
named = str_eq-false "1-0" "" refl

from_map-to_map_example :
    from_map codec "1-0" (to_map codec (new_fanout_task (pos 3) (pos 7) 5 action_create))
    ≡ ok (new_fanout_task (pos 3) (pos 7) 5 action_create)
from_map-to_map_example =
    from_map-to_map codec "1-0" (pos 3) (pos 7) 5 action_create faithful
      (omega arith, omega arith, omega arith) named refl refl

-- What the followers were told of.
abbrev Told : Type 0
Told = List ℤ

abbrev message : Message
message = record {
  id = "1-0";
  values = to_map codec (new_fanout_task (pos 3) (pos 7) 5 action_create);
}

abbrev queue : MqConsumer Told
queue = record { dequeue = λ s. (ok (some message), s); ack = λ id s. (ok tt, s) }

abbrev followers : ℤ → Exec Told (List ℤ)
followers author s = (ok (pos 8 ∷ pos 9 ∷ []), s)

abbrev unreachable : ℤ → Exec Told (List ℤ)
unreachable author s = (err (foreign 2), s)

abbrev timelines : TimeLineHelper Told
timelines = record {
  fanout = λ id ids at s. (ok tt, id ∷ s);
  forward = λ id ids s. (ok tt, id ∷ s);
}

abbrev submit : Exec Told Unit
submit s = (ok tt, s)

handle_task-create_example :
    handle_task codec queue followers timelines submit "1-0"
      (to_map codec (new_fanout_task (pos 3) (pos 7) 5 action_create))
      []
    ≡ recovered (timelines.fanout (pos 3) (pos 8 ∷ pos 9 ∷ []) 5) []
handle_task-create_example =
    handle_task-create codec queue followers timelines submit "1-0" (pos 3) (pos 7) 5 [] [] []
      (pos 8) (pos 9 ∷ []) faithful (omega arith, omega arith, omega arith) named refl refl refl
      refl

always : AlwaysFails codec queue unreachable timelines submit
unfolding handle_task
always = record {
  message = λ s. message;
  cause = λ s. foreign 2;
  taken = λ s. s;
  handled = λ s. s;
  delivers = λ s. refl;
  fails = λ s. unfold process_create from_map to_map new_fanout_task get_text in refl;
}

start_trips_example :
    (start codec queue unreachable timelines submit
      ((10, 11) ∷ (20, 21) ∷ (30, 31) ∷ [])
      (record { fail_count = 17; breaker_until = 10 })
      []).0
    ≡ ok (record { fail_count = 0; breaker_until = 31 + breaker_pause })
start_trips_example =
    start_trips codec queue unreachable timelines submit always ((10, 11) ∷ (20, 21) ∷ []) 30 31
      (record { fail_count = 17; breaker_until = 10 }) [] (omega arith)
      (omega arith, (omega arith, tt)) (omega arith)
