-- ===== src/Examples/EventRuns.antt =====
-- The event bus at small inputs.
use access_security_system_e.Common.{◌+◌, ◌≡◌, refl, arith, false, [], ◌∷◌, take}
use access_security_system_e.EventBus.{Event, EventBus, new_bus, push, push_all, get_after}
use access_security_system_e.EventBus.Numbering.{IsBus, new_bus-IsBus, push-IsBus}
use access_security_system_e.EventBus.Polling.{
  newer, numbered_from, get_after-push_all, get_after_zero,
}

abbrev tick : Event
tick = record {
  id = 0;
  ts_unix_ms = 7;
  kind = "frame";
  message = [];
  reader_id = 1;
  door_id = 2;
  seq = 3;
  allow = false;
  reason = "";
}

push-IsBus_example :
    IsBus (push (new_bus 2) tick).0 × ((push (new_bus 2) tick).1 ≡ (new_bus 2).last_id + 1)
unfolding new_bus
push-IsBus_example = push-IsBus (new_bus 2) tick (new_bus-IsBus 2 (omega arith)) (omega arith)

abbrev full : EventBus
full = record {
  max = 2;
  events = record tick { id = 4 } ∷ record tick { id = 5 } ∷ [];
  last_id = 5;
}

get_after-push_all_example :
    get_after (push_all full (tick ∷ tick ∷ [])) full.last_id 10
    ≡ take 10 (numbered_from (full.last_id + 1) (tick ∷ tick ∷ []))
get_after-push_all_example =
    get_after-push_all full (tick ∷ tick ∷ []) 10
      (record { room = omega arith; bounded = omega arith; numbered = (refl, (refl, tt)) })
      (omega arith) (omega arith) (omega arith)

get_after_zero_example : get_after full 3 0 ≡ take 1 (newer 3 full.events)
get_after_zero_example = get_after_zero full 3
