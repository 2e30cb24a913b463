-- ===== src/EventBus.antt =====
-- runtime_events: event_bus.hpp and event_bus.cpp. The mutex serialises the methods, so each is a
-- step from one state to the next. With a capacity of 0 the first `push` would take the front of an
-- empty deque, which C++ leaves undefined: the laws ask for a positive capacity.
pub mod Numbering
pub mod Polling
use access_security_system_e.Common.{
  ℕ, zero, suc, ◌+◌, ◌%◌, ◌≡◌, refl, Bool, List, [], ◌∷◌, ◌++◌, String, length, drop, ltb, leb,
  if◌then◌else◌,
}
use access_security_system_e.Protocol.Codec.{u64_mod}

pub record Event : Type 0 where
  pub id : ℕ
  pub ts_unix_ms : ℕ
  pub kind : String
  pub message : List ℕ
  pub reader_id : ℕ
  pub door_id : ℕ
  pub seq : ℕ
  pub allow : Bool
  pub reason : String

pub record EventBus : Type 0 where
  pub max : ℕ
  pub events : List Event
  pub last_id : ℕ

unfoldable pub new_bus : ℕ → EventBus
new_bus max_events = record { max = max_events; events = []; last_id = 0 }

-- `_events` after the eviction that makes room for one more.
unfoldable pub make_room : EventBus → List Event
make_room b = if leb b.max (length b.events) then drop 1 b.events else b.events

unfoldable pub push : EventBus → Event → EventBus × ℕ
unfolding make_room
push b e =
    let id = (b.last_id + 1) % u64_mod in
    (record b { events = make_room b ++ record e { id = id } ∷ []; last_id = id }, id)

-- The loop of getAfter, with what it has put out.
get_after_loop : ℕ → ℕ → List Event → List Event → List Event
get_after_loop after_id limit out [] = out
get_after_loop after_id limit out (e ∷ es) =
    let out' = out ++ e ∷ [] in
    let more = get_after_loop after_id limit out' es in
    let skip = get_after_loop after_id limit out es in
    if ltb after_id e.id then (if leb limit (length out') then out' else more) else skip

unfoldable pub get_after : EventBus → ℕ → ℕ → List Event
unfolding get_after_loop
get_after b after_id limit = get_after_loop after_id limit [] b.events

unfoldable pub push_all : EventBus → List Event → EventBus
push_all b [] = b
push_all b (e ∷ es) = push_all (push b e).0 es
