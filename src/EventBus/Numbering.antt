-- ===== src/EventBus/Numbering.antt =====
-- The events on the bus are numbered without a gap up to the last number given, and never exceed
-- the capacity.
use access_security_system_e.Common.{
  ℕ, ◌+◌, ◌%◌, ◌≤◌, ◌<◌, ◌≡◌, refl, inl, inr, Bool-cases, List, [], ◌∷◌, ◌++◌, arith, length, drop,
  leb, length-append,
}
use access_security_system_e.Protocol.Codec.{u64_mod}
use access_security_system_e.EventBus.{Event, EventBus, new_bus, make_room, push}
use native.Mathlib.Nat.{mod-eq_of_lt}

abbrev pub Numbered : ℕ → List Event → Type 0
Numbered last [] = Unit
Numbered last (e ∷ es) = (e.id + length es ≡ last) × Numbered last es

pub record IsBus (b : EventBus) : Type 0 where
  pub room : 0 < b.max
  pub bounded : length b.events ≤ b.max
  pub numbered : Numbered b.last_id b.events

pub new_bus-IsBus : (n : ℕ) → 0 < n → IsBus (new_bus n)
unfolding new_bus
new_bus-IsBus n h = record { room = h; bounded = omega arith; numbered = tt }

Numbered-append_one :
    (last id : ℕ) (es : List Event) (e : Event)
    → id ≡ last + 1
    → e.id ≡ id
    → Numbered last es
    → Numbered id (es ++ e ∷ [])
Numbered-append_one last id [] e h k n = (omega arith, tt)
Numbered-append_one last id (x ∷ es) e h k n =
    (omega (arith, length-append es (e ∷ [])), Numbered-append_one last id es e h k n.1)

Numbered-drop : (last : ℕ) (es : List Event) → Numbered last es → Numbered last (drop 1 es)
Numbered-drop last [] n = tt
Numbered-drop last (e ∷ es) n = n.1

length-drop_one : (es : List Event) → 0 < length es → length (drop 1 es) + 1 ≡ length es
length-drop_one [] h = absurd (omega arith)
length-drop_one (e ∷ es) h = omega arith

make_room_lem :
    (b : EventBus) → IsBus b → (length (make_room b) + 1 ≤ b.max) × Numbered b.last_id (make_room b)
unfolding make_room
make_room_lem b v = elim (Bool-cases (leb b.max (length b.events))) [
  | inl full ↦
      let l : b.max ≤ length b.events = ground arith in
      rw full (
        omega (arith, length-drop_one b.events (omega (arith, v.room)), v.bounded),
        Numbered-drop b.last_id b.events v.numbered,
      )
  | inr free ↦ rw free (ground arith, v.numbered)
]

pub last_id-push :
    (b : EventBus) (e : Event) → b.last_id + 1 < u64_mod → (push b e).0.last_id ≡ b.last_id + 1
unfolding push
last_id-push b e h = mod-eq_of_lt h

-- `push` keeps the bus within its capacity and its events numbered without a gap, and returns the
-- number after the last one, while the 64-bit counter does not overflow.
pub push-IsBus :
    (b : EventBus) (e : Event)
    → IsBus b
    → b.last_id + 1 < u64_mod
    → IsBus (push b e).0 × ((push b e).1 ≡ b.last_id + 1)
unfolding push
push-IsBus b e v h =
    let id : (b.last_id + 1) % u64_mod ≡ b.last_id + 1 = mod-eq_of_lt h in
    let (fits, numbered) = make_room_lem b v in
    (
      record {
        room = v.room;
        bounded =
            omega (
              arith,
              length-append (make_room b) (record e { id = (b.last_id + 1) % u64_mod } ∷ []),
            );
        numbered =
            Numbered-append_one b.last_id ((b.last_id + 1) % u64_mod) (make_room b)
              (record e { id = (b.last_id + 1) % u64_mod }) id refl numbered;
      },
      id,
    )
