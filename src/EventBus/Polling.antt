-- ===== src/EventBus/Polling.antt =====
-- A client that polls with the last number it has seen.
use access_security_system_e.Common.{
  ℕ, ◌+◌, ◌%◌, ◌≤◌, ◌<◌, ◌≡◌, refl, ap, sym, ◌∙◌, inl, inr, Bool-cases, List, [], ◌∷◌, ◌++◌, arith,
  length, take, drop, ltb, leb, if◌then◌else◌, length-append, append_assoc, append-nil, lt→ltb,
  le→ltb, take_all, take_prefix, ltb→lt,
}
use native.Mathlib.Nat.{mod-eq_of_lt}
use access_security_system_e.Protocol.Codec.{u64_mod}
use access_security_system_e.EventBus.{
  Event, EventBus, make_room, push, push_all, get_after, get_after_loop,
}
use access_security_system_e.EventBus.Numbering.{IsBus, Numbered, push-IsBus, last_id-push}

-- The events with a number above `after_id`.
unfoldable pub newer : ℕ → List Event → List Event
newer after_id [] = []
newer after_id (e ∷ es) =
    let rest = newer after_id es in if ltb after_id e.id then e ∷ rest else rest

get_after_loop-newer :
    (after_id limit : ℕ) (out es : List Event)
    → length out < limit
    → get_after_loop after_id limit out es ≡ take limit (out ++ newer after_id es)
unfolding get_after_loop newer
get_after_loop-newer after_id limit out [] h = rw (append-nil out, take_all limit out (omega arith))
get_after_loop-newer after_id limit out (e ∷ es) h = elim (Bool-cases (ltb after_id e.id)) [
  | inr old ↦ rw old (get_after_loop-newer after_id limit out es h)
  | inl new ↦ elim (Bool-cases (leb limit (length (out ++ e ∷ [])))) [
    | inl full ↦
        rw (new, full)
          (sym (
            ap (take limit) (sym (append_assoc out (e ∷ []) (newer after_id es)))
            ∙ take_prefix limit (out ++ e ∷ []) (newer after_id es)
                (ground (arith, length-append out (e ∷ [])))))
    | inr room ↦
        rw (new, room)
          (get_after_loop-newer after_id limit (out ++ e ∷ []) es (ground arith)
            ∙ ap (take limit) (append_assoc out (e ∷ []) (newer after_id es)))
  ]
]

-- With a positive limit, `get_after` returns the first `limit` events that have a higher number,
-- in order.
pub get_after-newer :
    (b : EventBus) (after_id limit : ℕ)
    → 0 < limit
    → get_after b after_id limit ≡ take limit (newer after_id b.events)
unfolding get_after
get_after-newer b after_id limit h = get_after_loop-newer after_id limit [] b.events h

get_after_loop_zero :
    (after_id : ℕ) (es : List Event) → get_after_loop after_id 0 [] es ≡ take 1 (newer after_id es)
unfolding get_after_loop newer
get_after_loop_zero after_id [] = refl
get_after_loop_zero after_id (e ∷ es) = elim (Bool-cases (ltb after_id e.id)) [
  | inl new ↦ rw new
  | inr old ↦ rw old (get_after_loop_zero after_id es)
]

newer-append :
    (after_id : ℕ) (xs ys : List Event)
    → newer after_id (xs ++ ys) ≡ newer after_id xs ++ newer after_id ys
unfolding newer
newer-append after_id [] ys = refl
newer-append after_id (x ∷ xs) ys = ground (arith, newer-append after_id xs ys)

-- Where the first event is newer, all are.
newer_all :
    (after_id last : ℕ) (x : Event) (xs : List Event)
    → Numbered last (x ∷ xs)
    → after_id < x.id
    → newer after_id (x ∷ xs) ≡ x ∷ xs
unfolding newer
newer_all after_id last x [] n h = rw (lt→ltb after_id x.id h)
newer_all after_id last x (y ∷ ys) n h =
    rw (lt→ltb after_id x.id h) (ap (◌∷◌ x) (newer_all after_id last y ys n.1 (omega arith)))

newer-drop_one :
    (after_id last : ℕ) (es : List Event)
    → Numbered last es
    → length (newer after_id es) < length es
    → newer after_id (drop 1 es) ≡ newer after_id es
unfolding newer
newer-drop_one after_id last [] n h = refl
newer-drop_one after_id last (x ∷ xs) n h = elim (Bool-cases (ltb after_id x.id)) [
  | inl new ↦
      absurd
        (omega (arith, ap length (newer_all after_id last x xs n (ltb→lt after_id x.id new)), h))
  | inr old ↦ rw old
]

newer-make_room :
    (b : EventBus) (after_id : ℕ)
    → IsBus b
    → length (newer after_id b.events) < b.max
    → newer after_id (make_room b) ≡ newer after_id b.events
unfolding make_room
newer-make_room b after_id v h = elim (Bool-cases (leb b.max (length b.events))) [
  | inl full ↦ rw full (newer-drop_one after_id b.last_id b.events v.numbered (ground arith))
  | inr free ↦ rw free
]

newer-push :
    (b : EventBus) (e : Event) (after_id : ℕ)
    → IsBus b
    → b.last_id + 1 < u64_mod
    → after_id ≤ b.last_id
    → length (newer after_id b.events) < b.max
    → newer after_id (push b e).0.events
      ≡ newer after_id b.events ++ record e { id = b.last_id + 1 } ∷ []
unfolding push newer
newer-push b e after_id v small a h =
    let id : (b.last_id + 1) % u64_mod ≡ b.last_id + 1 = mod-eq_of_lt small in
    rw (
      newer-append after_id (make_room b) (record e { id = (b.last_id + 1) % u64_mod } ∷ []),
      newer-make_room b after_id v h,
      id,
      lt→ltb after_id (b.last_id + 1) (omega arith),
    )

-- The events as the bus numbers them.
unfoldable pub numbered_from : ℕ → List Event → List Event
numbered_from n [] = []
numbered_from n (e ∷ es) = record e { id = n } ∷ numbered_from (n + 1) es

max-push : (b : EventBus) (e : Event) → (push b e).0.max ≡ b.max
unfolding push
max-push b e = refl

newer-push_all :
    (es : List Event) (b : EventBus) (after_id : ℕ)
    → IsBus b
    → b.last_id + length es < u64_mod
    → after_id ≤ b.last_id
    → length (newer after_id b.events) + length es ≤ b.max
    → newer after_id (push_all b es).events
      ≡ newer after_id b.events ++ numbered_from (b.last_id + 1) es
unfolding push_all numbered_from
newer-push_all [] b after_id v small a h = sym (append-nil (newer after_id b.events))
newer-push_all (e ∷ es) b after_id v small a h =
    let id = last_id-push b e (omega arith) in
    let head = newer-push b e after_id v (omega arith) a (omega arith) in
    newer-push_all es (push b e).0 after_id (push-IsBus b e v (omega arith)).0 (omega arith)
      (omega arith)
      (omega (
        arith,
        ap length head,
        max-push b e,
        length-append (newer after_id b.events) (record e { id = b.last_id + 1 } ∷ []),
      ))
    ∙ rw (head, id)
        (append_assoc (newer after_id b.events) (record e { id = b.last_id + 1 } ∷ [])
          (numbered_from (b.last_id + 1 + 1) es))

nothing_newer : (last : ℕ) (es : List Event) → Numbered last es → newer last es ≡ []
unfolding newer
nothing_newer last [] n = refl
nothing_newer last (e ∷ es) n =
    rw (le→ltb last e.id (omega (arith, n.0))) (nothing_newer last es n.1)

-- A client that has seen everything misses nothing: after at most `max` more events, a poll with the last number that it saw returns exactly those events, numbered on from it, as far as the limit goes.
pub get_after-push_all :
    (b : EventBus) (es : List Event) (limit : ℕ)
    → IsBus b
    → b.last_id + length es < u64_mod
    → length es ≤ b.max
    → 0 < limit
    → get_after (push_all b es) b.last_id limit ≡ take limit (numbered_from (b.last_id + 1) es)
get_after-push_all b es limit v small fits l =
    let none_new = nothing_newer b.last_id b.events v.numbered in
    get_after-newer (push_all b es) b.last_id limit l
    ∙ ap (take limit) (
        newer-push_all es b b.last_id v small (omega arith) (omega (arith, ap length none_new))
        ∙ ap (λ (l : List Event). l ++ numbered_from (b.last_id + 1) es) none_new)

-- A limit of 0 is not kept: where there is a newer event, one is returned.
pub get_after_zero :
    (b : EventBus) (after_id : ℕ) → get_after b after_id 0 ≡ take 1 (newer after_id b.events)
unfolding get_after
get_after_zero b after_id = get_after_loop_zero after_id b.events
