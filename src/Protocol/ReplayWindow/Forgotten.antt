-- ===== src/Protocol/ReplayWindow/Forgotten.antt =====
-- The queue evicts by arrival and not by number, so a window can forget a number that is not old.
use access_security_system_e.Common.{
  ℕ, ◌+◌, ◌≤◌, ◌<◌, ◌≡◌, refl, ap, true, false, List, [], ◌∷◌, ◌++◌, arith, length, length-append,
  ltb, if◌then◌else◌, Bool-cases, inl, inr, le→ltb, lt→ltb,
}
use access_security_system_e.Common.Sets.{mem, insert, erase, mem-insert, mem-erase}
use access_security_system_e.Protocol.ReplayWindow.{
  ReplayWindow, is_too_old, contains, evict_oldest_if_full, drop_front, push_seq, remember, accept,
}
use access_security_system_e.Protocol.ReplayWindow.Invariant.{IsWindow}
use access_security_system_e.Protocol.ReplayWindow.InOrder.{remember_above, accept_above}

-- A full window makes room for a new number.
after_full :
    (w : ReplayWindow) (s f : ℕ) (rest : List ℕ)
    → w.order ≡ f ∷ rest
    → w.window < length w.order + 1
    → evict_oldest_if_full (push_seq w s) ≡ record w {
      max_seen = if ltb w.max_seen s then s else w.max_seen;
      seen = erase f (insert s w.seen);
      order = rest ++ s ∷ [];
    }
unfolding evict_oldest_if_full push_seq drop_front
after_full w s f rest e h =
    let order : w.order ++ s ∷ [] ≡ f ∷ (rest ++ s ∷ []) = ap (λ (l : List ℕ). l ++ s ∷ []) e in
    rw (
      lt→ltb w.window (length (w.order ++ s ∷ [])) (omega (arith, length-append w.order (s ∷ []))),
      order,
      drop_front,
    )

after_room :
    (w : ReplayWindow) (s : ℕ)
    → length w.order + 1 ≤ w.window
    → evict_oldest_if_full (push_seq w s) ≡ push_seq w s
unfolding evict_oldest_if_full push_seq
after_room w s h =
    rw
      (le→ltb w.window (length (w.order ++ s ∷ [])) (omega (arith, length-append w.order (s ∷ []))))

known_after :
    (w : ReplayWindow) (s : ℕ) (l : List ℕ)
    → w.order ≡ l
    → IsWindow w
    → 0 < w.window
    → mem s w.seen ≡ false
    → mem s (evict_oldest_if_full (push_seq w s)).seen ≡ true
unfolding push_seq mem
known_after w s [] e v h new =
    rw (after_room w s (ground arith)) (ground (arith, mem-insert s s w.seen))
known_after w s (f ∷ rest) e v h new = elim (Bool-cases (ltb w.window (length w.order + 1))) [
  | inl full ↦
      rw (after_full w s f rest e (ground arith))
        (ground (arith, mem-erase s f (insert s w.seen), mem-insert s s w.seen, v.same s))
  | inr room ↦ rw (after_room w s (ground arith)) (ground (arith, mem-insert s s w.seen))
]

pub remembered :
    (w : ReplayWindow) (s : ℕ) → IsWindow w → 0 < w.window → contains (remember w s) s ≡ true
unfolding remember
remembered w s v h = elim (Bool-cases (contains w s)) [
  | inl old ↦ rw old old
  | inr new ↦ rw new (
      unfold contains in
      ground (arith, known_after w s w.order refl v h (unfold contains in ground arith)))
]

-- In a well-formed window of positive size, a repetition right after the acceptance is refused,
-- whatever the order of arrival was.
pub accept_twice :
    (w : ReplayWindow) (s : ℕ) → IsWindow w → 0 < w.window → (accept (accept w s).0 s).1 ≡ false
unfolding accept
accept_twice w s v h = elim (Bool-cases (contains w s)) [
  | inl old ↦ rw (old, old)
  | inr new ↦ rw (new, remembered w s v h)
]

-- A full window whose oldest arrival `x` lies within `window` of the next number: the next number
-- evicts `x`, and a frame that repeats `x` is accepted a second time.
pub accept_forgets :
    (w : ReplayWindow) (x : ℕ) (rest : List ℕ)
    → IsWindow w
    → w.order ≡ x ∷ rest
    → length w.order ≡ w.window
    → w.max_seen + 1 < x + w.window
    → ((accept w x).1 ≡ false) × ((accept (accept w (w.max_seen + 1)).0 x).1 ≡ true)
unfolding accept contains
accept_forgets w x rest v e full near =
    let top : ℕ = w.max_seen + 1 in
    let front : mem x w.order ≡ true = unfold mem in ground arith in
    (
      ground (arith, v.same x),
      rw
          (
            accept_above w top v (omega arith),
            remember_above w top v (omega arith),
            after_full w top x rest e (omega arith),
          )
          (unfold is_too_old in ground (arith, mem-erase x x (insert top w.seen))),
    )
