-- ===== src/Protocol/ReplayWindow/InOrder.antt =====
-- Numbers that arrive in increasing order are each accepted once and never again.
use access_security_system_e.Common.{
  ℕ, ◌+◌, ◌≤◌, ◌<◌, ◌≡◌, refl, ◌∙◌, true, false, ◌||◌, List, [], ◌∷◌, ◌++◌, arith, length,
  length-append, ltb, ◌==◌, Bool-cases, inl, inr, lt→ltb,
}
use access_security_system_e.Common.Sets.{mem, mem-insert, mem-erase}
use access_security_system_e.Protocol.ReplayWindow.{
  ReplayWindow, new_window, is_too_old, contains, evict_oldest_if_full, drop_front, push_seq,
  remember, accept, accept_all,
}
use access_security_system_e.Protocol.ReplayWindow.Invariant.{
  IsWindow, new_window-IsWindow, max_seen-evict, remember-IsWindow,
}

-- Each number of the queue is as far below the highest seen as there are numbers behind it.
abbrev Spread : List ℕ → ℕ → Type 0
Spread [] m = Unit
Spread (x ∷ xs) m = (x + length xs ≤ m) × Spread xs m

record IsInOrder (w : ReplayWindow) : Type 0 where
  pub window_ok : IsWindow w
  pub spread : Spread w.order w.max_seen

Spread-append_one : (s m : ℕ) (l : List ℕ) → m < s → Spread l m → Spread (l ++ s ∷ []) s
Spread-append_one s m [] h p = (omega arith, tt)
Spread-append_one s m (x ∷ l) h p =
    (omega (arith, length-append l (s ∷ [])), Spread-append_one s m l h p.1)

-- A number above all others is new.
pub above_is_new : (w : ReplayWindow) (s : ℕ) → IsWindow w → w.max_seen < s → contains w s ≡ false
unfolding contains is_too_old
above_is_new w s v h = ground (arith, v.same s, v.below s)

pub remember_above :
    (w : ReplayWindow) (s : ℕ)
    → IsWindow w
    → w.max_seen < s
    → remember w s ≡ evict_oldest_if_full (push_seq w s)
unfolding remember
remember_above w s v h = rw (above_is_new w s v h)

-- What is old stays old when the highest number grows.
still_too_old :
    (w v : ReplayWindow) (x : ℕ)
    → v.window ≡ w.window
    → w.max_seen ≤ v.max_seen
    → is_too_old w x ≡ true
    → is_too_old v x ≡ true
unfolding is_too_old
still_too_old w v x e h o = ground arith

Spread-drop_front :
    (w : ReplayWindow) (l : List ℕ)
    → w.order ≡ l
    → Spread l w.max_seen
    → Spread (drop_front w l).order (drop_front w l).max_seen
unfolding drop_front
Spread-drop_front w [] e p = rw e p
Spread-drop_front w (f ∷ rest) e p = p.1

Spread-evict :
    (w : ReplayWindow)
    → Spread w.order w.max_seen
    → Spread (evict_oldest_if_full w).order (evict_oldest_if_full w).max_seen
unfolding evict_oldest_if_full
Spread-evict w p = elim (Bool-cases (ltb w.window (length w.order))) [
  | inl full ↦ rw full (Spread-drop_front w w.order refl p)
  | inr room ↦ rw room p
]

Spread-push_seq :
    (w : ReplayWindow) (s : ℕ)
    → w.max_seen < s
    → Spread w.order w.max_seen
    → Spread (push_seq w s).order (push_seq w s).max_seen
unfolding push_seq
Spread-push_seq w s h p = rw (lt→ltb w.max_seen s h) (Spread-append_one s w.max_seen w.order h p)

remember_above-IsInOrder :
    (w : ReplayWindow) (s : ℕ) → IsInOrder w → w.max_seen < s → IsInOrder (remember w s)
remember_above-IsInOrder w s v h = record {
  window_ok = remember-IsWindow w s v.window_ok;
  spread =
      rw (remember_above w s v.window_ok h)
        (Spread-evict (push_seq w s) (Spread-push_seq w s h v.spread));
}

-- The number that is evicted is too old by then.
evicted_is_too_old :
    (w : ReplayWindow) (l : List ℕ) (x : ℕ)
    → w.order ≡ l
    → 0 < w.max_seen
    → w.window + 1 ≡ length l
    → Spread l w.max_seen
    → contains w x ≡ true
    → contains (drop_front w l) x ≡ true
unfolding contains is_too_old drop_front
evicted_is_too_old w [] x e pos full p h = absurd (omega arith)
evicted_is_too_old w (f ∷ rest) x e pos full p h = ground (arith, mem-erase x f w.seen)

contains-evict :
    (w : ReplayWindow) (x : ℕ)
    → 0 < w.max_seen
    → length w.order ≤ w.window + 1
    → Spread w.order w.max_seen
    → contains w x ≡ true
    → contains (evict_oldest_if_full w) x ≡ true
unfolding evict_oldest_if_full
contains-evict w x pos b p h = elim (Bool-cases (ltb w.window (length w.order))) [
  | inl full ↦ rw full (evicted_is_too_old w w.order x refl pos (ground arith) p h)
  | inr room ↦ rw room h
]

contains-push_seq :
    (w : ReplayWindow) (s x : ℕ)
    → w.max_seen < s
    → (x == s || contains w x) ≡ true
    → contains (push_seq w s) x ≡ true
unfolding contains is_too_old push_seq
contains-push_seq w s x h q = ground (arith, mem-insert x s w.seen)

length-push_seq : (w : ReplayWindow) (s : ℕ) → length (push_seq w s).order ≡ length w.order + 1
unfolding push_seq
length-push_seq w s = omega (arith, length-append w.order (s ∷ []))

window-push_seq : (w : ReplayWindow) (s : ℕ) → (push_seq w s).window ≡ w.window
unfolding push_seq
window-push_seq w s = refl

max_seen-push_seq : (w : ReplayWindow) (s : ℕ) → w.max_seen < s → (push_seq w s).max_seen ≡ s
unfolding push_seq
max_seen-push_seq w s h = rw (lt→ltb w.max_seen s h)

-- Remembering a number above all others keeps every number that was known, and the new one.
contains-remember_above :
    (w : ReplayWindow) (s x : ℕ)
    → IsInOrder w
    → w.max_seen < s
    → (x == s || contains w x) ≡ true
    → contains (remember w s) x ≡ true
contains-remember_above w s x v h q =
    let b = v.window_ok.bounded in
    let top = max_seen-push_seq w s h in
    rw (remember_above w s v.window_ok h) (
      contains-evict (push_seq w s) x (omega arith)
        (omega (arith, length-push_seq w s, window-push_seq w s)) (Spread-push_seq w s h v.spread)
        (contains-push_seq w s x h q))

pub accept_above :
    (w : ReplayWindow) (s : ℕ) → IsWindow w → w.max_seen < s → accept w s ≡ (remember w s, true)
unfolding accept
accept_above w s v h = rw (above_is_new w s v h)

pub max_seen-remember_above :
    (w : ReplayWindow) (s : ℕ) → IsWindow w → w.max_seen < s → (remember w s).max_seen ≡ s
max_seen-remember_above w s v h =
    rw (remember_above w s v h) (max_seen-evict (push_seq w s) ∙ max_seen-push_seq w s h)

-- The numbers rise strictly, from above `m`.
abbrev pub Rising : ℕ → List ℕ → Type 0
Rising m [] = Unit
Rising m (x ∷ xs) = (m < x) × Rising x xs

accept_all-Rising :
    (w : ReplayWindow) (xs : List ℕ) (x : ℕ)
    → IsInOrder w
    → Rising w.max_seen xs
    → (contains w x || mem x xs) ≡ true
    → contains (accept_all w xs) x ≡ true
unfolding accept_all mem
accept_all-Rising w [] x v r q = ground arith
accept_all-Rising w (s ∷ xs) x v r q =
    let next = contains-remember_above w s x v r.0 in
    rw (accept_above w s v.window_ok r.0) (
      accept_all-Rising (remember w s) xs x (remember_above-IsInOrder w s v r.0)
        (rw (max_seen-remember_above w s v.window_ok r.0) r.1) (ground (arith, next)))

new_window-IsInOrder : (n : ℕ) → IsInOrder (new_window n)
unfolding new_window
new_window-IsInOrder n = record {
  window_ok = unfold new_window in new_window-IsWindow n;
  spread = tt;
}

-- After a window of any size has been given strictly rising sequence numbers, a repetition of any
-- of them is refused.
pub accept-Rising_once :
    (n : ℕ) (xs : List ℕ) (x : ℕ)
    → Rising 0 xs
    → mem x xs ≡ true
    → (accept (accept_all (new_window n) xs) x).1 ≡ false
unfolding accept
accept-Rising_once n xs x r h = rw (
    accept_all-Rising (new_window n) xs x (new_window-IsInOrder n) (unfold new_window in r)
      (ground arith))
