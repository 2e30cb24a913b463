-- ===== src/Protocol/ReplayWindow/Invariant.antt =====
-- The set and the queue of a replay window hold the same numbers, and no more than `window`.
use mathlib.Core.Path.{subst}
use access_security_system_e.Common.{
  ℕ, ◌+◌, ◌≤◌, ◌<◌, ◌≡◌, refl, sym, ◌∙◌, true, false, List, [], ◌∷◌, ◌++◌, arith, length,
  length-append, ltb, Bool-cases, inl, inr,
}
use access_security_system_e.Common.Sets.{mem, mem-insert, mem-erase, mem-append, mem_one}
use access_security_system_e.Protocol.ReplayWindow.{
  ReplayWindow, new_window, contains, evict_oldest_if_full, drop_front, push_seq, remember, accept,
  accept_all,
}

abbrev pub Distinct : List ℕ → Type 0
Distinct [] = Unit
Distinct (x ∷ xs) = (mem x xs ≡ false) × Distinct xs

pub record IsWindowUpTo (n : ℕ) (w : ReplayWindow) : Type 0 where
  pub same : (x : ℕ) → mem x w.seen ≡ mem x w.order
  pub distinct : Distinct w.order
  pub bounded : length w.order ≤ n
  pub below : (x : ℕ) → mem x w.order ≡ true → x ≤ w.max_seen

abbrev pub IsWindow : ReplayWindow → Type 0
IsWindow w = IsWindowUpTo w.window w

pub new_window-IsWindow : (n : ℕ) → IsWindow (new_window n)
unfolding new_window mem
new_window-IsWindow n = record {
  same = λ x. refl;
  distinct = tt;
  bounded = omega arith;
  below = λ x e. absurd (cc);
}

Distinct-append_one : (s : ℕ) (l : List ℕ) → mem s l ≡ false → Distinct l → Distinct (l ++ s ∷ [])
unfolding mem
Distinct-append_one s [] h d = (refl, tt)
Distinct-append_one s (x ∷ l) h d = (
  ground (arith, mem-append x l (s ∷ []), mem_one x s),
  Distinct-append_one s l (ground arith) d.1,
)

push_seq-IsWindow :
    (n : ℕ) (w : ReplayWindow) (s : ℕ)
    → mem s w.seen ≡ false
    → IsWindowUpTo n w
    → IsWindowUpTo (n + 1) (push_seq w s)
unfolding push_seq
push_seq-IsWindow n w s h v = record {
  same = λ x.
      ground (arith, mem-insert x s w.seen, mem-append x w.order (s ∷ []), mem_one x s, v.same x);
  distinct = Distinct-append_one s w.order (sym (v.same s) ∙ h) v.distinct;
  bounded = omega (arith, length-append w.order (s ∷ []), v.bounded);
  below = λ x. ground (arith, mem-append x w.order (s ∷ []), mem_one x s, v.below x);
}

drop_front-IsWindow :
    (n : ℕ) (w : ReplayWindow) (f : ℕ) (rest : List ℕ)
    → w.order ≡ f ∷ rest
    → IsWindowUpTo (n + 1) w
    → IsWindowUpTo n (drop_front w (f ∷ rest))
unfolding drop_front mem
drop_front-IsWindow n w f rest e v =
    let d : Distinct (f ∷ rest) = rw e at v.distinct in
    record {
      same = λ x. ground (arith, mem-erase x f w.seen, v.same x, d.0);
      distinct = d.1;
      bounded = ground (arith, v.bounded);
      below = λ x. ground (arith, v.below x);
    }

evict_list :
    (n : ℕ) (w : ReplayWindow) (l : List ℕ)
    → w.order ≡ l
    → n < length l
    → IsWindowUpTo (n + 1) w
    → IsWindowUpTo n (drop_front w l)
evict_list n w [] e h v = absurd (omega arith)
evict_list n w (f ∷ rest) e h v = drop_front-IsWindow n w f rest e v

evict-IsWindow :
    (w : ReplayWindow)
    → IsWindowUpTo (w.window + 1) w
    → IsWindowUpTo w.window (evict_oldest_if_full w)
unfolding evict_oldest_if_full
evict-IsWindow w v = elim (Bool-cases (ltb w.window (length w.order))) [
  | inl full ↦ rw full (evict_list w.window w w.order refl (ground arith) v)
  | inr room ↦
      rw room
        (record { same = v.same; distinct = v.distinct; bounded = ground arith; below = v.below })
]

not_seen : (w : ReplayWindow) (s : ℕ) → contains w s ≡ false → mem s w.seen ≡ false
unfolding contains
not_seen w s h = ground arith

window-drop_front : (w : ReplayWindow) (l : List ℕ) → (drop_front w l).window ≡ w.window
unfolding drop_front
window-drop_front w [] = refl
window-drop_front w (f ∷ rest) = refl

max_seen-drop_front : (w : ReplayWindow) (l : List ℕ) → (drop_front w l).max_seen ≡ w.max_seen
unfolding drop_front
max_seen-drop_front w [] = refl
max_seen-drop_front w (f ∷ rest) = refl

window-evict : (w : ReplayWindow) → (evict_oldest_if_full w).window ≡ w.window
unfolding evict_oldest_if_full
window-evict w = ground (arith, window-drop_front w w.order)

pub max_seen-evict : (w : ReplayWindow) → (evict_oldest_if_full w).max_seen ≡ w.max_seen
unfolding evict_oldest_if_full
max_seen-evict w = ground (arith, max_seen-drop_front w w.order)

pub window-remember : (w : ReplayWindow) (s : ℕ) → (remember w s).window ≡ w.window
unfolding remember push_seq
window-remember w s = ground (arith, window-evict (push_seq w s))

-- `evict_oldest_if_full` after `push_seq` keeps the window well-formed.
new_number :
    (w : ReplayWindow) (s : ℕ)
    → contains w s ≡ false
    → IsWindow w
    → IsWindow (evict_oldest_if_full (push_seq w s))
new_number w s h v =
    subst (λ n. IsWindowUpTo n (evict_oldest_if_full (push_seq w s)))
      (sym (window-evict (push_seq w s)))
      (evict-IsWindow (push_seq w s)
        (unfold push_seq in push_seq-IsWindow w.window w s (not_seen w s h) v))

-- Remembering a number keeps the window well-formed: the set holds what the queue holds, the queue
-- repeats no number, holds at most `window` numbers and none above the highest seen.
pub remember-IsWindow : (w : ReplayWindow) (s : ℕ) → IsWindow w → IsWindow (remember w s)
unfolding remember
remember-IsWindow w s v = elim (Bool-cases (contains w s)) [
  | inl old ↦ rw old v
  | inr new ↦ rw new (new_number w s new v)
]

pub accept-IsWindow : (w : ReplayWindow) (s : ℕ) → IsWindow w → IsWindow (accept w s).0
unfolding accept
accept-IsWindow w s v = elim (Bool-cases (contains w s)) [
  | inl old ↦ rw old v
  | inr new ↦ rw new (remember-IsWindow w s v)
]

-- After any history of `accept` calls on a well-formed window it is well-formed: its set and its
-- queue hold the same numbers, none twice, none above the highest seen, and no more than its size.
pub accept_all-IsWindow : (w : ReplayWindow) (xs : List ℕ) → IsWindow w → IsWindow (accept_all w xs)
unfolding accept_all
accept_all-IsWindow w [] v = v
accept_all-IsWindow w (s ∷ xs) v = accept_all-IsWindow (accept w s).0 xs (accept-IsWindow w s v)
