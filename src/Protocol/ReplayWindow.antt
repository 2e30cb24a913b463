-- ===== src/Protocol/ReplayWindow.antt =====
-- protocol_lib/src/replay_window.cpp: the sequence numbers that a reader has used. `seen` is the
-- std::unordered_set, `order` the std::deque, its front first.
pub mod Invariant
pub mod InOrder
pub mod Forgotten
use access_security_system_e.Common.{
  ℕ, ◌+◌, ◌-◌, ◌≡◌, refl, Bool, true, false, ◌||◌, List, [], ◌∷◌, ◌++◌, arith, length, ltb, leb,
  ◌==◌, if◌then◌else◌,
}
use access_security_system_e.Common.Sets.{mem, insert, erase}

pub record ReplayWindow : Type 0 where
  pub window : ℕ
  pub max_seen : ℕ
  pub seen : List ℕ
  pub order : List ℕ

unfoldable pub new_window : ℕ → ReplayWindow
new_window window = record { window = window; max_seen = 0; seen = []; order = [] }

unfoldable pub is_too_old : ReplayWindow → ℕ → Bool
is_too_old w seq =
    if w.max_seen == 0
    then false
    else if ltb w.max_seen w.window
    then false
    else leb seq (w.max_seen - w.window)

unfoldable pub is_already_seen : ReplayWindow → ℕ → Bool
is_already_seen w seq = mem seq w.seen

unfoldable pub contains : ReplayWindow → ℕ → Bool
contains w seq = is_too_old w seq || mem seq w.seen

drop_front : ReplayWindow → List ℕ → ReplayWindow
drop_front w [] = w
drop_front w (front ∷ rest) = record w { seen = erase front w.seen; order = rest }

unfoldable pub evict_oldest_if_full : ReplayWindow → ReplayWindow
unfolding drop_front
evict_oldest_if_full w = if ltb w.window (length w.order) then drop_front w w.order else w

unfoldable pub push_seq : ReplayWindow → ℕ → ReplayWindow
push_seq w seq = record w {
  max_seen = if ltb w.max_seen seq then seq else w.max_seen;
  seen = insert seq w.seen;
  order = w.order ++ seq ∷ [];
}

unfoldable pub remember : ReplayWindow → ℕ → ReplayWindow
remember w seq = if contains w seq then w else evict_oldest_if_full (push_seq w seq)

unfoldable pub accept : ReplayWindow → ℕ → ReplayWindow × Bool
accept w seq = if contains w seq then (w, false) else (remember w seq, true)

-- A history of calls of `accept`.
unfoldable pub accept_all : ReplayWindow → List ℕ → ReplayWindow
accept_all w [] = w
accept_all w (seq ∷ rest) = accept_all (accept w seq).0 rest
