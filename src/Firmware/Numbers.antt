-- ===== src/Firmware/Numbers.antt =====
-- The numbers that a reader sends, over scans and power cycles, and the server's replay window.
use mathlib.Core.Path.{subst}
use access_security_system_e.Common.{
  ℕ, ◌+◌, ◌%◌, ◌<◌, ◌≡◌, refl, ap, sym, Bool, true, false, ◌&&◌, Option, none, some, List, [], ◌∷◌,
  length, arith,
}
use access_security_system_e.Protocol.Codec.{u64_mod}
use access_security_system_e.Protocol.ReplayWindow.{ReplayWindow, new_window, remember, accept}
use access_security_system_e.Protocol.ReplayWindow.Invariant.{
  IsWindow, new_window-IsWindow, remember-IsWindow,
}
use access_security_system_e.Protocol.ReplayWindow.InOrder.{
  Rising, accept_above, max_seen-remember_above,
}
use access_security_system_e.Firmware.{
  Board, Settings, Reader, count_request, post_uid_to_server, setup,
}

-- The reader with a card at a time, as `loop` calls postUidToServer.
abbrev pub with_card : Reader → List ℕ → ℕ → Reader
with_card s uid now = record s { last_uid = uid; last_send_ms = now }

-- The life of a reader, from one state to another, with the numbers of the requests that it posts:
-- power cycles, scans that post, and scans without a network.
pub data Life (board : Board) (cfg : Settings) : Reader → List ℕ → Reader → Type 0 where
  ends : {s : Reader} → Life board cfg s [] s
  power_on : {s t : Reader} {ns : List ℕ} → Life board cfg (setup s) ns t → Life board cfg s ns t
  posts :
      {s t : Reader} {ns : List ℕ} (http_post : List ℕ → Option (List ℕ) → ℕ × List ℕ)
      (uid : List ℕ) (now : ℕ)
      → Life board cfg
          (post_uid_to_server board cfg true http_post (with_card s uid now) uid).0
          ns
          t
      → Life board cfg s
          ((post_uid_to_server board cfg true http_post (with_card s uid now) uid).0.hw_seq ∷ ns)
          t
  fails :
      {s t : Reader} {ns : List ℕ} (http_post : List ℕ → Option (List ℕ) → ℕ × List ℕ)
      (uid : List ℕ) (now : ℕ)
      → Life board cfg
          (post_uid_to_server board cfg false http_post (with_card s uid now) uid).0
          ns
          t
      → Life board cfg s ns t

-- The number that `prefs` has kept, as setup reads it, is the current one.
abbrev pub IsKept : Reader → Type 0
IsKept s = elim (s.kept_seq) [ none ↦ 0 | some n ↦ n ] ≡ s.hw_seq

posted :
    (board : Board) (cfg : Settings) (http_post : List ℕ → Option (List ℕ) → ℕ × List ℕ)
    (s : Reader) (uid : List ℕ)
    → (post_uid_to_server board cfg true http_post s uid).0 ≡ count_request s
unfolding post_uid_to_server
posted board cfg http_post s uid = ground arith

Rising-Life :
    (board : Board) (cfg : Settings) (s t : Reader) (ns : List ℕ)
    → Life board cfg s ns t
    → IsKept s
    → s.hw_seq + length ns < u64_mod
    → Rising s.hw_seq ns
unfolding setup count_request post_uid_to_server
Rising-Life board cfg s t ns ends k h = tt
Rising-Life board cfg s t ns (power_on l) k h =
    subst (λ n. Rising n ns) k (Rising-Life board cfg (setup s) t ns l refl (omega (arith, k)))
Rising-Life board cfg s t ns (fails http_post uid now l) k h = Rising-Life board cfg _ t ns l k h
Rising-Life board cfg s t ns (posts {ns = more} http_post uid now l) k h =
    let next : Reader = (post_uid_to_server board cfg true http_post (with_card s uid now) uid).0 in
    let same : next ≡ count_request (with_card s uid now) =
      posted board cfg http_post (with_card s uid now) uid in
    let number : next.hw_seq ≡ (s.hw_seq + 1) % u64_mod = ap (λ r. r.hw_seq) same in
    let kept : IsKept next = subst IsKept (sym same) refl in
    (omega (arith, number, h), Rising-Life board cfg next t more l kept (omega (arith, number, h)))

-- A window that accepts each of the numbers in turn.
unfoldable pub accepts_all : ReplayWindow → List ℕ → Bool
unfolding accept
accepts_all w [] = true
accepts_all w (n ∷ ns) = (accept w n).1 && accepts_all (accept w n).0 ns

accepts_all-Rising :
    (w : ReplayWindow) (ns : List ℕ) → IsWindow w → Rising w.max_seen ns → accepts_all w ns ≡ true
unfolding accepts_all
accepts_all-Rising w [] v r = refl
accepts_all-Rising w (n ∷ ns) v r =
    rw (accepts_all, accept_above w n v r.0)
      (accepts_all-Rising (remember w n) ns (remember-IsWindow w n v)
        (subst (λ (k : ℕ). Rising k ns) (sym (max_seen-remember_above w n v r.0)) r.1))

Rising-from : (m : ℕ) (ns : List ℕ) → Rising m ns → Rising 0 ns
Rising-from m [] r = tt
Rising-from m (n ∷ ns) r = (omega (arith, r.0), r.1)

-- No request of a reader is lost to the replay check: over any number of scans, with and without a
-- network, and power cycles, a window of any size that starts empty accepts each number that the
-- reader posts, from a reader whose kept number is its current one, for fewer than 2^64 requests.
pub numbers_accepted :
    (board : Board) (cfg : Settings) (s t : Reader) (ns : List ℕ) (size : ℕ)
    → Life board cfg s ns t
    → IsKept s
    → s.hw_seq + length ns < u64_mod
    → accepts_all (new_window size) ns ≡ true
unfolding new_window
numbers_accepted board cfg s t ns size l k h =
    accepts_all-Rising (new_window size) ns (new_window-IsWindow size)
      (Rising-from s.hw_seq ns (Rising-Life board cfg s t ns l k h))
