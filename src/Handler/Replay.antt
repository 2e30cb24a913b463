-- ===== src/Handler/Replay.antt =====
-- A frame that was accepted is not accepted again.
use mathlib.Core.Path.{subst}
use access_security_system_e.Common.{
  ℕ, ◌<◌, ◌≡◌, refl, ap, sym, ◌∙◌, Bool, true, false, ◌&&◌, some, List, [], ◌∷◌, arith, Bool-cases,
  inl, inr, ==_refl,
}
use access_security_system_e.Common.Sets.{mem}
use access_security_system_e.Common.Maps.{lookup}
use access_security_system_e.Protocol.Frame.{Frame}
use access_security_system_e.Protocol.Parser.{ok, parse_frame}
use access_security_system_e.Protocol.Parser.Steps.{ok-inj}
use access_security_system_e.Protocol.ReplayWindow.{
  ReplayWindow, new_window, contains, accept, accept_all,
}
use access_security_system_e.Protocol.ReplayWindow.Invariant.{
  IsWindow, new_window-IsWindow, accept_all-IsWindow, window-remember,
}
use access_security_system_e.Protocol.ReplayWindow.InOrder.{Rising, accept-Rising_once}
use access_security_system_e.Protocol.ReplayWindow.Forgotten.{remembered}
use access_security_system_e.Crypto.{Sodium}
use access_security_system_e.KeyManager.{KeyManager}
use access_security_system_e.Handler.{
  AccessStore, FrameHandlerConfig, Windows, window_size, reader_window, handle, make_error,
}
use access_security_system_e.Handler.Accepted.{IsAccepted, handle-allow_iff, handle_accepts}
use access_security_system_e.Handler.Checks.{replayed}
use access_security_system_e.Handler.History.{
  Call, run, counted, accepted_seq, seqs_of, handle-ok, reader_window-run,
}

window-accept_all : (w : ReplayWindow) (xs : List ℕ) → (accept_all w xs).window ≡ w.window
unfolding accept_all accept
window-accept_all w [] = refl
window-accept_all w (x ∷ xs) =
    ground (arith, window-remember w x, window-accept_all (accept w x).0 xs)

window_size_pos : (c : FrameHandlerConfig) → 0 < window_size c
unfolding window_size
window_size_pos c = ground arith

accept-contains : (w : ReplayWindow) (s : ℕ) → (accept w s).1 ≡ false → contains w s ≡ true
unfolding accept
accept-contains w s h = ground arith

both : (a b : Bool) → a ≡ true → b ≡ true → (a && b) ≡ true
both a b h k = ground arith

not_both : (a b : Bool) → a ≡ true → b ≡ true → (a && b) ≡ false → ⊥
not_both a b h k e = ground arith

accept-known :
    (w : ReplayWindow) (s : ℕ) → IsWindow w → 0 < w.window → contains (accept w s).0 s ≡ true
unfolding accept
accept-known w s v h = elim (Bool-cases (contains w s)) [
  | inl old ↦ rw (accept, old) old
  | inr new ↦ rw (accept, new) (remembered w s v h)
]

module _ (lib : Sodium) (m : KeyManager) (c : FrameHandlerConfig) where
  first_window : (r : ℕ) → reader_window c [] r ≡ new_window (window_size c)
  unfolding reader_window lookup
  first_window r = refl

  after_run :
      (store : AccessStore) (calls : List Call) (r : ℕ)
      → c.anti_replay_enabled ≡ true
      → reader_window c (run lib m c store [] calls) r
        ≡ accept_all (new_window (window_size c)) (seqs_of lib m c store [] calls r)
  after_run store calls r on =
      reader_window-run lib m c store [] calls r on
      ∙ ap (λ w. accept_all w (seqs_of lib m c store [] calls r)) (first_window r)

  window_after_run :
      (store : AccessStore) (calls : List Call) (r : ℕ)
      → c.anti_replay_enabled ≡ true
      → let w = reader_window c (run lib m c store [] calls) r in IsWindow w × (0 < w.window)
  window_after_run store calls r on =
      let xs = seqs_of lib m c store [] calls r in
      let w = new_window (window_size c) in
      subst (λ v. IsWindow v × (0 < v.window)) (sym (after_run store calls r on))
        (
          accept_all-IsWindow w xs (new_window-IsWindow (window_size c)),
          (let k : w.window ≡ window_size c = unfold new_window in refl in
              omega (arith, window-accept_all w xs, window_size_pos c, k)),
        )

  IsAccepted-frame :
      (store : AccessStore) (now : ℕ) (ws : Windows) (bytes : List ℕ) (f : Frame)
      → parse_frame bytes c.max_ct_len ≡ ok f
      → (handle lib m c (some store) now ws bytes).0.allow ≡ true
      → (plaintext : List ℕ) × IsAccepted lib m c store now ws f plaintext
  IsAccepted-frame store now ws bytes f p allowed =
      let (g, plaintext, q, a) = (handle-allow_iff lib m c store now ws bytes).0 allowed in
      (plaintext, subst (λ x. IsAccepted lib m c store now ws x plaintext) (ok-inj (sym q ∙ p)) a)

  -- An accepted call puts its number into its reader's window.
  accepted_seq_lem :
      (store : AccessStore) (now : ℕ) (ws : Windows) (bytes : List ℕ) (f : Frame)
      → parse_frame bytes c.max_ct_len ≡ ok f
      → (handle lib m c (some store) now ws bytes).0.allow ≡ true
      → accepted_seq lib m c store ws (record { now = now; bytes = bytes }) f.header.reader_id
        ≡ f.header.seq ∷ []
  unfolding accepted_seq counted
  accepted_seq_lem store now ws bytes f p allowed =
      let (plaintext, a) = IsAccepted-frame store now ws bytes f p allowed in
      rw (handle_accepts lib m c store now ws bytes f plaintext p a, ==_refl f.header.reader_id)
        refl

  -- A parsed frame whose number its window contains is not accepted.
  known_number :
      (store : AccessStore) (now : ℕ) (ws : Windows) (bytes : List ℕ) (f : Frame)
      → c.anti_replay_enabled ≡ true
      → parse_frame bytes c.max_ct_len ≡ ok f
      → contains (reader_window c ws f.header.reader_id) f.header.seq ≡ true
      → (handle lib m c (some store) now ws bytes).0.allow ≡ false
  known_number store now ws bytes f on p h =
      elim (Bool-cases (handle lib m c (some store) now ws bytes).0.allow) [
        | inr refusal ↦ refusal
        | inl allowed ↦
            let (g, plaintext, q, a) = (handle-allow_iff lib m c store now ws bytes).0 allowed in
            let same : f ≡ g = ok-inj (sym p ∙ q) in
            absurd (
              not_both _ _ on
                (subst (λ x. contains (reader_window c ws x.header.reader_id) x.header.seq ≡ true)
                  same h)
                a.fresh)
      ]

  -- With the replay check on, in a history that began with no windows: if a reader's accepted
  -- frames had rising numbers, a frame of that reader with one of those numbers is refused,
  -- however many frames came between.
  pub handle-Rising_once :
      (store : AccessStore) (calls : List Call) (now : ℕ) (bytes : List ℕ) (f : Frame)
      → c.anti_replay_enabled ≡ true
      → parse_frame bytes c.max_ct_len ≡ ok f
      → Rising 0 (seqs_of lib m c store [] calls f.header.reader_id)
      → mem f.header.seq (seqs_of lib m c store [] calls f.header.reader_id) ≡ true
      → (handle lib m c (some store) now (run lib m c store [] calls) bytes).0.allow ≡ false
  handle-Rising_once store calls now bytes f on p rising known =
      known_number store now (run lib m c store [] calls) bytes f on p (
        subst (λ w. contains w f.header.seq ≡ true)
          (sym (after_run store calls f.header.reader_id on))
          (accept-contains _ _ (
            accept-Rising_once (window_size c) (seqs_of lib m c store [] calls f.header.reader_id)
              f.header.seq rising known)))

  -- With the replay check on, in a history that began with no windows: right after a frame was
  -- accepted, and after any further calls that put no number into its reader's window, the same
  -- buffer is refused with the reason "replay".
  pub handle_again :
      (store : AccessStore) (before between : List Call) (now later : ℕ) (bytes : List ℕ)
      (f : Frame)
      → let ws = run lib m c store [] before in
        let next = handle lib m c (some store) now ws bytes in
        c.anti_replay_enabled ≡ true
        → parse_frame bytes c.max_ct_len ≡ ok f
        → next.0.allow ≡ true
        → seqs_of lib m c store next.1 between f.header.reader_id ≡ []
        → (handle lib m c (some store) later (run lib m c store next.1 between) bytes).0
          ≡ make_error "replay" f.header
  handle_again store before between now later bytes f on p allowed quiet =
      let ws = run lib m c store [] before in
      let next = handle lib m c (some store) now ws bytes in
      let call : Call = record { now = now; bytes = bytes } in
      let r = f.header.reader_id in
      let (plaintext, a) = IsAccepted-frame store now ws bytes f p allowed in
      let (v, pos) = window_after_run store before r on in
      let numbers : seqs_of lib m c store ws (call ∷ between) r ≡ f.header.seq ∷ [] =
        unfold seqs_of in rw (accepted_seq_lem store now ws bytes f p allowed, quiet) refl in
      let window : reader_window c (run lib m c store next.1 between) r
          ≡ (accept (reader_window c ws r) f.header.seq).0 =
        unfold run accept_all in
        (reader_window-run lib m c store ws (call ∷ between) r on
          ∙ ap (accept_all (reader_window c ws r)) numbers) in
      let known : contains (reader_window c (run lib m c store next.1 between) r) f.header.seq
          ≡ true =
        subst (λ w. contains w f.header.seq ≡ true) (sym window)
          (accept-known (reader_window c ws r) f.header.seq v pos) in
      ap (λ out. out.0)
        (handle-ok lib m c store later (run lib m c store next.1 between) bytes f p
          ∙ replayed lib m c store later (run lib m c store next.1 between) f a.reader_known
              a.door_bound a.version_ok (both _ _ on known))
