-- ===== src/Handler/Outcomes.antt =====
-- The outcomes of `FrameHandler::handle` on a parsed frame, and the replay windows that each leaves.
use mathlib.Core.Path.{subst}
use access_security_system_e.Common.{
  ℕ, String, ◌≡◌, refl, ap, ◌∙◌, sym, true, false, not, ◌&&◌, Option, none, some, inl, inr, arith,
  ◌==◌, if◌then◌else◌, Bool-cases,
}
use access_security_system_e.Common.Maps.{update, lookup-update}
use access_security_system_e.Protocol.Frame.{Frame}
use access_security_system_e.Protocol.ReplayWindow.{ReplayWindow, contains, remember}
use access_security_system_e.Crypto.{Sodium}
use access_security_system_e.KeyManager.{KeyManager}
use access_security_system_e.Handler.{
  AccessStore, FrameHandlerConfig, HandleResult, Windows, validate_reader, validate_key_version,
  key_version_ok, reader_window, get_or_create_window, remember_seq, try_decrypt, handle_parsed,
  make_error,
}
use access_security_system_e.Handler.Checks.{
  with_window, window_of, checks_passed, replayed, validate_reader_ok,
}

reader_window-update :
    (c : FrameHandlerConfig) (ws : Windows) (k r : ℕ) (w : ReplayWindow)
    → reader_window c (update k w ws) r ≡ (if k == r then w else reader_window c ws r)
unfolding reader_window
reader_window-update c ws k r w = elim (Bool-cases (k == r)) [
  | inl e ↦ rw (reader_window, lookup-update r k w ws, e) refl
  | inr e ↦ rw (reader_window, lookup-update r k w ws, e) refl
]

reader_window-create :
    (c : FrameHandlerConfig) (ws : Windows) (k r : ℕ)
    → reader_window c (get_or_create_window c ws k) r ≡ reader_window c ws r
unfolding get_or_create_window
reader_window-create c ws k r = ground (arith, reader_window-update c ws k r (reader_window c ws k))

module _ (lib : Sodium) (m : KeyManager) (c : FrameHandlerConfig) where
  reader_window-with :
      (ws : Windows) (f : Frame) (r : ℕ)
      → reader_window c (with_window lib m c ws f) r ≡ reader_window c ws r
  unfolding with_window
  reader_window-with ws f r = ground (arith, reader_window-create c ws f.header.reader_id r)

  try_decrypt_refused :
      (now : ℕ) (window : Option ReplayWindow) (ws : Windows) (f : Frame)
      → (try_decrypt lib m c now window ws f).0.allow ≡ false
      → (try_decrypt lib m c now window ws f).1 ≡ ws
  unfolding try_decrypt
  try_decrypt_refused now window ws f h = ground arith

  -- The outcomes of a call on a parsed frame: a refusal before the replay check, a replay, or what
  -- the decryption yields.
  handle_parsed_elim :
      (P : HandleResult × Windows → Type 0) (store : AccessStore) (now : ℕ) (ws : Windows)
      (f : Frame)
      → ((reason : String) → P (make_error reason f.header, ws))
      → P (make_error "replay" f.header, get_or_create_window c ws f.header.reader_id)
      → P (try_decrypt lib m c now (window_of lib m c ws f) (with_window lib m c ws f) f)
      → P (handle_parsed lib m c (some store) now ws f)
  unfolding handle_parsed validate_reader validate_key_version
  handle_parsed_elim P store now ws f early late last =
      let current = store.current_key_version_for_reader f.header.reader_id in
      elim (Bool-cases (current == 0)) [
        | inl e ↦ rw (handle_parsed, validate_reader, e) (early _)
        | inr known ↦
            elim (Bool-cases (
              c.enforce_reader_door_binding
              && not (store.is_reader_allowed_door f.header.reader_id f.header.door_id))) [
                | inl e ↦ rw (handle_parsed, validate_reader, known, e) (early _)
                | inr bound ↦ elim (Bool-cases (key_version_ok c current f.header.key_version)) [
                  | inr e ↦
                      rw
                        (
                          handle_parsed,
                          validate_key_version,
                          validate_reader_ok lib m c store f known bound,
                          e,
                        )
                        (early _)
                  | inl version ↦
                      elim (Bool-cases (
                        c.anti_replay_enabled
                        && contains (reader_window c ws f.header.reader_id) f.header.seq)) [
                          | inl e ↦
                              subst P (sym (replayed lib m c store now ws f known bound version e))
                                late
                          | inr fresh ↦
                              subst P
                                (sym
                                  (checks_passed lib m c store now ws f known bound version fresh))
                                last
                        ]
                ]
              ]
      ]

  pub refused :
      (store : AccessStore) (now : ℕ) (ws : Windows) (f : Frame) (r : ℕ)
      → (handle_parsed lib m c (some store) now ws f).0.allow ≡ false
      → reader_window c (handle_parsed lib m c (some store) now ws f).1 r ≡ reader_window c ws r
  refused store now ws f r =
      handle_parsed_elim
        (λ out. out.0.allow ≡ false → reader_window c out.1 r ≡ reader_window c ws r) store now ws f
        (λ reason h. refl) (λ h. reader_window-create c ws f.header.reader_id r)
        (λ h.
          ap (λ v. reader_window c v r)
            (try_decrypt_refused now (window_of lib m c ws f) (with_window lib m c ws f) f h)
          ∙ reader_window-with ws f r)

  -- What an accepted frame leaves in the window of `r`.
  pub remembered_in :
      (ws : Windows) (f : Frame) (r : ℕ)
      → c.anti_replay_enabled ≡ true
      → reader_window c
          (remember_seq lib m c (window_of lib m c ws f) f (with_window lib m c ws f))
          r
        ≡ (if f.header.reader_id == r
            then remember (reader_window c ws f.header.reader_id) f.header.seq
            else reader_window c ws r)
  unfolding window_of remember_seq
  remembered_in ws f r on =
      let rid = f.header.reader_id in
      let w = remember (reader_window c ws rid) f.header.seq in
      let there : window_of lib m c ws f ≡ some (reader_window c ws rid) =
        ap (λ b. if b then some (reader_window c ws rid) else none) on in
      ap (λ o. reader_window c (remember_seq lib m c o f (with_window lib m c ws f)) r) there
      ∙ (reader_window-update c (with_window lib m c ws f) rid r w
          ∙ ap (λ v. if rid == r then w else v) (reader_window-with ws f r))
