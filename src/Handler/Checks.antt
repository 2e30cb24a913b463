-- ===== src/Handler/Checks.antt =====
-- The checks of `FrameHandler::handle` before a frame is decrypted, where they let it pass, and
-- where its number has been seen.
use access_security_system_e.Common.{
  ℕ, ◌≡◌, refl, ap, true, false, not, ◌&&◌, Option, none, some, inl, inr, arith, ◌==◌,
  if◌then◌else◌, Bool-cases,
}
use access_security_system_e.Protocol.Frame.{Frame}
use access_security_system_e.Protocol.ReplayWindow.{ReplayWindow, contains}
use access_security_system_e.Crypto.{Sodium}
use access_security_system_e.KeyManager.{KeyManager}
use access_security_system_e.Handler.{
  AccessStore, FrameHandlerConfig, Windows, validate_reader, key_version_ok, validate_key_version,
  reader_window, get_or_create_window, check_replay, try_decrypt, handle_parsed, make_error,
}

module _ (lib : Sodium) (m : KeyManager) (c : FrameHandlerConfig) where
  -- The windows after the replay check: the reader's window exists.
  unfoldable pub with_window : Windows → Frame → Windows
  unfolding get_or_create_window
  with_window ws f =
      if c.anti_replay_enabled then get_or_create_window c ws f.header.reader_id else ws

  unfoldable pub window_of : Windows → Frame → Option ReplayWindow
  window_of ws f =
      if c.anti_replay_enabled then some (reader_window c ws f.header.reader_id) else none

  pub validate_reader_ok :
      (store : AccessStore) (f : Frame)
      → (store.current_key_version_for_reader f.header.reader_id == 0) ≡ false
      → (c.enforce_reader_door_binding
          && not (store.is_reader_allowed_door f.header.reader_id f.header.door_id))
        ≡ false
      → validate_reader (some store) c f
        ≡ inr (store.current_key_version_for_reader f.header.reader_id)
  unfolding validate_reader
  validate_reader_ok store f h b = rw (h, b) refl

  validate_key_version_ok :
      (current : ℕ) (f : Frame)
      → key_version_ok c current f.header.key_version ≡ true
      → validate_key_version c current f ≡ inr tt
  unfolding validate_key_version
  validate_key_version_ok current f h = rw h refl

  check_replay_ok :
      (ws : Windows) (f : Frame)
      → (c.anti_replay_enabled && contains (reader_window c ws f.header.reader_id) f.header.seq)
        ≡ false
      → check_replay c ws f ≡ (inr (window_of ws f), with_window ws f)
  unfolding check_replay window_of with_window
  check_replay_ok ws f h = elim (Bool-cases c.anti_replay_enabled) [
    | inl on ↦ rw (on, rw on at h) refl
    | inr off ↦ rw off refl
  ]

  replay_refused :
      (ws : Windows) (f : Frame)
      → (c.anti_replay_enabled && contains (reader_window c ws f.header.reader_id) f.header.seq)
        ≡ true
      → check_replay c ws f
        ≡ (inl (make_error "replay" f.header), get_or_create_window c ws f.header.reader_id)
  unfolding check_replay
  replay_refused ws f h = ground arith

  -- The handler after its three checks.
  pub checks_passed :
      (store : AccessStore) (now : ℕ) (ws : Windows) (f : Frame)
      → (store.current_key_version_for_reader f.header.reader_id == 0) ≡ false
      → (c.enforce_reader_door_binding
          && not (store.is_reader_allowed_door f.header.reader_id f.header.door_id))
        ≡ false
      → key_version_ok c
          (store.current_key_version_for_reader f.header.reader_id)
          f.header.key_version
        ≡ true
      → (c.anti_replay_enabled && contains (reader_window c ws f.header.reader_id) f.header.seq)
        ≡ false
      → handle_parsed lib m c (some store) now ws f
        ≡ try_decrypt lib m c now (window_of ws f) (with_window ws f) f
  unfolding handle_parsed
  checks_passed store now ws f h b v r =
      rw
        (
          handle_parsed,
          validate_reader_ok store f h b,
          validate_key_version_ok _ f v,
          check_replay_ok ws f r,
        )
        (ap (λ v. try_decrypt lib m c now (window_of ws f) v.1 f) (check_replay_ok ws f r))

  -- The handler at a number that the reader's window contains.
  pub replayed :
      (store : AccessStore) (now : ℕ) (ws : Windows) (f : Frame)
      → (store.current_key_version_for_reader f.header.reader_id == 0) ≡ false
      → (c.enforce_reader_door_binding
          && not (store.is_reader_allowed_door f.header.reader_id f.header.door_id))
        ≡ false
      → key_version_ok c
          (store.current_key_version_for_reader f.header.reader_id)
          f.header.key_version
        ≡ true
      → (c.anti_replay_enabled && contains (reader_window c ws f.header.reader_id) f.header.seq)
        ≡ true
      → handle_parsed lib m c (some store) now ws f
        ≡ (make_error "replay" f.header, get_or_create_window c ws f.header.reader_id)
  unfolding handle_parsed
  replayed store now ws f h b v r =
      rw
        (
          handle_parsed,
          validate_reader_ok store f h b,
          validate_key_version_ok _ f v,
          replay_refused ws f r,
        )
        (ap (λ v. (make_error "replay" f.header, v.1)) (replay_refused ws f r))
