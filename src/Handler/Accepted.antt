-- ===== src/Handler/Accepted.antt =====
-- What `FrameHandler::handle` asks of a frame, in one predicate, and that the handler accepts
-- exactly the frames that satisfy it.
use access_security_system_e.Common.{
  ℕ, ◌≡◌, refl, ap, ◌∙◌, ◌↔◌, true, false, not, ◌&&◌, Option, none, some, List, ◌⊎◌, inl, inr,
  arith, ◌==◌, Bool-cases, Option-cases, Sum-cases,
}
use access_security_system_e.Protocol.Frame.{Frame}
use access_security_system_e.Protocol.Parser.{Result, ok, err, parse_frame, ParseError}
use access_security_system_e.Protocol.ReplayWindow.{ReplayWindow, contains}
use access_security_system_e.Crypto.{Sodium}
use access_security_system_e.KeyManager.{KeyManager}
use access_security_system_e.Handler.{
  AccessStore, FrameHandlerConfig, HandleResult, Windows, validate_reader, key_version_ok,
  validate_key_version, reader_window, check_timestamp, derive_key, decrypt_frame, decrypt,
  remember_seq, try_decrypt, handle_parsed, handle, make_error,
}
use access_security_system_e.Handler.Checks.{
  with_window, window_of, checks_passed, replayed, validate_reader_ok,
}

pub Result-cases {ℓ} :
    {A : Type ℓ} (r : Result A) → ((a : A) × (r ≡ ok a)) ⊎ ((e : ParseError) × (r ≡ err e))
Result-cases (ok a) = inl (a, refl)
Result-cases (err e) = inr (e, refl)

false-true : false ≡ true → ⊥
false-true e = cc

module _ (lib : Sodium) (m : KeyManager) (c : FrameHandlerConfig) where
  -- The conditions under which a parsed frame is accepted at time `now`.
  pub record IsAccepted (store : AccessStore) (now : ℕ) (ws : Windows) (f : Frame)
      (plaintext : List ℕ) : Type 0 where
    pub reader_known : (store.current_key_version_for_reader f.header.reader_id == 0) ≡ false
    pub door_bound :
        (c.enforce_reader_door_binding
          && not (store.is_reader_allowed_door f.header.reader_id f.header.door_id))
        ≡ false
    pub version_ok :
        key_version_ok c
          (store.current_key_version_for_reader f.header.reader_id)
          f.header.key_version
        ≡ true
    pub fresh :
        (c.anti_replay_enabled && contains (reader_window c ws f.header.reader_id) f.header.seq)
        ≡ false
    pub authentic :
        (key : List ℕ) × (derive_key lib m c f ≡ some key)
        × (decrypt_frame lib m c key f ≡ some plaintext)
    pub on_time : check_timestamp c.max_skew_ms now f.header.ts_unix_ms ≡ none

  abbrev pub accepted : Frame → List ℕ → HandleResult
  accepted f plaintext = record {
    allow = true;
    reason = "ok";
    plaintext = plaintext;
    header = f.header;
  }

  decrypt_inv :
      (now : ℕ) (key : List ℕ) (f : Frame) (plaintext : List ℕ)
      → decrypt lib m c now key f ≡ inr plaintext
      → (decrypt_frame lib m c key f ≡ some plaintext)
        × (check_timestamp c.max_skew_ms now f.header.ts_unix_ms ≡ none)
  unfolding decrypt
  decrypt_inv now key f plaintext h = ground arith

  try_decrypt_inv :
      (now : ℕ) (window : Option ReplayWindow) (ws : Windows) (f : Frame)
      → (try_decrypt lib m c now window ws f).0.allow ≡ true
      → (plaintext key : List ℕ) × (derive_key lib m c f ≡ some key)
        × (decrypt_frame lib m c key f ≡ some plaintext)
        × (check_timestamp c.max_skew_ms now f.header.ts_unix_ms ≡ none)
  unfolding try_decrypt make_error
  try_decrypt_inv now window ws f h = elim (Option-cases (derive_key lib m c f)) [
    | inl e ↦ absurd (false-true (rw (try_decrypt, e) at h))
    | inr (key, e) ↦ elim (Sum-cases (decrypt lib m c now key f)) [
      | inl (why, d) ↦ absurd (false-true (rw (try_decrypt, e, d) at h))
      | inr (plaintext, d) ↦
          let (o, t) = decrypt_inv now key f plaintext d in (plaintext, key, e, o, t)
    ]
  ]

  -- What the checks of an allowed frame have found.
  reader_inv :
      (store : AccessStore) (now : ℕ) (ws : Windows) (f : Frame)
      → (handle_parsed lib m c (some store) now ws f).0.allow ≡ true
      → ((store.current_key_version_for_reader f.header.reader_id == 0) ≡ false)
        × ((c.enforce_reader_door_binding
              && not (store.is_reader_allowed_door f.header.reader_id f.header.door_id))
            ≡ false)
  unfolding handle_parsed validate_reader make_error
  reader_inv store now ws f h =
      elim (Bool-cases (store.current_key_version_for_reader f.header.reader_id == 0)) [
        | inl e ↦ absurd (false-true (rw (handle_parsed, validate_reader, e) at h))
        | inr known ↦
            elim (Bool-cases (
              c.enforce_reader_door_binding
              && not (store.is_reader_allowed_door f.header.reader_id f.header.door_id))) [
                | inl e ↦ absurd (false-true (rw (handle_parsed, validate_reader, known, e) at h))
                | inr bound ↦ (known, bound)
              ]
      ]

  version_inv :
      (store : AccessStore) (now : ℕ) (ws : Windows) (f : Frame)
      → validate_reader (some store) c f
        ≡ inr (store.current_key_version_for_reader f.header.reader_id)
      → (handle_parsed lib m c (some store) now ws f).0.allow ≡ true
      → key_version_ok c
          (store.current_key_version_for_reader f.header.reader_id)
          f.header.key_version
        ≡ true
  unfolding handle_parsed validate_key_version make_error
  version_inv store now ws f r h =
      elim (Bool-cases (
        key_version_ok c (store.current_key_version_for_reader f.header.reader_id)
          f.header.key_version)) [
            | inl version ↦ version
            | inr e ↦ absurd (false-true (rw (handle_parsed, validate_key_version, r, e) at h))
          ]

  handle_parsed_inv :
      (store : AccessStore) (now : ℕ) (ws : Windows) (f : Frame)
      → (handle_parsed lib m c (some store) now ws f).0.allow ≡ true
      → (plaintext : List ℕ) × IsAccepted store now ws f plaintext
  unfolding make_error
  handle_parsed_inv store now ws f h =
      let (known, bound) = reader_inv store now ws f h in
      let version = version_inv store now ws f (validate_reader_ok lib m c store f known bound) h in
      elim (Bool-cases
        (c.anti_replay_enabled && contains (reader_window c ws f.header.reader_id) f.header.seq)) [
          | inl e ↦
              absurd (false-true (rw (replayed lib m c store now ws f known bound version e) at h))
          | inr fresh ↦
              let (plaintext, key, k, d, t) =
                try_decrypt_inv now (window_of lib m c ws f) (with_window lib m c ws f) f
                  (rw (checks_passed lib m c store now ws f known bound version fresh) at h) in
              (
                plaintext,
                record {
                  reader_known = known;
                  door_bound = bound;
                  version_ok = version;
                  fresh = fresh;
                  authentic = (key, k, d);
                  on_time = t;
                },
              )
        ]

  try_decrypt_ok :
      (now : ℕ) (window : Option ReplayWindow) (ws : Windows) (f : Frame) (key plaintext : List ℕ)
      → derive_key lib m c f ≡ some key
      → decrypt_frame lib m c key f ≡ some plaintext
      → check_timestamp c.max_skew_ms now f.header.ts_unix_ms ≡ none
      → try_decrypt lib m c now window ws f
        ≡ (accepted f plaintext, remember_seq lib m c window f ws)
  unfolding try_decrypt decrypt
  try_decrypt_ok now window ws f key plaintext k d t = rw (try_decrypt, decrypt, k, d, t) refl

  handle_parsed_ok :
      (store : AccessStore) (now : ℕ) (ws : Windows) (f : Frame) (plaintext : List ℕ)
      → IsAccepted store now ws f plaintext
      → handle_parsed lib m c (some store) now ws f ≡ (
        accepted f plaintext,
        remember_seq lib m c (window_of lib m c ws f) f (with_window lib m c ws f),
      )
  handle_parsed_ok store now ws f plaintext a =
      checks_passed lib m c store now ws f a.reader_known a.door_bound a.version_ok a.fresh
      ∙ (let (key, k, d) = a.authentic in
          try_decrypt_ok now (window_of lib m c ws f) (with_window lib m c ws f) f key plaintext k d
            a.on_time)

  -- With a store, the handler allows a buffer exactly when it parses to a frame that satisfies
  -- every condition: a known reader, a door bound to it where that is enforced, an accepted key
  -- version, a sequence number that its window does not contain where replay is checked, a
  -- ciphertext that opens under the reader's key, and a timestamp in range.
  pub handle-allow_iff :
      (store : AccessStore) (now : ℕ) (ws : Windows) (bytes : List ℕ)
      → ((handle lib m c (some store) now ws bytes).0.allow ≡ true) ↔ (
          (f : Frame) × (plaintext : List ℕ) × (parse_frame bytes c.max_ct_len ≡ ok f)
          × IsAccepted store now ws f plaintext)
  unfolding handle
  handle-allow_iff store now ws bytes = (
    (λ h. elim (Result-cases (parse_frame bytes c.max_ct_len)) [
      | inl (f, p) ↦
          let (plaintext, a) = handle_parsed_inv store now ws f (rw (handle, p) at h) in
          (f, plaintext, p, a)
      | inr (e, p) ↦ absurd (false-true (unfold make_error in rw (handle, p) at h))
    ]),
    (λ (f, plaintext, p, a).
        rw (handle, p) (ap (λ r. r.0.allow) (handle_parsed_ok store now ws f plaintext a))),
  )

  -- A buffer that parses to a frame which satisfies the conditions is answered with its plaintext
  -- and its header, and, with the replay check on, its number is remembered in the reader's
  -- window.
  pub handle_accepts :
      (store : AccessStore) (now : ℕ) (ws : Windows) (bytes : List ℕ) (f : Frame)
      (plaintext : List ℕ)
      → parse_frame bytes c.max_ct_len ≡ ok f
      → IsAccepted store now ws f plaintext
      → handle lib m c (some store) now ws bytes ≡ (
        accepted f plaintext,
        remember_seq lib m c (window_of lib m c ws f) f (with_window lib m c ws f),
      )
  unfolding handle
  handle_accepts store now ws bytes f plaintext p a =
      rw (handle, p) (handle_parsed_ok store now ws f plaintext a)
