-- ===== src/Hw/Frames.antt =====
-- The frame that the endpoint builds, and what the handler makes of it.
use access_security_system_e.Common.{
  ℕ, ◌-◌, ◌≤◌, ◌<◌, ◌≡◌, refl, ap, ◌∙◌, true, false, not, ◌&&◌, none, some, List, ◌++◌, arith,
  length, take, replicate, ◌==◌, ==_refl, inl, inr, Bool-cases, length-append, length-take_of_le,
  length-replicate,
}
use access_security_system_e.Common.Text.{str_eq}
use access_security_system_e.Protocol.Codec.{u32_mod, u64_mod}
use access_security_system_e.Protocol.Frame.{Header, serialize}
use access_security_system_e.Protocol.ReplayWindow.{contains}
use access_security_system_e.Crypto.{Sodium, HasHmacLength, HasAead}
use access_security_system_e.Crypto.Aead.{CipherMode, nonce_len_for, generate, length-generate}
use access_security_system_e.KeyManager.{
  KeyManager, derive_aead_key_total, derive_nonce_key_total, master_as_aead_key,
}
use access_security_system_e.Handler.{
  AccessStore, FrameHandlerConfig, Windows, key_version_ok, reader_window, cipher_of,
  check_timestamp, derive_key, handle,
}
use access_security_system_e.Handler.Accepted.{accepted}
use access_security_system_e.Handler.Sealed.{sealed, sealed-accepted}
use access_security_system_e.Hw.{
  HwUidRequest, HwLib, random_nonce, build_packet_header, build_nonce_context, build_payload_json,
  create_nonce, frame_key, encrypt_and_serialize, build_encrypted_frame_bytes,
}

-- The reader's fields of a request fit their types, and so do the key version and the clock.
pub record IsScan (q : HwUidRequest) (key_version ts : ℕ) : Type 0 where
  pub reader_fits : q.reader_id < u32_mod
  pub door_fits : q.door_id < u32_mod
  pub seq_fits : q.hw_seq < u64_mod
  pub version_fits : key_version < u32_mod
  pub ts_fits : ts < u64_mod

pad :
    (n : ℕ) (xs : List ℕ)
    → n ≤ 24
    → length xs ≡ 24
    → length (take n xs ++ replicate (24 - n) 0) ≡ 24
pad n xs h k = omega (
  arith,
  length-append (take n xs) (replicate (24 - n) 0),
  length-take_of_le n xs (omega arith),
  length-replicate {A = ℕ} (24 - n) 0,
)

length-random :
    (mode : CipherMode) (random : List ℕ)
    → length random ≡ 24
    → length (random_nonce mode random) ≡ 24
unfolding random_nonce nonce_len_for
length-random CipherMode.xchacha20_poly1305 random h = pad 24 random (omega arith) h
length-random CipherMode.chacha20_poly1305 random h = pad 12 random (omega arith) h

current_ok : (c : FrameHandlerConfig) (kv : ℕ) → key_version_ok c kv kv ≡ true
unfolding key_version_ok
current_ok c kv = ground (arith, ==_refl kv)

module _ (lib : Sodium) (law : HasHmacLength lib) (aead : HasAead lib) (m : KeyManager)
    (c : FrameHandlerConfig) where
  frame_key_total : (r kv : ℕ) → (key : List ℕ) × (frame_key lib m c r kv ≡ some key)
  unfolding frame_key
  frame_key_total r kv = elim (Bool-cases (str_eq c.key_derivation_mode "direct")) [
    | inl e ↦ (master_as_aead_key m, rw (frame_key, e) refl)
    | inr e ↦ let (key, d, n) = derive_aead_key_total lib law m r kv in (key, rw (frame_key, e) d)
  ]

  -- A nonce is made, and it has the 24 bytes of a header's, for any 24 random bytes.
  create_nonce_total :
      (random : List ℕ) (r kv : ℕ) (context : List ℕ)
      → length random ≡ 24
      → (nonce : List ℕ) × (create_nonce lib m c random r kv context ≡ some nonce)
        × (length nonce ≡ 24)
  unfolding create_nonce
  create_nonce_total random r kv context h =
      let mode = cipher_of c.cipher_mode in
      elim (Bool-cases (str_eq c.nonce_mode "random")) [
        | inl e ↦ (random_nonce mode random, rw (create_nonce, e) refl, length-random mode random h)
        | inr e ↦
            let (key, d, n) = derive_nonce_key_total lib law m r kv in
            (
              generate lib mode key context,
              rw (create_nonce, e, d) refl,
              length-generate lib law mode key context,
            )
      ]

  -- The frame that is built: the payload sealed under the frame's key.
  pub record IsBuilt {V : Type 0} (hw : HwLib V) (random : List ℕ) (q : HwUidRequest)
      (key_version ts : ℕ) (payload : List ℕ) (bytes : List ℕ) : Type 0 where
    pub key : List ℕ
    pub nonce : List ℕ
    pub key_made : frame_key lib m c q.reader_id key_version ≡ some key
    pub nonce_made :
        create_nonce lib m c random q.reader_id key_version
          (build_nonce_context q.reader_id q.door_id ts q.hw_seq key_version)
        ≡ some nonce
    pub nonce_fits : length nonce ≡ 24
    pub bytes_are :
        bytes
        ≡ serialize (
            sealed lib aead m c key
              (build_packet_header q.reader_id q.door_id q.hw_seq key_version ts nonce)
              payload)

  build_total :
      {V : Type 0} (hw : HwLib V) (random : List ℕ) (q : HwUidRequest) (kv ts : ℕ)
      (payload : List ℕ)
      → length random ≡ 24
      → build_payload_json hw q.uid q.action ≡ some payload
      → (bytes : List ℕ) × (build_encrypted_frame_bytes lib m c hw random q.reader_id q.door_id
            q.hw_seq kv ts q.uid q.action
          ≡ some bytes)
        × IsBuilt hw random q kv ts payload bytes
  unfolding build_encrypted_frame_bytes encrypt_and_serialize
  build_total hw random q kv ts payload n p =
      let (key, k) = frame_key_total q.reader_id kv in
      let context = build_nonce_context q.reader_id q.door_id ts q.hw_seq kv in
      let (nonce, o, l) = create_nonce_total random q.reader_id kv context n in
      let header = build_packet_header q.reader_id q.door_id q.hw_seq kv ts nonce in
      (
        encrypt_and_serialize lib m c key header payload nonce,
        rw (build_encrypted_frame_bytes, p, k, o) refl,
        record {
          key = key;
          nonce = nonce;
          key_made = k;
          nonce_made = o;
          nonce_fits = l;
          bytes_are = refl;
        },
      )

  abbrev pub header_of :
      {V : Type 0} (hw : HwLib V) (random : List ℕ) (q : HwUidRequest) (kv ts : ℕ)
      (payload bytes : List ℕ)
      → IsBuilt hw random q kv ts payload bytes
      → Header
  header_of hw random q kv ts payload bytes b =
      build_packet_header q.reader_id q.door_id q.hw_seq kv ts b.nonce

  -- What the endpoint builds for a reader of the store with its current key version is accepted by
  -- the handler with the payload as its plaintext, where the door is bound to the reader (if that
  -- is enforced), the number is not in the reader's window (if replay is checked), the clock is in
  -- range, and the payload is within the parser's limit: the server's half that writes frames
  -- agrees with the half that reads them, in every mode of the configuration.
  pub handle-IsBuilt :
      {V : Type 0} (hw : HwLib V) (random : List ℕ) (q : HwUidRequest) (store : AccessStore)
      (ts now : ℕ) (ws : Windows) (payload : List ℕ)
      → let kv = store.current_key_version_for_reader q.reader_id in
        length random ≡ 24
        → build_payload_json hw q.uid q.action ≡ some payload
        → IsScan q kv ts
        → length payload ≤ c.max_ct_len
        → c.max_ct_len < u32_mod
        → (kv == 0) ≡ false
        → (c.enforce_reader_door_binding
            && not (store.is_reader_allowed_door q.reader_id q.door_id))
          ≡ false
        → (c.anti_replay_enabled && contains (reader_window c ws q.reader_id) q.hw_seq) ≡ false
        → check_timestamp c.max_skew_ms now ts ≡ none
        → (bytes : List ℕ) × (build_encrypted_frame_bytes lib m c hw random q.reader_id q.door_id
              q.hw_seq kv ts q.uid q.action
            ≡ some bytes)
          × (b : IsBuilt hw random q kv ts payload bytes) × ((handle lib m c
                (some store)
                now
                ws
                bytes).0
              ≡ accepted lib m c
                  (sealed lib aead m c b.key (header_of hw random q kv ts payload bytes b) payload)
                  payload)
  unfolding derive_key frame_key
  handle-IsBuilt hw random q store ts now ws payload n p fits short small known bound fresh time =
      let kv = store.current_key_version_for_reader q.reader_id in
      let (bytes, e, b) = build_total hw random q kv ts payload n p in
      let header = header_of hw random q kv ts payload bytes b in
      (
        bytes,
        e,
        b,
        ap (λ o. (handle lib m c (some store) now ws o).0) b.bytes_are
            ∙ sealed-accepted lib aead m c store now ws header payload b.key
                (record {
                  reader_fits = fits.reader_fits;
                  door_fits = fits.door_fits;
                  ts_fits = fits.ts_fits;
                  seq_fits = fits.seq_fits;
                  key_fits = fits.version_fits;
                  nonce_fits = b.nonce_fits;
                })
                short small b.key_made known bound (current_ok c kv) fresh time,
      )
