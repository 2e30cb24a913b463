-- ===== src/Firmware.antt =====
-- hw_layer/hw_layer.ino: the reader's sketch, with the constants of hw_layer/hw_config.h. What it
-- calls of Arduino and mbedTLS is a parameter; its lights, sounds and serial output are left out.
pub mod Signed
pub mod Numbers
use Prim.Native.Nat.{bit_or}
use access_security_system_e.Common.{
  ℕ, ◌+◌, ◌-◌, ◌*◌, ◌/◌, ◌%◌, Bool, true, false, not, ◌&&◌, ◌||◌, Option, none, some, List, [], ◌∷◌,
  ◌++◌, length, leb, ltb, ◌==◌, if◌then◌else◌, bytes_eq,
}
use access_security_system_e.Common.Text.{codes}
use access_security_system_e.Protocol.Codec.{u32_mod, u64_mod}
use access_security_system_e.CardId.{hex_char}

pub record Board : Type 0 where
  -- String(n)
  pub decimal : ℕ → List ℕ
  -- String(b, HEX) and toUpperCase
  pub hex : ℕ → List ℕ
  pub to_upper : List ℕ → List ℕ
  -- mbedtls_md_hmac with MBEDTLS_MD_SHA256: key, message
  pub md_hmac : List ℕ → List ℕ → List ℕ

-- HW_SECRET_HEX, HW_READER_ID, HW_DOOR_ID and HW_RESEND_DELAY_MS
pub record Settings : Type 0 where
  pub secret_hex : List ℕ
  pub reader_id : ℕ
  pub door_id : ℕ
  pub resend_delay_ms : ℕ

-- The variables, and the number that `prefs` keeps without power.
pub record Reader : Type 0 where
  pub hw_seq : ℕ
  pub kept_seq : Option ℕ
  pub last_uid : List ℕ
  pub last_send_ms : ℕ

unfoldable pub hex_nibble : ℕ → ℕ
hex_nibble c =
    if leb 48 c && leb c 57
    then c - 48
    else if leb 97 c && leb c 102
    then 10 + c - 97
    else if leb 65 c && leb c 70
    then 10 + c - 65
    else 0

-- hexToBytes32, of a text of 64 characters.
unfoldable pub hex_to_bytes_32 : List ℕ → List ℕ
unfolding hex_nibble
hex_to_bytes_32 [] = []
hex_to_bytes_32 (h ∷ []) = []
hex_to_bytes_32 (h ∷ (l ∷ rest)) =
    bit_or (hex_nibble h * 16 % 256) (hex_nibble l) ∷ hex_to_bytes_32 rest

-- The loop of hmacSha256Hex
unfoldable pub mac_hex : List ℕ → List ℕ
unfolding hex_char
mac_hex [] = []
mac_hex (b ∷ mac) = hex_char (b / 16 % 16) ∷ (hex_char (b % 16) ∷ mac_hex mac)

unfoldable pub starts_with : List ℕ → List ℕ → Bool
starts_with [] s = true
starts_with (c ∷ p) [] = false
starts_with (c ∷ p) (d ∷ s) = (c == d) && starts_with p s

-- indexOf, as the rest of the text from the first place where the pattern stands.
unfoldable pub from_index_of : List ℕ → List ℕ → Option (List ℕ)
unfolding starts_with
from_index_of p [] = if starts_with p [] then some [] else none
from_index_of p (c ∷ s) =
    let rest = from_index_of p s in if starts_with p (c ∷ s) then some (c ∷ s) else rest

-- The loop over ':' and ' '
unfoldable pub skip_colons : List ℕ → List ℕ
skip_colons [] = []
skip_colons (c ∷ s) = let rest = skip_colons s in if (c == 58) || (c == 32) then rest else c ∷ s

-- parseAllowFromJson; `none` is false.
unfoldable pub parse_allow_from_json : List ℕ → Option Bool
unfolding from_index_of skip_colons starts_with
parse_allow_from_json resp = elim (from_index_of (codes "\"allow\"") resp) [
  | none ↦ none
  | some s ↦ elim (from_index_of (codes ":") s) [
    | none ↦ none
    | some t ↦
        if starts_with (codes "true") (skip_colons t)
        then some true
        else if starts_with (codes "false") (skip_colons t)
        then some false
        else none
  ]
]

-- hwSeq++, kept by `prefs`
unfoldable pub count_request : Reader → Reader
count_request s = let n = (s.hw_seq + 1) % u64_mod in record s { hw_seq = n; kept_seq = some n }

module _ (board : Board) where
  unfoldable pub hmac_sha256_hex : List ℕ → List ℕ → List ℕ
  unfolding mac_hex
  hmac_sha256_hex key message = mac_hex (board.md_hmac key message)

  unfoldable pub uid_digits : List ℕ → List ℕ
  uid_digits [] = []
  uid_digits (b ∷ uid) = ((if ltb b 16 then codes "0" else []) ++ board.hex b) ++ uid_digits uid

  unfoldable pub uid_to_string : List ℕ → List ℕ
  unfolding uid_digits
  uid_to_string uid = board.to_upper (uid_digits uid)

  module _ (cfg : Settings) where
    unfoldable pub request_body : List ℕ → ℕ → List ℕ
    request_body uid hw_seq =
        codes "{\"uid\":\""
        ++ (uid
            ++ (codes "\",\"reader_id\":"
                ++ (board.decimal cfg.reader_id
                    ++ (codes ",\"door_id\":"
                        ++ (board.decimal cfg.door_id
                            ++ (codes ",\"hw_seq\":" ++ (board.decimal hw_seq ++ codes "}")))))))

    -- The header X-HW-Signature; `none` is no header.
    unfoldable pub signature : List ℕ → Option (List ℕ)
    unfolding hex_to_bytes_32 hmac_sha256_hex
    signature body =
        if length cfg.secret_hex == 64
        then some
            (hmac_sha256_hex (hex_to_bytes_32 cfg.secret_hex) (codes "POST /api/hw/uid\n" ++ body))
        else none

    -- The network: whether WiFi connects, and what a POST of the body with a signature answers,
    -- the status and the text; a failed POST has the status 0.
    module _ (connected : Bool) (http_post : List ℕ → Option (List ℕ) → ℕ × List ℕ) where
      -- postUidToServer; `none` is false, with which `allowOut` keeps its false.
      unfoldable pub post_uid_to_server : Reader → List ℕ → Reader × Option Bool
      unfolding count_request request_body signature parse_allow_from_json
      post_uid_to_server s uid =
          let s1 = count_request s in
          let body = request_body uid s1.hw_seq in
          let (code, resp) = http_post body (signature body) in
          if not connected
          then (s, none)
          else if not (leb 200 code && ltb code 300)
          then (s1, none)
          else (s1, parse_allow_from_json resp)

      -- loop, with the card in front of the reader and the clock: whether it signals, and that
      -- access is allowed.
      unfoldable pub loop : Reader → Option (List ℕ) → ℕ → Reader × Option Bool
      unfolding uid_to_string post_uid_to_server bytes_eq
      loop s none now = (s, none)
      loop s (some card) now =
          let uid = uid_to_string card in
          let (s1, answer) =
            post_uid_to_server (record s { last_uid = uid; last_send_ms = now }) uid in
          if bytes_eq uid s.last_uid
            && ltb ((now + (u32_mod - s.last_send_ms)) % u32_mod) cfg.resend_delay_ms
          then (s, none)
          else (s1, some (elim answer [ none ↦ false | some allow ↦ allow ]))

-- setup, after power on: getULong64("hw_seq", 0)
unfoldable pub setup : Reader → Reader
setup s = record {
  hw_seq = elim (s.kept_seq) [ none ↦ 0 | some n ↦ n ];
  kept_seq = s.kept_seq;
  last_uid = [];
  last_send_ms = 0;
}
