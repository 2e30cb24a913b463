-- ===== src/Examples/FirmwareRuns.antt =====
-- A reader with the toy HMAC: two scans with a power cycle between them.
use access_security_system_e.Common.{
  ℕ, zero, suc, ◌<◌, ◌≡◌, refl, true, Option, none, some, List, [], ◌∷◌, replicate, arith, All,
}
use access_security_system_e.Common.Text.{codes}
use access_security_system_e.Protocol.Codec.Inverse.{IsByte}
use access_security_system_e.Protocol.ReplayWindow.{new_window}
use access_security_system_e.Hw.{verify_hw_signature}
use access_security_system_e.Firmware.{
  Board, Settings, Reader, signature, setup, post_uid_to_server,
}
use access_security_system_e.Firmware.Signed.{HasSameHmac, signature_accepted}
use access_security_system_e.Firmware.Numbers.{
  Life, ends, power_on, posts, with_card, accepts_all, numbers_accepted,
}
use access_security_system_e.Examples.World.{toy, toy_hmac}

abbrev board : Board
board = record {
  decimal = λ n. n ∷ [];
  hex = λ b. b ∷ [];
  to_upper = λ s. s;
  md_hmac = toy.hmac_sha256;
}

All-replicate : (n b : ℕ) → b < 256 → All IsByte (replicate n b)
All-replicate zero b h = tt
All-replicate (suc n) b h = (h, All-replicate n b h)

board-HasSameHmac : HasSameHmac board toy
board-HasSameHmac = record {
  same_hmac = λ key message. refl;
  hmac_bytes = λ key message. All-replicate 32 _ (omega arith);
}

abbrev settings : Settings
settings = record {
  secret_hex = replicate 64 97;
  reader_id = 2;
  door_id = 6;
  resend_delay_ms = 1500;
}

signature_accepted_example :
    (sig : List ℕ) × (signature board settings (codes "{}") ≡ some sig)
    × (verify_hw_signature toy true sig (codes "{}") settings.secret_hex ≡ none)
signature_accepted_example =
    signature_accepted toy toy_hmac board board-HasSameHmac settings (codes "{}") refl

abbrev new_reader : Reader
new_reader = record { hw_seq = 0; kept_seq = none; last_uid = []; last_send_ms = 0 }

abbrev answer : List ℕ → Option (List ℕ) → ℕ × List ℕ
answer body sig = (200, [])

abbrev after_one : Reader
after_one = (post_uid_to_server board settings true answer (with_card new_reader [] 7) []).0

abbrev after_two : Reader
after_two = (post_uid_to_server board settings true answer (with_card (setup after_one) [] 9) []).0

two_scans : Life board settings new_reader (after_one.hw_seq ∷ (after_two.hw_seq ∷ [])) after_two
two_scans = posts answer [] 7 (power_on (posts answer [] 9 ends))

numbers_accepted_example :
    accepts_all (new_window 4) (after_one.hw_seq ∷ (after_two.hw_seq ∷ [])) ≡ true
numbers_accepted_example =
    numbers_accepted board settings new_reader after_two
      (after_one.hw_seq ∷ (after_two.hw_seq ∷ [])) 4 two_scans refl (omega arith)
