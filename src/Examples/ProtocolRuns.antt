-- ===== src/Examples/ProtocolRuns.antt =====
-- The wire format and the replay window at small inputs.
use access_security_system_e.Common.{
  ℕ, ◌≤◌, ◌≡◌, ◌≢◌, refl, arith, true, false, List, [], ◌∷◌, All, length, ltb, ◌&&◌, Bool,
}
use access_security_system_e.Common.Sets.{mem}
use access_security_system_e.Protocol.Codec.{put_le32, put_le64}
use access_security_system_e.Crypto.Aead.{seal_with_nonce}
use access_security_system_e.Handler.{cipher_of}
use access_security_system_e.Protocol.Codec.Inverse.{IsByte}
use access_security_system_e.Protocol.Frame.{IsFrame, serialize}
use access_security_system_e.Protocol.Parser.{ok, err, parse_frame, ParseError}
use access_security_system_e.Protocol.Parser.RoundTrip.{
  parse_frame-serialize, serialize-parse_frame,
}
use access_security_system_e.Protocol.Parser.Safety.{parse_frame-NoFault}
use access_security_system_e.Protocol.ReplayWindow.{ReplayWindow, new_window, accept, accept_all}
use access_security_system_e.Protocol.ReplayWindow.Invariant.{
  IsWindow, new_window-IsWindow, accept_all-IsWindow,
}
use access_security_system_e.Protocol.ReplayWindow.Forgotten.{accept_twice, accept_forgets}
use access_security_system_e.Examples.World.{frame, bytes, frame_fits, frame_parses}

parse_frame-serialize_example : parse_frame (serialize frame) 64 ≡ ok frame
unfolding seal_with_nonce cipher_of
parse_frame-serialize_example =
    parse_frame-serialize frame 64 frame_fits (omega arith) (omega arith)

abbrev all_bytes : List ℕ → Bool
all_bytes [] = true
all_bytes (x ∷ xs) = ltb x 256 && all_bytes xs

all_bytes-All : (xs : List ℕ) → all_bytes xs ≡ true → All IsByte xs
all_bytes-All [] h = tt
all_bytes-All (x ∷ xs) h = (ground (arith, h), all_bytes-All xs (ground (arith, h)))

bytes_fit : All IsByte bytes
unfolding serialize put_le32 put_le64 seal_with_nonce cipher_of
bytes_fit = all_bytes-All bytes refl

serialize-parse_frame_example : (serialize frame ≡ bytes) × IsFrame frame × (length frame.ct ≤ 64)
serialize-parse_frame_example = serialize-parse_frame bytes 64 frame bytes_fit frame_parses

parse_frame-NoFault_example : parse_frame bytes 64 ≢ err ParseError.out_of_bounds
parse_frame-NoFault_example = parse_frame-NoFault bytes 64

accept_twice_example : (accept (accept (new_window 2) 9).0 9).1 ≡ false
unfolding new_window
accept_twice_example = accept_twice (new_window 2) 9 (new_window-IsWindow 2) (omega arith)

accept_all-IsWindow_example : IsWindow (accept_all (new_window 2) (5 ∷ 1 ∷ 6 ∷ []))
accept_all-IsWindow_example =
    accept_all-IsWindow (new_window 2) (5 ∷ 1 ∷ 6 ∷ []) (new_window-IsWindow 2)

-- Number 9 arrived before 8 in a window of two.
abbrev disordered : ReplayWindow
disordered = record { window = 2; max_seen = 9; seen = 8 ∷ 9 ∷ []; order = 9 ∷ 8 ∷ [] }

disordered-IsWindow : IsWindow disordered
unfolding mem
disordered-IsWindow = record {
  same = λ x. ground arith;
  distinct = (refl, (refl, tt));
  bounded = omega arith;
  below = λ x. ground arith;
}

accept_forgets_example :
    ((accept disordered 9).1 ≡ false) × ((accept (accept disordered 10).0 9).1 ≡ true)
accept_forgets_example =
    accept_forgets disordered 9 (8 ∷ []) disordered-IsWindow refl refl (omega arith)
