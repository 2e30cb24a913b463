-- ===== src/Examples/HandlerRuns.antt =====
-- The frame handler at the small system's frame.
use access_security_system_e.Common.{
  ℕ, ◌≡◌, ◌↔◌, refl, true, false, some, List, [], ◌∷◌, replicate, arith, ◌&&◌, ◌==◌, ◌++◌, ap, sym,
  if◌then◌else◌,
}
use mathlib.Core.Path.{subst}
use access_security_system_e.Common.Sets.{mem}
use access_security_system_e.Common.Maps.{lookup}
use access_security_system_e.Protocol.Frame.{Frame, serialize}
use access_security_system_e.Protocol.Parser.{ok, parse_frame}
use access_security_system_e.Handler.{
  key_version_ok, reader_window, check_timestamp, derive_key, handle, make_error,
}
use access_security_system_e.Protocol.ReplayWindow.{new_window, is_too_old, contains, accept_all}
use access_security_system_e.Protocol.ReplayWindow.InOrder.{Rising}
use access_security_system_e.Handler.Accepted.{
  IsAccepted, accepted, handle-allow_iff, handle_accepts,
}
use access_security_system_e.Handler.History.{
  Call, counted, accepted_seq, run, seqs_of, reader_window-run,
}
use access_security_system_e.Handler.Replay.{handle-Rising_once, handle_again}
use access_security_system_e.Handler.Sealed.{sealed, sealed-accepted}
use access_security_system_e.Examples.World.{
  toy, toy_aead, manager, config, store, header, header_fits, card, frame, bytes, frame_parses,
  frame-IsAccepted,
}

sealed-accepted_example :
    (handle toy manager config
      (some store)
      7
      []
      (serialize (sealed toy toy_aead manager config (replicate 32 9) header card))).0
    ≡ accepted toy manager config
        (sealed toy toy_aead manager config (replicate 32 9) header card)
        card
unfolding derive_key key_version_ok contains reader_window new_window lookup is_too_old mem
    check_timestamp
sealed-accepted_example =
    sealed-accepted toy toy_aead manager config store 7 [] header card (replicate 32 9) header_fits
      (omega arith) (omega arith) refl refl refl refl refl refl

handle-allow_iff_example : ((handle toy manager config (some store) 7 [] bytes).0.allow ≡ true) ↔ (
    (f : Frame) × (plaintext : List ℕ) × (parse_frame bytes config.max_ct_len ≡ ok f)
    × IsAccepted toy manager config store 7 [] f plaintext)
handle-allow_iff_example = handle-allow_iff toy manager config store 7 [] bytes

first_allowed : (handle toy manager config (some store) 7 [] bytes).0.allow ≡ true
first_allowed =
    ap (λ o. o.0.allow)
      (handle_accepts toy manager config store 7 [] bytes frame card frame_parses frame-IsAccepted)

handle_again_example :
    (handle toy manager config
      (some store)
      8
      (run toy manager config store (handle toy manager config (some store) 7 [] bytes).1 [])
      bytes).0
    ≡ make_error "replay" frame.header
unfolding run seqs_of
handle_again_example =
    handle_again toy manager config store [] [] 7 8 bytes frame refl frame_parses first_allowed refl

abbrev one_call : List Call
one_call = record { now = 7; bytes = bytes } ∷ []

one_number : seqs_of toy manager config store [] one_call 1 ≡ 5 ∷ []
unfolding seqs_of accepted_seq counted
one_number =
    ap (λ o. (if o.0.allow && (o.0.header.reader_id == 1) then o.0.header.seq ∷ [] else []) ++ [])
      (handle_accepts toy manager config store 7 [] bytes frame card frame_parses frame-IsAccepted)

handle-Rising_once_example :
    (handle toy manager config
      (some store)
      9
      (run toy manager config store [] one_call)
      bytes).0.allow
    ≡ false
unfolding mem
handle-Rising_once_example =
    handle-Rising_once toy manager config store one_call 9 bytes frame refl frame_parses
      (subst (Rising 0) (sym one_number) (omega arith, tt)) (ap (mem 5) one_number)

reader_window-run_example :
    reader_window config (run toy manager config store [] one_call) 1
    ≡ accept_all (reader_window config [] 1) (seqs_of toy manager config store [] one_call 1)
reader_window-run_example = reader_window-run toy manager config store [] one_call 1 refl
