-- ===== src/Handler/History.antt =====
-- Histories of calls of `FrameHandler::handle` on one map of replay windows, and the numbers that
-- they put into a reader's window.
use mathlib.Core.Path.{subst}
use access_security_system_e.Common.{
  ℕ, ◌≡◌, refl, ap, ◌∙◌, sym, true, false, ◌&&◌, some, List, [], ◌∷◌, ◌++◌, inl, inr, arith,
  ==_refl, ==_iff, ◌==◌, if◌then◌else◌, Bool-cases,
}
use access_security_system_e.Protocol.Frame.{Frame}
use access_security_system_e.Protocol.Parser.{ok, err, parse_frame, ParseError}
use access_security_system_e.Protocol.ReplayWindow.{
  ReplayWindow, contains, remember, accept, accept_all,
}
use access_security_system_e.Crypto.{Sodium}
use access_security_system_e.KeyManager.{KeyManager}
use access_security_system_e.Handler.{
  AccessStore, FrameHandlerConfig, HandleResult, Windows, reader_window, remember_seq,
  handle_parsed, handle, make_error, parse_error_to_code, empty_header,
}
use access_security_system_e.Handler.Accepted.{
  Result-cases, IsAccepted, accepted, handle-allow_iff, handle_accepts,
}
use access_security_system_e.Handler.Checks.{with_window, window_of}
use access_security_system_e.Handler.Outcomes.{refused, remembered_in}

pub record Call : Type 0 where
  pub now : ℕ
  pub bytes : List ℕ

-- The number that a result puts into the window of reader `r`.
unfoldable pub counted : HandleResult → ℕ → List ℕ
counted result r =
    if result.allow && (result.header.reader_id == r) then result.header.seq ∷ [] else []

accept_all-append :
    (w : ReplayWindow) (xs ys : List ℕ) → accept_all w (xs ++ ys) ≡ accept_all (accept_all w xs) ys
unfolding accept_all
accept_all-append w [] ys = refl
accept_all-append w (x ∷ xs) ys = accept_all-append (accept w x).0 xs ys

same_reader :
    (c : FrameHandlerConfig) (ws : Windows) (k r s : ℕ)
    → contains (reader_window c ws k) s ≡ false
    → (if k == r then remember (reader_window c ws k) s else reader_window c ws r)
      ≡ accept_all (reader_window c ws r) (if k == r then s ∷ [] else [])
unfolding accept_all accept
same_reader c ws k r s h = elim (Bool-cases (k == r)) [
  | inl e ↦
      (let q : r ≡ k = sym ((==_iff k r).0 e) in
        subst
          (λ j.
            (if k == j then remember (reader_window c ws k) s else reader_window c ws j)
            ≡ accept_all (reader_window c ws j) (if k == j then s ∷ [] else []))
          (sym q) (rw (==_refl k, accept_all, accept, h) refl))
  | inr e ↦ rw e refl
]

module _ (lib : Sodium) (m : KeyManager) (c : FrameHandlerConfig) where
  -- The numbers that one call puts into the window of reader `r`.
  unfoldable pub accepted_seq : AccessStore → Windows → Call → ℕ → List ℕ
  unfolding counted
  accepted_seq store ws call r = counted (handle lib m c (some store) call.now ws call.bytes).0 r

  unfoldable pub run : AccessStore → Windows → List Call → Windows
  run store ws [] = ws
  run store ws (call ∷ calls) =
      run store (handle lib m c (some store) call.now ws call.bytes).1 calls

  unfoldable pub seqs_of : AccessStore → Windows → List Call → ℕ → List ℕ
  unfolding accepted_seq
  seqs_of store ws [] r = []
  seqs_of store ws (call ∷ calls) r =
      accepted_seq store ws call r
      ++ seqs_of store (handle lib m c (some store) call.now ws call.bytes).1 calls r

  -- What the window of `r` is after a call with this outcome.
  Counted : ℕ → Windows → HandleResult × Windows → Type 0
  Counted r ws out = reader_window c out.1 r ≡ accept_all (reader_window c ws r) (counted out.0 r)

  accepted-Counted :
      (store : AccessStore) (now : ℕ) (ws : Windows) (f : Frame) (plaintext : List ℕ) (r : ℕ)
      → c.anti_replay_enabled ≡ true
      → IsAccepted lib m c store now ws f plaintext
      → Counted r ws (
        accepted lib m c f plaintext,
        remember_seq lib m c (window_of lib m c ws f) f (with_window lib m c ws f),
      )
  unfolding Counted counted
  accepted-Counted store now ws f plaintext r on a =
      remembered_in lib m c ws f r on
      ∙ same_reader c ws f.header.reader_id r f.header.seq (ground (arith, a.fresh))

  pub handle-ok :
      (store : AccessStore) (now : ℕ) (ws : Windows) (bytes : List ℕ) (f : Frame)
      → parse_frame bytes c.max_ct_len ≡ ok f
      → handle lib m c (some store) now ws bytes ≡ handle_parsed lib m c (some store) now ws f
  unfolding handle
  handle-ok store now ws bytes f p = rw (handle, p) refl

  pub handle-err :
      (store : AccessStore) (now : ℕ) (ws : Windows) (bytes : List ℕ) (e : ParseError)
      → parse_frame bytes c.max_ct_len ≡ err e
      → handle lib m c (some store) now ws bytes
        ≡ (make_error (parse_error_to_code e) empty_header, ws)
  unfolding handle
  handle-err store now ws bytes e p = rw (handle, p) refl

  refused_step :
      (store : AccessStore) (now : ℕ) (ws : Windows) (f : Frame) (bytes : List ℕ) (r : ℕ)
      → parse_frame bytes c.max_ct_len ≡ ok f
      → (handle lib m c (some store) now ws bytes).0.allow ≡ false
      → Counted r ws (handle lib m c (some store) now ws bytes)
  unfolding Counted counted accept_all
  refused_step store now ws f bytes r p refusal =
      let same = handle-ok store now ws bytes f p in
      subst (Counted r ws) (sym same) (
        let no' : (handle_parsed lib m c (some store) now ws f).0.allow ≡ false =
          ap (λ out. out.0.allow) (sym same) ∙ refusal in
        refused lib m c store now ws f r no'
        ∙ ap
            (λ b. accept_all (reader_window c ws r) (
              if b && ((handle_parsed lib m c (some store) now ws f).0.header.reader_id == r)
              then (handle_parsed lib m c (some store) now ws f).0.header.seq ∷ []
              else []))
            (sym no'))

  step_window :
      (store : AccessStore) (now : ℕ) (ws : Windows) (bytes : List ℕ) (r : ℕ)
      → c.anti_replay_enabled ≡ true
      → Counted r ws (handle lib m c (some store) now ws bytes)
  unfolding Counted
  step_window store now ws bytes r on =
      elim (Bool-cases (handle lib m c (some store) now ws bytes).0.allow) [
        | inl allowed ↦
            let (f, plaintext, p, a) = (handle-allow_iff lib m c store now ws bytes).0 allowed in
            subst (Counted r ws) (sym (handle_accepts lib m c store now ws bytes f plaintext p a))
              (accepted-Counted store now ws f plaintext r on a)
        | inr refusal ↦ elim (Result-cases (parse_frame bytes c.max_ct_len)) [
          | inl (f, p) ↦ refused_step store now ws f bytes r p refusal
          | inr (e, p) ↦
              subst (Counted r ws) (sym (handle-err store now ws bytes e p))
                (unfold counted make_error accept_all in refl)
        ]
      ]

  -- With the replay check on, the window of a reader after any history of calls is what
  -- `ReplayWindow::accept` makes of the numbers of that reader's accepted frames, in their order:
  -- refused lib m c frames and other readers' frames leave no trace in it.
  pub reader_window-run :
      (store : AccessStore) (ws : Windows) (calls : List Call) (r : ℕ)
      → c.anti_replay_enabled ≡ true
      → reader_window c (run store ws calls) r
        ≡ accept_all (reader_window c ws r) (seqs_of store ws calls r)
  unfolding run seqs_of accept_all
  reader_window-run store ws [] r on = refl
  reader_window-run store ws (call ∷ calls) r on =
      let next = handle lib m c (some store) call.now ws call.bytes in
      let step : reader_window c next.1 r
          ≡ accept_all (reader_window c ws r) (accepted_seq store ws call r) =
        unfold Counted accepted_seq in step_window store call.now ws call.bytes r on in
      reader_window-run store next.1 calls r on
      ∙ (ap (λ w. accept_all w (seqs_of store next.1 calls r)) step
          ∙ sym (
              accept_all-append (reader_window c ws r) (accepted_seq store ws call r)
                (seqs_of store next.1 calls r)))
