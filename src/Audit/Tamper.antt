-- ===== src/Audit/Tamper.antt =====
-- What a verified log says of its rows.
use mathlib.Core.Path.{subst}
use access_security_system_e.Common.{
  ℕ, ◌≡◌, ◌≢◌, refl, ap, sym, ◌∙◌, true, false, none, some, List, [], ◌∷◌, ◌++◌, ◌⊎◌, inl, inr,
  length, bytes_eq, bytes_eq_sound, bytes_eq_refl, arith, Bool-cases, Option-cases, append-cancel,
  append-nil, All,
}
use access_security_system_e.Crypto.{Sodium}
use access_security_system_e.Audit.Encoding.{IsRow, IsSameEvent, event_bytes_split}
use access_security_system_e.Audit.Verified.{verified_rows}
use access_security_system_e.Audit.{
  AuditRow, AuditDb, event_bytes, zeros, VerifyResult, verified, compute_entry_hash, verify_row,
  verify_rows, verify_audit_chain,
}

none-some {ℓ} : {A : Type ℓ} {a : A} → some a ≡ none → ⊥
none-some e = cc

inl-inr : {a : VerifyResult} {b : List ℕ} → ◌≡◌ {A = VerifyResult ⊎ List ℕ} (inl a) (inr b) → ⊥
inl-inr e = cc

inr-inj : {a b : List ℕ} → ◌≡◌ {A = VerifyResult ⊎ List ℕ} (inr a) (inr b) → a ≡ b
inr-inj e = cc

-- The rows from the last to the first.
abbrev back : List AuditRow → List AuditRow → List AuditRow
back [] acc = acc
back (r ∷ rows) acc = back rows (r ∷ acc)

true-false : true ≡ false → ⊥
true-false e = cc

differ : (a b : List ℕ) → bytes_eq a b ≡ false → a ≡ b → ⊥
differ a b e same = true-false (sym (bytes_eq_refl b) ∙ ap (λ o. bytes_eq o b) (sym same) ∙ e)

module _ (lib : Sodium) (key : List ℕ) where
  -- Two different messages with one HMAC, or a message whose HMAC is the hash before the first row.
  pub data Collision : Type 0 where
    two : (a b : List ℕ) → a ≢ b → lib.hmac_sha256 key a ≡ lib.hmac_sha256 key b → Collision
    zero_mac : (a : List ℕ) → lib.hmac_sha256 key a ≡ zeros → Collision

  record IsLinked (row : AuditRow) (last : List ℕ) : Type 0 where
    pub ends : row.fields.stored_entry ≡ last
    pub prev_length : length row.fields.stored_prev ≡ 32
    pub hashed : last ≡ lib.hmac_sha256 key (row.fields.stored_prev ++ event_bytes row.fields)

  -- A chain from its last row back to the hash before the first.
  abbrev IsChain : List AuditRow → List ℕ → Type 0
  IsChain [] last = last ≡ zeros
  IsChain (row ∷ rows) last = IsLinked row last × IsChain rows row.fields.stored_prev

  linked :
      (row : AuditRow) (prev : List ℕ)
      → verify_row lib key row prev ≡ none
      → (row.fields.stored_prev ≡ prev) × IsLinked row row.fields.stored_entry
  unfolding verify_row compute_entry_hash
  linked row prev h =
      let x = row.fields in
      let p : bytes_eq x.stored_prev prev ≡ true = ground arith in
      let e : bytes_eq x.stored_entry (compute_entry_hash lib key prev x) ≡ true = ground arith in
      let same = bytes_eq_sound x.stored_prev prev p in
      (
        same,
        record {
          ends = refl;
          prev_length = ground arith;
          hashed =
              bytes_eq_sound x.stored_entry (compute_entry_hash lib key prev x) e
              ∙ ap (λ o. lib.hmac_sha256 key (o ++ event_bytes x)) (sym same);
        },
      )

  back-IsChain :
      (rows acc : List AuditRow) (prev last : List ℕ)
      → verify_rows lib key rows prev ≡ inr last
      → IsChain acc prev
      → IsChain (back rows acc) last
  unfolding verify_rows
  back-IsChain [] acc prev last h c = subst (IsChain acc) (inr-inj h) c
  back-IsChain (row ∷ rows) acc prev last h c = elim (Option-cases (verify_row lib key row prev)) [
    | inr (why, e) ↦ absurd (inl-inr (rw (verify_rows, e) at h))
    | inl e ↦
        let (same, link) = linked row prev e in
        back-IsChain rows (row ∷ acc) row.fields.stored_entry last (rw (verify_rows, e) at h)
          (link, subst (IsChain acc) (sym same) c)
  ]

  -- The rows of two logs record the same events, one by one.
  abbrev pub IsSameLog : List AuditRow → List AuditRow → Type 0
  IsSameLog [] [] = Unit
  IsSameLog [] (y ∷ ys) = ⊥
  IsSameLog (x ∷ xs) [] = ⊥
  IsSameLog (x ∷ xs) (y ∷ ys) = IsSameEvent x.fields y.fields × IsSameLog xs ys

  compare_rows :
      (x y : AuditRow) (last : List ℕ)
      → IsRow x.fields
      → IsRow y.fields
      → IsLinked x last
      → IsLinked y last
      → (IsSameEvent x.fields y.fields × (x.fields.stored_prev ≡ y.fields.stored_prev)) ⊎ Collision
  compare_rows x y last p q k l =
      let a = x.fields.stored_prev ++ event_bytes x.fields in
      let b = y.fields.stored_prev ++ event_bytes y.fields in
      elim (Bool-cases (bytes_eq a b)) [
        | inr e ↦ inr (two a b (λ same. differ a b e same) (sym k.hashed ∙ l.hashed))
        | inl e ↦
            let (prev, bytes) =
              append-cancel x.fields.stored_prev y.fields.stored_prev _ _
                (k.prev_length ∙ sym l.prev_length) (bytes_eq_sound a b e) in
            inl (event_bytes_split x.fields y.fields p q bytes, prev)
      ]

  compare_chains :
      (xs ys : List AuditRow) (last : List ℕ)
      → All (λ r. IsRow r.fields) xs
      → All (λ r. IsRow r.fields) ys
      → IsChain xs last
      → IsChain ys last
      → IsSameLog xs ys ⊎ Collision
  compare_chains [] [] last p q k l = inl tt
  compare_chains [] (y ∷ ys) last p q k l = inr (zero_mac _ (sym l.0.hashed ∙ k))
  compare_chains (x ∷ xs) [] last p q k l = inr (zero_mac _ (sym k.0.hashed ∙ l))
  compare_chains (x ∷ xs) (y ∷ ys) last p q k l = elim (compare_rows x y last p.0 q.0 k.0 l.0) [
    | inr c ↦ inr c
    | inl (same, prev) ↦
        elim (compare_chains xs ys y.fields.stored_prev p.1 q.1 (subst (IsChain xs) prev k.1) l.1) [
          | inr c ↦ inr c
          | inl rest ↦ inl (same, rest)
        ]
  ]

  IsSameLog-back :
      (xs ys a b : List AuditRow)
      → IsSameLog xs ys
      → IsSameLog a b
      → IsSameLog (back xs a) (back ys b)
  IsSameLog-back [] [] a b h k = k
  IsSameLog-back [] (y ∷ ys) a b h k = absurd h
  IsSameLog-back (x ∷ xs) [] a b h k = absurd h
  IsSameLog-back (x ∷ xs) (y ∷ ys) a b h k = IsSameLog-back xs ys (x ∷ a) (y ∷ b) h.1 (h.0, k)

  back_twice : (xs a b : List AuditRow) → back (back xs a) b ≡ back a (xs ++ b)
  back_twice [] a b = refl
  back_twice (x ∷ xs) a b = back_twice xs (x ∷ a) b

  back-back : (xs : List AuditRow) → back (back xs []) [] ≡ xs
  back-back xs = back_twice xs [] [] ∙ append-nil xs

  rows-back :
      (xs a : List AuditRow)
      → All (λ r. IsRow r.fields) xs
      → All (λ r. IsRow r.fields) a
      → All (λ r. IsRow r.fields) (back xs a)
  rows-back [] a h k = k
  rows-back (x ∷ xs) a h k = rows-back xs (x ∷ a) h.1 (h.0, k)

  module _ {S : Type 0} (db : AuditDb S) where
    -- The log is evident of tampering: two databases that verify under one key with the same
    -- anchor record the same events in the same order, or two different messages are known with
    -- one HMAC, or one whose HMAC is the 32 zero bytes. A row that is changed, inserted, removed or
    -- moved is found unless the anchor changes with it.
    pub verified-IsSameLog :
        (s t : S) (anchor : List ℕ)
        → All (λ r. IsRow r.fields) (db.rows s)
        → All (λ r. IsRow r.fields) (db.rows t)
        → verify_audit_chain lib key db s ≡ verified
        → verify_audit_chain lib key db t ≡ verified
        → db.anchor s ≡ some anchor
        → db.anchor t ≡ some anchor
        → IsSameLog (db.rows s) (db.rows t) ⊎ Collision
    verified-IsSameLog s t anchor p q v w a b =
        let left =
          back-IsChain (db.rows s) [] zeros anchor (verified_rows lib key db s anchor v a) refl in
        let right =
          back-IsChain (db.rows t) [] zeros anchor (verified_rows lib key db t anchor w b) refl in
        elim (compare_chains (back (db.rows s) []) (back (db.rows t) []) anchor
          (rows-back (db.rows s) [] p tt) (rows-back (db.rows t) [] q tt) left right) [
            | inr c ↦ inr c
            | inl same ↦ inl (
                subst (λ o. IsSameLog o (db.rows t)) (back-back (db.rows s))
                  (subst (λ o. IsSameLog (back (back (db.rows s) []) []) o) (back-back (db.rows t))
                    (IsSameLog-back _ _ [] [] same tt)))
          ]
