-- ===== src/Audit/Encoding.antt =====
-- The bytes that are hashed determine the event.
use access_security_system_e.Common.{
  ℕ, ◌%◌, ◌<◌, ◌≡◌, refl, ap, sym, ◌∙◌, Bool, List, [], ◌∷◌, ◌++◌, length, if◌then◌else◌, arith,
  append-cancel, some-inj, append_assoc,
}
use access_security_system_e.Protocol.Codec.{
  u32_mod, u64_mod, le32, le64, put_le32, put_le64, get_le32, get_le64,
}
use access_security_system_e.Protocol.Codec.Inverse.{
  length-le32, length-le64, get_le32-le32, get_le64-le64,
}
use access_security_system_e.Audit.{RowFields, put_bytes_with_len, event_bytes}

-- The numbers fit their columns, and the lengths of the texts fit 32 bits.
pub record IsRow (x : RowFields) : Type 0 where
  pub ts_fits : x.ts < u64_mod
  pub reader_fits : x.reader_id < u32_mod
  pub door_fits : x.door_id < u32_mod
  pub seq_fits : x.seq < u64_mod
  pub reason_fits : length x.reason < u32_mod
  pub card_fits : length x.card_hmac < u32_mod
  pub action_fits : length x.action < u32_mod

le64_split :
    (v w : ℕ) (s t : List ℕ)
    → v < u64_mod
    → w < u64_mod
    → le64 v ++ s ≡ le64 w ++ t
    → (v ≡ w) × (s ≡ t)
le64_split v w s t h k e =
    let (same, rest) =
      append-cancel (le64 v) (le64 w) s t (length-le64 v ∙ sym (length-le64 w)) e in
    (some-inj (sym (get_le64-le64 v s h) ∙ ap get_le64 e ∙ get_le64-le64 w t k), rest)

le32_split :
    (v w : ℕ) (s t : List ℕ)
    → v < u32_mod
    → w < u32_mod
    → le32 v ++ s ≡ le32 w ++ t
    → (v ≡ w) × (s ≡ t)
le32_split v w s t h k e =
    let (same, rest) =
      append-cancel (le32 v) (le32 w) s t (length-le32 v ∙ sym (length-le32 w)) e in
    (some-inj (sym (get_le32-le32 v s h) ∙ ap get_le32 e ∙ get_le32-le32 w t k), rest)

-- A text after its length.
abbrev counted : List ℕ → List ℕ
counted s = le32 (length s % u32_mod) ++ s

counted_split :
    (a b s t : List ℕ)
    → length a < u32_mod
    → length b < u32_mod
    → counted a ++ s ≡ counted b ++ t
    → (a ≡ b) × (s ≡ t)
counted_split a b s t h k e =
    let n = length a % u32_mod in
    let m = length b % u32_mod in
    let split : le32 n ++ (a ++ s) ≡ le32 m ++ (b ++ t) =
      sym (append_assoc (le32 n) a s) ∙ e ∙ append_assoc (le32 m) b t in
    let (same, rest) = le32_split n m (a ++ s) (b ++ t) (omega arith) (omega arith) split in
    append-cancel a b s t (omega (arith, same)) rest

-- The bytes of an event, from the front.
abbrev layout : RowFields → List ℕ
layout x =
    le64 x.ts
    ++ (le32 x.reader_id
        ++ (le32 x.door_id
            ++ (le64 x.seq
                ++ ((if x.allow then 1 else 0) ∷ []
                    ++ (counted x.reason ++ (counted x.card_hmac ++ counted x.action))))))

event_bytes-layout : (x : RowFields) → event_bytes x ≡ layout x
unfolding event_bytes put_bytes_with_len put_le32 put_le64
event_bytes-layout x = simp append_assoc refl

allow_byte : (a b : Bool) → ◌≡◌ {A = ℕ} (if a then 1 else 0) (if b then 1 else 0) → a ≡ b
allow_byte a b e = ground arith

-- The fields that the hash covers.
pub record IsSameEvent (x y : RowFields) : Type 0 where
  pub same_ts : x.ts ≡ y.ts
  pub same_reader : x.reader_id ≡ y.reader_id
  pub same_door : x.door_id ≡ y.door_id
  pub same_seq : x.seq ≡ y.seq
  pub same_allow : x.allow ≡ y.allow
  pub same_reason : x.reason ≡ y.reason
  pub same_card : x.card_hmac ≡ y.card_hmac
  pub same_action : x.action ≡ y.action

pub event_bytes_split :
    (x y : RowFields) → IsRow x → IsRow y → event_bytes x ≡ event_bytes y → IsSameEvent x y
event_bytes_split x y p q e =
    let whole : layout x ≡ layout y = sym (event_bytes-layout x) ∙ e ∙ event_bytes-layout y in
    let (ts, e1) = le64_split x.ts y.ts _ _ p.ts_fits q.ts_fits whole in
    let (reader, e2) = le32_split x.reader_id y.reader_id _ _ p.reader_fits q.reader_fits e1 in
    let (door, e3) = le32_split x.door_id y.door_id _ _ p.door_fits q.door_fits e2 in
    let (seq, e4) = le64_split x.seq y.seq _ _ p.seq_fits q.seq_fits e3 in
    let (byte, e5) =
      append-cancel ((if x.allow then 1 else 0) ∷ []) ((if y.allow then 1 else 0) ∷ []) _ _ refl
        e4 in
    let (reason, e6) = counted_split x.reason y.reason _ _ p.reason_fits q.reason_fits e5 in
    let (card, e7) = counted_split x.card_hmac y.card_hmac _ _ p.card_fits q.card_fits e6 in
    let last : counted x.action ++ [] ≡ counted y.action ++ [] = ap (λ o. o ++ []) e7 in
    let (action, e8) = counted_split x.action y.action [] [] p.action_fits q.action_fits last in
    record {
      same_ts = ts;
      same_reader = reader;
      same_door = door;
      same_seq = seq;
      same_allow = allow_byte x.allow y.allow (cc);
      same_reason = reason;
      same_card = card;
      same_action = action;
    }
