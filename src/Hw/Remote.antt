-- ===== src/Hw/Remote.antt =====
-- The three attempts at the decision service.
use access_security_system_e.Common.{
  ℕ, ◌<◌, ◌≡◌, refl, ap, sym, ◌∙◌, Bool, true, false, none, some, List, [], ◌∷◌, arith, ltb, ◌==◌,
  ==_iff, if◌then◌else◌, inl, inr, Bool-cases, Option-cases, some-inj, All,
}
use access_security_system_e.Engine.{DecisionResult}
use access_security_system_e.Hw.{HwLib}
use access_security_system_e.Common.Text.{codes}
use access_security_system_e.Hw.Process.{read_decision, remote_loop, ask_remote}

-- `value` of a member that is not there is the default, where it is not an exception.
pub record HasDefault {V : Type 0} (hw : HwLib V) : Type 0 where
  pub value_missing :
      (j : V) (key : List ℕ) (default b : Bool)
      → hw.contains j key ≡ false
      → hw.value_bool j key default ≡ some b
      → b ≡ default

module _ {V : Type 0} (hw : HwLib V) (law : HasDefault hw) where
  -- The body of a response with the status 200 to one of the attempts has a member "allow" that is
  -- true, and a reason that is the decision's.
  pub record IsReceived (body : List ℕ) (r : DecisionResult) : Type 0 where
    pub attempt : ℕ
    pub text : List ℕ
    pub value : V
    pub in_time : attempt < 3
    pub received : hw.post attempt body ≡ some (200, text)
    pub parsed : hw.parse text ≡ some value
    pub there : hw.contains value (codes "allow") ≡ true
    pub grants : hw.value_bool value (codes "allow") false ≡ some true
    pub reason : hw.value_text value (codes "reason") "remote_error" ≡ some r.reason

  none-some : {r : DecisionResult} → none ≡ some r → ⊥
  none-some e = cc

  true-false : (b : Bool) → b ≡ true → b ≡ false → ⊥
  true-false b e f = cc

  member_there :
      (j : V) (allow : Bool)
      → hw.value_bool j (codes "allow") false ≡ some allow
      → allow ≡ true
      → hw.contains j (codes "allow") ≡ true
  member_there j allow b granted = elim (Bool-cases (hw.contains j (codes "allow"))) [
    | inl e ↦ e
    | inr e ↦
        absurd (true-false allow granted (law.value_missing j (codes "allow") false allow e b))
  ]

  -- What a decision that grants was read from.
  read_decision_inv :
      (text : List ℕ) (r : DecisionResult)
      → read_decision hw text ≡ some r
      → r.allow ≡ true
      → (j : V) × (hw.parse text ≡ some j)
        × (hw.contains j (codes "allow") ≡ true)
        × (hw.value_bool j (codes "allow") false ≡ some true)
        × (hw.value_text j (codes "reason") "remote_error" ≡ some r.reason)
  unfolding read_decision
  read_decision_inv text r h a = elim (Option-cases (hw.parse text)) [
    | inl p ↦ absurd (none-some (rw (read_decision, p) at h))
    | inr (j, p) ↦ elim (Option-cases (hw.value_bool j (codes "allow") false)) [
      | inl b ↦ absurd (none-some (rw (read_decision, p, b) at h))
      | inr (allow, b) ↦ elim (Option-cases (hw.value_text j (codes "reason") "remote_error")) [
        | inl t ↦ absurd (none-some (rw (read_decision, p, b, t) at h))
        | inr (reason, t) ↦
            (let same : ◌≡◌ {A = DecisionResult} (record { allow = allow; reason = reason }) r =
                some-inj (rw (read_decision, p, b, t) at h) in
              let granted : allow ≡ true = ap (λ o. o.allow) same ∙ a in
              (
                j,
                p,
                member_there j allow b granted,
                b ∙ ap some granted,
                t ∙ ap (λ o. some o.reason) same,
              ))
      ]
    ]
  ]

  remote_loop_inv :
      (body attempts : List ℕ) (r0 r : DecisionResult)
      → All (λ i. i < 3) attempts
      → r0.allow ≡ false
      → remote_loop hw body attempts r0 ≡ some r
      → r.allow ≡ true
      → IsReceived body r
  unfolding remote_loop
  remote_loop_inv body [] r0 r i d h a =
      absurd (true-false r.allow a (ap (λ o. o.allow) (sym (some-inj h)) ∙ d))
  remote_loop_inv body (attempt ∷ rest) r0 r i d h a =
      let unavailable : DecisionResult = record { allow = false; reason = "remote_unavailable" } in
      let next = if ltb attempt 2 then r0 else unavailable in
      let refused : next.allow ≡ false = ground (arith, d) in
      elim (Option-cases (hw.post attempt body)) [
        | inl e ↦ remote_loop_inv body rest next r i.1 refused (rw (remote_loop, e) at h) a
        | inr ((status, text), e) ↦ elim (Bool-cases (status == 200)) [
          | inr n ↦ remote_loop_inv body rest next r i.1 refused (rw (remote_loop, e, n) at h) a
          | inl n ↦
              (let (j, p, there, grants, reason) =
                  read_decision_inv text r (rw (remote_loop, e, n) at h) a in
                record {
                  attempt = attempt;
                  text = text;
                  value = j;
                  in_time = i.0;
                  received = e ∙ ap (λ (k : ℕ). some (k, text)) ((==_iff status 200).0 n);
                  parsed = p;
                  there = there;
                  grants = grants;
                  reason = reason;
                })
        ]
      ]

  -- Over HTTP access is granted only where one of the three attempts received a response with the
  -- status 200 whose body is a value with a member "allow" that is true, under the law that `value`
  -- of a missing member is the default; the reason is the body's, or "remote_error" by default.
  pub ask_remote_grant :
      (body : List ℕ) (r : DecisionResult)
      → ask_remote hw body ≡ some r
      → r.allow ≡ true
      → IsReceived body r
  unfolding ask_remote
  ask_remote_grant body r h a =
      remote_loop_inv body (0 ∷ (1 ∷ (2 ∷ []))) (record { allow = false; reason = "" }) r
        (omega arith, (omega arith, (omega arith, tt))) refl h a
