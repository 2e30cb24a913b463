-- ===== src/Crypto/Hkdf.antt =====
-- crypto_lib/src/hkdf.cpp (HKDF with HMAC-SHA-256) and hmac_sha256 of crypto_utils.cpp.
use Prim.Native.Nat.{min}
use access_security_system_e.Common.{
  ℕ, zero, suc, ◌+◌, ◌-◌, ◌*◌, ◌/◌, ◌%◌, ◌≤◌, ◌≡◌, refl, ap, sym, ◌∙◌, false, inl, inr, Bool-cases,
  Option, none, some, List, [], ◌∷◌, ◌++◌, arith, length, take, replicate, ltb, if◌then◌else◌,
  length-append, length-take_of_le, le→ltb, ltb→lt, take_all,
}
use access_security_system_e.Crypto.{Sodium, HasHmacLength}

abbrev hash_len : ℕ
hash_len = 32

module _ (lib : Sodium) where
  -- Hkdf::extract
  unfoldable pub extract : List ℕ → List ℕ → List ℕ
  extract ikm [] = lib.hmac_sha256 (replicate 32 0) ikm
  extract ikm (b ∷ salt) = lib.hmac_sha256 (b ∷ salt) ikm

  unfoldable pub compute_block_count : ℕ → ℕ
  compute_block_count output_len = (output_len + hash_len - 1) / hash_len

  pub record Expansion : Type 0 where
    pub okm : List ℕ
    pub prev_block : List ℕ

  -- Hkdf::expandBlock: the HMAC over the previous block, the info and the block's number; then
  -- finalizeAndAppend.
  unfoldable pub expand_block : List ℕ → List ℕ → ℕ → ℕ → Expansion → Expansion
  expand_block prk info output_len block_index s =
      let block = lib.hmac_sha256 prk (s.prev_block ++ (info ++ (block_index % 256) ∷ [])) in
      let to_copy = min hash_len (output_len - length s.okm) in
      record { okm = s.okm ++ take to_copy block; prev_block = block }

  -- The loop of `derive`, for `n` rounds from block `i`.
  unfoldable pub derive_loop : ℕ → ℕ → List ℕ → List ℕ → ℕ → Expansion → Expansion
  derive_loop zero i prk info output_len s = s
  derive_loop (suc n) i prk info output_len s =
      derive_loop n (suc i) prk info output_len (expand_block prk info output_len i s)

  -- Hkdf(ikm, salt, info, outputLen).derive(); `none` is the exception for a length of more than
  -- 255 blocks.
  unfoldable pub derive : List ℕ → List ℕ → List ℕ → ℕ → Option (List ℕ)
  unfolding derive_loop expand_block extract compute_block_count
  derive ikm salt info output_len =
      let blocks = compute_block_count output_len in
      let prk = extract ikm salt in
      if ltb 255 blocks
      then none
      else some
          (derive_loop blocks 1 prk info output_len (record { okm = []; prev_block = [] })).okm

  -- RFC 5869: block `i` of the expansion, and the blocks one after the other.
  pub block : List ℕ → List ℕ → ℕ → List ℕ
  block prk info zero = []
  block prk info (suc i) = lib.hmac_sha256 prk (block prk info i ++ (info ++ (suc i % 256) ∷ []))

  pub blocks : List ℕ → List ℕ → ℕ → List ℕ
  blocks prk info zero = []
  blocks prk info (suc n) = blocks prk info n ++ block prk info (suc n)

  module _ (law : HasHmacLength lib) where
    length-block : (prk info : List ℕ) (i : ℕ) → length (block prk info (suc i)) ≡ 32
    unfolding block
    length-block prk info i = law.hmac_length prk _

    length-blocks : (prk info : List ℕ) (n : ℕ) → length (blocks prk info n) ≡ 32 * n
    unfolding blocks
    length-blocks prk info zero = omega arith
    length-blocks prk info (suc n) = omega (
      arith,
      length-append (blocks prk info n) (block prk info (suc n)),
      length-block prk info n,
      length-blocks prk info n,
    )

    le_of_ltb : (a b : ℕ) → ltb a b ≡ false → b ≤ a
    le_of_ltb a b h = ground arith

    take_count : (ys : List ℕ) (m n : ℕ) → m ≡ n → take m ys ≡ take n ys
    take_count ys m n e = ap (λ k. take k ys) e

    take_past : (n : ℕ) (xs ys : List ℕ) → take n (xs ++ ys) ≡ take n xs ++ take (n - length xs) ys
    take_past zero [] ys = take_count ys 0 (0 - 0) (omega arith)
    take_past zero (x ∷ xs) ys = take_count ys 0 (0 - suc (length xs)) (omega arith)
    take_past (suc n) [] ys = take_count ys (suc n) (suc n - 0) (omega arith)
    take_past (suc n) (x ∷ xs) ys = ap (◌∷◌ x) (
        take_past n xs ys
        ∙ ap (◌++◌ (take n xs))
            (take_count ys (n - length xs) (suc n - suc (length xs)) (omega arith)))

    take_room :
        (n : ℕ) (xs ys : List ℕ)
        → length ys ≡ 32
        → take (min hash_len (n - length (take n xs))) ys ≡ take (n - length xs) ys
    take_room n xs ys h = elim (Bool-cases (ltb n (length xs))) [
      | inl e ↦ take_count ys _ _ (
          omega (
            arith,
            length-take_of_le n xs (omega (arith, ltb→lt n (length xs) e)),
            ltb→lt n (length xs) e,
          ))
      | inr e ↦
          rw (take_all n xs (le_of_ltb n (length xs) e))
            (elim (Bool-cases (ltb 32 (n - length xs))) [
              | inl f ↦
                  take_count ys _ 32 (omega (arith, ltb→lt 32 (n - length xs) f))
                  ∙ (take_all 32 ys (omega arith)
                      ∙ sym (
                          take_all (n - length xs) ys (omega (arith, ltb→lt 32 (n - length xs) f))))
              | inr f ↦ take_count ys _ _ (omega (arith, le_of_ltb 32 (n - length xs) f))
            ])
    ]

    expand_block_lem :
        (prk info : List ℕ) (output_len i : ℕ)
        → expand_block prk info output_len
            (suc i)
            (record { okm = take output_len (blocks prk info i); prev_block = block prk info i })
          ≡ record {
            okm = take output_len (blocks prk info (suc i));
            prev_block = block prk info (suc i);
          }
    unfolding expand_block blocks block
    expand_block_lem prk info output_len i =
        let b = block prk info (suc i) in
        ap (λ okm. record { okm = okm; prev_block = b })
          (ap (◌++◌ (take output_len (blocks prk info i)))
              (take_room output_len (blocks prk info i) b (length-block prk info i))
            ∙ sym (take_past output_len (blocks prk info i) b))

    derive_loop_lem :
        (prk info : List ℕ) (output_len n i : ℕ)
        → derive_loop n
            (suc i)
            prk
            info
            output_len
            (record { okm = take output_len (blocks prk info i); prev_block = block prk info i })
          ≡ record {
            okm = take output_len (blocks prk info (i + n));
            prev_block = block prk info (i + n);
          }
    unfolding derive_loop
    derive_loop_lem prk info output_len zero i =
        ap
          (λ k. record { okm = take output_len (blocks prk info k); prev_block = block prk info k })
          (omega arith)
    derive_loop_lem prk info output_len (suc n) i = rw (expand_block_lem prk info output_len i) (
        derive_loop_lem prk info output_len n (suc i)
        ∙ ap
            (λ k. record {
              okm = take output_len (blocks prk info k);
              prev_block = block prk info k;
            })
            (omega arith))

    take_nil : (n : ℕ) → take {A = ℕ} n [] ≡ []
    take_nil zero = refl
    take_nil (suc n) = refl

    derive_loop_all :
        (prk info : List ℕ) (output_len n : ℕ)
        → (derive_loop n 1 prk info output_len (record { okm = []; prev_block = [] })).okm
          ≡ take output_len (blocks prk info n)
    unfolding blocks block
    derive_loop_all prk info output_len n =
        ap (λ z. (derive_loop n 1 prk info output_len (record { okm = z; prev_block = [] })).okm)
          (sym (take_nil output_len))
        ∙ (ap (λ s. s.okm) (derive_loop_lem prk info output_len n 0)
            ∙ ap (λ k. take output_len (blocks prk info k)) {x = 0 + n} {y = n} (omega arith))

    -- Where an HMAC has 32 bytes, the code's loop yields, for every length that it accepts, the
    -- first bytes of the blocks that RFC 5869 defines; it refuses exactly the lengths of more than
    -- 255 blocks.
    pub derive-blocks :
        (ikm salt info : List ℕ) (output_len : ℕ)
        → let n = compute_block_count output_len in
          derive ikm salt info output_len
          ≡ (if ltb 255 n then none else some (take output_len (blocks (extract ikm salt) info n)))
    unfolding derive
    derive-blocks ikm salt info output_len =
        let n = compute_block_count output_len in
        ap (λ s. if ltb 255 n then none else some s)
          (derive_loop_all (extract ikm salt) info output_len n)

    -- Where an HMAC has 32 bytes, a derivation of up to 255 blocks succeeds and gives as many
    -- bytes as it was asked for.
    pub length-derive :
        (ikm salt info : List ℕ) (output_len : ℕ)
        → output_len ≤ 255 * 32
        → (okm : List ℕ) × (derive ikm salt info output_len ≡ some okm) × (length okm ≡ output_len)
    unfolding compute_block_count
    length-derive ikm salt info output_len h =
        let n = compute_block_count output_len in
        let fits : (output_len ≤ 32 * n) × (ltb 255 n ≡ false) =
          (omega arith, le→ltb 255 n (omega arith)) in
        let prk = extract ikm salt in
        (
          take output_len (blocks prk info n),
          rw (derive-blocks ikm salt info output_len, fits.1) refl,
          length-take_of_le output_len (blocks prk info n)
              (omega (arith, length-blocks prk info n, fits.0)),
        )
