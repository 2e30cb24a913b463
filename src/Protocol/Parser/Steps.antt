-- ===== src/Protocol/Parser/Steps.antt =====
-- The parser's reads, one lemma for reading what was written and one for what a read tells.
use access_security_system_e.Common.{
  ℕ, zero, suc, ◌-◌, ◌≤◌, ◌<◌, ◌≡◌, ◌≢◌, refl, List, [], ◌∷◌, ◌++◌, arith, length, drop, All, leb,
  take-append, drop-append, length-append, length-drop, take-append-drop, length-take_of_le, true,
}
use access_security_system_e.Protocol.Codec.{u32_mod, u64_mod, le32, le64, get_le32, get_le64}
use access_security_system_e.Protocol.Codec.Inverse.{
  IsByte, get_le32-le32, get_le64-le64, le32-get_le32, le64-get_le64, drop-le32, drop-le64,
}
use access_security_system_e.Protocol.Parser.{
  Result, ok, err, out_of_bounds, ◌>>=◌, Ptr, copy_bytes, read_le32, read_le64,
}

-- A successful chain hands on what its first step returned.
pub bind_elim {ℓ κ μ} :
    {A : Type ℓ} {B : Type κ} {P : Type μ} (m : Result A) (f : A → Result B) (b : B)
    → (m >>= f) ≡ ok b
    → ((a : A) → m ≡ ok a → f a ≡ ok b → P)
    → P
bind_elim (ok a) f b h k = k a refl h
bind_elim (err e) f b h k = absurd (cc)

pub ok-inj {ℓ} : {A : Type ℓ} {a b : A} → ok a ≡ ok b → a ≡ b
ok-inj e = cc

abbrev pub NoFault {ℓ} : {A : Type ℓ} → Result A → Type ℓ
NoFault r = r ≢ err out_of_bounds

pub NoFault-bind {ℓ} :
    {A B : Type ℓ} (m : Result A) (f : A → Result B)
    → NoFault m
    → ((a : A) → m ≡ ok a → NoFault (f a))
    → NoFault (m >>= f)
NoFault-bind (ok a) f hm hf = hf a refl
NoFault-bind (err e) f hm hf = λ q. hm (cc)

pub All-drop : (n : ℕ) (p : List ℕ) → All IsByte p → All IsByte (drop n p)
All-drop zero p h = h
All-drop (suc n) [] h = h
All-drop (suc n) (b ∷ p) h = All-drop n p h.1

-- What was written is read back.
pub read_le32-le32 : (v : ℕ) (p : Ptr) → v < u32_mod → read_le32 (le32 v ++ p) ≡ ok (v, p)
unfolding read_le32
read_le32-le32 v p h = rw (get_le32-le32 v p h, drop-le32 v p)

pub read_le64-le64 : (v : ℕ) (p : Ptr) → v < u64_mod → read_le64 (le64 v ++ p) ≡ ok (v, p)
unfolding read_le64
read_le64-le64 v p h = rw (get_le64-le64 v p h, drop-le64 v p)

leb-length : (a p : List ℕ) → leb (length a) (length (a ++ p)) ≡ true
leb-length a p = ground (arith, length-append a p)

pub copy_bytes-append : (n : ℕ) (a p : List ℕ) → length a ≡ n → copy_bytes n (a ++ p) ≡ ok (a, p)
unfolding copy_bytes
copy_bytes-append n a p h = rw (← h, leb-length a p, take-append a p, drop-append a p)

-- What a successful read tells of the bytes.
pub read_le32_inv :
    (p : Ptr) (v : ℕ) (q : Ptr)
    → All IsByte p
    → read_le32 p ≡ ok (v, q)
    → (le32 v ++ q ≡ p) × All IsByte q × (v < u32_mod)
unfolding read_le32
read_le32_inv p v q h e = ground (arith, le32-get_le32 p v h, All-drop 4 p h)

pub read_le64_inv :
    (p : Ptr) (v : ℕ) (q : Ptr)
    → All IsByte p
    → read_le64 p ≡ ok (v, q)
    → (le64 v ++ q ≡ p) × All IsByte q × (v < u64_mod)
unfolding read_le64
read_le64_inv p v q h e = ground (arith, le64-get_le64 p v h, All-drop 8 p h)

pub copy_bytes_inv :
    (n : ℕ) (p : Ptr) (a q : List ℕ)
    → All IsByte p
    → copy_bytes n p ≡ ok (a, q)
    → (a ++ q ≡ p) × All IsByte q × (length a ≡ n)
unfolding copy_bytes
copy_bytes_inv n p a q h e =
    ground (arith, take-append-drop n p, All-drop n p h, length-take_of_le n p)

-- A read within the buffer does not fault, and moves the pointer by its width.
pub read_le32-NoFault : (p : Ptr) → 4 ≤ length p → NoFault (read_le32 p)
unfolding read_le32 get_le32
read_le32-NoFault (a ∷ b ∷ c ∷ d ∷ p) h = λ e. cc
read_le32-NoFault _ h = absurd (omega arith)

pub read_le64-NoFault : (p : Ptr) → 8 ≤ length p → NoFault (read_le64 p)
unfolding read_le64 get_le64
read_le64-NoFault (a ∷ b ∷ c ∷ d ∷ e ∷ f ∷ g ∷ h ∷ p) l = λ q. cc
read_le64-NoFault _ l = absurd (omega arith)

pub copy_bytes-NoFault : (n : ℕ) (p : Ptr) → n ≤ length p → NoFault (copy_bytes n p)
unfolding copy_bytes
copy_bytes-NoFault n p h = ground arith

pub length-read_le32 : (p : Ptr) (r : ℕ × Ptr) → read_le32 p ≡ ok r → length r.1 ≡ length p - 4
unfolding read_le32
length-read_le32 p r e = ground (arith, length-drop 4 p)

pub length-read_le64 : (p : Ptr) (r : ℕ × Ptr) → read_le64 p ≡ ok r → length r.1 ≡ length p - 8
unfolding read_le64
length-read_le64 p r e = ground (arith, length-drop 8 p)

pub length-copy_bytes :
    (n : ℕ) (p : Ptr) (r : List ℕ × Ptr) → copy_bytes n p ≡ ok r → length r.1 ≡ length p - n
unfolding copy_bytes
length-copy_bytes n p r e = ground (arith, length-drop n p)
