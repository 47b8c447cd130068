-- ===== src/Prelude/ByteStrings.antt =====
-- Byte strings as lists of numbers: equality, big-endian words, and what an append determines.
use Prim.Native.Nat.{ℕ, zero, suc, ◌+◌, ◌*◌, ◌/◌, ◌%◌, ◌^◌, ◌<◌}
use mathlib.Core.Path.{◌≡◌, refl, sym, ap, ◌∙◌}
use mathlib.Core.Logic.{◌↔◌}
use mathlib.Core.Bool.{Bool, true, false, ◌&&◌}
use mathlib.Core.List.{List, [], ◌∷◌, ◌++◌, reverse, reverse-cons, reverse-reverse}
use native.Mathlib.Nat.{pow-suc}
use native.Mathlib.Omega.{arith}
use athar.Prelude.Tests.{◌==◌}
use athar.Prelude.Lists.{length, length-append}

abbrev pub Bytes : Type 0
Bytes = List ℕ

unfoldable pub bytes_eq : Bytes → Bytes → Bool
bytes_eq [] [] = true
bytes_eq [] (y ∷ ys) = false
bytes_eq (x ∷ xs) [] = false
bytes_eq (x ∷ xs) (y ∷ ys) = x == y && bytes_eq xs ys

eq_of_bytes_eq : (xs ys : Bytes) → bytes_eq xs ys ≡ true → xs ≡ ys
unfolding bytes_eq
eq_of_bytes_eq [] [] h = refl
eq_of_bytes_eq [] (y ∷ ys) h = cc
eq_of_bytes_eq (x ∷ xs) [] h = cc
eq_of_bytes_eq (x ∷ xs) (y ∷ ys) h = ground (arith, eq_of_bytes_eq xs ys)

pub bytes_eq_refl : (xs : Bytes) → bytes_eq xs xs ≡ true
unfolding bytes_eq
bytes_eq_refl [] = refl
bytes_eq_refl (x ∷ xs) = ground (arith, bytes_eq_refl xs)

pub bytes_eq_iff : (xs ys : Bytes) → (bytes_eq xs ys ≡ true) ↔ (xs ≡ ys)
bytes_eq_iff xs ys = (eq_of_bytes_eq xs ys, λ e. rw e (bytes_eq_refl ys))

-- `to_le_bytes` of a word of k bytes, and `to_be_bytes`.
unfoldable pub le_bytes : ℕ → ℕ → Bytes
le_bytes zero n = []
le_bytes (suc k) n = n % 256 ∷ le_bytes k (n / 256)

unfoldable pub be_bytes : ℕ → ℕ → Bytes
unfolding le_bytes
be_bytes k n = reverse (le_bytes k n)

unfoldable pub le_value : Bytes → ℕ
le_value [] = 0
le_value (b ∷ bs) = b + 256 * le_value bs

-- `from_be_bytes`.
unfoldable pub from_be_bytes : Bytes → ℕ
unfolding le_value
from_be_bytes bs = le_value (reverse bs)

length-le_bytes : (k n : ℕ) → length (le_bytes k n) ≡ k
unfolding le_bytes
length-le_bytes zero n = refl
length-le_bytes (suc k) n = ap suc (length-le_bytes k (n / 256))

length-reverse {ℓ} : {A : Type ℓ} (xs : List A) → length (reverse xs) ≡ length xs
length-reverse [] = refl
length-reverse (x ∷ xs) =
    omega
      (arith, ap length (reverse-cons x xs), length-append (reverse xs) (x ∷ []), length-reverse xs)

pub length-be_bytes : (k n : ℕ) → length (be_bytes k n) ≡ k
unfolding be_bytes
length-be_bytes k n = length-reverse (le_bytes k n) ∙ length-le_bytes k n

le_value-le_bytes : (k n : ℕ) → n < 256 ^ k → le_value (le_bytes k n) ≡ n
unfolding le_bytes le_value
le_value-le_bytes zero n h = omega arith
le_value-le_bytes (suc k) n h =
    let top : n < 256 ^ k * 256 = rw (pow-suc 256 k) at h in
    omega (arith, le_value-le_bytes k (n / 256) (omega arith))

-- A word that fits is read back from its bytes.
pub from_be_bytes-be_bytes : (k n : ℕ) → n < 256 ^ k → from_be_bytes (be_bytes k n) ≡ n
unfolding from_be_bytes be_bytes
from_be_bytes-be_bytes k n h =
    ap le_value (reverse-reverse (le_bytes k n)) ∙ le_value-le_bytes k n h

pub be_bytes-injective :
    (k m n : ℕ) → m < 256 ^ k → n < 256 ^ k → be_bytes k m ≡ be_bytes k n → m ≡ n
be_bytes-injective k m n hm hn e =
    sym (from_be_bytes-be_bytes k m hm) ∙ ap from_be_bytes e ∙ from_be_bytes-be_bytes k n hn

-- Two appends with parts of one length.
pub append_cancel_length {ℓ} :
    {A : Type ℓ} (xs ys : List A) {us vs : List A}
    → length xs ≡ length ys
    → xs ++ us ≡ ys ++ vs
    → (xs ≡ ys) × (us ≡ vs)
append_cancel_length [] [] h e = (refl, e)
append_cancel_length [] (y ∷ ys) h e = absurd (omega arith)
append_cancel_length (x ∷ xs) [] h e = absurd (omega arith)
append_cancel_length (x ∷ xs) (y ∷ ys) {us} {vs} h e =
    let rest = append_cancel_length xs ys {us = us} {vs = vs} (omega arith) (cc) in
    (cc (rest.0), rest.1)
