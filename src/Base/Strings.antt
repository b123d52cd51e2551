-- ===== src/Base/Strings.antt =====
-- Strings as lists of bytes: their comparison, the bytes of a word, and decimal digits.
use Prim.Native.Nat.{ℕ, zero, suc, ◌-◌, ◌+◌, ◌*◌, ◌/◌, ◌%◌, ◌<◌}
use mathlib.Core.Path.{◌≡◌, refl, ap, ◌∙◌}
use mathlib.Core.Bool.{Bool, true, false, ◌&&◌}
use mathlib.Core.List.{List, [], ◌∷◌, ◌++◌}
use mathlib.Core.Logic.{inl, inr}
use native.Mathlib.Omega.{arith}
use anraft.Base.Tests.{ltb, ◌==◌, if◌then◌else◌, Bool-cases}
use anraft.Base.Lists.{length}

abbrev pub Bytes : Type 0
Bytes = List ℕ

abbrev pub same_bytes : Bytes → Bytes → Bool
same_bytes [] [] = true
same_bytes [] (y ∷ ys) = false
same_bytes (x ∷ xs) [] = false
same_bytes (x ∷ xs) (y ∷ ys) = (x == y) && same_bytes xs ys

-- `std::string::compare` as `operator<` of the keys of a map.
abbrev pub ltb_bytes : Bytes → Bytes → Bool
ltb_bytes xs [] = false
ltb_bytes [] (y ∷ ys) = true
ltb_bytes (x ∷ xs) (y ∷ ys) = if x == y then ltb_bytes xs ys else ltb x y

pub same_bytes_self : (xs : Bytes) → same_bytes xs xs ≡ true
same_bytes_self [] = refl
same_bytes_self (x ∷ xs) = ground (arith, same_bytes_self xs)

pub same_bytes→eq : (xs ys : Bytes) → same_bytes xs ys ≡ true → xs ≡ ys
same_bytes→eq [] [] h = refl
same_bytes→eq [] (y ∷ ys) h = ground arith
same_bytes→eq (x ∷ xs) [] h = ground arith
same_bytes→eq (x ∷ xs) (y ∷ ys) h = ground (arith, same_bytes→eq xs ys)

-- k bytes of a number, the lowest first, and the number that they stand for.
abbrev pub bytes_of : ℕ → ℕ → Bytes
bytes_of zero n = []
bytes_of (suc k) n = n % 256 ∷ bytes_of k (n / 256)

abbrev pub word_of : ℕ → Bytes → ℕ
word_of zero bs = 0
word_of (suc k) [] = 0
word_of (suc k) (b ∷ bs) = b + 256 * word_of k bs

abbrev pub pow_256 : ℕ → ℕ
pow_256 zero = 1
pow_256 (suc k) = 256 * pow_256 k

pub length-bytes_of : (k n : ℕ) → length (bytes_of k n) ≡ k
length-bytes_of zero n = refl
length-bytes_of (suc k) n = ap suc (length-bytes_of k (n / 256))

pub word_of-bytes_of : (k n : ℕ) → n < pow_256 k → word_of k (bytes_of k n) ≡ n
word_of-bytes_of zero n h = omega arith
word_of-bytes_of (suc k) n h = omega (arith, word_of-bytes_of k (n / 256) (omega arith))

-- The decimal digits of a number below 10 ^ k, and the number that digits stand for.
abbrev pub digits : ℕ → ℕ → Bytes
digits zero n = []
digits (suc k) n = if ltb n 10 then (48 + n) ∷ [] else digits k (n / 10) ++ (48 + n % 10) ∷ []

abbrev pub value_from : ℕ → Bytes → ℕ
value_from a [] = a
value_from a (d ∷ ds) = value_from (10 * a + (d - 48)) ds

value_from-append :
    (a : ℕ) (xs : Bytes) (d : ℕ) → value_from a (xs ++ d ∷ []) ≡ 10 * value_from a xs + (d - 48)
value_from-append a [] d = refl
value_from-append a (x ∷ xs) d = value_from-append (10 * a + (x - 48)) xs d

-- With more digits than the number, none is missing.
pub value_from-digits : (k n : ℕ) → n < k → value_from 0 (digits k n) ≡ n
value_from-digits zero n h = omega arith
value_from-digits (suc k) n h = elim (Bool-cases (ltb n 10)) [
  | inl small ↦ rw small (omega arith)
  | inr large ↦ rw large (
      value_from-append 0 (digits k (n / 10)) (48 + n % 10)
      ∙ (let rest = value_from-digits k (n / 10) (ground arith) in omega (arith, rest)))
]
