-- ===== src/Base/Results.antt =====
-- What a C++ function does: it returns, or it comes to a point whose behaviour is undefined. A
-- `trap` names the kind of that point; nothing after it is executed.
use Prim.Native.Nat.{ℕ, ◌-◌, ◌≤◌, ◌<◌}
use mathlib.Core.Path.{◌≡◌, refl}
use mathlib.Core.Logic.{◌⊎◌, inl, inr}
use mathlib.Core.Option.{Option, none, some}
use mathlib.Core.List.{List}
use native.Mathlib.Omega.{arith}
use anraft.Base.Tests.{ltb, if◌then◌else◌}
use anraft.Base.Lists.{length, get_elem?, take, drop}

pub data Fault : Type 0 where
  -- control flows off the end of a function that returns a value
  missing_return : Fault
  -- a read of a variable that nothing has assigned
  uninitialised : Fault
  -- a vector or an iterator is used outside its bounds
  out_of_range : Fault
  -- an empty std::function is called
  bad_function_call : Fault
  -- a null or wrongly typed pointer is read
  bad_pointer : Fault
  -- shared_from_this() of an object that no std::shared_ptr owns
  bad_weak_ptr : Fault

pub data Outcome {ℓ} (A : Type ℓ) : Type ℓ where
  ret : A → Outcome A
  trap : Fault → Outcome A

infixl 5 ◌>>=◌ ◌>>◌
abbrev pub ◌>>=◌ {ℓ κ} : {A : Type ℓ} {B : Type κ} → Outcome A → (A → Outcome B) → Outcome B
ret a >>= f = f a
trap e >>= f = trap e

abbrev pub ◌>>◌ {ℓ κ} : {A : Type ℓ} {B : Type κ} → Outcome A → Outcome B → Outcome B
m >> k = m >>= λ _. k

module _ {ℓ} {A : Type ℓ} where
  abbrev pub or_trap : Option A → Fault → Outcome A
  or_trap none e = trap e
  or_trap (some a) e = ret a

  -- `v[i]` of a vector.
  abbrev pub at : List A → ℕ → Outcome A
  at xs i = or_trap (get_elem? xs i) out_of_range

  -- The iterator range `[v.begin() + first, v.begin() + last)` of a vector: both ends must lie
  -- in the vector, in this order.
  abbrev pub range : ℕ → ℕ → List A → Outcome (List A)
  range first last xs =
      if ltb (length xs) last
      then trap out_of_range
      else if ltb last first
      then trap out_of_range
      else ret (take (last - first) (drop first xs))

  pub Outcome-cases : (m : Outcome A) → ((a : A) × (m ≡ ret a)) ⊎ ((e : Fault) × (m ≡ trap e))
  Outcome-cases (ret a) = inl (a, refl)
  Outcome-cases (trap e) = inr (e, refl)

module _ {A : Type 0} where
  -- Within the vector a range is defined, and beyond it is not.
  pub range_inside :
      (first last : ℕ) (xs : List A)
      → first ≤ last
      → last ≤ length xs
      → range first last xs ≡ ret (take (last - first) (drop first xs))
  range_inside first last xs h k = ground arith

  pub range_outside :
      (first last : ℕ) (xs : List A)
      → (length xs < last) ⊎ (last < first)
      → range first last xs ≡ trap out_of_range
  range_outside first last xs h = ground arith
