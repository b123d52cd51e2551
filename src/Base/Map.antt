-- ===== src/Base/Map.antt =====
-- `std::map` with 64-bit keys: an association list in the order of the keys.
use Prim.Native.Nat.{ℕ, suc, ◌<◌, ◌≤◌}
unfoldable use native.Mathlib.Decide.{ℕ_discrete, dec_lt}
use mathlib.Core.Path.{◌≡◌, refl, ap}
use mathlib.Core.Logic.{◌≢◌}
use mathlib.Core.Bool.{Bool, true, false}
use mathlib.Core.Option.{Option, none, some}
use mathlib.Core.List.{List, [], ◌∷◌}
use native.Mathlib.Omega.{arith}
use anraft.Base.Lists.{length}
use anraft.Base.Tests.{ltb, ◌==◌, if◌then◌else◌}

abbrev pub Map {ℓ} : Type ℓ → Type ℓ
Map V = List (ℕ × V)

module _ {ℓ} {V : Type ℓ} where
  -- `m.find(k)`
  abbrev pub find : ℕ → Map V → Option V
  find k [] = none
  find k ((j, v) ∷ m) = if k == j then some v else find k m

  -- `m.find(k) != m.end()`
  abbrev pub contains : ℕ → Map V → Bool
  contains k m = elim (find k m) [ none ↦ false | some _ ↦ true ]

  -- `m[k] = v`
  abbrev pub assign : ℕ → V → Map V → Map V
  assign k v [] = (k, v) ∷ []
  assign k v ((j, w) ∷ m) =
      if k == j then (k, v) ∷ m else if ltb k j then (k, v) ∷ (j, w) ∷ m else (j, w) ∷ assign k v m

  -- `*p = v`, for the pointer to the value at a key.
  abbrev pub replace : ℕ → V → Map V → Map V
  replace k v [] = []
  replace k v ((j, w) ∷ m) = if k == j then (k, v) ∷ m else (j, w) ∷ replace k v m

  abbrev pub keys : Map V → List ℕ
  keys [] = []
  keys ((j, _) ∷ m) = j ∷ keys m

  -- Every key is above the bound, and they ascend.
  abbrev pub Above : ℕ → Map V → Type 0
  Above b [] = Unit {0}
  Above b ((j, _) ∷ m) = (b < j) × Above j m

  abbrev pub IsSorted : Map V → Type 0
  IsSorted [] = Unit {0}
  IsSorted ((j, _) ∷ m) = Above j m

  pub find-assign_self : (k : ℕ) (v : V) (m : Map V) → find k (assign k v m) ≡ some v
  find-assign_self k v [] = ground arith
  find-assign_self k v (e ∷ m) = ground (arith, find-assign_self k v m)

  pub find-assign_ne : (j k : ℕ) (v : V) (m : Map V) → j ≢ k → find j (assign k v m) ≡ find j m
  find-assign_ne j k v [] h = ground arith
  find-assign_ne j k v (e ∷ m) h = ground (arith, find-assign_ne j k v m h)

  pub keys-replace : (k : ℕ) (v : V) (m : Map V) → keys (replace k v m) ≡ keys m
  keys-replace k v [] = refl
  keys-replace k v (e ∷ m) = ground (arith, keys-replace k v m)

  pub replace-Above : (b k : ℕ) (v : V) (m : Map V) → Above b m → Above b (replace k v m)
  replace-Above b k v [] a = tt
  replace-Above b k v ((j, w) ∷ m) a = ground (arith, replace-Above j k v m a.1)

  pub replace-IsSorted : (k : ℕ) (v : V) (m : Map V) → IsSorted m → IsSorted (replace k v m)
  replace-IsSorted k v [] a = tt
  replace-IsSorted k v ((j, w) ∷ m) a = ground (arith, replace-Above j k v m a)

  pub length-replace : (k : ℕ) (v : V) (m : Map V) → length (replace k v m) ≡ length m
  length-replace k v [] = refl
  length-replace k v (e ∷ m) = ground (arith, length-replace k v m)

  pub find-replace_ne : (j k : ℕ) (v : V) (m : Map V) → j ≢ k → find j (replace k v m) ≡ find j m
  find-replace_ne j k v [] h = refl
  find-replace_ne j k v (e ∷ m) h = ground (arith, find-replace_ne j k v m h)

  pub find-replace_self :
      (k : ℕ) (v w : V) (m : Map V) → find k m ≡ some w → find k (replace k v m) ≡ some v
  find-replace_self k v w [] h = ground arith
  find-replace_self k v w (e ∷ m) h = ground (arith, find-replace_self k v w m)

  pub length-keys : (m : Map V) → length m ≡ length (keys m)
  length-keys [] = refl
  length-keys (e ∷ m) = ap suc (length-keys m)

  -- The keys of a map ascend, so none at or below the bound is there.
  pub find_below : (j b : ℕ) (m : Map V) → Above b m → j ≤ b → find j m ≡ none
  find_below j b [] h k = refl
  find_below j b ((i, v) ∷ m) h k =
      ground (arith, find_below j i m h.1 (omega (arith, h.0, k)), h.0)

  pub assign-Above : (b k : ℕ) (v : V) (m : Map V) → b < k → Above b m → Above b (assign k v m)
  assign-Above b k v [] h a = (h, tt)
  assign-Above b k v ((j, w) ∷ m) h a = elim (dec_lt k j) [
    | yes less ↦ before j w m less a
    | no more ↦ elim (ℕ_discrete k j) [
      | yes same ↦ at j w m same a
      | no other ↦ behind j w m more other a (assign-Above j k v m (omega (arith, more, other)) a.1)
    ]
  ]
    where
      before :
          (j : ℕ) (w : V) (m : Map V)
          → k < j
          → Above b ((j, w) ∷ m)
          → Above b (assign k v ((j, w) ∷ m))
      before j w m less a =
          let apart : (k == j) ≡ false = ground arith in
          let first : ltb k j ≡ true = ground arith in rw (apart, first) (h, (less, a.1))

      at :
          (j : ℕ) (w : V) (m : Map V)
          → k ≡ j
          → Above b ((j, w) ∷ m)
          → Above b (assign k v ((j, w) ∷ m))
      at j w m same a = let equal : (k == j) ≡ true = ground arith in rw equal (h, rw same a.1)

      behind :
          (j : ℕ) (w : V) (m : Map V)
          → ¬ (k < j)
          → k ≢ j
          → Above b ((j, w) ∷ m)
          → Above j (assign k v m)
          → Above b (assign k v ((j, w) ∷ m))
      behind j w m more other a rest =
          let apart : (k == j) ≡ false = ground arith in
          let later : ltb k j ≡ false = ground arith in rw (apart, later) (a.0, rest)
