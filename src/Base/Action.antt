-- ===== src/Base/Action.antt =====
-- A method of an object with state `S`: it changes the state, and returns or traps. The state
-- that a trap had reached is kept, since what was written stays written. A proof that runs an
-- action unfolds `do_blocks`; one that goes by rules leaves the actions shut.
use mathlib.Core.Path.{◌≡◌, refl}
use mathlib.Core.Bool.{Bool, true, false}
use mathlib.Core.List.{List, [], ◌∷◌}
use anraft.Base.Results.{Outcome, Fault, ret, trap}
use native.Mathlib.Omega.{arith}

abbrev pub Action : Type 0 → Type 0 → Type 0
Action S A = S → Outcome A × S

infixl 5 ◌>>=◌ ◌>>◌
unfoldable pub ◌>>=◌ : {S A B : Type 0} → Action S A → (A → Action S B) → Action S B
◌>>=◌ m f s = let (r, s') = m s in elim r [ ret a ↦ f a s' | trap e ↦ (trap e, s') ]

unfoldable pub ◌>>◌ : {S A B : Type 0} → Action S A → Action S B → Action S B
unfolding ◌>>=◌
m >> k = m >>= λ _. k

module _ {S : Type 0} where
  unfoldable pub pure : {A : Type 0} → A → Action S A
  pure a s = (ret a, s)

  -- A computation that only reads the state.
  unfoldable pub reads : {A : Type 0} → (S → Outcome A) → Action S A
  reads f s = (f s, s)

  unfoldable pub gets : {A : Type 0} → (S → A) → Action S A
  gets f s = (ret (f s), s)

  unfoldable pub modify : (S → S) → Action S (Unit {0})
  modify f s = (ret tt, f s)

  unfoldable pub skip : Action S (Unit {0})
  skip s = (ret tt, s)

  -- `if (c) { m }`, and the other way round.
  unfoldable pub when : Bool → Action S (Unit {0}) → Action S (Unit {0})
  unfolding skip
  when true m = m
  when false m = skip

  -- `for (auto &x : xs) { body }`
  unfoldable pub for_each : {A : Type 0} → List A → (A → Action S (Unit {0})) → Action S (Unit {0})
  for_each [] body = skip
  for_each (x ∷ xs) body = body x >> for_each xs body

-- All that a do block is made of, but for the loop.
unfoldable pub do_blocks : Unit {0}
unfolding ◌>>=◌ ◌>>◌ pure reads gets modify skip when
do_blocks = tt

-- One step of an action, with the rest left shut.
module _ {S A B : Type 0} where
  pub bind_ret :
      (m : Action S A) (f : A → Action S B) (s : S) {a : A} {t : S}
      → m s ≡ (ret a, t)
      → (m >>= f) s ≡ f a t
  unfolding ◌>>=◌
  bind_ret m f s h = ground arith

  pub then_ret :
      (m : Action S A) (k : Action S B) (s : S) {a : A} {t : S}
      → m s ≡ (ret a, t)
      → (m >> k) s ≡ k t
  unfolding ◌>>◌ ◌>>=◌
  then_ret m k s h = bind_ret m (λ _. k) s h

  pub then_trap :
      (m : Action S A) (k : Action S B) (s : S) {e : Fault} {t : S}
      → m s ≡ (trap e, t)
      → (m >> k) s ≡ (trap e, t)
  unfolding ◌>>◌ ◌>>=◌
  then_trap m k s h = ground arith

module _ {S : Type 0} where
  pub reads_ret :
      {A : Type 0} (f : S → Outcome A) (s : S) {a : A} → f s ≡ ret a → reads f s ≡ (ret a, s)
  unfolding reads
  reads_ret f s h = rw h refl

  pub gets_ret : {A : Type 0} (f : S → A) (s : S) → gets f s ≡ (ret (f s), s)
  unfolding gets
  gets_ret f s = refl

  pub modify_ret : (g : S → S) (s : S) → modify g s ≡ (ret tt, g s)
  unfolding modify
  modify_ret g s = refl
