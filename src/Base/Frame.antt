-- ===== src/Base/Frame.antt =====
-- What an action does to the state whatever it returns: a preorder between the states before and
-- after. The rules go along the program, and `frame_rules` lets `search` apply them.
use mathlib.Core.Path.{◌≡◌}
use mathlib.Core.Bool.{Bool, true, false}
use mathlib.Core.List.{List, [], ◌∷◌}
use anraft.Base.Tests.{if◌then◌else◌}
use anraft.Base.Results.{Outcome, ret, trap}
use anraft.Base.Action.{
  Action, ◌>>=◌, ◌>>◌, pure, reads, gets, modify, skip, when, for_each, bind_ret,
}

pub record Preorder {S : Type 0} (R : S → S → Type 0) : Type 0 where
  pub reflexive : (s : S) → R s s
  pub transitive : {s t u : S} → R s t → R t u → R s u

-- Each run of the action keeps to the relation.
pub record Keeps {S A : Type 0} (R : S → S → Type 0) (m : Action S A) : Type 0 where
  pub apply : (s : S) → R s (m s).1

module _ {S : Type 0} (R : S → S → Type 0) (o : Preorder R) where
  pub bind-Keeps :
      {A B : Type 0} (m : Action S A) (f : A → Action S B)
      → Keeps R m
      → ((a : A) → Keeps R (f a))
      → Keeps R (m >>= f)
  unfolding ◌>>=◌
  bind-Keeps {A} {B} m f h k = record { apply = λ s. by_outcome s (m s).0 (m s).1 (h.apply s) }
    where
      by_outcome :
          (s : S) (x : Outcome A) (t : S)
          → R s t
          → R s (elim x as (λ _. Outcome B × S) [ ret a ↦ f a t | trap e ↦ (trap e, t) ]).1
      by_outcome s (ret a) t q = o.transitive q ((k a).apply t)
      by_outcome s (trap e) t q = q

  pub then-Keeps :
      {A B : Type 0} (m : Action S A) (n : Action S B) → Keeps R m → Keeps R n → Keeps R (m >> n)
  unfolding ◌>>◌
  then-Keeps m n h k = bind-Keeps m (λ _. n) h (λ _. k)

  -- The rule at one state, where the first action is known to return.
  pub bind_at :
      {A B : Type 0} (m : Action S A) (f : A → Action S B) (s : S) {a : A} {t : S}
      → m s ≡ (ret a, t)
      → R s t
      → R t (f a t).1
      → R s ((m >>= f) s).1
  bind_at m f s e h k = rw (bind_ret m f s e) (o.transitive h k)

  pub then_at :
      {A B : Type 0} (m : Action S A) (k : Action S B) (s : S) {a : A} {t : S}
      → m s ≡ (ret a, t)
      → R s t
      → Keeps R k
      → R s ((m >> k) s).1
  unfolding ◌>>◌
  then_at m k s e h rest = bind_at m (λ _. k) s e h (rest.apply _)

  pub reads-Keeps : {A : Type 0} (f : S → Outcome A) → Keeps R (reads f)
  unfolding reads
  reads-Keeps f = record { apply = λ s. o.reflexive s }

  pub gets-Keeps : {A : Type 0} (f : S → A) → Keeps R (gets f)
  unfolding gets
  gets-Keeps f = record { apply = λ s. o.reflexive s }

  pub pure-Keeps : {A : Type 0} (a : A) → Keeps R (pure a)
  unfolding pure
  pure-Keeps a = record { apply = λ s. o.reflexive s }

  pub pure_bind-Keeps :
      {A B : Type 0} (a : A) (f : A → Action S B) → Keeps R (f a) → Keeps R (pure a >>= f)
  unfolding ◌>>=◌ pure
  pure_bind-Keeps a f h = record { apply = h.apply }

  pub skip-Keeps : Keeps R skip
  unfolding skip
  skip-Keeps = record { apply = λ s. o.reflexive s }

  pub modify-Keeps : (g : S → S) → ((s : S) → R s (g s)) → Keeps R (modify g)
  unfolding modify
  modify-Keeps g h = record { apply = h }

  pub if-Keeps :
      {A : Type 0} (b : Bool) (m n : Action S A)
      → Keeps R m
      → Keeps R n
      → Keeps R (if b then m else n)
  if-Keeps true m n h k = h
  if-Keeps false m n h k = k

  pub when-Keeps : (b : Bool) (m : Action S (Unit {0})) → Keeps R m → Keeps R (when b m)
  unfolding when
  when-Keeps true m h = h
  when-Keeps false m h = skip-Keeps

  pub for_each-Keeps :
      {A : Type 0} (xs : List A) (body : A → Action S (Unit {0}))
      → ((a : A) → Keeps R (body a))
      → Keeps R (for_each xs body)
  unfolding for_each
  for_each-Keeps [] body h = skip-Keeps
  for_each-Keeps (x ∷ xs) body h =
      then-Keeps (body x) (for_each xs body) (h x) (for_each-Keeps xs body h)
