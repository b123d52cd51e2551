-- ===== src/Unstable/Defs.antt =====
-- The methods of `Unstable`.
use anraft.Base.{
  ℕ, ◌-◌, Bool, true, false, List, [], ◌∷◌, ◌++◌, length, ltb, leb, ◌==◌, if◌then◌else◌, add64,
  sub64, Outcome, ret, trap, out_of_range, ◌>>=◌, range,
}
use anraft.Base.Action.{Action}
use anraft.Proto.{LogEntry, Snapshot}

pub record Unstable : Type 0 where
  pub snapshot : Snapshot
  pub ents : List LogEntry
  pub offset : ℕ

unfoldable pub set_offset : ℕ → Unstable → Unstable
set_offset offset u = record u { offset = offset }

-- The last index of the entries, and false where there is none.
last_of : List LogEntry → ℕ → ℕ × Bool
last_of [] offset = (0, false)
last_of (e ∷ es) offset = (sub64 (add64 offset (length (e ∷ es))) 1, true)

unfoldable pub maybe_last_index : Unstable → ℕ × Bool
unfolding last_of
maybe_last_index u = last_of u.ents u.offset

-- The snapshot is not looked at.
unfoldable pub maybe_first_index : Unstable → ℕ × Bool
maybe_first_index u = (0, false)

-- `TruncateAndAppend`. The last branch keeps the positions offset_ .. after of the vector.
unfoldable pub truncate_and_append : List LogEntry → Action Unstable (Unit {0})
truncate_and_append [] u = (ret tt, u)
truncate_and_append (e ∷ es) u =
    let after = e.index in
    if after == add64 u.offset (length u.ents)
    then (ret tt, record u { ents = u.ents ++ e ∷ es })
    else if leb after u.offset
    then (ret tt, record u { offset = after; ents = e ∷ es })
    else elim (range u.offset after u.ents) [
      | ret temp ↦ (ret tt, record u { ents = temp })
      | trap f ↦ (trap f, u)
    ]

-- `entries_.begin() + lo - offset_` .. `entries_.begin() + hi - offset_`, on the addresses.
between : List LogEntry → ℕ → ℕ → ℕ → Outcome (List LogEntry)
between es offset lo hi =
    if ltb lo offset
    then trap out_of_range
    else if ltb hi offset
    then trap out_of_range
    else range (lo - offset) (hi - offset) es

-- `Slice`: the caller's vector with the entries put in front.
unfoldable pub slice : Unstable → ℕ → ℕ → List LogEntry → Outcome (List LogEntry)
unfolding between
slice u lo hi acc = between u.ents u.offset lo hi >>= λ es. ret (es ++ acc)
