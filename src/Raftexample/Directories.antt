-- ===== src/Raftexample/Directories.antt =====
-- The directories of the nodes that NewRaftNode creates.
use anraft.Base.{ℕ, suc, ◌≡◌, sym, ap, ◌∙◌, arith, drop, value_from, value_from-digits}
use anraft.Base.Int.{pos}
use anraft.Raftexample.Defs.{NodeArguments, to_string, construct_node}

to_string-value : (n : ℕ) → value_from 0 (to_string (pos n)) ≡ n
unfolding to_string
to_string-value n = value_from-digits (suc n) n (omega arith)

-- Nodes with different ids, none of them negative, get different WAL directories.
pub waldir-id :
    (a b : NodeArguments) (m n : ℕ)
    → a.id ≡ pos m
    → b.id ≡ pos n
    → (construct_node a).waldir ≡ (construct_node b).waldir
    → m ≡ n
unfolding construct_node
waldir-id a b m n h k same =
    let values = ap (λ dir. value_from 0 (drop 12 dir)) same in
    sym (ap (λ id. value_from 0 (to_string id)) h ∙ to_string-value m)
    ∙ values
    ∙ ap (λ id. value_from 0 (to_string id)) k
    ∙ to_string-value n
