-- ===== src/Raft/Cluster/Stall.antt =====
-- Clusters with leaders, in which nothing is ever committed.
use anraft.Base.{
  ℕ, ◌≤◌, ◌≡◌, ◌⊎◌, refl, sym, ◌∙◌, inl, inr, arith, List, [], ◌∷◌, length, ◌==◌, not, none,
  Outcome, Bool-cases, true, false,
}
use mathlib.Core.Path.{subst⁻¹}
use anraft.Base.Action.{Action, ◌>>=◌, ◌>>◌, gets, pure, do_blocks}
use anraft.Base.Frame.{
  Preorder, Keeps, bind-Keeps, then-Keeps, gets-Keeps, pure-Keeps, if-Keeps, bind_at, then_at,
  reads-Keeps,
}
use anraft.Base.Map.{Map, IsSorted, replace, replace-IsSorted, length-replace, contains}
use anraft.Progress.{Progress}
use anraft.Proto.{LogEntry, Message, MessageType}
use anraft.RaftLog.{RaftLog}
use anraft.Raft.Defs.{
  Raft, Env, maybe_commit, append_entry, on_leader_local, become_follower, become_candidate,
  get_progress, update_progress, write_progress, ProgressRef, in_prs, in_learners, bcast_append,
  send, step,
}
use anraft.Raft.Silence.{bcast_append_silent}
use anraft.Raft.Frame.{IsLocal, Grants, tick-Keeps}
use anraft.Raft.Cluster.{
  Cluster, AllVotes, append-AllVotes, IsKept, Reaches, Reaches-kept, vote-Keeps, proposal-Keeps,
}
use anraft.Raft.Cluster.Group.{OthersUpTo, IsStalled, commit_idle}

-- A step that leaves a node stalled, with its log.
abbrev Stalls : Raft → Raft → Type 0
Stalls r r' = IsStalled r → IsStalled r' × (r'.raftlog ≡ r.raftlog)

Stalls-Preorder : Preorder Stalls
Stalls-Preorder = record {
  reflexive = λ r h. (h, refl);
  transitive = λ p q h. let (h1, e1) = p h in let (h2, e2) = q h1 in (h2, e2 ∙ e1);
}

-- Fields that stay.
same_group :
    (r r' : Raft)
    → r'.id ≡ r.id
    → r'.prs ≡ r.prs
    → r'.msgs ≡ r.msgs
    → r'.raftlog ≡ r.raftlog
    → Stalls r r'
same_group r r' a b c d h = (
  record {
    named = λ e. h.named (sym a ∙ e);
    several = subst⁻¹ (λ m. 2 ≤ length m) b h.several;
    sorted = subst⁻¹ IsSorted b h.sorted;
    others =
        subst⁻¹ (λ m. OthersUpTo r'.id r'.raftlog.committed m) b
          (subst⁻¹ (λ i. OthersUpTo i r'.raftlog.committed r.prs) a
            (subst⁻¹ (λ (l : RaftLog). OthersUpTo r.id l.committed r.prs) d h.others));
    asks = subst⁻¹ AllVotes c h.asks;
  },
  d,
)

send-Stalls : (msg : Message) → msg.kind ≡ MessageType.vote → Keeps Stalls (send msg)
unfolding send do_blocks
send-Stalls msg k = record {
  apply = λ r h. (
    record {
      named = h.named;
      several = h.several;
      sorted = h.sorted;
      others = h.others;
      asks = append-AllVotes r.msgs _ h.asks (k, tt);
    },
    refl,
  );
}

get_progress-Stalls : (id : ℕ) → Keeps Stalls (get_progress id)
unfolding get_progress
get_progress-Stalls id = record {
  apply = λ r. same_group r _ (ground arith) (ground arith) (ground arith) (ground arith);
}

Stalls-Grants : Grants Stalls
Stalls-Grants from r = same_group r _ refl refl refl refl

Stalls-IsLocal : (env : Env) → IsLocal env Stalls
unfolding become_follower become_candidate
Stalls-IsLocal env = record {
  order = Stalls-Preorder;
  requests = send-Stalls;
  follows = λ t lead r. same_group r _ refl refl refl refl;
  campaigns = λ r. same_group r _ refl refl refl refl;
  finds = get_progress-Stalls;
  waits = λ n r. same_group r _ refl refl refl refl;
  beats = λ n r. same_group r _ refl refl refl refl;
  beats_again = λ r. same_group r _ refl refl refl refl;
}

replace-OthersUpTo :
    (id c : ℕ) (p : Progress) (m : Map Progress)
    → OthersUpTo id c m
    → OthersUpTo id c (replace id p m)
replace-OthersUpTo id c p [] h = tt
replace-OthersUpTo id c p ((k, q) ∷ m) h = elim (Bool-cases (id == k)) [
  | inl own ↦ rw (own, OthersUpTo) (inl (ground arith), h.1)
  | inr other ↦ rw (other, OthersUpTo) (h.0, replace-OthersUpTo id c p m h.1)
]

-- The own progress may change.
own_progress : (p : Progress) (r : Raft) → Stalls r (record r { prs = replace r.id p r.prs })
own_progress p r h = (
  record {
    named = h.named;
    several = omega (arith, length-replace r.id p r.prs, h.several);
    sorted = replace-IsSorted r.id p r.prs h.sorted;
    others = replace-OthersUpTo r.id r.raftlog.committed p r.prs h.others;
    asks = h.asks;
  },
  refl,
)

commits-Stalls : (env : Env) → Keeps Stalls (maybe_commit env)
commits-Stalls env = record {
  apply =
      λ r h. subst⁻¹ (λ s. IsStalled s × (s.raftlog ≡ r.raftlog)) (commit_idle env r h) (h, refl);
}

-- The end of `AppendEntry`: the leader's own progress takes in the last index, and that alone
-- decides nothing.
own_end :
    (env : Env) (last : ℕ) (es : List LogEntry)
    → Keeps Stalls do
      id ← gets (λ r. r.id)
      pr ← get_progress id
      update_progress pr last
      maybe_commit env
      pure es
unfolding get_progress update_progress write_progress do_blocks
own_end env last es = record { apply = λ r. at r (Bool-cases (contains r.id r.prs)) }
  where
    rest : ProgressRef → Action Raft (List LogEntry)
    rest pr = do update_progress pr last; maybe_commit env; pure es

    ending : Keeps Stalls (do maybe_commit env; pure es)
    ending =
        then-Keeps Stalls Stalls-Preorder _ _ (commits-Stalls env)
          (pure-Keeps Stalls Stalls-Preorder es)

    at :
        (r : Raft)
        → (contains r.id r.prs ≡ true) ⊎ (contains r.id r.prs ≡ false)
        → Stalls r ((get_progress r.id >>= rest) r).1
    at r (inl member) =
        bind_at Stalls Stalls-Preorder (get_progress r.id) rest r {a = in_prs r.id} {t = r}
          (ground (arith, member)) (Stalls-Preorder.reflexive r)
          (then_at Stalls Stalls-Preorder (update_progress (in_prs r.id) last) _ r refl
            (own_progress _ r) ending)
    at r (inr stranger) =
        let s : Raft = (get_progress r.id r).1 in
        bind_at Stalls Stalls-Preorder (get_progress r.id) rest r {a = in_learners r.id} {t = s}
          (ground (arith, stranger)) ((get_progress-Stalls r.id).apply r)
          (then_at Stalls Stalls-Preorder (update_progress (in_learners r.id) last) _ s refl
            (same_group s _ refl refl refl refl) ending)

append_entry-Stalls : (env : Env) (es : List LogEntry) → Keeps Stalls (append_entry env es)
unfolding append_entry
append_entry-Stalls env es =
    bind-Keeps Stalls Stalls-Preorder _ _ (reads-Keeps Stalls Stalls-Preorder _) λ li.
      bind-Keeps Stalls Stalls-Preorder _ _ (gets-Keeps Stalls Stalls-Preorder _) λ numbered.
        bind-Keeps Stalls Stalls-Preorder _ _ (reads-Keeps Stalls Stalls-Preorder _)
          λ last. own_end env last numbered

-- A proposal at a leader.
proposal-Stalls :
    (env : Env) (msg : Message) → Keeps Stalls (on_leader_local env MessageType.prop msg)
unfolding on_leader_local
proposal-Stalls env msg =
    bind-Keeps Stalls Stalls-Preorder _ _ (gets-Keeps Stalls Stalls-Preorder _) λ member.
      bind-Keeps Stalls Stalls-Preorder _ _ (gets-Keeps Stalls Stalls-Preorder _) λ transferee.
        if-Keeps Stalls Stalls-Preorder (not member) _ _ (pure-Keeps Stalls Stalls-Preorder _) (
          if-Keeps Stalls Stalls-Preorder (not (transferee == 0)) _ _
            (pure-Keeps Stalls Stalls-Preorder _)
            (then-Keeps Stalls Stalls-Preorder _ _
              (then-Keeps Stalls Stalls-Preorder _ _ (append_entry-Stalls env msg.entries) silent)
              (pure-Keeps Stalls Stalls-Preorder none)))
  where
    silent : Keeps Stalls (bcast_append env)
    silent = record {
      apply = λ r h.
          subst⁻¹ (λ (p : Outcome (Unit {0}) × Raft). IsStalled p.1 × (p.1.raftlog ≡ r.raftlog))
            (bcast_append_silent env r h.named) (h, refl);
    }

-- In a cluster whose nodes have ids, where each node has two members or more, of which no other one
-- has matched an index above its commit index, and where requests for votes are all that was sent:
-- nothing is ever committed, and no log ever changes. That holds with any leaders among them, as
-- many as one likes, however the nodes tick, whatever clients propose, and however the messages are
-- lost, repeated or reordered. The nodes stay as they are described.
pub Reaches-IsStalled :
    (envs : ℕ → Env) (c d : Cluster)
    → ((i : ℕ) → IsStalled (c i))
    → Reaches envs c d
    → (i : ℕ) → IsStalled (d i) × ((d i).raftlog ≡ (c i).raftlog)
Reaches-IsStalled envs c d h steps = Reaches-kept envs AtLog kept steps (λ i. (h i, refl))
  where
    AtLog : ℕ → Raft → Type 0
    AtLog i r = IsStalled r × (r.raftlog ≡ (c i).raftlog)

    onward : {r r' : Raft} (i : ℕ) → Stalls r r' → AtLog i r → AtLog i r'
    onward i step p = let (stalled, log) = step p.0 in (stalled, log ∙ p.1)

    alone : (i : ℕ) → IsLocal (envs i) Stalls
    alone i = Stalls-IsLocal (envs i)

    kept : IsKept envs AtLog
    kept = record {
      asks = λ i r p. p.0.asks;
      ticked = λ i r. onward i ((tick-Keeps (envs i) Stalls (alone i)).apply r);
      asked = λ i msg r k. onward i (vote-Keeps (envs i) Stalls (alone i) Stalls-Grants msg r k);
      proposed = λ i msg r k.
          onward i
            (proposal-Keeps (envs i) Stalls (alone i) msg r k (proposal-Stalls (envs i) msg));
    }
