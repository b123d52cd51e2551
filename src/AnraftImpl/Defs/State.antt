-- ===== src/AnraftImpl/Defs/State.antt =====
-- The fields of `AnraftImpl`, the messages of the service RaftNode, and the handling of elections.
use anraft.Base.{
  Bytes, same_bytes, ℕ, ◌+◌, ◌/◌, Bool, true, false, ◌||◌, not, List, [], ◌∷◌, ◌++◌, length, leb,
  if◌then◌else◌, Outcome, ret, Option,
}
use anraft.Base.Action.{Action, ◌>>=◌, ◌>>◌, reads, gets, modify, skip}
use anraft.Base.Int.{ℤ, pos, ◌+ℤ◌, ltb_ℤ, same_ℤ}
use anraft.Proto.{LogEntry}

pub data Role : Type 0 where
  follower candidate leader : Role

pub record VoteRequest : Type 0 where
  pub term : ℤ
  pub candidate_id : Bytes
  pub last_log_index : ℤ
  pub last_log_term : ℤ

pub record VoteResponse : Type 0 where
  pub term : ℤ
  pub vote_granted : Bool

pub record AppendEntriesRequest : Type 0 where
  pub term : ℤ
  pub leader_id : Bytes
  pub prev_log_index : ℤ
  pub prev_log_term : ℤ
  pub entries : List LogEntry
  pub leader_commit : ℤ

pub record AppendEntriesResponse : Type 0 where
  pub term : ℤ
  pub success : Bool

pub record FollowerContext : Type 0 where
  pub next_index : ℤ
  pub match_index : ℤ

-- The fields that the methods use, `options_` taken apart. Of a callback in `apply_callbacks_`
-- only its index is kept. `asked` and `called` record the requests for votes that were handed to
-- the client and the callbacks that were run, and are no fields of the source.
pub record AnraftImpl : Type 0 where
  pub current_term : ℤ
  pub voted_for : Bytes
  pub commit_index : ℤ
  pub last_applied : ℤ
  pub follower_contexts : List FollowerContext
  pub last_log_term : ℤ
  pub last_log_index : ℤ
  pub votes : List Bytes
  pub apply_callbacks : List ℤ
  pub role : Role
  pub leader : Bytes
  pub nodes : List Bytes
  pub local_addr : Bytes
  pub asked : List VoteRequest
  pub called : List ℤ

-- What lies outside: the client over brpc, whose `SendRequest` also lacks a return statement, the
-- bodies of the log that are empty, and protobuf. `send_append` is a synchronous call, and gives
-- the answer too.
pub record Outside : Type 0 where
  pub send_vote : AnraftImpl → VoteRequest → Outcome Bool
  pub send_append : AppendEntriesRequest → Outcome Bool × AppendEntriesResponse
  pub read_entry : ℤ → Outcome Bool
  pub parse_entry : Bytes → Option LogEntry
  pub byte_size : AppendEntriesRequest → ℕ

unfoldable pub is_leader : Role → Bool
is_leader Role.leader = true
is_leader _ = false

-- `std::set::insert`
unfoldable pub insert_vote : Bytes → List Bytes → List Bytes
insert_vote v [] = v ∷ []
insert_vote v (w ∷ ws) = if same_bytes v w then w ∷ ws else w ∷ insert_vote v ws

-- The state after a higher term; `ResetElection` has an empty body.
unfoldable pub step_down : ℤ → AnraftImpl → AnraftImpl
step_down term s = record s { current_term = term; voted_for = []; role = Role.follower }

-- `CheckTerm`
unfoldable pub check_term : ℤ → Action AnraftImpl Bool
unfolding step_down
check_term term s =
    if ltb_ℤ s.current_term term then (ret false, step_down term s) else (ret true, s)

-- The candidate's state in `Election`.
unfoldable pub stand : AnraftImpl → AnraftImpl
stand s = record s {
  current_term = s.current_term +ℤ pos 1;
  role = Role.candidate;
  voted_for = s.local_addr;
}

unfoldable pub vote_request : AnraftImpl → VoteRequest
vote_request s = record {
  term = s.current_term;
  candidate_id = s.local_addr;
  last_log_index = s.last_log_index;
  last_log_term = s.last_log_term;
}

-- `Election`: whatever `SendRequest` gives, nothing follows.
unfoldable pub election : Outside → Action AnraftImpl (Unit {0})
unfolding is_leader stand vote_request
election outside = do
  leads ← gets (λ s. is_leader s.role)
  if leads then skip else do
    modify stand
    modify (λ s. record s { asked = s.asked ++ vote_request s ∷ [] })
    sent ← reads (λ s. outside.send_vote s (vote_request s))
    skip

-- The end of `ElectionCallback`, where a vote is counted.
unfoldable pub count_vote : Bytes → AnraftImpl → AnraftImpl
unfolding insert_vote
count_vote vote_node s =
    let s' = record s { votes = insert_vote vote_node s.votes } in
    if leb (length s'.nodes / 2 + 1) (length s'.votes)
    then record s' { role = Role.leader; leader = s'.local_addr }
    else s'

-- `ElectionCallback`
unfoldable pub election_callback : VoteResponse → Bool → ℤ → Bytes → AnraftImpl → AnraftImpl
unfolding step_down count_vote is_leader
election_callback response failed error vote_node s =
    if not failed || not (same_ℤ error (pos 0))
    then s
    else let s' = if ltb_ℤ s.current_term response.term then step_down response.term s else s in
      if not (same_ℤ response.term s'.current_term)
        || not response.vote_granted
        || is_leader s'.role
      then s'
      else count_vote vote_node s'
