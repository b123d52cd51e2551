-- ===== src/AnraftImpl/Election.antt =====
-- What comes of the elections that `Election` starts.
use anraft.Base.{
  ℕ, suc, ◌+◌, ◌≡◌, ◌≢◌, refl, sym, ap, ◌∙◌, not, List, [], ◌∷◌, arith, length, length-append,
}
use anraft.Base.Action.{do_blocks}
use anraft.Base.Int.{same_ℤ, pos, ◌+ℤ◌, +ℤ_zero, +ℤ_pos}
use anraft.AnraftClient.{Controller, rpc_callback}
use anraft.AnraftImpl.Defs.{
  AnraftImpl, Outside, Role, VoteResponse, vote_request, stand, election, election_callback,
}

-- The election timer, or the end of a call, with what it answered.
pub data Incident : Type 0 where
  timeout : Incident
  answer : VoteResponse → Controller → Incident

abbrev pub incident : Outside → Incident → AnraftImpl → AnraftImpl
incident outside timeout s = (election outside s).1
incident outside (answer response cntl) s =
    rpc_callback cntl (λ failed error node. election_callback response failed error node s)

abbrev pub elections : Outside → List Incident → AnraftImpl → AnraftImpl
elections outside [] s = s
elections outside (e ∷ es) s = elections outside es (incident outside e s)

-- A call has failed exactly if it has an error code, as the client's library documents.
abbrev pub AllTold : List Incident → Type 0
AllTold [] = Unit {0}
AllTold (timeout ∷ es) = AllTold es
AllTold (answer response cntl ∷ es) =
    (cntl.failed ≡ not (same_ℤ cntl.error_code (pos 0))) × AllTold es

abbrev pub timeouts : List Incident → ℕ
timeouts [] = 0
timeouts (timeout ∷ es) = suc (timeouts es)
timeouts (answer _ _ ∷ es) = timeouts es

answer_ignored :
    (response : VoteResponse) (cntl : Controller) (s : AnraftImpl)
    → cntl.failed ≡ not (same_ℤ cntl.error_code (pos 0))
    → rpc_callback cntl (λ failed error node. election_callback response failed error node s) ≡ s
unfolding rpc_callback election_callback
answer_ignored response cntl s h = ground arith

election_run :
    (outside : Outside) (s : AnraftImpl)
    → s.role ≢ Role.leader
    → let s' = (election outside s).1 in
      (s'.role ≡ Role.candidate)
      × (s'.current_term ≡ s.current_term +ℤ pos 1)
      × (s'.votes ≡ s.votes)
      × (length s'.asked ≡ length s.asked + 1)
      × (s'.nodes ≡ s.nodes)
unfolding election do_blocks
election_run outside s h = ground (arith, length-append s.asked (vote_request (stand s) ∷ []))

-- A node that is no leader never becomes one, whatever the other nodes answer: as long as a call
-- counts as failed exactly if it has an error code, each answer that the client passes on is thrown
-- away. It counts no vote, and starts a new term with a new request at every timeout.
pub elections_lost :
    (outside : Outside) (es : List Incident) (s : AnraftImpl)
    → AllTold es
    → s.role ≢ Role.leader
    → let s' = elections outside es s in
      (s'.role ≢ Role.leader)
      × (s'.votes ≡ s.votes)
      × (s'.current_term ≡ s.current_term +ℤ pos (timeouts es))
      × (length s'.asked ≡ length s.asked + timeouts es)
elections_lost outside [] s told h = (h, refl, sym (+ℤ_zero s.current_term), omega arith)
elections_lost outside (timeout ∷ es) s told h =
    let s1 : AnraftImpl = (election outside s).1 in
    let (role, term, votes, asked, _) = election_run outside s h in
    let (role', votes', term', asked') =
      elections_lost outside es s1 told (λ e. ground (arith, role, e)) in
    (
      role',
      votes' ∙ votes,
      term' ∙ ap (λ t. t +ℤ pos (timeouts es)) term ∙ +ℤ_pos s.current_term (timeouts es),
      omega (arith, asked, asked'),
    )
elections_lost outside (answer response cntl ∷ es) s told h =
    rw (answer_ignored response cntl s told.0, elections) (elections_lost outside es s told.1 h)
