-- ===== src/Rafthttp/Defs/Stream.antt =====
-- `StreamWriter`, which sends the messages of its queue over HTTP.
use anraft.Base.{Bytes, ℕ, Bool, true, false, List, [], ◌∷◌, ◌++◌, if◌then◌else◌, Outcome, ret}
use anraft.Base.Action.{Action, ◌>>=◌, pure, reads}
use anraft.Base.Int.{ℤ, pos, negsuc}
use anraft.Proto.{Message}

-- A request as ServeSendMsg fills it in; without a body the method stays the default.
pub record HttpRequest : Type 0 where
  pub uri : Bytes
  pub is_get : Bool
  pub attachment : Bytes

-- brpc and protobuf. A call is synchronous, and fails or not after the calls that were made before
-- it; `start_queue` is `execution_queue_start`, given whether the pointer to the identifier that it
-- writes is null. The last two give what ServeSendMsg and StreamWriter::Start do at their ends,
-- where no return statement stands.
pub record Http : Type 0 where
  pub serialize : Message → Bytes
  pub call_fails : List HttpRequest → HttpRequest → Bool
  pub channel_opens : Bytes → Bool
  pub start_queue : Bool → Outcome ℤ
  pub adds_service : Bool
  pub server_starts : ℕ → Bool
  pub serve_end : Outcome ℤ
  pub writer_end : Outcome Bool

unfoldable pub is_empty : Bytes → Bool
is_empty [] = true
is_empty (b ∷ bs) = false

unfoldable pub request_of : Bytes → Bytes → HttpRequest
unfolding is_empty
request_of url msg =
    if is_empty msg
    then record { uri = url; is_get = false; attachment = [] }
    else record { uri = url; is_get = true; attachment = msg }

module _ (http : Http) where
  -- `CallMethod`, and whether it failed. The state is the calls that were made.
  unfoldable pub call_method : HttpRequest → Action (List HttpRequest) Bool
  call_method request calls = (ret (http.call_fails calls request), calls ++ request ∷ [])

  -- The loop over the tasks.
  unfoldable pub send_messages : Bytes → List Message → Action (List HttpRequest) ℤ
  unfolding call_method request_of
  send_messages url [] = reads (λ _. http.serve_end)
  send_messages url (m ∷ ms) = do
    failed ← call_method (request_of url (http.serialize m))
    if failed then pure (negsuc 0) else send_messages url ms

  -- `ServeSendMsg` on a batch, for a stream that is alive.
  unfoldable pub serve_send_msg : Bytes → Bool → List Message → Action (List HttpRequest) ℤ
  unfolding send_messages
  serve_send_msg url true ms = pure (pos 0)
  serve_send_msg url false ms = send_messages url ms
