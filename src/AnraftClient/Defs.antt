-- ===== src/AnraftClient/Defs.antt =====
-- `AnraftNodeClient`: its stubs, the calls that it makes, and how an answer is passed on.
use anraft.Base.{Bytes, same_bytes, ltb_bytes, Bool, List, [], ◌∷◌, ◌++◌, if◌then◌else◌, Outcome}
use anraft.Base.Action.{Action, ◌>>◌, reads, modify, for_each}
use anraft.Base.Int.{ℤ}

-- A `brpc::Channel`, which `Init` connects to an address. Before that it leads nowhere.
pub data Channel : Type 0 where
  bare : Channel
  connected : Bytes → Channel

-- `stubs_`, whose keys ascend. A stub is the channel that it was made with; it comes from `new`, so
-- no pointer is null.
abbrev pub Stubs : Type 0
Stubs = List (Bytes × Channel)

-- `std::map::insert`, which leaves a key that is there alone.
unfoldable pub insert_stub : Bytes → Channel → Stubs → Stubs
insert_stub x channel [] = (x, channel) ∷ []
insert_stub x channel ((y, old) ∷ stubs) =
    if same_bytes x y
    then (y, old) ∷ stubs
    else if ltb_bytes x y
    then (x, channel) ∷ (y, old) ∷ stubs
    else (y, old) ∷ insert_stub x channel stubs

-- The constructor, from the stubs that are there. It does not initialise the channel of a stub, so
-- the address is a key and nothing else.
unfoldable pub add_stubs : List Bytes → Stubs → Stubs
unfolding insert_stub
add_stubs [] stubs = stubs
add_stubs (x ∷ xs) stubs = add_stubs xs (insert_stub x Channel.bare stubs)

unfoldable pub new_client : List Bytes → Stubs
unfolding add_stubs
new_client nodes = add_stubs nodes []

-- A call over brpc, by the channel that it is made over; synchronous where there is no callback.
pub record Call (Request : Type 0) : Type 0 where
  pub channel : Channel
  pub request : Request
  pub has_callback : Bool

-- `SendRequest`, which makes the calls in the order of the map and goes off its end.
unfoldable pub send_request :
    {Request : Type 0} → Outcome Bool → Stubs → Request → Bool → Action (List (Call Request)) Bool
send_request falls_off stubs request has_callback =
    for_each stubs (λ (_, channel). modify (λ calls.
      calls ++ record { channel = channel; request = request; has_callback = has_callback } ∷ []))
    >> reads (λ _. falls_off)

-- What `brpc::Controller` tells of a finished call.
pub record Controller : Type 0 where
  pub failed : Bool
  pub error_code : ℤ
  pub remote_side : Bytes

-- `RpcCallBack`, with the callback bound to the request and the response.
unfoldable pub rpc_callback : {A : Type 0} → Controller → (Bool → ℤ → Bytes → A) → A
rpc_callback cntl callback = callback cntl.failed cntl.error_code cntl.remote_side
