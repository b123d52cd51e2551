-- ===== src/Raftexample/Defs/Api.antt =====
-- `HttpApi`, the requests of the users, and the main program.
use anraft.Base.{Bytes, ℕ, Bool, true, false, not, Option, none, some, List, [], ◌∷◌, if◌then◌else◌}
use anraft.Base.Action.{Action, ◌>>=◌, ◌>>◌, pure}
use anraft.Base.Int.{ℤ, pos, negsuc}
use anraft.Raftexample.Defs.Channels.{RaftNode}
use anraft.Raftexample.Defs.Start.{init_node}
use anraft.Raftexample.Defs.Store.{KvStore, StoreOutside, new_kv_store, lookup}

-- The body is left empty by every handler, so the status is all of a response.
pub record HttpResponse : Type 0 where
  pub status : Option ℕ
  pub body : Bytes

-- `HTTP_STATUS_NO_CONTENT`, and an answer whose status the handler leaves to brpc.
abbrev pub no_content : HttpResponse
no_content = record { status = some 204; body = [] }

abbrev pub default_answer : HttpResponse
default_answer = record { status = none; body = [] }

-- `Post`, which builds a membership change and drops it.
unfoldable pub post : Action KvStore HttpResponse
post = pure no_content

-- `Put`, with the message of the request, which is copied and dropped.
unfoldable pub put : Bytes → Action KvStore HttpResponse
put message = pure no_content

-- `Get`: the key that it looks up is empty, whatever the request says.
unfoldable pub get : Bytes → Action KvStore HttpResponse
unfolding lookup
get message = lookup [] message >> pure default_answer

-- A call of a handler. The service of the protocol file declares its methods in capitals, so the
-- handlers override none of them; the calls that reach them are a parameter.
pub data HandlerCall : Type 0 where
  post_call : HandlerCall
  put_call get_call : Bytes → HandlerCall

unfoldable pub handle : HandlerCall → Action KvStore HttpResponse
unfolding post put get
handle HandlerCall.post_call = post
handle (HandlerCall.put_call message) = put message
handle (HandlerCall.get_call message) = get message

unfoldable pub handle_all : List HandlerCall → Action KvStore (List HttpResponse)
unfolding handle
handle_all [] = pure []
handle_all (c ∷ cs) = do response ← handle c; responses ← handle_all cs; pure (response ∷ responses)

-- What main gets from outside: butil's SplitString, and whether the thread of StartRaft is started.
-- The HTTP server takes its service or not, starts or not, and then runs until it is asked to quit,
-- with the calls that come in the meantime.
pub record Main : Type 0 where
  pub split : Bytes → List Bytes
  pub thread_starts : Bool
  pub store : StoreOutside
  pub adds_service : Bool
  pub server_starts : ℕ → Bool
  pub calls : List HandlerCall

-- The flags of the command line.
pub record Flags : Type 0 where
  pub cluster : Bytes
  pub id : ℤ
  pub kvport : ℕ
  pub join : Bool

pub record Program : Type 0 where
  pub node : RaftNode
  pub store : KvStore

unfoldable pub on_node : {A : Type 0} → Action RaftNode A → Action Program A
on_node m s = let (r, node) = m s.node in (r, record s { node = node })

unfoldable pub on_store : {A : Type 0} → Action KvStore A → Action Program A
on_store m s = let (r, store) = m s.store in (r, record s { store = store })

-- `Start`, whose thread then runs `StartRaft`.
unfoldable pub start_thread : Main → Action RaftNode Bool
start_thread main = if main.thread_starts then pure true else pure false

-- `ServeHttpKVAPI`
unfoldable pub serve_http_kv_api : Main → ℕ → Action KvStore (List HttpResponse)
unfolding handle_all
serve_http_kv_api main port =
    if not main.adds_service
    then pure []
    else if not (main.server_starts port)
    then pure []
    else handle_all main.calls

-- `main`, which ends with 0 where no return statement stands.
unfoldable pub run_main : Main → Flags → Action Program ℤ
unfolding on_node on_store init_node start_thread new_kv_store serve_http_kv_api
run_main main flags = do
  on_node (init_node flags.id (main.split flags.cluster) flags.join false)
  started ← on_node (start_thread main)
  if not started then pure (negsuc 0) else do
    stored ← on_store (new_kv_store main.store 0)
    if not stored
        then pure (negsuc 0)
        else do on_store (serve_http_kv_api main flags.kvport); pure (pos 0)
