-- ===== src/Rafthttp/Tests.antt =====
-- Instances of the theorems on the transport.
use anraft.Base.{ℕ, ◌==◌, true, [], ◌∷◌, length, trap, bad_pointer, missing_return}
use anraft.Proto.{Message, empty_message}
use anraft.Rafthttp.Defs.{Http, send_messages}
use anraft.Rafthttp.Sending.{Sent, send_messages_lem}

-- A server that answers one call, and then no other.
abbrev once : Http
once = record {
  serialize = λ m. m.term ∷ [];
  call_fails = λ calls request. length calls == 1;
  channel_opens = λ url. true;
  start_queue = λ null. trap bad_pointer;
  adds_service = true;
  server_starts = λ port. true;
  serve_end = trap missing_return;
  writer_end = trap missing_return;
}

abbrev message_at : ℕ → Message
message_at t = record empty_message { term = t }

send_messages_lem_example :
    Sent once
      (9 ∷ [])
      (message_at 1 ∷ message_at 2 ∷ message_at 3 ∷ [])
      []
      (send_messages once (9 ∷ []) (message_at 1 ∷ message_at 2 ∷ message_at 3 ∷ []) [])
send_messages_lem_example =
    send_messages_lem once (9 ∷ []) (message_at 1 ∷ message_at 2 ∷ message_at 3 ∷ []) []
