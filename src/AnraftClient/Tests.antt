-- ===== src/AnraftClient/Tests.antt =====
-- An instance of the theorem on the client.
use anraft.Base.{Bytes, ℕ, ◌≡◌, List, [], ◌∷◌, ret, true, if◌then◌else◌}
use anraft.AnraftClient.Defs.{new_client, send_request}
use anraft.AnraftClient.Calls.{times, is_listed, IsAscending, bare_calls, send_request-unconnected}

abbrev nine : ℕ
nine = 9

-- Node 7 is listed twice.
abbrev three_names : List Bytes
three_names = (7 ∷ []) ∷ (2 ∷ 5 ∷ []) ∷ (7 ∷ []) ∷ []

send_request-unconnected_example :
    (keys : List Bytes) × IsAscending keys
    × ((n : Bytes) → times n keys ≡ (if is_listed n three_names then 1 else 0))
    × (send_request (ret true) (new_client three_names) nine true []
        ≡ (ret true, bare_calls (ret true) nine true keys))
send_request-unconnected_example = send_request-unconnected (ret true) nine true three_names
