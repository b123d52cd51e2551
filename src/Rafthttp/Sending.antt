-- ===== src/Rafthttp/Sending.antt =====
-- What a batch of the writer's queue sends.
use anraft.Base.{
  Bytes, ◌≡◌, ◌⊎◌, inl, inr, refl, sym, ap, subst, ◌∙◌, Bool, true, false, Bool-cases, List, [],
  ◌∷◌, ◌++◌, map, Outcome, ret,
}
use mathlib.Core.List.{append-nil, append_assoc}
use anraft.Base.Action.{do_blocks, pure, bind_ret}
use anraft.Base.Int.{ℤ, negsuc}
use anraft.Proto.{Message}
use anraft.Rafthttp.Defs.{HttpRequest, Http, request_of, call_method, send_messages}

module _ (http : Http) (url : Bytes) where
  abbrev pub request_for : Message → HttpRequest
  request_for m = request_of url (http.serialize m)

  -- The calls for the messages all succeed, after the ones that were made.
  abbrev pub AllSucceed : List HttpRequest → List Message → Type 0
  AllSucceed calls [] = Unit {0}
  AllSucceed calls (m ∷ ms) =
      (http.call_fails calls (request_for m) ≡ false) × AllSucceed (calls ++ request_for m ∷ []) ms

  -- What a batch sends, with its result and the calls after it: every message, or the messages up
  -- to the first whose call fails.
  abbrev pub Sent : List Message → List HttpRequest → Outcome ℤ × List HttpRequest → Type 0
  Sent ms calls (r, calls') =
      ((r ≡ http.serve_end) × (calls' ≡ calls ++ map request_for ms) × AllSucceed calls ms)
      ⊎ ((before : List Message) × (m : Message) × (after : List Message) × (ms
            ≡ before ++ m ∷ after)
          × (r ≡ ret (negsuc 0))
          × (calls' ≡ calls ++ map request_for before ++ request_for m ∷ [])
          × AllSucceed calls before
          × (http.call_fails (calls ++ map request_for before) (request_for m) ≡ true))

  call_run :
      (m : Message) (calls : List HttpRequest) {failed : Bool}
      → http.call_fails calls (request_for m) ≡ failed
      → call_method http (request_for m) calls ≡ (ret failed, calls ++ request_for m ∷ [])
  unfolding call_method
  call_run m calls h = ap (λ b. (ret b, calls ++ request_for m ∷ [])) h

  send_success :
      (m : Message) (ms : List Message) (calls : List HttpRequest)
      → http.call_fails calls (request_for m) ≡ false
      → send_messages http url (m ∷ ms) calls
        ≡ send_messages http url ms (calls ++ request_for m ∷ [])
  unfolding send_messages
  send_success m ms calls h = bind_ret _ _ calls (call_run m calls h)

  send_failure :
      (m : Message) (ms : List Message) (calls : List HttpRequest)
      → http.call_fails calls (request_for m) ≡ true
      → send_messages http url (m ∷ ms) calls ≡ (ret (negsuc 0), calls ++ request_for m ∷ [])
  unfolding send_messages pure
  send_failure m ms calls h = bind_ret _ _ calls (call_run m calls h)

  -- A batch sends its messages in their order, one request for each, up to the first whose call
  -- fails. Where none fails, all are sent; where one does, the batch ends with -1 after it, and the
  -- messages behind it are never sent.
  pub send_messages_lem :
      (ms : List Message) (calls : List HttpRequest)
      → Sent ms calls (send_messages http url ms calls)
  send_messages_lem [] calls =
      unfold send_messages in unfold do_blocks in inl (refl, sym (append-nil calls), tt)
  send_messages_lem (m ∷ ms) calls =
      let c = request_for m in
      elim (Bool-cases (http.call_fails calls c)) [
        | inl fails ↦ rw (send_failure m ms calls fails) (
            inr (
              [],
              m,
              ms,
              refl,
              refl,
              ap (λ l. l ++ c ∷ []) (sym (append-nil calls)),
              tt,
              rw (append-nil calls) fails,
            ))
        | inr succeeds ↦
            rw (send_success m ms calls succeeds) (elim (send_messages_lem ms (calls ++ c ∷ [])) [
              | inl (r, made, all) ↦
                  inl (r, made ∙ append_assoc calls (c ∷ []) (map request_for ms), (succeeds, all))
              | inr (before, n, after, split, r, made, all, fails) ↦
                  let moved = append_assoc calls (c ∷ []) (map request_for before) in
                  inr (
                    m ∷ before,
                    n,
                    after,
                    ap (λ l. m ∷ l) split,
                    r,
                    made ∙ ap (λ l. l ++ request_for n ∷ []) moved,
                    (succeeds, all),
                    subst (λ l. http.call_fails l (request_for n) ≡ true) moved fails,
                  )
            ])
      ]
