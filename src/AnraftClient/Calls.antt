-- ===== src/AnraftClient/Calls.antt =====
-- The calls that a request makes.
use anraft.Base.{
  Bytes, same_bytes, ltb_bytes, Bool-cases, ◌⊎◌, same_bytes→eq, ℕ, ◌+◌, ◌≡◌, refl, sym, ap, subst,
  inl, inr, ◌∙◌, Bool, true, false, List, [], ◌∷◌, ◌++◌, arith, if◌then◌else◌, Outcome,
}
use mathlib.Core.List.{append-nil, append_assoc}
use anraft.Base.Action.{do_blocks, for_each}
use anraft.AnraftClient.Defs.{
  Stubs, Channel, Call, insert_stub, add_stubs, new_client, send_request,
}

abbrev pub times : Bytes → List Bytes → ℕ
times x [] = 0
times x (y ∷ ys) = (if same_bytes x y then 1 else 0) + times x ys

abbrev pub is_listed : Bytes → List Bytes → Bool
is_listed x [] = false
is_listed x (y ∷ ys) = if same_bytes x y then true else is_listed x ys

abbrev pub IsBelow : Bytes → List Bytes → Type 0
IsBelow x [] = Unit {0}
IsBelow x (y ∷ ys) = (ltb_bytes x y ≡ true) × IsBelow x ys

abbrev pub IsAscending : List Bytes → Type 0
IsAscending [] = Unit {0}
IsAscending (x ∷ xs) = IsBelow x xs × IsAscending xs

-- The order of the keys.
pub below_itself : (x : Bytes) → ltb_bytes x x ≡ false
below_itself [] = refl
below_itself (x ∷ xs) = ground (arith, below_itself xs)

pub below_through :
    (x y z : Bytes) → ltb_bytes x y ≡ true → ltb_bytes y z ≡ true → ltb_bytes x z ≡ true
below_through [] [] z h k = ground arith
below_through [] (y ∷ ys) [] h k = ground arith
below_through [] (y ∷ ys) (z ∷ zs) h k = refl
below_through (x ∷ xs) [] z h k = ground arith
below_through (x ∷ xs) (y ∷ ys) [] h k = ground arith
below_through (x ∷ xs) (y ∷ ys) (z ∷ zs) h k = ground (arith, below_through xs ys zs)

below_otherwise :
    (x y : Bytes) → same_bytes x y ≡ false → ltb_bytes x y ≡ false → ltb_bytes y x ≡ true
below_otherwise [] [] h k = ground arith
below_otherwise [] (y ∷ ys) h k = ground arith
below_otherwise (x ∷ xs) [] h k = refl
below_otherwise (x ∷ xs) (y ∷ ys) h k = ground (arith, below_otherwise xs ys)

IsBelow-lower : (x y : Bytes) (ys : List Bytes) → ltb_bytes x y ≡ true → IsBelow y ys → IsBelow x ys
IsBelow-lower x y [] h k = tt
IsBelow-lower x y (z ∷ zs) h k = (below_through x y z h k.0, IsBelow-lower x y zs h k.1)

absent : (x : Bytes) (ys : List Bytes) → IsBelow x ys → times x ys ≡ 0
absent x [] h = refl
absent x (y ∷ ys) h =
    let differ : same_bytes x y ≡ true → ltb_bytes x x ≡ true =
      λ e. subst (λ z. ltb_bytes x z ≡ true) (sym (same_bytes→eq x y e)) h.0 in
    ground (arith, absent x ys h.1, below_itself x, differ)

-- The keys alone: one that goes in, and a list of them.
abbrev insert_key : Bytes → List Bytes → List Bytes
insert_key x [] = x ∷ []
insert_key x (y ∷ ys) =
    if same_bytes x y then y ∷ ys else if ltb_bytes x y then x ∷ y ∷ ys else y ∷ insert_key x ys

abbrev add_keys : List Bytes → List Bytes → List Bytes
add_keys [] ys = ys
add_keys (x ∷ xs) ys = add_keys xs (insert_key x ys)

-- Where a key that is not before the first one goes.
insert_key-cases :
    (x y : Bytes) (ys : List Bytes)
    → ((x ≡ y) × (insert_key x (y ∷ ys) ≡ y ∷ ys))
      ⊎ ((ltb_bytes x y ≡ true) × (insert_key x (y ∷ ys) ≡ x ∷ y ∷ ys))
      ⊎ ((ltb_bytes y x ≡ true) × (insert_key x (y ∷ ys) ≡ y ∷ insert_key x ys))
insert_key-cases x y ys = elim (Bool-cases (same_bytes x y)) [
  | inl same ↦ inl (same_bytes→eq x y same, rw same refl)
  | inr differ ↦ elim (Bool-cases (ltb_bytes x y)) [
    | inl below ↦ inr (inl (below, rw (differ, below) refl))
    | inr above ↦ inr (inr (below_otherwise x y differ above, rw (differ, above) refl))
  ]
]

insert_key-IsBelow :
    (b x : Bytes) (ys : List Bytes)
    → ltb_bytes b x ≡ true
    → IsBelow b ys
    → IsBelow b (insert_key x ys)
insert_key-IsBelow b x [] h k = (h, tt)
insert_key-IsBelow b x (y ∷ ys) h k = elim (insert_key-cases x y ys) [
  | inl (e, p) ↦ rw p k
  | inr (inl (e, p)) ↦ rw p (h, k)
  | inr (inr (e, p)) ↦ rw p (k.0, insert_key-IsBelow b x ys h k.1)
]

insert_key-IsAscending :
    (x : Bytes) (ys : List Bytes) → IsAscending ys → IsAscending (insert_key x ys)
insert_key-IsAscending x [] h = (tt, tt)
insert_key-IsAscending x (y ∷ ys) h = elim (insert_key-cases x y ys) [
  | inl (e, p) ↦ rw p h
  | inr (inl (e, p)) ↦ rw p ((e, IsBelow-lower x y ys e h.0), h)
  | inr (inr (e, p)) ↦ rw p (insert_key-IsBelow y x ys e h.0, insert_key-IsAscending x ys h.1)
]

only_once :
    (n x : Bytes) (ys : List Bytes)
    → IsBelow x ys
    → times n (x ∷ ys) ≡ (if same_bytes n x then 1 else times n ys)
only_once n x ys h = elim (Bool-cases (same_bytes n x)) [
  | inl same ↦
      rw same (
        ap (λ k. 1 + k)
          (subst (λ z. times z ys ≡ 0) (sym (same_bytes→eq n x same)) (absent x ys h)))
  | inr differ ↦ rw differ (omega arith)
]

apart_below : (n x y : Bytes) → n ≡ x → ltb_bytes y x ≡ true → same_bytes n y ≡ false
apart_below n x y e h = elim (Bool-cases (same_bytes n y)) [
  | inl same ↦
      let back : ltb_bytes y y ≡ true =
        subst (λ z. ltb_bytes y z ≡ true) (sym e ∙ same_bytes→eq n y same) h in
      ground (arith, below_itself y)
  | inr differ ↦ differ
]

times-insert_key :
    (n x : Bytes) (ys : List Bytes)
    → IsAscending ys
    → times n (insert_key x ys) ≡ (if same_bytes n x then 1 else times n ys)
times-insert_key n x [] h = ground arith
times-insert_key n x (y ∷ ys) h = elim (insert_key-cases x y ys) [
  | inl (e, p) ↦ rw (p, e) (let o = only_once n y ys h.0 in ground arith)
  | inr (inl (e, p)) ↦ rw p (only_once n x (y ∷ ys) (e, IsBelow-lower x y ys e h.0))
  | inr (inr (e, p)) ↦ rw p (
      let later = times-insert_key n x ys h.1 in
      let apart : same_bytes n x ≡ true → same_bytes n y ≡ false =
        λ q. apart_below n x y (same_bytes→eq n x q) e in
      ground arith)
]

times-add_keys :
    (n : Bytes) (xs ys : List Bytes)
    → IsAscending ys
    → IsAscending (add_keys xs ys)
      × (times n (add_keys xs ys) ≡ (if is_listed n xs then 1 else times n ys))
times-add_keys n [] ys h = (h, refl)
times-add_keys n (x ∷ xs) ys h =
    let rest = times-add_keys n xs (insert_key x ys) (insert_key-IsAscending x ys h) in
    let here = times-insert_key n x ys h in (rest.0, ground arith)

-- The stubs for some keys, whose channels are not initialised.
abbrev pub bare_stubs : List Bytes → Stubs
bare_stubs [] = []
bare_stubs (x ∷ xs) = (x, Channel.bare) ∷ bare_stubs xs

insert_stub-bare_stubs :
    (x : Bytes) (ys : List Bytes)
    → insert_stub x Channel.bare (bare_stubs ys) ≡ bare_stubs (insert_key x ys)
unfolding insert_stub
insert_stub-bare_stubs x [] = refl
insert_stub-bare_stubs x (y ∷ ys) = ground (arith, insert_stub-bare_stubs x ys)

add_stubs-bare_stubs :
    (xs ys : List Bytes) → add_stubs xs (bare_stubs ys) ≡ bare_stubs (add_keys xs ys)
unfolding add_stubs
add_stubs-bare_stubs [] ys = refl
add_stubs-bare_stubs (x ∷ xs) ys =
    ap (add_stubs xs) (insert_stub-bare_stubs x ys) ∙ add_stubs-bare_stubs xs (insert_key x ys)

module _ {Request : Type 0} (falls_off : Outcome Bool) (request : Request)
    (has_callback : Bool) where
  abbrev pub bare_call : Call Request
  bare_call = record { channel = Channel.bare; request = request; has_callback = has_callback }

  -- One such call for each key.
  abbrev pub bare_calls : List Bytes → List (Call Request)
  bare_calls [] = []
  bare_calls (_ ∷ xs) = bare_call ∷ bare_calls xs

  send_request-bare :
      (xs : List Bytes) (calls : List (Call Request))
      → send_request falls_off (bare_stubs xs) request has_callback calls
        ≡ (falls_off, calls ++ bare_calls xs)
  unfolding send_request for_each do_blocks
  send_request-bare [] calls = ap (λ l. (falls_off, l)) (sym (append-nil calls))
  send_request-bare (x ∷ xs) calls =
      let rest = send_request-bare xs (calls ++ bare_call ∷ []) in
      rest ∙ ap (λ l. (falls_off, l)) (append_assoc calls (bare_call ∷ []) (bare_calls xs))

  -- A request goes to no node. A client that is built for a list of nodes makes one call for each
  -- different node of the list, however often and in whatever order the list names them; but each
  -- call is made over a channel that was never initialised with an address.
  pub send_request-unconnected :
      (nodes : List Bytes)
      → (keys : List Bytes) × IsAscending keys
        × ((n : Bytes) → times n keys ≡ (if is_listed n nodes then 1 else 0))
        × (send_request falls_off (new_client nodes) request has_callback []
            ≡ (falls_off, bare_calls keys))
  unfolding new_client
  send_request-unconnected nodes =
      let keys = add_keys nodes [] in
      (
        keys,
        (times-add_keys [] nodes [] tt).0,
        λ n. (times-add_keys n nodes [] tt).1,
        rw (add_stubs-bare_stubs nodes []) (send_request-bare keys []),
      )
