-- ===== src/AnraftImpl/Defs/Leader.antt =====
-- What a leader sends to a follower, and how it commits: `ReplicateLogToFollower`.
use anraft.Base.{
  Bytes, same_bytes, ℕ, zero, suc, ◌+◌, ◌-◌, ◌/◌, Bool, true, false, ◌&&◌, List, [], ◌∷◌, ◌++◌,
  length, ltb, leb, if◌then◌else◌, Option, none, some, sub64, u64_mod, out_of_range, Outcome, ret,
  trap, at, ◌>>=◌,
}
use anraft.Base.Int.{same_ℤ, ℤ, pos, negsuc, pos_part, neg_part, ◌+ℤ◌, ltb_ℤ}
use anraft.Proto.{LogEntry}
use anraft.AnraftImpl.Defs.State.{AnraftImpl, Outside, FollowerContext, AppendEntriesRequest}

-- A uint64_t that is assigned to an int64_t.
unfoldable pub as_int64 : ℕ → ℤ
as_int64 n = if ltb n 9223372036854775808 then pos n else negsuc (u64_mod - n - 1)

-- The request with the local variables max_index and max_term.
pub record Batch : Type 0 where
  pub request : AppendEntriesRequest
  pub max_index : ℤ
  pub max_term : ℤ

-- How many integers are above a and at most b.
unfoldable pub distance : ℤ → ℤ → ℕ
distance a b = pos_part b + neg_part a - (pos_part a + neg_part b)

-- An entry that the request takes.
unfoldable pub add_entry : LogEntry → Batch → Batch
unfolding as_int64
add_entry e b = record {
  request = record (b.request) { entries = b.request.entries ++ e ∷ [] };
  max_index = as_int64 e.index;
  max_term = as_int64 e.term;
}

-- The request before any entry is read.
unfoldable pub empty_batch : AnraftImpl → Batch
empty_batch s = record {
  request = record {
    term = s.current_term;
    leader_id = s.leader;
    prev_log_index = pos 0;
    prev_log_term = pos 0;
    entries = [];
    leader_commit = s.commit_index;
  };
  max_index = pos 0;
  max_term = negsuc 0;
}

-- The request with the entry before the first new one.
unfoldable pub after_entry : LogEntry → Batch → Batch
unfolding as_int64
after_entry e b = record b {
  request = record (b.request) {
    prev_log_index = as_int64 e.index;
    prev_log_term = as_int64 e.term;
  };
}

module _ (outside : Outside) where
  -- `ReadEntry` and `ParseFromString` of one index: `none` where either fails. The body of
  -- `ReadEntry` is empty, so the string stays empty.
  unfoldable pub load : ℤ → Outcome (Option LogEntry)
  load i = do found ← outside.read_entry i; ret (if found then outside.parse_entry [] else none)

  -- The loop over the entries from i on, n of them, and `none` for a return from within.
  unfoldable pub gather : ℕ → ℤ → Batch → Outcome (Option Batch)
  unfolding load add_entry
  gather zero i b = ret (some b)
  gather (suc n) i b = do
    loaded ← load i
    elim loaded [
      | none ↦ ret none
      | some e ↦
          let b' : Batch = add_entry e b in
          elim (leb 1048576 (outside.byte_size b'.request)) [
            | true ↦ ret (some b')
            | false ↦ gather n (i +ℤ pos 1) b'
          ]
    ]

  -- Up to the call of `SendRequest`.
  unfoldable pub prepare : ℕ → AnraftImpl → Outcome (Option Batch)
  unfolding load gather empty_batch after_entry distance
  prepare id s = do
    context ← at s.follower_contexts id
    let b = empty_batch s
    let before = context.next_index +ℤ negsuc 0
    if ltb_ℤ context.match_index s.last_log_index
        then (load before >>= λ loaded. elim loaded [
          | none ↦ ret none
          | some prev ↦
              gather (distance before s.last_log_index) context.next_index (after_entry prev b)
        ])
        else ret (some b)

-- A refused request: the next index goes one back.
unfoldable pub one_back : FollowerContext → FollowerContext
one_back f =
    if ltb_ℤ f.match_index f.next_index && ltb_ℤ (pos 1) f.next_index
    then record f { next_index = f.next_index +ℤ negsuc 0 }
    else f

unfoldable pub update_context :
    (FollowerContext → FollowerContext) → ℕ → List FollowerContext → List FollowerContext
update_context g i [] = []
update_context g zero (f ∷ fs) = g f ∷ fs
update_context g (suc i) (f ∷ fs) = f ∷ update_context g i fs

-- The vector of the matched indices, the own one above all others.
unfoldable pub match_indices : Bytes → List FollowerContext → List Bytes → Outcome (List ℤ)
match_indices addr [] ns = ret []
match_indices addr (f ∷ fs) [] = trap out_of_range
match_indices addr (f ∷ fs) (n ∷ ns) = do
  rest ← match_indices addr fs ns
  ret ((if same_bytes n addr then pos 1152921504606846976 else f.match_index) ∷ rest)

unfoldable pub insert_up : ℤ → List ℤ → List ℤ
insert_up x [] = x ∷ []
insert_up x (y ∷ ys) = if ltb_ℤ y x then y ∷ insert_up x ys else x ∷ y ∷ ys

-- `std::sort`
unfoldable pub sort_up : List ℤ → List ℤ
unfolding insert_up
sort_up [] = []
sort_up (x ∷ xs) = insert_up x (sort_up xs)

-- The index that is to be committed.
unfoldable pub commit_candidate : AnraftImpl → Outcome ℤ
unfolding match_indices sort_up
commit_candidate s = do
  ms ← match_indices s.local_addr s.follower_contexts s.nodes
  at (sort_up ms) (sub64 (length s.nodes / 2) 1)

unfoldable pub waits : ℤ → List ℤ → Bool
waits i [] = false
waits i (j ∷ js) = if same_ℤ i j then true else waits i js

-- `std::map::erase`; a key stands once.
unfoldable pub erase_callback : ℤ → List ℤ → List ℤ
erase_callback i [] = []
erase_callback i (j ∷ js) = if same_ℤ i j then erase_callback i js else j ∷ erase_callback i js

-- The callback of the index that was just applied.
unfoldable pub fire : AnraftImpl → AnraftImpl
unfolding waits erase_callback
fire s =
    if waits s.last_applied s.apply_callbacks
    then record s {
      apply_callbacks = erase_callback s.last_applied s.apply_callbacks;
      called = s.called ++ s.last_applied ∷ [];
    }
    else s

-- `while (last_applied_ < commit_index)`, at most n times.
unfoldable pub apply_up_to : ℕ → ℤ → AnraftImpl → AnraftImpl
unfolding fire
apply_up_to zero c s = s
apply_up_to (suc n) c s = elim (ltb_ℤ s.last_applied c) [
  | true ↦ apply_up_to n c (fire (record s { last_applied = s.last_applied +ℤ pos 1 }))
  | false ↦ s
]
