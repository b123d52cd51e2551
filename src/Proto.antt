-- ===== src/Proto.antt =====
-- src/proto/raft.proto: the errors and messages. A field that is not set reads as its default, so
-- a record holds the values; `bytes` are lists of numbers, and an int64 is its 64-bit pattern.
use anraft.Base.{ℕ, Bool, true, false, List, []}

pub data RaftError : Type 0 where
  none_err compacted snap_out_of_date unavailable snapshot_temporarily_unavailable : RaftError
  proposal_dropped param : RaftError

-- `e == ErrNone`
abbrev pub is_none : RaftError → Bool
is_none RaftError.none_err = true
is_none _ = false

pub record HardState : Type 0 where
  pub term : ℕ
  pub vote : ℕ
  pub commit : ℕ

pub record ConfState : Type 0 where
  pub nodes : List ℕ
  pub learners : List ℕ

pub data ConfChangeType : Type 0 where
  add_node remove_node update_node add_learner_node : ConfChangeType

pub record ConfChange : Type 0 where
  pub id : ℕ
  pub kind : ConfChangeType
  pub node_id : ℕ
  pub context : List ℕ

pub data EntryType : Type 0 where
  normal conf_change : EntryType

pub record LogEntry : Type 0 where
  pub term : ℕ
  pub index : ℕ
  pub body : List ℕ
  pub kind : EntryType

pub record SnapshotMetadata : Type 0 where
  pub conf_state : ConfState
  pub index : ℕ
  pub term : ℕ

pub record Snapshot : Type 0 where
  pub body : List ℕ
  pub metadata : SnapshotMetadata

pub data MessageType : Type 0 where
  hup beat prop app app_resp vote vote_resp snap heartbeat heartbeat_resp : MessageType
  unreachable snap_status check_quorum transfer_leader timeout_now read_index : MessageType
  read_index_resp pre_vote pre_vote_resp : MessageType

pub record Message : Type 0 where
  pub kind : MessageType
  pub to : ℕ
  pub from : ℕ
  pub term : ℕ
  pub log_term : ℕ
  pub index : ℕ
  pub entries : List LogEntry
  pub commit : ℕ
  pub snapshot : Snapshot
  pub reject : Bool
  pub reject_hint : ℕ
  pub context : List ℕ

-- `LogEntry()`, `ConfState()`, `HardState()`, `Snapshot()` and `Message()`: nothing is set.
abbrev pub empty_entry : LogEntry
empty_entry = record { term = 0; index = 0; body = []; kind = EntryType.normal }

abbrev pub empty_conf_state : ConfState
empty_conf_state = record { nodes = []; learners = [] }

abbrev pub empty_hard_state : HardState
empty_hard_state = record { term = 0; vote = 0; commit = 0 }

abbrev pub empty_snapshot : Snapshot
empty_snapshot = record {
  body = [];
  metadata = record { conf_state = empty_conf_state; index = 0; term = 0 };
}

-- The first constant of an enum is its default, so an untyped message reads as MsgHup.
abbrev pub empty_message : Message
empty_message = record {
  kind = MessageType.hup;
  to = 0;
  from = 0;
  term = 0;
  log_term = 0;
  index = 0;
  entries = [];
  commit = 0;
  snapshot = empty_snapshot;
  reject = false;
  reject_hint = 0;
  context = [];
}
