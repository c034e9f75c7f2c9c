-- ===== src/Queue.antt =====
-- src/radqueue.c and h/radqueue.h: message queues between processes. The table of all queues is in
-- shared memory, each process has a list of the queues that it sends to. The table's lock is held by
-- each function that works on it; another process may change the table only between these calls.
-- A name is a number, since names are compared and copied up to QUEUE_NAME_LENGTH characters.
pub mod Table
pub mod Group
pub mod Attach
pub mod Send
pub mod Recv
pub mod Unique
pub mod Purge
pub mod View
pub mod Visit
mod Tests
use radlib.Base.{ℕ, Bool, true, false, if◌then◌else◌, ◌==◌, Option, none, some, List, [], ◌∷◌, ◌++◌}

abbrev pub max_queue_records : ℕ
max_queue_records = 64

abbrev pub queue_group_all : ℕ
queue_group_all = 1

-- `MSGQ_RECORD`.
pub record MsgqRecord : Type 0 where
  pub name : ℕ
  pub group : ℕ
  pub update_flag : Bool

-- `QSEND_NODE`, with the address of the buffer that it stands in.
pub record QsendNode : Type 0 where
  pub buffer : ℕ
  pub name : ℕ
  pub pipe_fd : ℕ
  pub group : ℕ

-- `QMSG_HDR`.
pub record QmsgHdr : Type 0 where
  pub mtype : ℕ
  pub length : ℕ
  pub bfr_offset : ℕ
  pub name : ℕ

-- The outcomes of `write`: all of the header, the reader is gone (SIGPIPE), or any other.
pub data Written : Type 0 where
  wrote reader_gone failed : Written

-- The calls of buffers and pipes.
pub data Event : Type 0 where
  bfr_get : ℕ → Event
  bfr_rls : ℕ → Event
  pipe_close : ℕ → Event
  pipe_write : (fd : ℕ) → QmsgHdr → Written → Event

-- `T_QUEUE`, with the table that it points to and the calls made so far.
pub record Queue : Type 0 where
  pub table : List MsgqRecord
  pub name : ℕ
  pub reflect_fd : ℕ
  pub pipe_fd : ℕ
  pub send_queues : List QsendNode
  pub events : List Event

-- What `radBufferGet`, `open` and `write` answer, depending on all that happened before. `node_size`
-- is the size of a `QSEND_NODE`.
pub record Env : Type 0 where
  pub buffer : List Event → ℕ → Option ℕ
  pub open_pipe : List Event → ℕ → Option ℕ
  pub write : List Event → ℕ → QmsgHdr → Written
  pub node_size : ℕ

unfoldable log : Queue → Event → Queue
log q e = record q { events = q.events ++ e ∷ [] }
