-- ===== src/Queue/Send.antt =====
-- radqueue.c: sending to a queue and to a group.
use radlib.Base.{ℕ, if◌then◌else◌, ◌==◌, Option, none, some}
use radlib.SysDefs.{Status, ok, error}
use radlib.Queue.{
  Queue, QmsgHdr, Written, wrote, reader_gone, failed, bfr_get, bfr_rls, pipe_write, Env, log,
}
use radlib.Queue.Table.{is_update_flag_set}
use radlib.Queue.Group.{Body, group_loop}
use radlib.Queue.Attach.{send_list_get_fd, send_list_update}

-- OK, ERROR and ERROR_ABORT.
pub data SendStatus : Type 0 where
  sent send_error error_abort : SendStatus

abbrev pub status_of_write : Written → SendStatus
status_of_write wrote = sent
status_of_write reader_gone = error_abort
status_of_write failed = send_error

abbrev pub header_of : (name mtype sys_buffer length : ℕ) → QmsgHdr
header_of name mtype sys_buffer length = record {
  mtype = mtype;
  length = length;
  bfr_offset = if length == 0 then 0 else sys_buffer;
  name = name;
}

unfoldable pub release_message : (sys_buffer length : ℕ) → Queue → Queue
unfolding log
release_message sys_buffer length q = if length == 0 then q else log q (bfr_rls sys_buffer)

module _ (env : Env) where
  unfoldable pub send : Queue → (dest_queue_name mtype sys_buffer length : ℕ) → SendStatus × Queue
  unfolding send_list_get_fd log
  send q dest_queue_name mtype sys_buffer length = elim (send_list_get_fd q dest_queue_name) [
    | none ↦ (send_error, q)
    | some fd ↦
        let hdr = header_of q.name mtype sys_buffer length in
        let w = env.write q.events fd hdr in (status_of_write w, log q (pipe_write fd hdr w))
  ]

  -- The send of a copy: its buffer is taken back on ERROR, and not on ERROR_ABORT.
  unfoldable pub send_copy : (mtype new_bfr length store : ℕ) → Queue → Queue
  unfolding send log
  send_copy mtype new_bfr length store q =
      let (r, q1) = send q store mtype new_bfr length in
      elim r [
        | send_error ↦ if length == 0 then q1 else log q1 (bfr_rls new_bfr)
        | sent ↦ q1
        | error_abort ↦ q1
      ]

  -- The body of the loop of `radQueueSendGroup`.
  unfoldable pub send_one : (mtype sys_buffer length : ℕ) → Body
  unfolding send_copy log
  send_one mtype sys_buffer length store q =
      if length == 0
      then (ok, send_copy mtype 0 length store q)
      else elim (env.buffer q.events length) [
        | none ↦ (error, log q (bfr_rls sys_buffer))
        | some b ↦ (ok, send_copy mtype b length store (log q (bfr_get b)))
      ]

  -- The loop, and the release of the message behind it.
  unfoldable pub send_all :
      ℕ → Queue → (dest_group mtype sys_buffer length : ℕ) → Option (Status × Queue)
  unfolding group_loop send_one release_message
  send_all fuel q dest_group mtype sys_buffer length =
      elim (group_loop fuel 0 dest_group (send_one mtype sys_buffer length) q) [
        | none ↦ none
        | some (error, q1) ↦ some (error, q1)
        | some (ok, q1) ↦ some (ok, release_message sys_buffer length q1)
      ]

  unfoldable pub send_group :
      ℕ → Queue → (dest_group mtype sys_buffer length : ℕ) → Option (Status × Queue)
  unfolding is_update_flag_set send_list_update send_all release_message
  send_group fuel q dest_group mtype sys_buffer length =
      let (changed, t) = is_update_flag_set q.name dest_group q.table in
      let q1 = record q { table = t } in
      let updated : Option (Status × Queue) =
        if changed then send_list_update env fuel q1 dest_group else some (ok, q1) in
      elim updated [
        | none ↦ none
        | some (error, q2) ↦ some (error, release_message sys_buffer length q2)
        | some (ok, q2) ↦ send_all fuel q2 dest_group mtype sys_buffer length
      ]
