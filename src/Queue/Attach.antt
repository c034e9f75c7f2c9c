-- ===== src/Queue/Attach.antt =====
-- radqueue.c: the list of the queues that a process sends to, and joining and leaving a group.
use radlib.Base.{
  ℕ, Bool, true, false, if◌then◌else◌, ◌==◌, ◌&&◌, ◌||◌, Option, none, some, List, [], ◌∷◌, ◌++◌,
}
use radlib.SysDefs.{Status, ok, error}
use radlib.Queue.{
  Queue, MsgqRecord, QsendNode, bfr_get, bfr_rls, pipe_close, Env, log, queue_group_all,
}
use radlib.Queue.Table.{add_queue, delete_queue}
use radlib.Queue.Group.{Body, group_loop}

abbrev pub is_node : (name group : ℕ) → QsendNode → Bool
is_node name group n = (name == n.name) && (n.group == group)

unfoldable pub has_node : (name group : ℕ) → List QsendNode → Bool
has_node name group [] = false
has_node name group (n ∷ ns) = is_node name group n || has_node name group ns

-- The first node with the name.
unfoldable pub find_fd : ℕ → List QsendNode → Option ℕ
find_fd name [] = none
find_fd name (n ∷ ns) = if n.name == name then some n.pipe_fd else find_fd name ns

-- `qSendListGetFD`: `none` is -1. The reflector pipe leads back to the process itself.
unfoldable pub send_list_get_fd : Queue → ℕ → Option ℕ
unfolding find_fd
send_list_get_fd q name = if q.name == name then some q.reflect_fd else find_fd name q.send_queues

unfoldable pub is_attached : Queue → ℕ → Bool
unfolding send_list_get_fd
is_attached q name = elim (send_list_get_fd q name) [ none ↦ false | some fd ↦ true ]

-- The release of the nodes: their pipes are not closed.
unfoldable pub release_nodes : List QsendNode → Queue → Queue
unfolding log
release_nodes [] q = q
release_nodes (n ∷ ns) q = release_nodes ns (log q (bfr_rls n.buffer))

unfoldable pub free_send_list : Queue → Queue
unfolding release_nodes
free_send_list q = record (release_nodes q.send_queues q) { send_queues = [] }

-- The search of `radQueueDettach`: the first node that matches, and the others.
unfoldable pub take_node : (name group : ℕ) → List QsendNode → Option (QsendNode × List QsendNode)
take_node name group [] = none
take_node name group (n ∷ ns) =
    let rest : Option (QsendNode × List QsendNode) = elim (take_node name group ns) [
      | none ↦ none
      | some (m, ms) ↦ some (m, n ∷ ms)
    ] in
    if is_node name group n then some (n, ns) else rest

unfoldable pub dettach : Queue → (old_queue_name group : ℕ) → Status × Queue
unfolding take_node log
dettach q old_queue_name group = elim (take_node old_queue_name group q.send_queues) [
  | none ↦ (error, q)
  | some (n, ns) ↦
      (ok, log (log (record q { send_queues = ns }) (pipe_close n.pipe_fd)) (bfr_rls n.buffer))
]

-- A failure to leave a queue is only logged.
unfoldable pub dettach_group : ℕ → Queue → (old_group_number : ℕ) → Option (Status × Queue)
unfolding group_loop dettach
dettach_group fuel q old_group_number =
    group_loop fuel 0 old_group_number (λ store q. (ok, (dettach q store old_group_number).1)) q

-- The part of `radQueueInit` that is not about processes and pipes.
unfoldable pub init : (table : List MsgqRecord) → (my_name reflect_fd pipe_fd : ℕ) → Option Queue
unfolding add_queue log
init table my_name reflect_fd pipe_fd =
    let q : Queue = record {
      table = (add_queue my_name queue_group_all table).1;
      name = my_name;
      reflect_fd = reflect_fd;
      pipe_fd = pipe_fd;
      send_queues = [];
      events = [];
    } in
    elim (add_queue my_name queue_group_all table).0 [ error ↦ none | ok ↦ some q ]

unfoldable pub exit_queue : Queue → Queue
unfolding free_send_list delete_queue log
exit_queue q =
    let q1 = free_send_list q in
    let q2 = record q1 { table = (delete_queue q1.name queue_group_all q1.table).1 } in
    log (log q2 (pipe_close q2.reflect_fd)) (pipe_close q2.pipe_fd)

unfoldable pub quit_group : ℕ → Queue → (group_number : ℕ) → Option (Status × Queue)
unfolding dettach_group delete_queue
quit_group fuel q group_number = elim (dettach_group fuel q group_number) [
  | none ↦ none
  | some (error, q1) ↦ some (error, q1)
  | some (ok, q1) ↦
      let (r, t) = delete_queue q1.name group_number q1.table in some (r, record q1 { table = t })
]

module _ (env : Env) where
  unfoldable pub attach : Queue → (new_queue_name group : ℕ) → Status × Queue
  unfolding has_node log
  attach q new_queue_name group =
      if has_node new_queue_name group q.send_queues
      then (ok, q)
      else elim (env.buffer q.events env.node_size) [
        | none ↦ (error, q)
        | some b ↦
            let q1 = log q (bfr_get b) in
            elim (env.open_pipe q1.events new_queue_name) [
              | none ↦ (error, log q1 (bfr_rls b))
              | some fd ↦ (
                ok,
                record q1 {
                  send_queues =
                      q1.send_queues
                      ++ record { buffer = b; name = new_queue_name; pipe_fd = fd; group = group }
                        ∷ [];
                },
              )
            ]
      ]

  unfoldable pub attach_group : ℕ → Queue → (new_group_number : ℕ) → Option (Status × Queue)
  unfolding group_loop attach
  attach_group fuel q new_group_number =
      group_loop fuel 0 new_group_number (λ store q. attach q store new_group_number) q

  -- The body of `qSendListUpdate`: a queue that no node has is attached.
  unfoldable pub attach_new : (group : ℕ) → Body
  unfolding is_attached attach
  attach_new group store q = if is_attached q store then (ok, q) else attach q store group

  unfoldable pub send_list_update : ℕ → Queue → (group : ℕ) → Option (Status × Queue)
  unfolding group_loop attach_new
  send_list_update fuel q group = group_loop fuel 0 group (attach_new group) q

  unfoldable pub join_group : ℕ → Queue → (group_number : ℕ) → Option (Status × Queue)
  unfolding add_queue delete_queue attach_group
  join_group fuel q group_number =
      let (r, t) = add_queue q.name group_number q.table in
      elim r [
        | error ↦ some (error, q)
        | ok ↦ elim (attach_group fuel (record q { table = t }) group_number) [
          | none ↦ none
          | some (ok, q1) ↦ some (ok, q1)
          | some (error, q1) ↦
              some (error, record q1 { table = (delete_queue q1.name group_number q1.table).1 })
        ]
      ]
