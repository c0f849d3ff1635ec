-- ===== src/Nodes/Instances.antt =====
-- The node queues of data_structures/REQ/requests.c, whose nodes hold pointers to requests, and of
-- process_generator/process_generator_functions.c, whose nodes hold messages.
use cpu_scheduler.Base.{ℕ, Option, Bool}
use cpu_scheduler.Types.{ProcessData}
use cpu_scheduler.Run.{Cmd}
use cpu_scheduler.Nodes.{
  Node, Linked, is_null, create_nodes, enqueue_node, dequeue_node, peek_node, free_nodes,
}

-- A pointer to a request.
abbrev pub ReqPtr : Type 0
ReqPtr = ℕ

unfoldable pub create_req_queue : (ℕ → Option (Node ReqPtr)) → ℕ → Linked ReqPtr
unfolding create_nodes
create_req_queue heap fresh = create_nodes heap fresh

unfoldable pub is_empty_req : Linked ReqPtr → Bool
is_empty_req q = is_null q.front

unfoldable pub enqueue_req : ReqPtr → Cmd (Linked ReqPtr) (Unit {0})
unfolding enqueue_node
enqueue_req req = enqueue_node req

unfoldable pub dequeue_req : Cmd (Linked ReqPtr) ReqPtr
unfolding dequeue_node
dequeue_req = dequeue_node

unfoldable pub peek_req : Cmd (Linked ReqPtr) ReqPtr
unfolding peek_node
peek_req = peek_node

unfoldable pub free_req_queue : ℕ → Cmd (Linked ReqPtr) (Unit {0})
unfolding free_nodes
free_req_queue rounds = free_nodes rounds

unfoldable pub pg_create_queue : (ℕ → Option (Node ProcessData)) → ℕ → Linked ProcessData
unfolding create_nodes
pg_create_queue heap fresh = create_nodes heap fresh

unfoldable pub pg_is_empty : Linked ProcessData → Bool
pg_is_empty q = is_null q.front

unfoldable pub pg_enqueue : ProcessData → Cmd (Linked ProcessData) (Unit {0})
unfolding enqueue_node
pg_enqueue p = enqueue_node p

unfoldable pub pg_dequeue : Cmd (Linked ProcessData) ProcessData
unfolding dequeue_node
pg_dequeue = dequeue_node

unfoldable pub pg_peek : Cmd (Linked ProcessData) ProcessData
unfolding peek_node
pg_peek = peek_node

unfoldable pub pg_free_queue : ℕ → Cmd (Linked ProcessData) (Unit {0})
unfolding free_nodes
pg_free_queue rounds = free_nodes rounds
