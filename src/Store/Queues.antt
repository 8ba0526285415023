-- ===== src/Store/Queues.antt =====
-- internal/postgres/queue_store.go: what the program reads of the queues and their destinations.
use piping.Prelude.{ℕ, Option, none, some, List, [], ◌∷◌, ◌==◌, select, if◌then◌else◌}
use piping.Error.{Result, ok, err, other, unavailable, ◌>>=◌}
use piping.Queue.{Queue, Destination, LoadBalancerPolicy, policy_from_string}
use piping.Store.{QueueRow}
use piping.Store.World.{Io, query}

-- WHERE id = $1, of a primary key
find_queue : ℕ → List QueueRow → Option QueueRow
find_queue id [] = none
find_queue id (q ∷ qs) = if q.id == id then some q else find_queue id qs

unfoldable pub scan_queue : QueueRow → Result Queue
scan_queue q = do
  p ← policy_from_string q.policy
  ok (record { id = q.id; name = q.name; enabled = q.enabled; policy = p })

get_row : Option QueueRow → Result Queue
get_row none = err unavailable
get_row (some q) = scan_queue q

unfoldable pub get_queue : ℕ → Io Queue
unfolding find_queue get_row scan_queue
get_queue id = query none (λ d. get_row (find_queue id d.queues))

unfoldable pub destinations_for_queue : ℕ → Io (List Destination)
destinations_for_queue queue_id =
    query none (λ d. ok (select (λ x. x.queue_id == queue_id) d.destinations))

policy_row : Option QueueRow → Result LoadBalancerPolicy
policy_row none = err other
policy_row (some q) = policy_from_string q.policy

unfoldable pub load_balancer_policy_for_queue : ℕ → Io LoadBalancerPolicy
unfolding find_queue policy_row
load_balancer_policy_for_queue queue_id =
    query none (λ d. policy_row (find_queue queue_id d.queues))
