-- ===== src/Queue.antt =====
-- internal/queue/queue.go: print queues, their destinations, and the load balancer.
pub mod Balance
use piping.Prelude.{
  ℕ, ◌%◌, String, Bool, true, Option, none, some, List, [], ◌∷◌, str_eq, select, length, get_elem?,
  if◌then◌else◌,
}
use piping.Error.{Result, ok, err, other}

pub data LoadBalancerPolicy : Type 0 where
  unknown_policy uniform_policy : LoadBalancerPolicy

unfoldable pub policy_name : LoadBalancerPolicy → String
policy_name unknown_policy = ""
policy_name uniform_policy = "uniform"

pub record Queue : Type 0 where
  pub id : ℕ
  pub name : String
  pub enabled : Bool
  pub policy : LoadBalancerPolicy

pub record Destination : Type 0 where
  pub id : ℕ
  pub queue_id : ℕ
  pub address : String
  pub name : String
  pub enabled : Bool

unfoldable pub enabled_destinations : List Destination → List Destination
enabled_destinations dests = select (λ d. d.enabled) dests

abbrev pub all_policies : List LoadBalancerPolicy
all_policies = uniform_policy ∷ []

-- The loop of `PolicyFromString` over the policies that are left.
named : String → List LoadBalancerPolicy → Result LoadBalancerPolicy
named s [] = err other
named s (p ∷ rest) = if str_eq (policy_name p) s then ok p else named s rest

unfoldable pub policy_from_string : String → Result LoadBalancerPolicy
unfolding named policy_name
policy_from_string s = named s all_policies

-- The implementations of the interface `LoadBalancer`.
pub data LoadBalancer : Type 0 where
  uniform_balancer : LoadBalancer

unfoldable pub load_balancer_from_policy : LoadBalancerPolicy → Result LoadBalancer
load_balancer_from_policy uniform_policy = ok uniform_balancer
load_balancer_from_policy unknown_policy = err other

-- Reading a slice at an index; out of range it would panic.
index : List Destination → ℕ → Result Destination
index dests i = elim (get_elem? dests i) [ none ↦ err other | some d ↦ ok d ]

-- `rand.IntN(n)` is `roll % n`, where `roll` is any number.
unfoldable pub choose : LoadBalancer → ℕ → List Destination → Result Destination
unfolding index
choose uniform_balancer roll [] = err other
choose uniform_balancer roll (d ∷ dests) = index (d ∷ dests) (roll % length (d ∷ dests))
