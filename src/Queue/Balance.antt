-- ===== src/Queue/Balance.antt =====
-- What the load balancer of internal/queue/queue.go may choose.
use piping.Prelude.{
  ℕ, zero, suc, refl, ◌%◌, ◌<◌, true, some, List, [], ◌∷◌, ◌≡◌, ◌≢◌, length, get_elem?, arith, inl,
  inr, Among, Among-select,
}
use piping.Error.{ok}
use piping.Queue.{Destination, LoadBalancer, uniform_balancer, enabled_destinations, choose}

get_elem?-lt {ℓ} :
    {A : Type ℓ} (l : List A) (i : ℕ) → i < length l → (a : A) × (get_elem? l i ≡ some a)
get_elem?-lt [] i h = elim h [ ]
get_elem?-lt (x ∷ l) zero h = (x, refl)
get_elem?-lt (x ∷ l) (suc i) h = get_elem?-lt l i (omega arith)

Among-get_elem? : {A : Type 0} (l : List A) (i : ℕ) {a : A} → get_elem? l i ≡ some a → Among a l
Among-get_elem? [] i h = cc
Among-get_elem? (x ∷ l) zero h = inl (cc)
Among-get_elem? (x ∷ l) (suc i) h = inr (Among-get_elem? l i h)

choose_total :
    (lb : LoadBalancer) (roll : ℕ) (dests : List Destination)
    → dests ≢ []
    → (d : Destination) × (choose lb roll dests ≡ ok d) × Among d dests
unfolding choose
choose_total uniform_balancer roll [] h = absurd (h refl)
choose_total uniform_balancer roll (x ∷ dests) h =
    let (d, e) = get_elem?-lt (x ∷ dests) (roll % length (x ∷ dests)) (omega arith) in
    (d, ground arith, Among-get_elem? (x ∷ dests) _ e)

-- If a destination is enabled, the balancer chooses one of the enabled destinations,
-- whatever number it rolls.
pub choose-enabled :
    (lb : LoadBalancer) (roll : ℕ) (dests : List Destination)
    → enabled_destinations dests ≢ []
    → (d : Destination) × (choose lb roll (enabled_destinations dests) ≡ ok d)
      × (d.enabled ≡ true)
      × Among d dests
unfolding enabled_destinations
choose-enabled lb roll dests h =
    let (d, e, among) = choose_total lb roll (enabled_destinations dests) h in
    let (here, on) = Among-select (λ d. d.enabled) d dests among in (d, e, on, here)
