-- ===== src/App/Postgres.antt =====
-- cmd/piping/main.go: the parts as `run` puts them together, over the store of internal/postgres and
-- the sender of internal/smb.
use piping.Prelude.{ℕ, ℤ, Bool, false, Option, none, some, List, [], ◌∷◌, if◌then◌else◌}
use piping.Quota.{Rates}
use piping.Error.{Error, Result, other, deadline_exceeded}
use piping.Queue.{Destination}
use piping.Store.World.{World, Attempt, delivered, refused, timed_out}
use piping.Store.Jobs.{update_job_state, mark_sent, check_quota_and_store}
use piping.Store.Queues.{get_queue, destinations_for_queue, load_balancer_policy_for_queue}
use piping.App.Submit.{Submitter}
use piping.App.Deliver.{deliver, Deliverer, new_deliverer}

-- The document reaches the printer of `dest`.
print : Destination → List ℕ → World → World
print dest doc w = record w { printed = (dest.id, doc) ∷ w.printed }

attempt : Attempt → Destination → List ℕ → World → Option Error × World
unfolding print
attempt delivered dest doc w = (none, print dest doc w)
attempt (refused reached) dest doc w = (some other, if reached then print dest doc w else w)
attempt (timed_out reached) dest doc w =
    (some deadline_exceeded, if reached then print dest doc w else w)

-- One run of `smbclient`, as the schedule has it.
unfoldable pub send : Destination → List ℕ → World → Option Error × World
unfolding attempt
send dest doc w = elim w.attempts [
  | [] ↦ attempt delivered dest doc w
  | a ∷ rest ↦ attempt a dest doc (record w { attempts = rest })
]

unfoldable pub pause : World → Bool × World
pause w = elim w.waits [ [] ↦ (false, w) | b ∷ rest ↦ (b, record w { waits = rest }) ]

unfoldable pub rand : World → ℕ × World
rand w = elim w.rolls [ [] ↦ (0, w) | r ∷ rest ↦ (r, record w { rolls = rest }) ]

unfoldable pub deliverer : ℤ → Deliverer World
unfolding new_deliverer
deliverer max_attempts =
    new_deliverer (record { send = send })
      (record { update_job_state = update_job_state; mark_sent = mark_sent })
      (record {
        destinations_for_queue = destinations_for_queue;
        load_balancer_policy_for_queue = load_balancer_policy_for_queue;
      })
      pause rand max_attempts

-- The limits of the configuration, and what Ghostscript counts in a document.
pub record Config : Type 0 where
  pub gs : List ℕ → Result (ℤ × ℤ)
  pub rates : Rates
  pub max_bytes : ℤ
  pub max_pages : ℤ
  pub max_copies : ℤ
  pub max_send_attempts : ℤ

unfoldable pub submitter : Config → Submitter World
submitter c = record {
  count_pages = λ doc w. (c.gs doc, w);
  get_queue = get_queue;
  check_quota_and_store = check_quota_and_store;
  deliver = deliver (deliverer c.max_send_attempts);
  rates = c.rates;
  max_bytes = c.max_bytes;
  max_pages = c.max_pages;
  max_copies = c.max_copies;
}
