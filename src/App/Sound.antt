-- ===== src/App/Sound.antt =====
-- A submission and the soundness of the database, as the program is put together in
-- cmd/piping/main.go.
use piping.Prelude.{
  ℤ, pos, Option, none, some, not, if_case, if◌then◌else◌, leb_ℤ, ltb_ℤ, ◌||◌, length,
}
use piping.Error.{
  Error, Result, ok, err, insufficient, unreadable, too_many_pages, invalid_copies, unavailable,
  too_large, not_pdf,
}
use piping.Job.{Job}
use piping.Queue.{Queue}
use piping.Pdf.{is_pdf}
use piping.Store.World.{World}
use piping.Store.Jobs.{check_quota_and_store}
use piping.Store.Jobs.Safe.{
  Sound, Sound-blind, query-Sound, update_job_state-Sound, mark_sent-Sound,
}
use piping.Store.Jobs.Promises.{check_quota_and_store-IsSound}
use piping.Store.Queues.{get_queue, destinations_for_queue, load_balancer_policy_for_queue}
use piping.App.Deliver.Waits.{send-keeps, pause-keeps, rand-keeps}
use piping.App.Deliver.Keeps.{IsKept, deliver-kept}
use piping.App.Submit.{
  SubmitInput, SubmitResult, after_store, fail, store_and_deliver, check_counts, after_count,
  after_queue, submit,
}
use piping.App.Postgres.{deliverer, Config, submitter}

deliverer-IsKept : (n : ℤ) → IsKept (deliverer n) Sound
unfolding deliverer destinations_for_queue load_balancer_policy_for_queue
deliverer-IsKept n = record {
  sends = λ dest doc w s. send-keeps Sound Sound-blind dest doc w s;
  pauses = λ w s. pause-keeps Sound Sound-blind w s;
  rolls = λ w s. rand-keeps Sound Sound-blind w s;
  lists = λ q w s. query-Sound none _ w s;
  reads = λ q w s. query-Sound none _ w s;
  updates = update_job_state-Sound;
  marks = mark_sent-Sound;
}

-- What a submission ends with is a sound database.
record Ends (p : (SubmitResult × Option Error) × World) : Type 0 where
  still : Sound p.1

module _ (c : Config) (i : SubmitInput) where
  after_store-Sound :
      (j : Job) (r : (Job × Option Error) × World)
      → Sound r.1
      → Sound (after_store (submitter c) i j r).1
  unfolding submitter
  after_store-Sound j ((created, none), w) s =
      deliver-kept (deliverer c.max_send_attempts) Sound (deliverer-IsKept c.max_send_attempts)
        created i.document w s
  after_store-Sound j ((created, some insufficient), w) s = s
  after_store-Sound j ((created, some e), w) s = s

  store_and_deliver-Sound :
      (j : Job) (w : World) → Sound w → Ends (store_and_deliver (submitter c) i j w)
  unfolding store_and_deliver submitter
  store_and_deliver-Sound j w s = record {
    still = after_store-Sound j (check_quota_and_store j w) (check_quota_and_store-IsSound j w s);
  }

  failed : (e : Error) (w : World) → Sound w → Ends (fail e w)
  failed e w s = record { still = s }

  check_counts-Sound :
      (pages color_pages : ℤ) (w : World)
      → Sound w
      → Ends (check_counts (submitter c) i pages color_pages w)
  check_counts-Sound pages color_pages w s =
      if_case Ends (leb_ℤ pages (pos 0) || ltb_ℤ color_pages (pos 0) || ltb_ℤ pages color_pages)
        (λ _. failed unreadable w s)
        (λ _.
          if_case Ends (ltb_ℤ (submitter c).max_pages pages) (λ _. failed too_many_pages w s)
            (λ _.
              if_case Ends (ltb_ℤ i.copies (pos 1) || ltb_ℤ (submitter c).max_copies i.copies)
                (λ _. failed invalid_copies w s) (λ _. store_and_deliver-Sound _ w s)))

  after_count-Sound :
      (r : Result (ℤ × ℤ) × World) → Sound r.1 → Ends (after_count (submitter c) i r)
  after_count-Sound (err e, w) s = failed e w s
  after_count-Sound (ok (pages, color_pages), w) s =
      check_counts-Sound pages (if i.color then color_pages else pos 0) w s

  after_queue-Sound : (r : Result Queue × World) → Sound r.1 → Ends (after_queue (submitter c) i r)
  unfolding submitter
  after_queue-Sound (err e, w) s = failed e w s
  after_queue-Sound (ok q, w) s =
      if_case Ends (not q.enabled) (λ _. failed unavailable w s)
        (λ _. after_count-Sound (c.gs i.document, w) s)

  -- However a submission ends, under every schedule of failures and of other processes, it leaves a
  -- sound database behind if it found one.
  pub submit-Sound : (w : World) → Sound w → Sound (submit (submitter c) i w).1
  unfolding submit submitter get_queue
  submit-Sound w s =
      (if_case Ends (ltb_ℤ c.max_bytes (pos (length i.document))) (λ _. failed too_large w s)
        (λ _.
          if_case Ends (not (is_pdf i.document)) (λ _. failed not_pdf w s)
            (λ _. after_queue-Sound (get_queue i.queue_id w) (query-Sound none _ w s)))).still
