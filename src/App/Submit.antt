-- ===== src/App/Submit.antt =====
-- internal/app/submit.go: from an upload to a job that is stored, paid for and delivered.
pub mod Checks
use piping.Prelude.{
  ℕ, ℤ, pos, ◌*ℤ◌, wrap64, ltb_ℤ, leb_ℤ, String, Bool, true, false, ◌||◌, not, Option, none, some,
  List, [], ◌∷◌, length, if◌then◌else◌,
}
use piping.Error.{
  Error, Result, ok, err, not_pdf, unreadable, unavailable, insufficient, too_large, too_many_pages,
  invalid_copies,
}
use piping.Job.{Job, unknown}
use piping.Pdf.{is_pdf}
use piping.Queue.{Queue}
use piping.Quota.{Rates, cost}
use piping.App.Deliver.{DeliveryOutcome, unset}

pub record SubmitInput : Type 0 where
  pub username : String
  pub queue_id : ℕ
  pub document : List ℕ
  pub color : Bool
  pub duplex : Bool
  pub copies : ℤ
  pub filename : String

pub record SubmitResult : Type 0 where
  pub job_id : ℕ
  pub pages : ℤ
  pub cost : ℤ
  pub outcome : DeliveryOutcome

-- `SubmitResult{}`
abbrev pub no_result : SubmitResult
no_result = record { job_id = 0; pages = pos 0; cost = pos 0; outcome = unset }

-- The interfaces that a submission goes by, and the limits that it keeps.
pub record Submitter (S : Type 0) : Type 0 where
  pub count_pages : List ℕ → S → Result (ℤ × ℤ) × S
  pub get_queue : ℕ → S → Result Queue × S
  pub check_quota_and_store : Job → S → (Job × Option Error) × S
  pub deliver : Job → List ℕ → S → (DeliveryOutcome × Option Error) × S
  pub rates : Rates
  pub max_bytes : ℤ
  pub max_pages : ℤ
  pub max_copies : ℤ

-- The job that is handed to the store; the database gives it an id, a state and a time.
unfoldable pub job_of : SubmitInput → ℤ → ℤ → ℤ → Job
job_of i pages color_pages price = record {
  id = 0;
  username = i.username;
  queue_id = i.queue_id;
  destination_id = none;
  state = unknown;
  num_pages = pages;
  num_color_pages = color_pages;
  copies = i.copies;
  cost = price;
  color = i.color;
  duplex = i.duplex;
  document_name = i.filename;
  submitted_at = 0;
  completed_at = none;
  refunded_at = none;
}

module _ {S : Type 0} where
  abbrev pub fail : Error → S → (SubmitResult × Option Error) × S
  fail e s = ((no_result, some e), s)

  abbrev pub with_outcome :
      SubmitResult → (DeliveryOutcome × Option Error) × S → (SubmitResult × Option Error) × S
  with_outcome r ((out, e), s) = ((record r { outcome = out }, e), s)

  -- After `CheckQuotaAndStore`.
  abbrev pub after_store :
      Submitter S → SubmitInput → Job → (Job × Option Error) × S → (SubmitResult × Option Error) × S
  after_store p i j ((created, none), s) =
      with_outcome
        (record { job_id = created.id; pages = j.num_pages; cost = j.cost; outcome = unset })
        (p.deliver created i.document s)
  after_store p i j ((created, some insufficient), s) = (
    (
      record { job_id = created.id; pages = j.num_pages; cost = j.cost; outcome = unset },
      some insufficient,
    ),
    s,
  )
  after_store p i j ((created, some e), s) = fail e s

  unfoldable pub store_and_deliver :
      Submitter S → SubmitInput → Job → S → (SubmitResult × Option Error) × S
  store_and_deliver p i j s = after_store p i j (p.check_quota_and_store j s)

  -- The checks of what the analyzer counted and of the number of copies.
  abbrev pub check_counts :
      Submitter S → SubmitInput → ℤ → ℤ → S → (SubmitResult × Option Error) × S
  check_counts p i pages color_pages s =
      if leb_ℤ pages (pos 0) || ltb_ℤ color_pages (pos 0) || ltb_ℤ pages color_pages
      then fail unreadable s
      else if ltb_ℤ p.max_pages pages
      then fail too_many_pages s
      else if ltb_ℤ i.copies (pos 1) || ltb_ℤ p.max_copies i.copies
      then fail invalid_copies s
      else store_and_deliver p i
          (job_of i pages color_pages (wrap64 (cost p.rates pages color_pages *ℤ i.copies))) s

  abbrev pub after_count :
      Submitter S → SubmitInput → Result (ℤ × ℤ) × S → (SubmitResult × Option Error) × S
  after_count p i (err e, s) = fail e s
  after_count p i (ok (pages, color_pages), s) =
      check_counts p i pages (if i.color then color_pages else pos 0) s

  abbrev pub after_queue :
      Submitter S → SubmitInput → Result Queue × S → (SubmitResult × Option Error) × S
  after_queue p i (err e, s) = fail e s
  after_queue p i (ok q, s) =
      if not q.enabled then fail unavailable s else after_count p i (p.count_pages i.document s)

  unfoldable pub submit : Submitter S → SubmitInput → S → (SubmitResult × Option Error) × S
  submit p i s =
      if ltb_ℤ p.max_bytes (pos (length i.document))
      then fail too_large s
      else if not (is_pdf i.document)
      then fail not_pdf s
      else after_queue p i (p.get_queue i.queue_id s)
