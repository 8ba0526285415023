-- ===== src/App/Submit/Checks.antt =====
-- What has been checked of a job before it reaches the store, whatever the analyzer counts.
use piping.Prelude.{
  ap, ℤ, pos, ◌*ℤ◌, ◌≤ℤ◌, wrap64, ltb_ℤ, leb_ℤ, true, false, ◌||◌, not, Option, some, ◌≡◌, refl,
  arith, length, if◌then◌else◌, if_case, ◌⊎◌, inl, inr,
}
use piping.Error.{
  Error, Result, ok, err, not_pdf, unreadable, unavailable, too_large, too_many_pages,
  invalid_copies,
}
use piping.Job.{Job}
use piping.Pdf.{is_pdf}
use piping.Queue.{Queue}
use piping.Quota.{cost}
use piping.App.Submit.{
  SubmitInput, SubmitResult, no_result, Submitter, job_of, store_and_deliver, check_counts,
  after_count, after_queue, submit,
}

-- A job within the limits, as the store gets it.
pub record IsWithin {S : Type 0} (p : Submitter S) (i : SubmitInput) (j : Job) : Type 0 where
  pub small : pos (length i.document) ≤ℤ p.max_bytes
  pub pdf : is_pdf i.document ≡ true
  pub pages_pos : pos 1 ≤ℤ j.num_pages
  pub pages_max : j.num_pages ≤ℤ p.max_pages
  pub color_nonneg : pos 0 ≤ℤ j.num_color_pages
  pub color_within : j.num_color_pages ≤ℤ j.num_pages
  pub black : i.color ≡ false → j.num_color_pages ≡ pos 0
  pub copies_pos : pos 1 ≤ℤ j.copies
  pub copies_max : j.copies ≤ℤ p.max_copies
  pub asked : j.copies ≡ i.copies
  pub owner : j.username ≡ i.username
  pub priced : j.cost ≡ wrap64 (cost p.rates j.num_pages j.num_color_pages *ℤ j.copies)

module _ {S : Type 0} (p : Submitter S) (i : SubmitInput) where
  -- The state after the queue was looked up, and after the pages were counted.
  abbrev pub looked_up : S → S
  looked_up s = (p.get_queue i.queue_id s).1

  abbrev pub counted : S → S
  counted s = (p.count_pages i.document (looked_up s)).1

  -- Nothing was done since `s` but to look up the queue and to count the pages.
  abbrev pub OnlyRead : S → S → Type 0
  OnlyRead s s' = (s' ≡ s) ⊎ ((s' ≡ looked_up s) ⊎ (s' ≡ counted s))

  -- Either it is refused before anything is stored, or a job within the limits goes to the store.
  abbrev pub Decided : S → (SubmitResult × Option Error) × S → Type 0
  Decided s res =
      ((e : Error) × (s' : S) × OnlyRead s s' × (res ≡ ((no_result, some e), s')))
      ⊎ ((j : Job) × IsWithin p i j × (res ≡ store_and_deliver p i j (counted s)))

  module _ (small : ltb_ℤ p.max_bytes (pos (length i.document)) ≡ false)
      (pdf : is_pdf i.document ≡ true) (s : S) where
    check_counts-Decided :
        (pages color_pages : ℤ) (s' : S)
        → (i.color ≡ false → color_pages ≡ pos 0)
        → s' ≡ counted s
        → Decided s (check_counts p i pages color_pages s')
    check_counts-Decided pages color_pages s' black now =
        if_case (Decided s)
          (leb_ℤ pages (pos 0) || ltb_ℤ color_pages (pos 0) || ltb_ℤ pages color_pages)
          (λ _. inl (unreadable, s', inr (inr now), refl))
          (λ a.
            if_case (Decided s) (ltb_ℤ p.max_pages pages)
              (λ _. inl (too_many_pages, s', inr (inr now), refl))
              (λ b.
                if_case (Decided s) (ltb_ℤ i.copies (pos 1) || ltb_ℤ p.max_copies i.copies)
                  (λ _. inl (invalid_copies, s', inr (inr now), refl))
                  (λ c. inr (_, within a b c, ap (store_and_deliver p i _) now))))
      where
        within :
            (leb_ℤ pages (pos 0) || ltb_ℤ color_pages (pos 0) || ltb_ℤ pages color_pages) ≡ false
            → ltb_ℤ p.max_pages pages ≡ false
            → (ltb_ℤ i.copies (pos 1) || ltb_ℤ p.max_copies i.copies) ≡ false
            → IsWithin p i
                (job_of i pages color_pages (wrap64 (cost p.rates pages color_pages *ℤ i.copies)))
        within a b c =
            unfold job_of in
            record {
              small = ground arith;
              pdf = pdf;
              pages_pos = ground arith;
              pages_max = ground arith;
              color_nonneg = ground arith;
              color_within = ground arith;
              black = black;
              copies_pos = ground arith;
              copies_max = ground arith;
              asked = refl;
              owner = refl;
              priced = refl;
            }

    after_count-Decided : (r : Result (ℤ × ℤ) × S) → r.1 ≡ counted s → Decided s (after_count p i r)
    after_count-Decided (err e, s') now = inl (e, s', inr (inr now), refl)
    after_count-Decided (ok (pages, color_pages), s') now =
        check_counts-Decided pages (if i.color then color_pages else pos 0) s' (λ e. rw e) now

    after_queue-Decided : (r : Result Queue × S) → r.1 ≡ looked_up s → Decided s (after_queue p i r)
    after_queue-Decided (err e, s') now = inl (e, s', inr (inl now), refl)
    after_queue-Decided (ok q, s') now =
        if_case (Decided s) (not q.enabled) (λ _. inl (unavailable, s', inr (inl now), refl))
          (λ _.
            after_count-Decided (p.count_pages i.document s')
              (ap (λ x. (p.count_pages i.document x).1) now))

  -- Over any implementation of the interfaces a submission ends with an error when nothing was done
  -- but to look up the queue and to count the pages, or goes on from there with a job within all
  -- limits, for the user who submitted it and at its price, that it hands to the store.
  pub submit-Decided : (s : S) → Decided s (submit p i s)
  unfolding submit
  submit-Decided s =
      if_case (Decided s) (ltb_ℤ p.max_bytes (pos (length i.document)))
        (λ _. inl (too_large, s, inl refl, refl))
        (λ a.
          if_case (Decided s) (not (is_pdf i.document)) (λ _. inl (not_pdf, s, inl refl, refl))
            (λ b. after_queue-Decided a (ground arith) s (p.get_queue i.queue_id s) refl))
