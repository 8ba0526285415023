-- ===== src/Web/Handlers.antt =====
-- internal/web/handlers.go, the pages and the upload, and `render` of internal/web/templates.go.
use piping.Prelude.{
  ℕ, ◌+◌, ◌-◌, ◌*◌, ◌^◌, ℤ, pos, negsuc, ◌+ℤ◌, wrap64, ltb_ℤ, String, Bool, true, false, not, ◌||◌,
  Option, none, some, List, [], ◌∷◌, ◌++◌, str_eq, any, length, if◌then◌else◌,
}
use piping.Decimal.{codes, itoa, atoi}
use piping.Semester.{eq_text}
use piping.Error.{
  Error, Result, ok, err, other, ◌>>=◌, not_pdf, unreadable, too_large, too_many_pages,
  invalid_copies, unavailable, insufficient,
}
use piping.Session.{Session}
use piping.Oidc.{value_of}
use piping.App.Deliver.{DeliveryOutcome, delivery_succeeded}
use piping.App.Submit.{SubmitInput, SubmitResult, submit}
use piping.Web.{
  Form, Request, BaseView, View, Response, Server, Moment, home_view, jobs_view, admin_view,
  result_view, page, plain, http_error,
}
use piping.Web.Views.{base, to_job_views, to_queue_views}

-- `r.Header.Get`
unfoldable pub header : String → List (String × String) → String
header name [] = ""
header name ((n, v) ∷ rest) = let next = header name rest in if str_eq n name then v else next

-- mapSubmitError
unfoldable pub map_submit_error : Error → ℕ × String
map_submit_error not_pdf =
    (422, "That file is not a PDF. Export your document as PDF and try again.")
map_submit_error unreadable =
    (422, "That PDF could not be read — it may be corrupt or password-protected.")
map_submit_error too_large = (413, "The document exceeds the size limit.")
map_submit_error too_many_pages = (422, "The document exceeds the page limit.")
map_submit_error invalid_copies = (422, "The copy count is out of range.")
map_submit_error unavailable = (409, "That printer is currently unavailable. Choose another.")
map_submit_error insufficient = (409, "You do not have enough quota for this job.")
map_submit_error _ = (
  500,
  "Something went wrong and we could not confirm your job's status. Check your job history before submitting again.",
)

module _ {S : Type 0} (s : Server S) where
  unfoldable pub render : ℕ → String → BaseView → View → Response
  render status name b view =
      if not (any (str_eq name) s.pages) || not (s.outside.executes b view)
      then http_error 500 "internal error"
      else plain status (page b view)

  -- A request of htmx is always answered with 200.
  unfoldable pub result : Request → Session → ℕ → String → List ℕ → Response
  unfolding render base header
  result r sess status title message =
      render (if str_eq (header "HX-Request" r.headers) "true" then 200 else status) "result"
        (base s sess) (result_view title message)

  -- Where a handler reads something, and an error ends it.
  abbrev pub or_internal : {A : Type 0} → Result A × S → (A → S → Response × S) → Response × S
  or_internal (err e, w) k = (http_error 500 "internal error", w)
  or_internal (ok a, w) k = k a w

  abbrev pub a_day : ℕ
  a_day = 24 * 3600 * 1000000000

  unfoldable pub handle_home : Moment → Session → S → Response × S
  unfolding render base to_job_views to_queue_views
  handle_home m sess w = or_internal (s.dash.remaining_quota sess.sub w) λ remaining w.
      or_internal (s.dash.granted_quota sess.sub w) λ granted w.
        or_internal (s.dash.enabled_queues w) λ queues w.
          or_internal (s.dash.jobs_with_destination_for_user sess.sub (some (m.now - a_day)) 5 w)
            λ recent w. (
              render 200 "home" (base s sess) (
                  home_view (record {
                    remaining = remaining;
                    granted = granted;
                    queues = to_queue_views queues;
                    recent = to_job_views m.now recent;
                    max_copies = s.max_copies;
                    max_size = s.max_bytes;
                    color_rate = s.color_rate;
                  })),
              w,
            )

  unfoldable pub handle_jobs : Moment → Session → S → Response × S
  unfolding render base to_job_views
  handle_jobs m sess w =
      or_internal (s.dash.jobs_with_destination_for_user sess.sub none 50 w)
        λ jobs w. (render 200 "jobs" (base s sess) (jobs_view (to_job_views m.now jobs)), w)

  unfoldable pub handle_admin : Session → S → Response × S
  unfolding render base
  handle_admin sess w = (render 200 "admin" (base s sess) admin_view, w)

  -- A negative number is the id of no queue, and neither is one beyond the range of the column.
  abbrev pub id_of : ℤ → ℕ
  id_of (pos n) = n
  id_of (negsuc n) = 2 ^ 63 + n

  abbrev pub is_on : String → Form → Bool
  is_on name f = eq_text (value_of name f.values) (codes "on")

  unfoldable pub input_of : Session → Form → List ℕ → String → ℤ → ℤ → SubmitInput
  unfolding value_of eq_text
  input_of sess f doc filename queue_id copies = record {
    username = sess.sub;
    queue_id = id_of queue_id;
    document = doc;
    color = is_on "color" f;
    duplex = is_on "duplex" f;
    copies = copies;
    filename = filename;
  }

  abbrev pub is_succeeded : DeliveryOutcome → Bool
  is_succeeded delivery_succeeded = true
  is_succeeded _ = false

  -- What a submission is answered with.
  unfoldable pub submitted : Request → Session → SubmitResult × Option Error → Response
  unfolding result map_submit_error
  submitted r sess (res, some e) =
      let (status, message) = map_submit_error e in
      result r sess status "Not printed" (codes message)
  submitted r sess (res, none) =
      if is_succeeded res.outcome
      then result r sess 200 "Sent to printer"
          (itoa res.pages ++ codes " page(s), " ++ itoa res.cost ++ codes " quota deducted.")
      else result r sess 200 "Printing failed"
          (codes "The job could not be printed and your quota was refunded. Please try again.")

  abbrev pub refuse : Request → Session → ℕ → String → S → Response × S
  refuse r sess status message w = (result r sess status "Not printed" (codes message), w)

  abbrev pub submit_input : Request → Session → SubmitInput → S → Response × S
  submit_input r sess i w = let (answer, w') = submit s.submit i w in (submitted r sess answer, w')

  abbrev pub with_copies :
      Request → Session → Form → List ℕ → String → ℤ → Result ℤ → S → Response × S
  with_copies r sess f doc filename queue_id (err e) w = refuse r sess 400 "Invalid copy count." w
  with_copies r sess f doc filename queue_id (ok copies) w =
      submit_input r sess (input_of sess f doc filename queue_id copies) w

  -- strconv.ParseInt to the base 10 reads what strconv.Atoi does.
  abbrev pub with_queue : Request → Session → Form → List ℕ → String → Result ℤ → S → Response × S
  with_queue r sess f doc filename (err e) w = refuse r sess 400 "Choose a printer." w
  with_queue r sess f doc filename (ok queue_id) w =
      with_copies r sess f doc filename queue_id (atoi (value_of "copies" f.values)) w

  abbrev pub with_document :
      Request → Session → Form → Option (Result (List ℕ) × String) → S → Response × S
  with_document r sess f none w = refuse r sess 400 "No document attached." w
  with_document r sess f (some (err e, filename)) w =
      refuse r sess 400 "Could not read the upload." w
  with_document r sess f (some (ok doc, filename)) w =
      with_queue r sess f doc filename (atoi (value_of "queue_id" f.values)) w

  abbrev pub with_form : Request → Session → Result Form → S → Response × S
  with_form r sess (err e) w = refuse r sess 413 "Upload too large or malformed." w
  with_form r sess (ok f) w = with_document r sess f f.document w

  -- `r.FormValue` finds the values of the URL before those of a multipart body.
  abbrev pub with_query : Request → Form → Form
  with_query r f = record f { values = r.query ++ f.values }

  -- `http.MaxBytesReader`, with 1 MiB for the rest of the form, and `ParseMultipartForm`.
  abbrev pub read_form : Request → Result Form
  read_form r =
      if ltb_ℤ (wrap64 (s.max_bytes +ℤ pos (2 ^ 20))) (pos (length r.body))
      then err other
      else (s.outside.parse_form r >>= λ f. ok (with_query r f))

  unfoldable pub handle_submit : Request → Session → S → Response × S
  unfolding result submitted input_of
  handle_submit r sess w = with_form r sess (read_form r) w
