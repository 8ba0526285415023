-- ===== src/Web/Submits.antt =====
-- Whose submission a request is, and what its answer says.
use piping.Prelude.{
  ap, ℕ, ℤ, pos, String, Bool, true, false, Option, none, some, List, str_eq, ◌≡◌, ◌≢◌, refl, ◌∙◌,
  arith, inl, inr, ◌⊎◌,
}
use piping.Decimal.{codes, atoi}
use piping.Oidc.{value_of}
use piping.Semester.{eq_text}
use piping.Error.{Error, Result, ok, err}
use piping.Session.{Session, from_request}
use piping.Job.{Job}
use piping.App.Submit.{SubmitInput, SubmitResult, submit, store_and_deliver}
use piping.App.Submit.Checks.{IsWithin, counted, submit-Decided}
use piping.Web.{Form, Request, Response, Server, Moment}
use piping.Web.Handlers.{
  id_of, result, render, submitted, map_submit_error, header, handle_submit, submit_input, input_of,
  with_form, with_document, with_queue, with_copies, read_form,
}
use piping.Web.Routes.{is_post, at, same_origin, check_origin, app_routes, routes}
use piping.Web.Gate.{at_other, post-get, routes_private, with_session_ok, Untouched}

abbrev pub is_htmx : Request → Bool
is_htmx r = str_eq (header "HX-Request" r.headers) "true"

some_ne : {A : Type 0} {a : A} → ◌≡◌ {A = Option A} (some a) none → ⊥
some_ne h = cc

map_submit_error-ne : (e : Error) → (map_submit_error e).0 ≢ 200
unfolding map_submit_error
map_submit_error-ne e = ground arith

module _ {S : Type 0} (s : Server S) where
  -- What an upload of the user of the session asks for.
  pub record IsUpload (r : Request) (sess : Session) (i : SubmitInput) : Type 0 where
    pub own : i.username ≡ sess.sub
    pub form : Form
    pub sent : read_form s r ≡ ok form
    pub attached : form.document ≡ some (ok i.document, i.filename)
    pub number : ℤ
    pub queue_number : atoi (value_of "queue_id" form.values) ≡ ok number
    pub queue : i.queue_id ≡ id_of s number
    pub copies : atoi (value_of "copies" form.values) ≡ ok i.copies
    pub color : i.color ≡ eq_text (value_of "color" form.values) (codes "on")
    pub duplex : i.duplex ≡ eq_text (value_of "duplex" form.values) (codes "on")

  -- A submission that went through: its job was within the limits, and was stored and delivered. The state
  -- and the answer are those of the submission.
  pub record Accepted (r : Request) (sess : Session) (w : S) (p : Response × S) : Type 0 where
    pub input : SubmitInput
    pub upload : IsUpload r sess input
    pub stored : Job
    pub within : IsWithin s.submit input stored
    pub went_on :
        submit s.submit input w ≡ store_and_deliver s.submit input stored (counted s.submit input w)
    pub no_error : (submit s.submit input w).0.1 ≡ none
    pub answer : p.0 ≡ submitted s r sess ((submit s.submit input w).0.0, none)
    pub state : p.1 ≡ (submit s.submit input w).1

module _ {S : Type 0} (s : Server S) (r : Request) where
  -- A submission of the user of the session, sent from a page of this site.
  pub record Submits (sess : Session) (w : S) (p : Response × S) : Type 0 where
    pub input : SubmitInput
    pub own : input.username ≡ sess.sub
    pub from_here : same_origin s r ≡ true
    pub done : p ≡ submit_input s r sess input w

  check_origin_same :
      (next : S → Response × S) (w : S)
      → (Untouched w (check_origin s r next w))
        ⊎ ((same_origin s r ≡ true) × (check_origin s r next w ≡ next w))
  unfolding check_origin
  check_origin_same next w = ground arith

  refused :
      (sess : Session) (status : ℕ) (message : List ℕ)
      → (status ≢ 200)
      → is_htmx r ≡ false
      → (result s r sess status "Not printed" message).status ≢ 200
  unfolding result render
  refused sess status message ne h = rw h (ground arith)

  module _ (sess : Session) (w : S) where
    abbrev Ends : Response × S → Type 0
    Ends p =
        (Untouched w p × (is_htmx r ≡ false → p.0.status ≢ 200))
        ⊎ ((i : SubmitInput) × IsUpload s r sess i × (p ≡ submit_input s r sess i w))

    upload_of :
        (f : Form) (doc : List ℕ) (name : String) (q c : ℤ)
        → read_form s r ≡ ok f
        → f.document ≡ some (ok doc, name)
        → atoi (value_of "queue_id" f.values) ≡ ok q
        → atoi (value_of "copies" f.values) ≡ ok c
        → IsUpload s r sess (input_of s sess f doc name q c)
    unfolding input_of
    upload_of f doc name q c sent there queue copies = record {
      own = refl;
      form = f;
      sent = sent;
      attached = there;
      number = q;
      queue_number = queue;
      queue = refl;
      copies = copies;
      color = refl;
      duplex = refl;
    }

    with_copies-Ends :
        (f : Form) (doc : List ℕ) (name : String) (q : ℤ) (c : Result ℤ)
        → read_form s r ≡ ok f
        → f.document ≡ some (ok doc, name)
        → atoi (value_of "queue_id" f.values) ≡ ok q
        → atoi (value_of "copies" f.values) ≡ c
        → Ends (with_copies s r sess f doc name q c w)
    with_copies-Ends f doc name q (err e) sent there queue copies =
        inl (refl, refused sess 400 _ (λ e. absurd (omega (arith, e))))
    with_copies-Ends f doc name q (ok c) sent there queue copies =
        inr (input_of s sess f doc name q c, upload_of f doc name q c sent there queue copies, refl)

    with_queue-Ends :
        (f : Form) (doc : List ℕ) (name : String) (q : Result ℤ)
        → read_form s r ≡ ok f
        → f.document ≡ some (ok doc, name)
        → atoi (value_of "queue_id" f.values) ≡ q
        → Ends (with_queue s r sess f doc name q w)
    with_queue-Ends f doc name (err e) sent there queue =
        inl (refl, refused sess 400 _ (λ e. absurd (omega (arith, e))))
    with_queue-Ends f doc name (ok q) sent there queue =
        with_copies-Ends f doc name q _ sent there queue refl

    with_document-Ends :
        (f : Form) (d : Option (Result (List ℕ) × String))
        → read_form s r ≡ ok f
        → f.document ≡ d
        → Ends (with_document s r sess f d w)
    with_document-Ends f none sent there =
        inl (refl, refused sess 400 _ (λ e. absurd (omega (arith, e))))
    with_document-Ends f (some (err e, name)) sent there =
        inl (refl, refused sess 400 _ (λ e. absurd (omega (arith, e))))
    with_document-Ends f (some (ok doc, name)) sent there =
        with_queue-Ends f doc name _ sent there refl

    with_form-Ends : (f : Result Form) → read_form s r ≡ f → Ends (with_form s r sess f w)
    with_form-Ends (err e) sent = inl (refl, refused sess 413 _ (λ e. absurd (omega (arith, e))))
    with_form-Ends (ok f) sent = with_document-Ends f f.document sent refl

    pub handle_submit-Ends : Ends (handle_submit s r sess w)
    unfolding handle_submit
    handle_submit-Ends = with_form-Ends (read_form s r) refl

  checked_submit :
      (sess : Session) (w : S)
      → (Untouched w (check_origin s r (handle_submit s r sess) w))
        ⊎ Submits sess w (check_origin s r (handle_submit s r sess) w)
  checked_submit sess w = elim (check_origin_same (handle_submit s r sess) w) [
    | inl same ↦ inl same
    | inr (from_here, e) ↦ rw e (elim (handle_submit-Ends sess w) [
      | inl (same, _) ↦ inl same
      | inr (i, up, done) ↦
          inr (record { input = i; own = up.own; from_here = from_here; done = done })
    ])
  ]

  submitted_ok :
      (sess : Session) (a : SubmitResult × Option Error)
      → is_htmx r ≡ false
      → (submitted s r sess a).status ≡ 200
      → a.1 ≡ none
  unfolding submitted
  submitted_ok sess (res, none) h k = refl
  submitted_ok sess (res, some e) h k =
      absurd (refused sess (map_submit_error e).0 _ (map_submit_error-ne e) h k)

  went_through :
      (sess : Session) (w : S) (i : SubmitInput)
      → IsUpload s r sess i
      → (submit s.submit i w).0.1 ≡ none
      → Accepted s r sess w (submit_input s r sess i w)
  went_through sess w i up clean = elim (submit-Decided s.submit i w) [
    | inl (e, w', _, failed) ↦ absurd (some_ne (rw failed at clean))
    | inr (j, within, goes) ↦ record {
      input = i;
      upload = up;
      stored = j;
      within = within;
      went_on = goes;
      no_error = clean;
      answer = ap (λ e. submitted s r sess ((submit s.submit i w).0.0, e)) clean;
      state = refl;
    }
  ]

  -- Unless it is asked for by htmx, a page with the status 200 answers an upload only if the
  -- submission of what was uploaded, for the user of the session, went through: a job within all
  -- limits was handed to the store, no error came back, and the answer and the state are those of the
  -- submission.
  pub handle_submit-Accepted :
      (sess : Session) (w : S)
      → is_htmx r ≡ false
      → (handle_submit s r sess w).0.status ≡ 200
      → Accepted s r sess w (handle_submit s r sess w)
  handle_submit-Accepted sess w h k = elim (handle_submit-Ends sess w) [
    | inl (_, ne) ↦ absurd (ne h k)
    | inr (i, up, done) ↦
        rw done
          (went_through sess w i up (submitted_ok sess (submit s.submit i w).0 h (rw done at k)))
  ]

module _ {S : Type 0} (s : Server S) (m : Moment) (r : Request) where
  app_routes_submit :
      (sess : Session) (w : S)
      → at "/job" r ≡ true
      → is_post r ≡ true
      → app_routes s m r sess w ≡ check_origin s r (handle_submit s r sess) w
  unfolding app_routes
  app_routes_submit sess w here post =
      rw (at_other r.path "/job" "/" here (unfold eq_text in refl), here, post) refl

  to_submit :
      (sess : Session) (w : S)
      → from_request s.session (pos m.now) r.cookies ≡ ok sess
      → at "/job" r ≡ true
      → is_post r ≡ true
      → routes s m r w ≡ check_origin s r (handle_submit s r sess) w
  to_submit sess w has here post =
      routes_private s m r w (rw (post-get r.method post) refl)
      ∙ with_session_ok s m r sess w has
      ∙ app_routes_submit sess w here post

  -- With a session, a POST to /job either leaves everything as it was, or is a submission for the user of
  -- the session, in a request that the browser says comes from a page of this site.
  pub routes-Submits :
      (sess : Session) (w : S)
      → from_request s.session (pos m.now) r.cookies ≡ ok sess
      → at "/job" r ≡ true
      → is_post r ≡ true
      → (Untouched w (routes s m r w)) ⊎ Submits s r sess w (routes s m r w)
  routes-Submits sess w has here post =
      rw (to_submit sess w has here post) (checked_submit s r sess w)
