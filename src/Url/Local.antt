-- ===== src/Url/Local.antt =====
-- Which URLs name another host.
use piping.Prelude.{
  ℕ, ltb, ◌==◌, Bool, true, false, ◌||◌, List, [], ◌∷◌, length, any, All, ◌≡◌, refl, sym, ap, ◌∙◌,
  arith, ◌+◌, Bool-cases, ==_iff, ==_refl, inl, inr,
}
use mathlib.Core.List.{append-nil}
use piping.Decimal.{codes}
use piping.Semester.{eq_text}
use piping.Error.{ok, ◌>>=◌}
use piping.Url.{
  is_letter, is_number, one_of, cut_at, has_scheme, unescape, should_escape, escape, bare,
  with_path, has_ctl, parse_rest, parse_url, parse, escaped_path, request_uri,
}

-- A character that stands for itself in a path, and ends no part of a URL.
abbrev pub is_plain : ℕ → Bool
is_plain c = is_letter c || is_number c || one_of (codes "-./@") c

abbrev pub AllPlain : List ℕ → Type 0
AllPlain = All (λ c. is_plain c ≡ true)

true_ne : ◌≡◌ {A = Bool} true false → ⊥
true_ne h = cc

plain_ne : (c d : ℕ) → is_plain c ≡ true → is_plain d ≡ false → (c == d) ≡ false
plain_ne c d h k = elim (Bool-cases (c == d)) [
  | inl e ↦ absurd (true_ne (sym h ∙ ap is_plain ((==_iff c d).0 e) ∙ k))
  | inr e ↦ e
]

plain_kept : (c : ℕ) → is_plain c ≡ true → should_escape c ≡ false
plain_kept c h = ground arith

plain_no_ctl : (c : ℕ) → is_plain c ≡ true → (ltb c 0x20 || (c == 0x7F)) ≡ false
plain_no_ctl c h = ground arith

cut_at_none : (d : ℕ) (s : List ℕ) → is_plain d ≡ false → AllPlain s → cut_at d s ≡ (s, [])
unfolding cut_at
cut_at_none d [] p h = refl
cut_at_none d (c ∷ s) p h = rw (plain_ne c d h.0 p, cut_at_none d s p h.1) refl

unescape_plain : (s : List ℕ) → AllPlain s → unescape s ≡ ok s
unfolding unescape
unescape_plain [] h = refl
unescape_plain (c ∷ []) h = rw (plain_ne c b'%' h.0 refl) refl
unescape_plain (c ∷ d ∷ []) h = rw (plain_ne c b'%' h.0 refl, plain_ne d b'%' h.1.0 refl) refl
unescape_plain (c ∷ d ∷ e ∷ s) h =
    rw (plain_ne c b'%' h.0 refl, unescape_plain (d ∷ e ∷ s) h.1) refl

escape_plain : (s : List ℕ) → AllPlain s → escape s ≡ s
unfolding escape
escape_plain [] h = refl
escape_plain (c ∷ s) h = rw (plain_kept c h.0, escape_plain s h.1) refl

no_ctl : (s : List ℕ) → AllPlain s → has_ctl s ≡ false
no_ctl [] h = refl
no_ctl (c ∷ s) h = rw (plain_no_ctl c h.0) (no_ctl s h.1)

has_scheme_plain : (first : Bool) (s : List ℕ) → AllPlain s → has_scheme first s ≡ ok false
unfolding has_scheme
has_scheme_plain first [] h = refl
has_scheme_plain first (c ∷ s) h =
    rw (plain_ne c b':' h.0 refl, has_scheme_plain false s h.1) (ground arith)

pub no_colon : (s : List ℕ) → AllPlain s → any (λ c. c == b':') s ≡ false
no_colon [] h = refl
no_colon (c ∷ s) h = rw (plain_ne c b':' h.0 refl) (no_colon s h.1)

pub before_plain : (d : ℕ) (s : List ℕ) → AllPlain s → AllPlain (cut_at d s).0
unfolding cut_at
before_plain d [] h = tt
before_plain d (c ∷ s) h = elim (Bool-cases (c == d)) [
  | inl e ↦ rw e tt
  | inr e ↦ rw e (h.0, before_plain d s h.1)
]

eq_text_refl : (s : List ℕ) → eq_text s s ≡ true
unfolding eq_text
eq_text_refl [] = refl
eq_text_refl (c ∷ s) = rw (==_refl c) (eq_text_refl s)

pub with_path_plain :
    (p : List ℕ) (query : List ℕ) (force : Bool)
    → AllPlain p
    → with_path p query force ≡ ok (bare p [] query force)
with_path_plain p query force h = rw (unescape_plain p h, escape_plain p h, eq_text_refl p) refl

not_star : (p : List ℕ) → AllPlain p → eq_text p (codes "*") ≡ false
unfolding eq_text
not_star [] h = refl
not_star (c ∷ p) h = rw (plain_ne c b'*' h.0 refl) refl

no_longer : (n : ℕ) → (n + 1 == n) ≡ false
no_longer n = ground arith

-- A URL of plain characters is a path behind what may be an authority.
pub parse_plain : (p : List ℕ) → AllPlain p → parse p ≡ (parse_rest p [] false >>= ok)
unfolding parse parse_url unescape
parse_plain p h =
    rw
      (
        cut_at_none b'#' p refl h,
        no_ctl p h,
        not_star p h,
        has_scheme_plain true p h,
        cut_at_none b'?' p refl h,
        no_longer (length p),
      )
      refl

pub request_uri_plain :
    (c : ℕ) (p : List ℕ) → AllPlain (c ∷ p) → request_uri (c ∷ p) [] [] false ≡ c ∷ p
unfolding request_uri escaped_path
request_uri_plain c p h = rw (not_star (c ∷ p) h, escape_plain (c ∷ p) h, append-nil p) refl
