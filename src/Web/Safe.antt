-- ===== src/Web/Safe.antt =====
-- Where `safePath` of internal/web/handlers.go sends a browser back to.
use piping.Prelude.{ℕ, false, List, [], ◌∷◌, ◌++◌, if◌then◌else◌, ◌≡◌, refl, arith}
use piping.Decimal.{codes}
use piping.Url.{with_path, starts, parse_rest, has_host, unescape, cut_at}
use piping.Url.Local.{
  AllPlain, no_colon, before_plain, with_path_plain, parse_plain, request_uri_plain,
}
use piping.Web.Auth.{safe_path}

rest_plain :
    (p : List ℕ)
    → AllPlain p
    → starts (codes "//") p ≡ false
    → parse_rest p [] false ≡ with_path p [] false
unfolding parse_rest
rest_plain p h d = rw (d, no_colon (cut_at b'/' p).0 (before_plain b'/' p h)) (ground arith)

-- For a text of letters, digits, `-`, `.`, `/` and `@` that does not begin with two slashes,
-- `safePath` answers the text itself if it begins with a slash, and `/` if it does not.
pub safe_path_plain :
    (p : List ℕ)
    → AllPlain p
    → starts (codes "//") p ≡ false
    → safe_path p ≡ (if starts (codes "/") p then p else codes "/")
unfolding safe_path
safe_path_plain [] h d =
    rw (parse_plain [] h, rest_plain [] h d, with_path_plain [] [] false h) refl
safe_path_plain (c ∷ p) h d =
    rw
      (
        parse_plain (c ∷ p) h,
        rest_plain (c ∷ p) h d,
        with_path_plain (c ∷ p) [] false h,
        request_uri_plain c p h,
      )
      (ground arith)

rest_at :
    (h : List ℕ) → parse_rest (codes "//@//" ++ h) [] false ≡ with_path (codes "//" ++ h) [] false
unfolding parse_rest has_host unescape
rest_at h = ground arith

-- `safePath` answers `//h` for `//@//h`, whatever `h` is made of letters, digits, `-`, `.`, `/` and
-- `@`: the authority `@` names no host, and the path behind it begins with two slashes, so the answer
-- names another site.
pub safe_path_elsewhere :
    (h : List ℕ) → AllPlain h → safe_path (codes "//@//" ++ h) ≡ codes "//" ++ h
unfolding safe_path
safe_path_elsewhere h p =
    rw
      (
        parse_plain (codes "//@//" ++ h) (refl, (refl, (refl, (refl, (refl, p))))),
        rest_at h,
        with_path_plain (codes "//" ++ h) [] false (refl, (refl, p)),
        request_uri_plain b'/' (b'/' ∷ h) (refl, (refl, p)),
      )
      refl
