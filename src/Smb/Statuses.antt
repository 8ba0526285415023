-- ===== src/Smb/Statuses.antt =====
-- Which codes are named, and how often.
use piping.Prelude.{
  ◌++◌, ℕ, zero, suc, true, List, [], ◌∷◌, any, if◌then◌else◌, ◌≡◌, length, take, Option, none,
  some, ◌≤◌, leb,
}
use piping.Semester.{eq_text}
use piping.Decimal.{codes}
use piping.Url.{starts}
use piping.Smb.Trim.{IsTrimmed}
use piping.Smb.{
  status_prefix, find_statuses, statuses, join, truncated, Report, with_status, with_output,
}

-- How often a text stands in a list.
abbrev pub times_text : List ℕ → List (List ℕ) → ℕ
times_text x [] = 0
times_text x (y ∷ ys) = if eq_text x y then suc (times_text x ys) else times_text x ys

abbrev IsStatus : List ℕ → Type 0
IsStatus m = starts status_prefix m ≡ true

abbrev IsMatch : Option (List ℕ) → Type 0
IsMatch none = Unit
IsMatch (some m) = IsStatus m

-- A text, or its first 300 bytes and that it goes on.
abbrev pub cut : List ℕ → List ℕ
cut t = if leb (length t) 300 then t else take 300 t ++ truncated

-- What a report may be if the context has no error.
pub data Tells (out : List ℕ) : Report → Type 0 where
  the_codes :
      {m : List ℕ} {ms : List (List ℕ)}
      → find_statuses zero out ≡ m ∷ ms
      → ((x : List ℕ)
          → times_text x (statuses out)
            ≡ (if any (eq_text x) (find_statuses zero out) then 1 else 0))
      → Tells out (with_status (join (codes ", ") (statuses out)))
  the_output :
      (t : List ℕ)
      → find_statuses zero out ≡ []
      → IsTrimmed out t
      → length (cut t) ≤ 314
      → Tells out (with_output (cut t))
