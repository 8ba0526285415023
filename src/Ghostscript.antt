-- ===== src/Ghostscript.antt =====
-- internal/ghostscript/analyzer.go: counting pages and colour pages by what Ghostscript prints. A text is
-- the list of its code points.
pub mod Lines
pub mod Counts
use piping.Prelude.{
  ℕ, zero, suc, ◌+◌, ◌-◌, ℤ, pos, leb, ◌==◌, Bool, true, false, not, ◌&&◌, ◌||◌, Option, none, some,
  List, [], ◌∷◌, ◌++◌, length, if◌then◌else◌,
}
use piping.Decimal.{codes}
use piping.Error.{Error, Result, ok, err, other, unreadable, ◌>>=◌}

-- `\d` and `\s` of package regexp
abbrev pub is_digit : ℕ → Bool
is_digit c = leb b'0' c && leb c b'9'

abbrev pub is_blank : ℕ → Bool
is_blank c = (c == 9) || (c == 10) || (c == 12) || (c == 13) || (c == 32)

-- The digits that a text starts with, and the rest.
unfoldable pub span : List ℕ → List ℕ × List ℕ
span [] = ([], [])
span (c ∷ s) = let (ds, r) = span s in if is_digit c then (c ∷ ds, r) else ([], c ∷ s)

infixl 5 ◌>>?◌
abbrev pub ◌>>?◌ : {A B : Type 0} → Option A → (A → Option B) → Option B
none >>? f = none
some a >>? f = f a

-- `\d+`
abbrev pub some_digits : List ℕ × List ℕ → Option (List ℕ × List ℕ)
some_digits ([], r) = none
some_digits (d ∷ ds, r) = some (d ∷ ds, r)

unfoldable pub digits : List ℕ → Option (List ℕ × List ℕ)
unfolding span
digits s = some_digits (span s)

-- A text after a given one.
unfoldable pub after : List ℕ → List ℕ → Option (List ℕ)
after [] s = some s
after (c ∷ p) [] = none
after (c ∷ p) (d ∷ s) = if c == d then after p s else none

-- `(\d+\.\d+)`. A part of the expression never matches less than it could: what follows it starts with
-- no character that it takes.
unfoldable pub number : List ℕ → Option (List ℕ × List ℕ)
unfolding digits after
number s = digits s >>? λ (a : List ℕ × List ℕ). after (b'.' ∷ []) a.1 >>? λ r.
    digits r >>? λ (b : List ℕ × List ℕ). some (a.0 ++ (b'.' ∷ b.0), b.1)

-- `\s+`
unfoldable pub skip : List ℕ → List ℕ
skip [] = []
skip (c ∷ s) = if is_blank c then skip s else c ∷ s

unfoldable pub blanks : List ℕ → Option (List ℕ)
unfolding skip
blanks [] = none
blanks (c ∷ s) = if is_blank c then some (skip s) else none

-- The submatches of a line that are read, as the text has them.
pub record Match : Type 0 where
  pub cyan : List ℕ
  pub magenta : List ℕ
  pub yellow : List ℕ

-- `cmykLine` at the start of a text
unfoldable pub cmyk_line : List ℕ → Option (Match × List ℕ)
unfolding number blanks after
cmyk_line s = number s >>? λ (c : List ℕ × List ℕ).
    blanks c.1 >>? number >>? λ (m : List ℕ × List ℕ).
    blanks m.1 >>? number >>? λ (y : List ℕ × List ℕ).
    blanks y.1 >>? number >>? λ (k : List ℕ × List ℕ).
    blanks k.1 >>? after (codes "CMYK OK") >>? λ r.
    some (record { cyan = c.0; magenta = m.0; yellow = y.0 }, r)

-- `FindAllStringSubmatch`: the next match is looked for after the last one. The number counts the characters
-- of that one which are left to pass.
unfoldable pub find_all : ℕ → List ℕ → List Match
unfolding cmyk_line
find_all n [] = []
find_all (suc n) (c ∷ s) = find_all n s
find_all zero (c ∷ s) = elim (cmyk_line (c ∷ s)) [
  | none ↦ find_all zero s
  | some (m, r) ↦ m ∷ find_all (length s - length r) s
]

-- The numbers of type float64, and what is done with them.
pub record Floats (F : Type 0) : Type 0 where
  pub parse : List ℕ → Result F
  pub max : F → F → F
  pub min : F → F → F
  pub sub : F → F → F
  pub less : F → F → Bool

-- A run of Ghostscript: what it printed, or it exits with an error, or it cannot be run.
pub data Run : Type 0 where
  printed : List ℕ → Run
  exited : Run
  failed : Run

abbrev pub add_page : Bool → ℕ × ℕ → ℕ × ℕ
add_page color (pages, color_pages) = (pages + 1, if color then color_pages + 1 else color_pages)

module _ {F : Type 0} (f : Floats F) (threshold : F) where
  unfoldable pub chroma_spread : F → F → F → F
  chroma_spread c m y = f.sub (f.max (f.max c m) y) (f.min (f.min c m) y)

  unfoldable pub is_color : Match → Result Bool
  unfolding chroma_spread
  is_color m = do
    c ← f.parse m.cyan
    g ← f.parse m.magenta
    y ← f.parse m.yellow
    ok (f.less threshold (chroma_spread c g y))

  -- The loop over the matches that are left.
  unfoldable pub count_matches : List Match → ℕ × ℕ → Result (ℕ × ℕ)
  unfolding is_color
  count_matches [] counts = ok counts
  count_matches (m ∷ ms) counts = is_color m >>= λ color. count_matches ms (add_page color counts)

  unfoldable pub parse_inkcov : List ℕ → Result (ℕ × ℕ)
  unfolding find_all count_matches
  parse_inkcov out = count_matches (find_all zero out) (0, 0)

  abbrev pub counted : ℕ × ℕ → Result (ℤ × ℤ)
  counted (pages, color_pages) =
      if pages == 0 then err unreadable else ok (pos pages, pos color_pages)

  -- `run` is Ghostscript on a file with the document, unless the file could not be written.
  unfoldable pub count_pages : (List ℕ → Result Run) → List ℕ → Result (ℤ × ℤ)
  unfolding parse_inkcov
  count_pages run doc = run doc >>= λ r. elim r [
    | failed ↦ err other
    | exited ↦ err unreadable
    | printed out ↦ parse_inkcov out >>= counted
  ]

-- `bytes.Contains`
unfoldable pub contains : List ℕ → List ℕ → Bool
unfolding after
contains p [] = elim (after p []) [ none ↦ false | some r ↦ true ]
contains p (c ∷ s) =
    let rest = contains p s in elim (after p (c ∷ s)) [ none ↦ rest | some r ↦ true ]

-- `out` is all that Ghostscript printed, and `ran` says whether it exited without an error.
unfoldable pub verify_device : Bool → List ℕ → Result (Unit {0})
unfolding contains
verify_device ran out =
    if not ran && (length out == 0)
    then err other
    else if contains (codes "Unknown device") out
    then err other
    else ok tt
