-- ===== src/Ghostscript/Lines.antt =====
-- Counting the lines that the inkcov device prints, however they are set apart.
use piping.Prelude.{ℕ, Bool, true, false, some, List, [], ◌∷◌, ◌++◌, All, ◌≡◌, refl, arith}
use piping.Decimal.{codes}
use piping.Ghostscript.{
  is_digit, is_blank, span, digits, after, number, skip, blanks, Match, cmyk_line,
}

abbrev pub Digits : List ℕ → Type 0
Digits = All (λ c. is_digit c ≡ true)

abbrev pub Blanks : List ℕ → Type 0
Blanks = All (λ c. is_blank c ≡ true)

-- Text that has no digit in it.
abbrev pub Between : List ℕ → Type 0
Between = All (λ c. is_digit c ≡ false)

-- The test of the first character.
abbrev first_is : (ℕ → Bool) → List ℕ → Bool
first_is p [] = false
first_is p (c ∷ s) = p c

span-Digits : (ds s : List ℕ) → Digits ds → first_is is_digit s ≡ false → span (ds ++ s) ≡ (ds, s)
unfolding span
span-Digits [] [] h e = refl
span-Digits [] (c ∷ s) h e = rw e refl
span-Digits (d ∷ ds) s h e = rw (h.0, span-Digits ds s h.1 e) refl

skip-Blanks : (bs s : List ℕ) → Blanks bs → first_is is_blank s ≡ false → skip (bs ++ s) ≡ s
unfolding skip
skip-Blanks [] [] h e = refl
skip-Blanks [] (c ∷ s) h e = rw e refl
skip-Blanks (b ∷ bs) s h e = rw h.0 (skip-Blanks bs s h.1 e)

-- A number with a point, as `%.5f` prints it, and a gap between two numbers.
pub record Decimal : Type 0 where
  pub first : ℕ
  pub whole : List ℕ
  pub tenth : ℕ
  pub places : List ℕ

pub record IsDecimal (n : Decimal) : Type 0 where
  pub whole : Digits (n.first ∷ n.whole)
  pub places : Digits (n.tenth ∷ n.places)

abbrev pub text_of : Decimal → List ℕ
text_of n = (n.first ∷ n.whole) ++ (b'.' ∷ (n.tenth ∷ n.places))

abbrev pub print : Decimal → List ℕ → List ℕ
print n s = (n.first ∷ n.whole) ++ (b'.' ∷ ((n.tenth ∷ n.places) ++ s))

number-print :
    (n : Decimal) (s : List ℕ)
    → IsDecimal n
    → first_is is_digit s ≡ false
    → number (print n s) ≡ some (text_of n, s)
unfolding number digits after
number-print n s h e =
    rw
      (
        span-Digits (n.first ∷ n.whole) (b'.' ∷ ((n.tenth ∷ n.places) ++ s)) h.whole refl,
        span-Digits (n.tenth ∷ n.places) s h.places e,
      )
      refl

pub record Gap : Type 0 where
  pub first : ℕ
  pub more : List ℕ

abbrev pub IsGap : Gap → Type 0
IsGap g = Blanks (g.first ∷ g.more)

abbrev pub leave : Gap → List ℕ → List ℕ
leave g s = (g.first ∷ g.more) ++ s

blanks-leave :
    (g : Gap) (s : List ℕ) → IsGap g → first_is is_blank s ≡ false → blanks (leave g s) ≡ some s
unfolding blanks
blanks-leave g s h e = rw (h.0, skip-Blanks g.more s h.1 e) refl

-- The line of a page, with what stands before it.
pub record Line : Type 0 where
  pub before : List ℕ
  pub cyan : Decimal
  pub magenta : Decimal
  pub yellow : Decimal
  pub black : Decimal
  pub gap1 : Gap
  pub gap2 : Gap
  pub gap3 : Gap
  pub gap4 : Gap

pub record IsLine (l : Line) : Type 0 where
  pub before : Between l.before
  pub cyan : IsDecimal l.cyan
  pub magenta : IsDecimal l.magenta
  pub yellow : IsDecimal l.yellow
  pub black : IsDecimal l.black
  pub gap1 : IsGap l.gap1
  pub gap2 : IsGap l.gap2
  pub gap3 : IsGap l.gap3
  pub gap4 : IsGap l.gap4

abbrev pub match_of : Line → Match
match_of l = record {
  cyan = text_of l.cyan;
  magenta = text_of l.magenta;
  yellow = text_of l.yellow;
}

-- A line and the text after it.
unfoldable pub print_line : Line → List ℕ → List ℕ
print_line l s = print l.cyan (
    leave l.gap1 (
      print l.magenta (
        leave l.gap2
          (print l.yellow (leave l.gap3 (print l.black (leave l.gap4 (codes "CMYK OK" ++ s))))))))

blank_no_digit : (c : ℕ) → is_blank c ≡ true → is_digit c ≡ false
blank_no_digit c h = ground arith

digit_no_blank : (c : ℕ) → is_digit c ≡ true → is_blank c ≡ false
digit_no_blank c h = ground arith

pub cmyk_line-print_line :
    (l : Line) (s : List ℕ) → IsLine l → cmyk_line (print_line l s) ≡ some (match_of l, s)
unfolding cmyk_line print_line
cmyk_line-print_line l s h =
    rw
      (
        number-print l.cyan _ h.cyan (blank_no_digit l.gap1.first h.gap1.0),
        blanks-leave l.gap1 _ h.gap1 (digit_no_blank l.magenta.first h.magenta.whole.0),
        number-print l.magenta _ h.magenta (blank_no_digit l.gap2.first h.gap2.0),
        blanks-leave l.gap2 _ h.gap2 (digit_no_blank l.yellow.first h.yellow.whole.0),
        number-print l.yellow _ h.yellow (blank_no_digit l.gap3.first h.gap3.0),
        blanks-leave l.gap3 _ h.gap3 (digit_no_blank l.black.first h.black.whole.0),
        number-print l.black _ h.black (blank_no_digit l.gap4.first h.gap4.0),
        blanks-leave l.gap4 (codes "CMYK OK" ++ s) h.gap4 refl,
      )
      refl
