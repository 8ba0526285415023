-- ===== src/Ghostscript/Counts.antt =====
-- How many pages are counted, of which colour.
use piping.Prelude.{
  ℕ, ℤ, pos, ◌≤ℤ◌, ◌≤◌, select, subst, Bool-cases, inl, inr, zero, ◌+◌, ◌-◌, ◌==◌, Bool, false,
  none, some, List, [], ◌∷◌, ◌++◌, length, length-append, All, ◌≡◌, refl, sym, ap, ◌∙◌, arith, map,
  if◌then◌else◌,
}
use mathlib.Core.List.{append_assoc}
use piping.Decimal.{codes}
use piping.Error.{Result, ok, err, other, unreadable, ◌>>=◌}
use piping.Ghostscript.{is_digit, span, digits, number, Match, cmyk_line, find_all}
use piping.Error.Inverse.{>>=-ok, ok_inj, err_ne}
use piping.Ghostscript.{
  count_matches, is_color, parse_inkcov, count_pages, counted, Run, printed, exited, failed, Floats,
}
use piping.Ghostscript.Lines.{
  Between, Line, IsLine, match_of, print_line, print, leave, cmyk_line-print_line,
}

-- What is left of a line after its first character.
rest_of : Line → List ℕ → List ℕ
rest_of l s =
    l.cyan.whole
    ++ (b'.'
        ∷ ((l.cyan.tenth ∷ l.cyan.places)
            ++ leave l.gap1 (
                print l.magenta (
                  leave l.gap2 (
                    print l.yellow
                      (leave l.gap3 (print l.black (leave l.gap4 (codes "CMYK OK" ++ s)))))))))

print_line-rest_of : (l : Line) (s : List ℕ) → print_line l s ≡ l.cyan.first ∷ rest_of l s
unfolding print_line rest_of
print_line-rest_of l s = refl

rest_of-append : (l : Line) (s : List ℕ) → rest_of l s ≡ rest_of l [] ++ s
unfolding rest_of
rest_of-append l s = simp append_assoc

find_all_pass : (p s : List ℕ) → find_all (length p) (p ++ s) ≡ find_all zero s
unfolding find_all
find_all_pass [] s = refl
find_all_pass (c ∷ p) s = find_all_pass p s

no_line : (c : ℕ) (s : List ℕ) → is_digit c ≡ false → cmyk_line (c ∷ s) ≡ none
unfolding cmyk_line number digits span
no_line c s h = rw h refl

find_all-none :
    (c : ℕ) (s : List ℕ) → cmyk_line (c ∷ s) ≡ none → find_all zero (c ∷ s) ≡ find_all zero s
unfolding find_all
find_all-none c s e = rw (e, find_all) refl

find_all-some :
    (c : ℕ) (s r : List ℕ) {m : Match}
    → cmyk_line (c ∷ s) ≡ some (m, r)
    → find_all zero (c ∷ s) ≡ m ∷ find_all (length s - length r) s
unfolding find_all
find_all-some c s r e = rw (e, find_all) refl

find_all_between : (p s : List ℕ) → Between p → find_all zero (p ++ s) ≡ find_all zero s
find_all_between [] s h = refl
find_all_between (c ∷ p) s h =
    find_all-none c (p ++ s) (no_line c (p ++ s) h.0) ∙ find_all_between p s h.1

find_all_end : (p : List ℕ) → Between p → find_all zero p ≡ []
find_all_end [] h = unfold find_all in refl
find_all_end (c ∷ p) h = find_all-none c p (no_line c p h.0) ∙ find_all_end p h.1

length_passed : (p s : List ℕ) → length (p ++ s) - length s ≡ length p
length_passed p s = omega (arith, length-append p s)

find_all-print_line :
    (l : Line) (s : List ℕ)
    → IsLine l
    → find_all zero (print_line l s) ≡ match_of l ∷ find_all zero s
find_all-print_line l s h =
    ap (find_all zero) (print_line-rest_of l s)
    ∙ find_all-some l.cyan.first (rest_of l s) s
        (ap cmyk_line (sym (print_line-rest_of l s)) ∙ cmyk_line-print_line l s h)
    ∙ ap (λ r. match_of l ∷ r)
        (rw (rest_of-append l s, length_passed (rest_of l []) s) (find_all_pass (rest_of l []) s))

-- All that is printed: the lines of the pages, and what follows the last of them.
pub render : List Line → List ℕ → List ℕ
render [] end = end
render (l ∷ ls) end = l.before ++ print_line l (render ls end)

find_all-render :
    (ls : List Line) (end : List ℕ)
    → All IsLine ls
    → Between end
    → find_all zero (render ls end) ≡ map match_of ls
unfolding render
find_all-render [] end h e = find_all_end end e
find_all-render (l ∷ ls) end h e =
    find_all_between l.before (print_line l (render ls end)) h.0.before
    ∙ find_all-print_line l (render ls end) h.0
    ∙ ap (λ r. match_of l ∷ r) (find_all-render ls end h.1 e)

module _ {F : Type 0} (f : Floats F) (threshold : F) where
  count_matches-lines :
      (color : Line → Bool) (ls : List Line) (p c : ℕ)
      → All (λ l. is_color f threshold (match_of l) ≡ ok (color l)) ls
      → count_matches f threshold (map match_of ls) (p, c)
        ≡ ok (p + length ls, c + length (select color ls))
  unfolding count_matches
  count_matches-lines color [] p c h = ground arith
  count_matches-lines color (l ∷ ls) p c h = elim (Bool-cases (color l)) [
    | inl e ↦ rw (h.0, e) (count_matches-lines color ls (p + 1) (c + 1) h.1 ∙ ground arith)
    | inr e ↦ rw (h.0, e) (count_matches-lines color ls (p + 1) c h.1 ∙ ground arith)
  ]

  -- Of what Ghostscript prints for some pages exactly as many pages are counted, and as many colour pages as
  -- there are pages whose inks differ by more than the threshold, whatever text without digits stands
  -- before, between and after the lines of the pages.
  pub parse_inkcov-render :
      (color : Line → Bool) (ls : List Line) (end : List ℕ)
      → All IsLine ls
      → All (λ l. is_color f threshold (match_of l) ≡ ok (color l)) ls
      → Between end
      → parse_inkcov f threshold (render ls end) ≡ ok (length ls, length (select color ls))
  unfolding parse_inkcov
  parse_inkcov-render color ls end h k e =
      rw (find_all-render ls end h e) (count_matches-lines color ls 0 0 k ∙ ground arith)

  count_matches_le :
      (ms : List Match) (p c : ℕ) {q d : ℕ}
      → c ≤ p
      → count_matches f threshold ms (p, c) ≡ ok (q, d)
      → d ≤ q
  unfolding count_matches
  count_matches_le [] p c h e = ground arith
  count_matches_le (m ∷ ms) p c h e =
      let (b, _, r) = >>=-ok (is_color f threshold m) _ e in
      count_matches_le ms (p + 1) (if b then c + 1 else c) (ground arith) r

  abbrev Counted : ℤ → ℤ → Type 0
  Counted pages color_pages = (pos 1 ≤ℤ pages) × (pos 0 ≤ℤ color_pages) × (color_pages ≤ℤ pages)

  counted_bounds :
      (p c : ℕ) {pages color_pages : ℤ}
      → c ≤ p
      → counted f threshold (p, c) ≡ ok (pages, color_pages)
      → Counted pages color_pages
  counted_bounds p c h e = elim (Bool-cases (p == 0)) [
    | inl z ↦ absurd (err_ne (rw z at e))
    | inr n ↦ subst (λ (x : ℤ × ℤ). Counted x.0 x.1) (ok_inj (rw n at e)) (ground arith)
  ]

  run_bounds :
      (r : Run) {pages color_pages : ℤ}
      → elim r [
        | failed ↦ err other
        | exited ↦ err unreadable
        | printed out ↦ parse_inkcov f threshold out >>= counted f threshold
      ]
        ≡ ok (pages, color_pages)
      → Counted pages color_pages
  unfolding parse_inkcov
  run_bounds failed h = absurd (err_ne h)
  run_bounds exited h = absurd (err_ne h)
  run_bounds (printed out) h =
      let ((p, c), e, k) = >>=-ok (count_matches f threshold (find_all zero out) (0, 0)) _ h in
      counted_bounds p c (count_matches_le (find_all zero out) 0 0 (omega arith) e) k

  -- A count of the pages of a document is positive, and the colour pages are among them.
  pub count_pages_bounds :
      (run : List ℕ → Result Run) (doc : List ℕ) (pages color_pages : ℤ)
      → count_pages f threshold run doc ≡ ok (pages, color_pages)
      → (pos 1 ≤ℤ pages) × (pos 0 ≤ℤ color_pages) × (color_pages ≤ℤ pages)
  unfolding count_pages
  count_pages_bounds run doc pages color_pages h =
      let (r, _, e) = >>=-ok (run doc) _ h in run_bounds r e
