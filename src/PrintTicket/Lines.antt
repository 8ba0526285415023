-- ===== src/PrintTicket/Lines.antt =====
-- The ticket as a printer reads it, line by line.
use piping.Prelude.{
  ℕ, zero, suc, List, [], ◌∷◌, ◌++◌, ◌==◌, ◌≡◌, refl, ap, ◌∙◌, arith, map, All, if◌then◌else◌,
}
use mathlib.Core.List.{append_assoc}
use piping.Decimal.{codes}
use piping.PrintTicket.{Attributes, encode, xpif_lines, uel, crlf, ticket_lines, xcpt}
use piping.PrintTicket.Plain.{breaks, Plain, Plain-append, Plain-encode, Plain-xpif_lines}

-- Reading up to the end of a line.
unfoldable pub cut_line : List ℕ → List ℕ × List ℕ
cut_line [] = ([], [])
cut_line (c ∷ s) = let (line, rest) = cut_line s in if c == 10 then ([], s) else (c ∷ line, rest)

-- Reading so many lines.
unfoldable pub read_lines : ℕ → List ℕ → List (List ℕ) × List ℕ
read_lines zero s = ([], s)
read_lines (suc n) s =
    let (line, rest) = cut_line s in let (lines, rest') = read_lines n rest in (line ∷ lines, rest')

-- A line of the printer's language, with the CR that it ends in.
abbrev pub ended : List ℕ → List ℕ
ended l = l ++ 13 ∷ []

cut_line-crlf : (l s : List ℕ) → Plain l → cut_line (crlf l ++ s) ≡ (ended l, s)
unfolding cut_line crlf breaks
cut_line-crlf [] s h = refl
cut_line-crlf (c ∷ l) s h = rw (cut_line-crlf l s (ground arith)) (ground arith)

read_one :
    (n : ℕ) (l s : List ℕ)
    → Plain l
    → read_lines (suc n) (crlf l ++ s) ≡ (ended l ∷ (read_lines n s).0, (read_lines n s).1)
unfolding read_lines
read_one n l s h = rw (cut_line-crlf l s h) refl

-- A line of the ticket, as the printer reads it.
unfoldable pub ticket_line : List ℕ → List ℕ
ticket_line l = codes "@PJL XCPT " ++ encode l

-- `n` more than the number of lines
abbrev more : List (List ℕ) → ℕ → ℕ
more [] n = n
more (l ∷ ls) n = suc (more ls n)

Plain-ticket_line : (l : List ℕ) → Plain l → Plain (ticket_line l)
unfolding ticket_line breaks
Plain-ticket_line l h = Plain-append (codes "@PJL XCPT ") (encode l) refl (Plain-encode l h)

read_ticket :
    (ls : List (List ℕ)) (n : ℕ) (s : List ℕ)
    → All Plain ls
    → read_lines (more ls n) (ticket_lines ls ++ s)
      ≡ (map (λ l. ended (ticket_line l)) ls ++ (read_lines n s).0, (read_lines n s).1)
unfolding ticket_lines read_lines ticket_line
read_ticket [] n s h = refl
read_ticket (l ∷ ls) n s h =
    ap (read_lines (suc (more ls n))) (append_assoc (crlf (ticket_line l)) (ticket_lines ls) s)
    ∙ read_one (more ls n) (ticket_line l) (ticket_lines ls ++ s) (Plain-ticket_line l h.0)
    ∙ rw (read_ticket ls n s h.1) refl

regroup :
    (u j t e d v w x : List ℕ)
    → u ++ j ++ t ++ e ++ d ++ v ++ w ++ x ≡ u ++ (j ++ (t ++ (e ++ (d ++ (v ++ (w ++ x))))))
regroup u j t e d v w x = simp append_assoc refl

-- The payload behind the first command, of a ticket with these lines.
abbrev payload : List (List ℕ) → List ℕ → List ℕ
payload ls tail =
    crlf (codes "@PJL JOB") ++ (ticket_lines ls ++ (crlf (codes "@PJL ENTER LANGUAGE=PDF") ++ tail))

read_payload :
    (ls : List (List ℕ)) (tail : List ℕ)
    → All Plain ls
    → read_lines (suc (more ls 1)) (payload ls tail) ≡ (
      ended (codes "@PJL JOB")
          ∷ (map (λ l. ended (ticket_line l)) ls ++ ended (codes "@PJL ENTER LANGUAGE=PDF") ∷ []),
      tail,
    )
read_payload ls tail h =
    read_one (more ls 1) (codes "@PJL JOB")
      (ticket_lines ls ++ (crlf (codes "@PJL ENTER LANGUAGE=PDF") ++ tail)) plain_job
    ∙ rw
        (
          read_ticket ls 1 (crlf (codes "@PJL ENTER LANGUAGE=PDF") ++ tail) h,
          read_one 0 (codes "@PJL ENTER LANGUAGE=PDF") tail plain_enter,
        )
        (unfold read_lines in refl)
  where
    plain_job : Plain (codes "@PJL JOB")
    plain_job = unfold breaks in refl

    plain_enter : Plain (codes "@PJL ENTER LANGUAGE=PDF")
    plain_enter = unfold breaks in refl

-- A printer that has left its page description language reads from a payload, whatever the attributes
-- and the document: the start of the job, the 24 lines of the ticket, and the command that the
-- document follows. Then the document comes, unchanged, and the end of the job.
pub read_lines-xcpt :
    (a : Attributes) (doc : List ℕ)
    → (body : List ℕ) × (xcpt a doc ≡ uel ++ body)
      × (read_lines 26 body ≡ (
        ended (codes "@PJL JOB")
            ∷ (map (λ l. ended (ticket_line l)) (xpif_lines a)
                ++ ended (codes "@PJL ENTER LANGUAGE=PDF") ∷ []),
        doc ++ (uel ++ (crlf (codes "@PJL EOJ") ++ uel)),
      ))
unfolding xcpt xpif_lines
read_lines-xcpt a doc =
    let tail = doc ++ (uel ++ (crlf (codes "@PJL EOJ") ++ uel)) in
    (
      payload (xpif_lines a) tail,
      regroup uel (crlf (codes "@PJL JOB")) (ticket_lines (xpif_lines a))
          (crlf (codes "@PJL ENTER LANGUAGE=PDF")) doc uel (crlf (codes "@PJL EOJ")) uel,
      read_payload (xpif_lines a) tail (Plain-xpif_lines a),
    )
