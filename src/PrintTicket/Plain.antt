-- ===== src/PrintTicket/Plain.antt =====
-- The characters that end a line or a command of the printer, and the texts of the ticket.
use piping.Prelude.{
  ℕ, suc, Bool, false, ◌||◌, ℤ, pos, negsuc, String, List, [], ◌∷◌, ◌++◌, ◌==◌, ◌≡◌, refl, arith,
  any, All,
}
use piping.Decimal.{codes, itoa, format, is_digit}
use piping.Decimal.RoundTrip.{Digit, format-Digit}
use piping.PrintTicket.{
  Attributes, in_character_range, escape_rune, xml_escape, encode_rune, encode, around, xpif_lines,
  letter_x, letter_y, user_domain,
}

-- The characters that end a line or start a command of the printer: LF, CR and ESC.
unfoldable pub breaks : ℕ → Bool
breaks c = (c == 10) || (c == 13) || (c == 27)

abbrev pub Plain : List ℕ → Type 0
Plain s = any breaks s ≡ false

pub Plain-append : (s t : List ℕ) → Plain s → Plain t → Plain (s ++ t)
Plain-append [] t hs ht = ht
Plain-append (c ∷ s) t hs ht = ground (arith, Plain-append s t)

Plain-escape_rune : (r : ℕ) → Plain (escape_rune r)
unfolding escape_rune in_character_range breaks
Plain-escape_rune r = ground arith

Plain-xml_escape : (s : List ℕ) → Plain (xml_escape s)
unfolding xml_escape
Plain-xml_escape [] = refl
Plain-xml_escape (r ∷ s) =
    Plain-append (escape_rune r) (xml_escape s) (Plain-escape_rune r) (Plain-xml_escape s)

Plain-encode_rune : (r : ℕ) → breaks r ≡ false → Plain (encode_rune r)
unfolding encode_rune breaks
Plain-encode_rune r h = ground arith

pub Plain-encode : (s : List ℕ) → Plain s → Plain (encode s)
unfolding encode
Plain-encode [] h = refl
Plain-encode (r ∷ s) h =
    Plain-append (encode_rune r) (encode s) (Plain-encode_rune r (ground arith))
      (Plain-encode s (ground arith))

Plain-Digit : (s : List ℕ) → All Digit s → Plain s
unfolding breaks is_digit
Plain-Digit [] h = refl
Plain-Digit (c ∷ s) h = ground (arith, h.0, Plain-Digit s h.1)

Plain-itoa : (n : ℤ) → Plain (itoa n)
unfolding itoa breaks
Plain-itoa (pos n) = Plain-Digit (format n) (format-Digit n)
Plain-itoa (negsuc n) = Plain-Digit (format (suc n)) (format-Digit (suc n))

Plain-around :
    (before after : String) (s : List ℕ)
    → Plain (codes before)
    → Plain s
    → Plain (codes after)
    → Plain (around before s after)
Plain-around before after s hb hs ha =
    Plain-append (codes before ++ s) (codes after) (Plain-append (codes before) s hb hs) ha

pub Plain-xpif_lines : (a : Attributes) → All Plain (xpif_lines a)
unfolding xpif_lines breaks
Plain-xpif_lines a = (
  refl,
  (
    refl,
    (
      refl,
      (
        refl,
        (
          Plain-around "\t\t<color-effects-type syntax=\"keyword\">" "</color-effects-type>"
              (xml_escape a.color_mode) refl (Plain-xml_escape a.color_mode) refl,
          (
            Plain-around "\t\t<copies syntax=\"integer\">" "</copies>" (itoa a.copies) refl
                (Plain-itoa a.copies) refl,
            (
              refl,
              (
                refl,
                (
                  refl,
                  (
                    Plain-around "\t\t\t\t<x-dimension syntax=\"integer\">" "</x-dimension>"
                        (xml_escape letter_x) refl (Plain-xml_escape letter_x) refl,
                    (
                      Plain-around "\t\t\t\t<y-dimension syntax=\"integer\">" "</y-dimension>"
                          (xml_escape letter_y) refl (Plain-xml_escape letter_y) refl,
                      (
                        refl,
                        (
                          refl,
                          (
                            refl,
                            (
                              Plain-around "\t\t<sides syntax=\"keyword\">" "</sides>"
                                  (xml_escape a.sides) refl (Plain-xml_escape a.sides) refl,
                              (
                                refl,
                                (
                                  refl,
                                  (
                                    refl,
                                    (
                                      Plain-around
                                          "\t\t<job-name syntax=\"name\" xml:space=\"preserve\">"
                                          "</job-name>" (xml_escape a.job_name) refl
                                          (Plain-xml_escape a.job_name) refl,
                                      (
                                        Plain-around
                                            "\t\t<job-originating-user-domain syntax=\"name\" xml:space=\"preserve\">"
                                            "</job-originating-user-domain>"
                                            (xml_escape user_domain) refl
                                            (Plain-xml_escape user_domain) refl,
                                        (
                                          Plain-around
                                              "\t\t<job-originating-user-name syntax=\"name\" xml:space=\"preserve\">"
                                              "</job-originating-user-name>" (xml_escape a.user)
                                              refl (Plain-xml_escape a.user) refl,
                                          (
                                            Plain-around
                                                "\t\t<requesting-user-name syntax=\"name\" xml:space=\"preserve\">"
                                                "</requesting-user-name>" (xml_escape a.user) refl
                                                (Plain-xml_escape a.user) refl,
                                            (refl, (refl, tt)),
                                          ),
                                        ),
                                      ),
                                    ),
                                  ),
                                ),
                              ),
                            ),
                          ),
                        ),
                      ),
                    ),
                  ),
                ),
              ),
            ),
          ),
        ),
      ),
    ),
  ),
)
