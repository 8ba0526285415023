-- ===== src/PrintTicket.antt =====
-- internal/printticket/printticket.go: the print ticket (XPIF) and its envelope of printer commands
-- (XCPT). Texts are lists of code points, documents and payloads lists of bytes; a text is written in
-- UTF-8.
pub mod Plain
pub mod Lines
use piping.Prelude.{
  ℕ, ◌+◌, ◌/◌, ◌%◌, ◌^◌, ltb, leb, Bool, ◌&&◌, ◌||◌, ℤ, String, List, [], ◌∷◌, ◌++◌, ◌==◌,
  if◌then◌else◌,
}
use piping.Decimal.{codes, itoa, format}
use piping.Job.{Job}

abbrev pub sides_one_sided : List ℕ
sides_one_sided = codes "one-sided"

abbrev pub sides_two_sided_long_edge : List ℕ
sides_two_sided_long_edge = codes "two-sided-long-edge"

abbrev pub color_mode_color : List ℕ
color_mode_color = codes "color"

abbrev pub color_mode_monochrome : List ℕ
color_mode_monochrome = codes "monochrome-grayscale"

abbrev pub user_domain : List ℕ
user_domain = codes "CAMPUS"

abbrev pub letter_x : List ℕ
letter_x = codes "21590"

abbrev pub letter_y : List ℕ
letter_y = codes "27940"

pub record Attributes : Type 0 where
  pub copies : ℤ
  pub sides : List ℕ
  pub color_mode : List ℕ
  pub job_name : List ℕ
  pub user : List ℕ

unfoldable pub from_job : Job → Attributes
from_job j = record {
  copies = j.copies;
  sides = if j.duplex then sides_two_sided_long_edge else sides_one_sided;
  color_mode = if j.color then color_mode_color else color_mode_monochrome;
  job_name = codes "piping-job-" ++ format j.id;
  user = codes j.username;
}

-- The characters that XML 1.0 allows.
unfoldable pub in_character_range : ℕ → Bool
in_character_range r =
    r == 0x09
    || r == 0x0a
    || r == 0x0d
    || (leb 0x20 r && leb r 0xd7ff)
    || (leb 0xe000 r && leb r 0xfffd)
    || (leb 0x10000 r && leb r 0x10ffff)

-- `xml.EscapeText`, on one character.
unfoldable pub escape_rune : ℕ → List ℕ
unfolding in_character_range
escape_rune r =
    if r == b'"'
    then codes "&#34;"
    else if r == 39
    then codes "&#39;"
    else if r == b'&'
    then codes "&amp;"
    else if r == b'<'
    then codes "&lt;"
    else if r == b'>'
    then codes "&gt;"
    else if r == 9
    then codes "&#x9;"
    else if r == 10
    then codes "&#xA;"
    else if r == 13
    then codes "&#xD;"
    else if in_character_range r
    then r ∷ []
    else 0xfffd ∷ []

unfoldable pub xml_escape : List ℕ → List ℕ
xml_escape [] = []
xml_escape (r ∷ s) = escape_rune r ++ xml_escape s

-- The UTF-8 encoding of a code point.
unfoldable pub encode_rune : ℕ → List ℕ
encode_rune r =
    if ltb r 0x80
    then r ∷ []
    else if ltb r 0x800
    then (0xc0 + r / 2 ^ 6) ∷ (0x80 + r % 2 ^ 6) ∷ []
    else if ltb r 0x10000
    then (0xe0 + r / 2 ^ 12) ∷ (0x80 + r / 2 ^ 6 % 2 ^ 6) ∷ (0x80 + r % 2 ^ 6) ∷ []
    else (0xf0 + r / 2 ^ 18)
      ∷ (0x80 + r / 2 ^ 12 % 2 ^ 6)
      ∷ (0x80 + r / 2 ^ 6 % 2 ^ 6)
      ∷ (0x80 + r % 2 ^ 6)
      ∷ []

unfoldable pub encode : List ℕ → List ℕ
unfolding encode_rune
encode [] = []
encode (r ∷ s) = encode_rune r ++ encode s

-- A line between two fixed texts.
abbrev pub around : String → List ℕ → String → List ℕ
around before s after = codes before ++ s ++ codes after

unfoldable pub xpif_lines : Attributes → List (List ℕ)
unfolding xml_escape escape_rune
xpif_lines a =
    codes "<?xml version=\"1.0\" encoding=\"UTF-8\"?>"
    ∷ codes "<!DOCTYPE xpif SYSTEM \"xpif-v02081.dtd\">"
    ∷ codes "<xpif version=\"1.0\" cpss-version=\"2.07\" xml:lang=\"en-US\">"
    ∷ codes "\t<job-template-attributes>"
    ∷ around "\t\t<color-effects-type syntax=\"keyword\">" (xml_escape a.color_mode)
        "</color-effects-type>"
    ∷ around "\t\t<copies syntax=\"integer\">" (itoa a.copies) "</copies>"
    ∷ codes "\t\t<job-sheets syntax=\"keyword\">none</job-sheets>"
    ∷ codes "\t\t<media-col syntax=\"collection\">"
    ∷ codes "\t\t\t<media-size syntax=\"collection\">"
    ∷ around "\t\t\t\t<x-dimension syntax=\"integer\">" (xml_escape letter_x) "</x-dimension>"
    ∷ around "\t\t\t\t<y-dimension syntax=\"integer\">" (xml_escape letter_y) "</y-dimension>"
    ∷ codes "\t\t\t</media-size>"
    ∷ codes "\t\t</media-col>"
    ∷ codes "\t\t<sheet-collate syntax=\"keyword\">collated</sheet-collate>"
    ∷ around "\t\t<sides syntax=\"keyword\">" (xml_escape a.sides) "</sides>"
    ∷ codes "\t</job-template-attributes>"
    ∷ codes "\t<xpif-operation-attributes>"
    ∷ codes "\t\t<document-format syntax=\"mimeMediaType\">application/pdf</document-format>"
    ∷ around "\t\t<job-name syntax=\"name\" xml:space=\"preserve\">" (xml_escape a.job_name)
        "</job-name>"
    ∷ around "\t\t<job-originating-user-domain syntax=\"name\" xml:space=\"preserve\">"
        (xml_escape user_domain) "</job-originating-user-domain>"
    ∷ around "\t\t<job-originating-user-name syntax=\"name\" xml:space=\"preserve\">"
        (xml_escape a.user) "</job-originating-user-name>"
    ∷ around "\t\t<requesting-user-name syntax=\"name\" xml:space=\"preserve\">" (xml_escape a.user)
        "</requesting-user-name>"
    ∷ codes "\t</xpif-operation-attributes>"
    ∷ codes "</xpif>"
    ∷ []

join_lines : List (List ℕ) → List ℕ
join_lines [] = []
join_lines (l ∷ []) = encode l
join_lines (l ∷ m ∷ ls) = encode l ++ 10 ∷ join_lines (m ∷ ls)

unfoldable pub xpif : Attributes → List ℕ → List ℕ
unfolding xpif_lines join_lines encode
xpif a doc = join_lines (xpif_lines a) ++ 10 ∷ doc

abbrev pub uel : List ℕ
uel = 27 ∷ codes "%-12345X"

unfoldable pub crlf : List ℕ → List ℕ
crlf line = line ++ 13 ∷ 10 ∷ []

-- The loop over the lines of the ticket.
unfoldable pub ticket_lines : List (List ℕ) → List ℕ
unfolding crlf encode
ticket_lines [] = []
ticket_lines (l ∷ ls) = crlf (codes "@PJL XCPT " ++ encode l) ++ ticket_lines ls

unfoldable pub xcpt : Attributes → List ℕ → List ℕ
unfolding ticket_lines xpif_lines
xcpt a doc =
    uel
    ++ crlf (codes "@PJL JOB")
    ++ ticket_lines (xpif_lines a)
    ++ crlf (codes "@PJL ENTER LANGUAGE=PDF")
    ++ doc
    ++ uel
    ++ crlf (codes "@PJL EOJ")
    ++ uel
