-- ===== src/Smb.antt =====
-- internal/smb/sender.go: the codes in what smbclient prints. A text is the list of its bytes.
pub mod Trim
pub mod Statuses
use piping.Prelude.{
  ℕ, zero, suc, ◌-◌, leb, ◌==◌, Bool, true, false, ◌&&◌, ◌||◌, Option, none, some, List, [], ◌∷◌,
  ◌++◌, length, any, map, take, drop, if◌then◌else◌,
}
use mathlib.Core.List.{reverse}
use piping.Decimal.{codes}
use piping.Semester.{eq_text}
use piping.Url.{starts}

-- `[A-Z_0-9]`
abbrev pub in_class : ℕ → Bool
in_class c = (leb b'A' c && leb c b'Z') || (c == b'_') || (leb b'0' c && leb c b'9')

-- `[A-Z_0-9]*`, as much as there is
unfoldable pub class_run : List ℕ → List ℕ
class_run [] = []
class_run (c ∷ s) = let rest = class_run s in if in_class c then c ∷ rest else []

abbrev pub status_prefix : List ℕ
status_prefix = codes "NT_STATUS_"

abbrev pub status_of : List ℕ → Option (List ℕ)
status_of [] = none
status_of (c ∷ s) = some (status_prefix ++ c ∷ s)

-- A match of `reNTStatus` where the text begins.
unfoldable pub match_status : List ℕ → Option (List ℕ)
unfolding starts class_run
match_status s =
    if starts status_prefix s then status_of (class_run (drop (length status_prefix) s)) else none

-- `FindAllString`; the number is of the bytes that the last match still takes.
unfoldable pub find_statuses : ℕ → List ℕ → List (List ℕ)
unfolding match_status
find_statuses n [] = []
find_statuses (suc n) (c ∷ s) = find_statuses n s
find_statuses zero (c ∷ s) = elim (match_status (c ∷ s)) [
  | none ↦ find_statuses zero s
  | some m ↦ m ∷ find_statuses (length m - 1) s
]

-- The loop over the matches, with those that were seen before.
unfoldable pub unseen : List (List ℕ) → List (List ℕ) → List (List ℕ)
unfolding eq_text
unseen seen [] = []
unseen seen (m ∷ ms) =
    let old = unseen seen ms in
    let new = unseen (m ∷ seen) ms in if any (eq_text m) seen then old else m ∷ new

unfoldable pub statuses : List ℕ → List (List ℕ)
unfolding find_statuses unseen
statuses out = unseen [] (find_statuses zero out)

-- `strings.Join`
unfoldable pub join : List ℕ → List (List ℕ) → List ℕ
join sep [] = []
join sep (x ∷ []) = x
join sep (x ∷ y ∷ xs) = x ++ sep ++ join sep (y ∷ xs)

unfoldable pub nt_statuses : List ℕ → List ℕ
unfolding statuses join
nt_statuses out = join (codes ", ") (statuses out)

-- The white space that `strings.TrimSpace` looks for, in UTF-8.
abbrev pub spaces : List (List ℕ)
spaces =
    (9 ∷ [])
    ∷ (10 ∷ [])
    ∷ (11 ∷ [])
    ∷ (12 ∷ [])
    ∷ (13 ∷ [])
    ∷ (32 ∷ [])
    ∷ (0xC2 ∷ 0x85 ∷ [])
    ∷ (0xC2 ∷ 0xA0 ∷ [])
    ∷ (0xE1 ∷ 0x9A ∷ 0x80 ∷ [])
    ∷ (0xE2 ∷ 0x80 ∷ 0x80 ∷ [])
    ∷ (0xE2 ∷ 0x80 ∷ 0x81 ∷ [])
    ∷ (0xE2 ∷ 0x80 ∷ 0x82 ∷ [])
    ∷ (0xE2 ∷ 0x80 ∷ 0x83 ∷ [])
    ∷ (0xE2 ∷ 0x80 ∷ 0x84 ∷ [])
    ∷ (0xE2 ∷ 0x80 ∷ 0x85 ∷ [])
    ∷ (0xE2 ∷ 0x80 ∷ 0x86 ∷ [])
    ∷ (0xE2 ∷ 0x80 ∷ 0x87 ∷ [])
    ∷ (0xE2 ∷ 0x80 ∷ 0x88 ∷ [])
    ∷ (0xE2 ∷ 0x80 ∷ 0x89 ∷ [])
    ∷ (0xE2 ∷ 0x80 ∷ 0x8A ∷ [])
    ∷ (0xE2 ∷ 0x80 ∷ 0xA8 ∷ [])
    ∷ (0xE2 ∷ 0x80 ∷ 0xA9 ∷ [])
    ∷ (0xE2 ∷ 0x80 ∷ 0xAF ∷ [])
    ∷ (0xE2 ∷ 0x81 ∷ 0x9F ∷ [])
    ∷ (0xE3 ∷ 0x80 ∷ 0x80 ∷ [])
    ∷ []

-- The bytes of the space that a text begins with, or 0.
unfoldable pub space_length : List (List ℕ) → List ℕ → ℕ
unfolding starts
space_length [] s = 0
space_length (p ∷ ps) s = if starts p s then length p else space_length ps s

unfoldable pub trim_front : List (List ℕ) → ℕ → List ℕ → List ℕ
unfolding space_length
trim_front ps n [] = []
trim_front ps (suc n) (c ∷ s) = trim_front ps n s
trim_front ps zero (c ∷ s) = elim (space_length ps (c ∷ s)) [
  | zero ↦ c ∷ s
  | suc k ↦ trim_front ps k s
]

-- `strings.TrimSpace`: the end is the front of what is turned round.
unfoldable pub trim_space : List ℕ → List ℕ
unfolding trim_front
trim_space s = reverse (trim_front (map reverse spaces) zero (reverse (trim_front spaces zero s)))

abbrev pub truncated : List ℕ
truncated = 0xE2 ∷ 0x80 ∷ 0xA6 ∷ codes "(truncated)"

unfoldable pub truncate : List ℕ → ℕ → List ℕ
unfolding trim_space
truncate out n = let s = trim_space out in if leb (length s) n then s else take n s ++ truncated

-- What the error of a run that failed says: that the time was up, the codes, or what was printed.
pub data Report : Type 0 where
  with_context : Report
  with_status : (status : List ℕ) → Report
  with_output : (output : List ℕ) → Report

abbrev pub with_statuses : List ℕ → List ℕ → Report
with_statuses [] out = with_output (truncate out 300)
with_statuses (c ∷ s) out = with_status (c ∷ s)

-- The error of `Send`, where smbclient failed and printed `out`; `expired` says that the context has an error.
unfoldable pub report : Bool → List ℕ → Report
unfolding nt_statuses truncate
report expired out = if expired then with_context else with_statuses (nt_statuses out) out
