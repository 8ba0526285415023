-- ===== src/Pdf.antt =====
-- internal/pdf/pdf.go: the signature of a PDF document.
use piping.Prelude.{ℕ, Bool, true, false, ◌&&◌, List, [], ◌∷◌, ◌==◌}
use piping.Decimal.{codes}

-- bytes.HasPrefix
has_prefix : List ℕ → List ℕ → Bool
has_prefix doc [] = true
has_prefix [] (p ∷ prefix) = false
has_prefix (c ∷ doc) (p ∷ prefix) = c == p && has_prefix doc prefix

unfoldable pub is_pdf : List ℕ → Bool
unfolding has_prefix
is_pdf doc = has_prefix doc (codes "%PDF-")
