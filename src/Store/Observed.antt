-- ===== src/Store/Observed.antt =====
-- src/store.rs: `encode_observed` and `decode_observed`, the sidecar with the observed names.
use sni_gate.Prelude.{ℕ, ◌≡◌, refl, ◌≢◌, List, [], ◌∷◌, ◌++◌, arith, ◌==◌, if◌then◌else◌, All}
use sni_gate.Text.{Text, trim}
use sni_gate.Text.Parts.{Lacks}

unfoldable pub encode_observed : List Text → Text
encode_observed [] = []
encode_observed (san ∷ sans) = san ++ b'\n' ∷ encode_observed sans

abbrev pub onto_line : ℕ → List Text → List Text
onto_line c [] = (c ∷ []) ∷ []
onto_line c (line ∷ lines) = (c ∷ line) ∷ lines

-- `text.lines()`, but for the `\r` at the end of a line, which `trim` takes off.
unfoldable pub lines : Text → List Text
lines [] = []
lines (c ∷ s) = let rest = lines s in if c == b'\n' then [] ∷ rest else onto_line c rest

abbrev pub push_line : Text → List Text → List Text
push_line [] rest = rest
push_line (c ∷ line) rest = (c ∷ line) ∷ rest

abbrev pub keep_lines : List Text → List Text
keep_lines [] = []
keep_lines (line ∷ rest) = push_line (trim line) (keep_lines rest)

unfoldable pub decode_observed : Text → List Text
unfolding lines trim
decode_observed text = keep_lines (lines text)

-- A name that stands on a line of its own: not empty, no newline, no space around it.
abbrev pub IsLine : Text → Type 0
IsLine san = (san ≢ []) × Lacks b'\n' san × (trim san ≡ san)

lines-append : (a b : Text) → Lacks b'\n' a → lines (a ++ b'\n' ∷ b) ≡ a ∷ lines b
unfolding lines
lines-append [] b h = refl
lines-append (c ∷ a) b h = rw (lines-append a b h.1) (ground arith)

push_line_of : (san : Text) (rest : List Text) → san ≢ [] → push_line san rest ≡ san ∷ rest
push_line_of [] rest ne = absurd (ne refl)
push_line_of (c ∷ san) rest ne = refl

-- Names that stand on lines of their own are read back as they were written, in their order.
pub decode_observed-encode_observed :
    (sans : List Text) → All IsLine sans → decode_observed (encode_observed sans) ≡ sans
unfolding decode_observed encode_observed
decode_observed-encode_observed [] h = refl
decode_observed-encode_observed (san ∷ sans) ((ne, lacks, trimmed), h) =
    rw
      (
        lines-append san (encode_observed sans) lacks,
        trimmed,
        decode_observed-encode_observed sans h,
      )
      (push_line_of san sans ne)
