-- ===== src/Replay/Scanner.antt =====
-- Go's `bufio.Scanner` over lines, as the TCP listener and the player use it: bytes up to each
-- newline, without a carriage return at the end. A line whose bytes before the newline reach the
-- maximal token size stops the scan. What is left without a newline at the end is a line too.
use mathlib.Core.List.{reverse, reverse-cons, append_assoc, append-nil}
use sentinelstream.Prelude.{
  ℕ, ◌+◌, ◌<◌, ◌≡◌, ◌≢◌, refl, sym, ap, ◌∙◌, Bool, true, false, List, [], ◌∷◌, ◌++◌, if◌then◌else◌,
  leb, ◌==◌, length, arith, All,
}

-- A line without the '\r' at its end; `line` is reversed.
unfoldable pub drop_cr : List ℕ → List ℕ
drop_cr [] = []
drop_cr (b ∷ bs) = if b == 13 then reverse bs else reverse (b ∷ bs)

-- The lines of the rest, where `line` holds the bytes of the current one, reversed, and `n` their
-- number; and whether the scan stops at a line that is too long.
unfoldable pub scan_from : ℕ → ℕ → List ℕ → List ℕ → List (List ℕ) × Bool
unfolding drop_cr
scan_from max_size n [] [] = ([], false)
scan_from max_size n (b ∷ line) [] = (drop_cr (b ∷ line) ∷ [], false)
scan_from max_size n line (b ∷ bytes) = elim (b == 10) [
  | true ↦ let (lines, stopped) = scan_from max_size 0 [] bytes in (drop_cr line ∷ lines, stopped)
  | false ↦ elim (leb max_size (n + 1)) [
    | true ↦ ([], true)
    | false ↦ scan_from max_size (n + 1) (b ∷ line) bytes
  ]
]

unfoldable pub scan : ℕ → List ℕ → List (List ℕ) × Bool
unfolding scan_from
scan max_size bytes = scan_from max_size 0 [] bytes

-- A text that `scan` gives back as one line.
pub record IsLine (max_size : ℕ) (line : List ℕ) : Type 0 where
  pub no_newline : All (λ b. b ≢ 10) line
  pub no_return : drop_cr (reverse line) ≡ line
  pub short : length line < max_size

-- What the scanner gives for a line and the rest.
abbrev with_line : List ℕ → List (List ℕ) × Bool → List (List ℕ) × Bool
with_line line (lines, stopped) = (line ∷ lines, stopped)

scan_from-newline :
    (max_size n : ℕ) (line rest : List ℕ)
    → scan_from max_size n line (10 ∷ rest) ≡ with_line (drop_cr line) (scan max_size rest)
unfolding scan_from scan
scan_from-newline max_size n [] rest = refl
scan_from-newline max_size n (x ∷ line) rest = refl

scan_from-byte :
    (max_size n b : ℕ) (line rest : List ℕ)
    → b ≢ 10
    → n + 1 < max_size
    → scan_from max_size n line (b ∷ rest) ≡ scan_from max_size (n + 1) (b ∷ line) rest
unfolding scan_from
scan_from-byte max_size n b [] rest a h = ground arith
scan_from-byte max_size n b (x ∷ line) rest a h = ground arith

scan_from-line :
    (max_size n : ℕ) (before line rest : List ℕ)
    → All (λ b. b ≢ 10) line
    → n + length line < max_size
    → scan_from max_size n before (line ++ 10 ∷ rest)
      ≡ with_line (drop_cr (reverse line ++ before)) (scan max_size rest)
scan_from-line max_size n before [] rest a h = scan_from-newline max_size n before rest
scan_from-line max_size n before (b ∷ line) rest a h =
    scan_from-byte max_size n b before (line ++ 10 ∷ rest) a.0 (omega arith)
    ∙ scan_from-line max_size (n + 1) (b ∷ before) line rest a.1 (omega arith)
    ∙ ap (λ l. with_line (drop_cr l) (scan max_size rest))
        (sym (
          ap (λ l. l ++ before) (reverse-cons b line)
          ∙ append_assoc (reverse line) (b ∷ []) before))

pub scan-line :
    (max_size : ℕ) (line rest : List ℕ)
    → IsLine max_size line
    → scan max_size (line ++ 10 ∷ rest) ≡ (line ∷ (scan max_size rest).0, (scan max_size rest).1)
unfolding scan
scan-line max_size line rest v =
    scan_from-line max_size 0 [] line rest v.no_newline (omega (arith, v.short))
    ∙ ap (λ l. with_line l (scan max_size rest))
        (ap drop_cr (append-nil (reverse line)) ∙ v.no_return)

-- A text of lines.
unfoldable pub unlines : List (List ℕ) → List ℕ
unlines [] = []
unlines (line ∷ lines) = line ++ 10 ∷ unlines lines

pub scan-unlines :
    (max_size : ℕ) (lines : List (List ℕ))
    → All (IsLine max_size) lines
    → scan max_size (unlines lines) ≡ (lines, false)
unfolding scan scan_from unlines
scan-unlines max_size [] h = refl
scan-unlines max_size (line ∷ lines) (v, h) =
    scan-line max_size line (unlines lines) v ∙ ap (with_line line) (scan-unlines max_size lines h)
