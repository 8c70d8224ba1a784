-- ===== src/Cli/Lines.antt =====
-- `readURLLines` on a file that is written as lines.
use deckle.Base.{
  ℕ, ◌≢◌, ◌||◌, Bool-cases, inl, inr, codes, has_prefix, ◌+◌, ◌<◌, Bool, true, not, none, some,
  List, [], ◌∷◌, ◌++◌, map, append_assoc, append-nil, ◌≡◌, refl, ap, ◌∙◌, arith, length,
  length-append, Text, ◌=?◌, ◌==◌, all, All, if◌then◌else◌,
}
use deckle.Base.Utf8.{trim_bytes}
use deckle.Cli.Urls.{max_scan_token_size, drop_cr, prepend, scan_lines, url_lines, read_url_lines}

-- Each line with its newline.
abbrev pub written : List Text → Text
written [] = []
written (l ∷ lines) = l ++ (b'\n' ∷ written lines)

-- A line that the scanner can read: no newline in it, and shorter than its buffer.
abbrev pub IsLine : Text → Type 0
IsLine l = (all (λ c. not (c == b'\n')) l ≡ true) × (length l < max_scan_token_size)

scan_line :
    (l current rest : Text)
    → all (λ c. not (c == b'\n')) l ≡ true
    → length current + length l < max_scan_token_size
    → scan_lines current (l ++ (b'\n' ∷ rest))
      ≡ prepend (drop_cr (current ++ l)) (scan_lines [] rest)
unfolding scan_lines
scan_line [] current rest h lt = rw append-nil refl
scan_line (c ∷ l) current rest h lt = ground (
  arith,
  length-append current (c ∷ []),
  append_assoc current (c ∷ []) l,
  scan_line l (current ++ (c ∷ [])) rest,
)

scan_lines-written :
    (lines : List Text)
    → All IsLine lines
    → scan_lines [] (written lines) ≡ some (map drop_cr lines)
scan_lines-written [] h = unfold scan_lines ◌=?◌ in refl
scan_lines-written (l ∷ lines) h =
    scan_line l [] (written lines) h.0.0 (omega (arith, h.0.1))
    ∙ ap (prepend (drop_cr l)) (scan_lines-written lines h.1)

-- The URLs in lines: a line that is blank or a comment gives none, any other its trimmed text.
pub data Lists : List Text → List Text → Type 0 where
  no_lines : Lists [] []
  blank :
      (l : Text) (lines urls : List Text)
      → trim_bytes (drop_cr l) ≡ []
      → Lists lines urls
      → Lists (l ∷ lines) urls
  comment :
      (l t : Text) (lines urls : List Text)
      → trim_bytes (drop_cr l) ≡ b'#' ∷ t
      → Lists lines urls
      → Lists (l ∷ lines) urls
  url :
      (l t : Text) (c : ℕ) (lines urls : List Text)
      → trim_bytes (drop_cr l) ≡ c ∷ t
      → c ≢ b'#'
      → Lists lines urls
      → Lists (l ∷ lines) ((c ∷ t) ∷ urls)

url_lines-line :
    (l line : Text) (lines urls : List Text)
    → trim_bytes (drop_cr l) ≡ line
    → Lists lines urls
    → Lists (l ∷ lines) (if line =? [] || has_prefix line (codes "#") then urls else line ∷ urls)
unfolding ◌=?◌ has_prefix
url_lines-line l [] lines urls e w = blank l lines urls e w
url_lines-line l (c ∷ t) lines urls e w = elim (Bool-cases (c == b'#')) [
  | inl h ↦
      let is_comment : c ≡ b'#' = ground (arith, h) in
      rw h (comment l t lines urls (rw is_comment at e) w)
  | inr h ↦ rw h (url l t c lines urls e (ground (arith, h)) w)
]

url_lines-Lists : (lines : List Text) → Lists lines (url_lines (map drop_cr lines))
unfolding url_lines
url_lines-Lists [] = no_lines
url_lines-Lists (l ∷ lines) =
    url_lines-line l (trim_bytes (drop_cr l)) lines _ refl (url_lines-Lists lines)

-- The lines of a file, each ended by a newline and short enough for the scanner, give the URLs: the
-- trimmed lines in order, without the blank ones and the comments. If the reader fails, so does
-- the read.
pub read_url_lines-written :
    (lines : List Text) (fails : Bool)
    → All IsLine lines
    → (urls : List Text) × Lists lines urls
      × (read_url_lines (record { content = written lines; fails = fails })
          ≡ (if fails then none else some urls))
unfolding read_url_lines
read_url_lines-written lines fails h =
    (url_lines (map drop_cr lines), url_lines-Lists lines, rw (scan_lines-written lines h))
