-- ===== src/Epub/Pictures/Files.antt =====
-- The names of the image files.
use mathlib.Core.List.{append_cancel_left}
use deckle.Base.{◌⊎◌, inl, inr, ℕ, ◌≡◌, ◌≢◌, sym, ap, ◌∙◌, arith, ◌++◌, Text, codes, drop}
use deckle.Base.Decimal.{leading, leading-decimal}
use deckle.Document.Toc.{three_digits}
use deckle.Epub.Pictures.{extension, image_file}

leading-three_digits : (n : ℕ) (t : Text) → leading 0 (three_digits n ++ t) ≡ leading n t
unfolding leading
leading-three_digits n t = ground (arith, leading-decimal n t)

-- What follows the first "_img" behind the number of the chapter.
leading-extension : (n : ℕ) (mime : Text) → leading n (extension mime) ≡ n
unfolding leading extension
leading-extension n mime = ground arith

-- The number in the name behind "ch"
chapter_of :
    (chapter i : ℕ) (mime : Text)
    → leading 0 (drop 2 (image_file chapter i (extension mime))) ≡ chapter
unfolding image_file leading
chapter_of chapter i mime = leading-three_digits chapter _

index_of :
    (i j : ℕ) (mime other : Text)
    → three_digits i ++ extension mime ≡ three_digits j ++ extension other
    → i ≡ j
index_of i j mime other h =
    sym (leading-three_digits i (extension mime) ∙ leading-extension i mime)
    ∙ (ap (leading 0) h ∙ (leading-three_digits j (extension other) ∙ leading-extension j other))

image_file-injective :
    (chapter other_chapter i j : ℕ) (mime other : Text)
    → image_file chapter i (extension mime) ≡ image_file other_chapter j (extension other)
    → (chapter ≡ other_chapter) × (i ≡ j)
unfolding image_file
image_file-injective chapter other_chapter i j mime other h =
    let same =
      sym (chapter_of chapter i mime)
      ∙ (ap (λ t. leading 0 (drop 2 t)) h ∙ chapter_of other_chapter j other) in
    let behind_ch = append_cancel_left (codes "ch") _ _ h in
    let aligned =
      ap (λ n. three_digits n ++ (codes "_img" ++ (three_digits i ++ extension mime))) (sym same)
      ∙ behind_ch in
    let behind_chapter = append_cancel_left (three_digits other_chapter) _ _ aligned in
    (same, index_of i j mime other (append_cancel_left (codes "_img") _ _ behind_chapter))

-- Images of different chapters, and different images of a chapter, have files of different names,
-- whatever their formats.
pub image_file-ne :
    (chapter other_chapter i j : ℕ) (mime other : Text)
    → (chapter ≢ other_chapter) ⊎ (i ≢ j)
    → image_file chapter i (extension mime) ≢ image_file other_chapter j (extension other)
image_file-ne chapter other_chapter i j mime other (inl different) h =
    different (image_file-injective chapter other_chapter i j mime other h).0
image_file-ne chapter other_chapter i j mime other (inr different) h =
    different (image_file-injective chapter other_chapter i j mime other h).1
