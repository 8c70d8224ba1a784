-- ===== src/Epub/Library.antt =====
-- The operations of go-epub that the program calls, and what it relies on of them.
use deckle.Base.{Bool, Option, none, some, List, [], ◌∷◌, ◌++◌, ◌≡◌, ◌≢◌, ◌⊎◌, Text, codes, All}

-- What a call that may fail leaves: the book, and the internal path unless it failed.
pub record Added (State : Type 0) : Type 0 where
  pub book : State
  pub path : Option Text

-- The `*epub.Epub` is a state that each call passes on.
pub record EpubLibrary : Type 1 where
  pub State : Type 0
  -- `epub.NewEpub`, and `SetLang` and `SetAuthor`
  pub new_epub : Text → Option State
  pub set_lang : Text → State → State
  pub set_author : Text → State → State
  -- `AddCSS`, `AddImage`: source and file name
  pub add_css : Text → Text → State → Added State
  pub add_image : Text → Text → State → Added State
  -- `SetCover`, whose error is only printed
  pub set_cover : Text → Text → State → State
  -- `AddSection`: body, title, file name and style sheet
  pub add_section : Text → Text → Text → Text → State → Added State
  -- `Write`: does it succeed?
  pub can_write : Text → State → Bool

-- What `AddSection` is called with, but for the style sheet
pub record Section : Type 0 where
  pub file : Text
  pub title : Text
  pub body : Text

abbrev pub kept {ℓ} : {A : Type ℓ} → A → Option Text → List A
kept a none = []
kept a (some path) = a ∷ []

-- A file name with the ending that the library wants; no other name is asked for.
abbrev pub IsFileName : Text → Type 0
IsFileName f = (name : Text) × (f ≡ name ++ codes ".xhtml")

-- No section has this file.
abbrev pub Unused : Text → List Section → Type 0
Unused f ss = All (λ s. s.file ≢ f) ss

-- The sections in their order, as the documentation has it: a section whose file has no section yet is
-- added, as the last one; one that is not added changes nothing. `SetCover` adds a section for the
-- cover, unless it fails. No other call changes the sections.
pub record SectionLaws (lib : EpubLibrary) : Type 0 where
  pub sections : lib.State → List Section
  pub sections-new : (t : Text) (e : lib.State) → lib.new_epub t ≡ some e → sections e ≡ []
  pub sections-lang : (t : Text) (e : lib.State) → sections (lib.set_lang t e) ≡ sections e
  pub sections-author : (t : Text) (e : lib.State) → sections (lib.set_author t e) ≡ sections e
  pub sections-css : (s f : Text) (e : lib.State) → sections (lib.add_css s f e).book ≡ sections e
  pub sections-image :
      (s f : Text) (e : lib.State) → sections (lib.add_image s f e).book ≡ sections e
  pub sections-cover :
      (i c : Text) (e : lib.State)
      → Unused (codes "cover.xhtml") (sections e)
      → (sections (lib.set_cover i c e) ≡ sections e)
        ⊎ ((cover : Section) × (cover.file ≡ codes "cover.xhtml")
            × (sections (lib.set_cover i c e) ≡ sections e ++ cover ∷ []))
  pub sections-section :
      (b t f c : Text) (e : lib.State)
      → IsFileName f
      → sections (lib.add_section b t f c e).book
        ≡ sections e
          ++ kept (record { file = f; title = t; body = b }) (lib.add_section b t f c e).path
  pub adds_new :
      (b t f c : Text) (e : lib.State)
      → IsFileName f
      → Unused f (sections e)
      → (path : Text) × ((lib.add_section b t f c e).path ≡ some path)

-- The file names of the images in their order, as the documentation has it: an image that is not
-- added changes nothing.
pub record ImageLaws (lib : EpubLibrary) : Type 0 where
  pub images : lib.State → List Text
  pub images-image :
      (s f : Text) (e : lib.State)
      → images (lib.add_image s f e).book ≡ images e ++ kept f (lib.add_image s f e).path
