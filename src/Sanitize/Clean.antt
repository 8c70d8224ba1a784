-- ===== src/Sanitize/Clean.antt =====
-- `transformElement`, `fixNesting`, `fixFigcaption` and `clean`.
--
-- The source edits one tree in place. Here `clean` returns what becomes of a node: the node that
-- stands in its place, if any, the IDs used so far, and the nodes that `fixNesting` has moved out
-- of it (`lifted`), which stand before the outermost phrasing ancestor, in this order. The parent
-- puts them there, or passes them on if it is a phrasing element itself. A moved node is cleaned
-- before it is inserted and is never visited again, and so it is here.
-- `parent` is the `Data` of the parent node, and `none` for a node that is detached.
use deckle.Base.{
  ℕ, zero, suc, Bool, true, false, not, ◌&&◌, ◌||◌, Option, none, some, ◌>>=◌, List, [], ◌∷◌, ◌++◌,
  Text, codes, ◌=?◌, has_prefix, trim_space, if◌then◌else◌,
}
use deckle.Sanitize.Attrs.{Floats, filter_attributes}
use deckle.Sanitize.Dl.{is_tag, fix_dl_content}
use deckle.Sanitize.Dom.{
  Attribute, element_node, Node, node, Forest, nil, cons, element, text, ◌+++◌, from_option,
  is_element, get_attr,
}
use deckle.Sanitize.Tags.{
  is_phrasing_element, is_structural_block, is_block_element, is_allowed_tag,
}

pub record Cleaned : Type 0 where
  pub used : List Text
  pub lifted : Forest
  pub result : Option Node

-- The children of a node after a pass over them.
pub record Children : Type 0 where
  pub used : List Text
  pub lifted : Forest
  pub kept : Forest

-- What `transformElement` says of its node.
pub data Verdict : Type 0 where
  remove keep : Verdict
  replace : Node → Verdict

-- The first `src` of the attributes, "" if there is none.
abbrev pub src_of : List Attribute → Text
src_of attrs = elim (get_attr (codes "src") attrs) [ none ↦ [] | some v ↦ v ]

-- The loop over the <source> children, which stops at the first non-empty `src`.
unfoldable pub source_src : Forest → Text
source_src nil = []
source_src (cons (node k d attrs cs) ns) =
    let rest = source_src ns in
    if is_tag (codes "source") (node k d attrs cs) && not (src_of attrs =? [])
    then src_of attrs
    else rest

-- The link that stands for a <video> or <audio>.
abbrev pub media_link : Text → Node
media_link src =
    element (codes "a") (record { key = codes "href"; val = src } ∷ [])
      (cons (text (codes "[Media: " ++ src ++ codes "]")) nil)

unfoldable pub transform_media : List Attribute → Forest → Verdict
transform_media attrs cs =
    let own = src_of attrs in
    let src = if own =? [] then source_src cs else own in
    if src =? [] then remove else replace (media_link src)

-- The first child that is an <img>.
unfoldable pub first_img : Forest → Option Node
first_img nil = none
first_img (cons c cs) = let rest = first_img cs in if is_tag (codes "img") c then some c else rest

-- The loop over the attributes of an <img>: is there a `src` that is not blank, and the first one
-- neither external nor AVIF?
unfoldable pub is_embedded_image : List Attribute → Bool
is_embedded_image [] = false
is_embedded_image (a ∷ attrs) =
    let rest = is_embedded_image attrs in
    let src = trim_space a.val in
    if a.key =? codes "src" && not (src =? [])
    then not (has_prefix src (codes "http://"))
      && (not (has_prefix src (codes "https://")) && not (has_prefix src (codes "data:image/avif")))
    else rest

-- The whitelist, with the three elements that the parser adds, and the validation of images.
unfoldable pub is_kept_element : Text → List Attribute → Bool
is_kept_element d attrs =
    (is_allowed_tag d || (d =? codes "html" || (d =? codes "head" || d =? codes "body")))
    && (not (d =? codes "img") || is_embedded_image attrs)

-- The collapse of a <picture> to its first <img>; `clean_root` is `s.clean` on a detached node.
unfoldable pub collapse_picture :
    (List Text → Node → Option Cleaned) → List Text → Option Node → Option (List Text × Verdict)
collapse_picture clean_root used none = some (used, remove)
collapse_picture clean_root used (some c) = do
  r ← clean_root used c
  some (r.used, elim (r.result) [ none ↦ remove | some n ↦ replace n ])

-- `transformElement`
unfoldable pub transform_element :
    (List Text → Node → Option Cleaned)
    → List Text
    → Text
    → List Attribute
    → Forest
    → Option (List Text × Verdict)
transform_element clean_root used d attrs cs =
    if d =? codes "video" || d =? codes "audio"
    then some (used, transform_media attrs cs)
    else if d =? codes "source"
    then some (used, remove)
    else if d =? codes "picture"
    then collapse_picture clean_root used (first_img cs)
    else some (used, if is_kept_element d attrs then keep else remove)

-- The loop of `fixNesting`: a structural block is moved out, another block is replaced by its
-- children. These are not looked at again, since `next` was read before.
unfoldable pub unnest :
    (List Text → Node → Option Cleaned) → Bool → List Text → Forest → Option Children
unnest clean_root has_parent used nil = some (record { used = used; lifted = nil; kept = nil })
unnest clean_root has_parent used (cons (node k d attrs cs) ns) =
    let c = node k d attrs cs in
    let moved : Option Children = do
      r ← clean_root used c
      rest ← unnest clean_root has_parent r.used ns
      let c' : Node = elim (r.result) [ none ↦ c | some n ↦ n ]
      some (record rest { lifted = cons c' rest.lifted })
    in let unwrapped : Option Children = do
      rest ← unnest clean_root has_parent used ns
      some (record rest { kept = cs +++ rest.kept })
      in let left : Option Children = do
        rest ← unnest clean_root has_parent used ns
        some (record rest { kept = cons c rest.kept })
        in if is_element k && is_block_element d
          then if is_structural_block d && has_parent then moved else unwrapped
          else left

-- `fixNesting`
unfoldable pub fix_nesting :
    (List Text → Node → Option Cleaned) → Bool → Text → List Text → Forest → Option Children
fix_nesting clean_root has_parent d used cs =
    let fixed = unnest clean_root has_parent used cs in
    if is_phrasing_element d then fixed else some (record { used = used; lifted = nil; kept = cs })

-- `fixFigcaption`: the tag of the node from now on
unfoldable pub fix_figcaption : Option Text → Text → Text
fix_figcaption none d = if d =? codes "figcaption" then codes "p" else d
fix_figcaption (some p) d =
    if d =? codes "figcaption" && not (p =? codes "figure") then codes "p" else d

-- The loop over the children at the end of `clean`. The flag says that the node is a phrasing
-- element, so that what is lifted out of a child goes further up.
unfoldable pub clean_children :
    (List Text → Node → Option Cleaned) → Bool → List Text → Forest → Option Children
clean_children clean_child phrasing used nil =
    some (record { used = used; lifted = nil; kept = nil })
clean_children clean_child phrasing used (cons c cs) = do
  r ← clean_child used c
  rest ← clean_children clean_child phrasing r.used cs
  some (
      if phrasing
      then record rest {
        lifted = r.lifted +++ rest.lifted;
        kept = from_option r.result +++ rest.kept;
      }
      else record rest { lifted = nil; kept = r.lifted +++ (from_option r.result +++ rest.kept) })

abbrev pub is_some {ℓ} : {A : Type ℓ} → Option A → Bool
is_some none = false
is_some (some _) = true

module _ (fl : Floats) (ids : List Text) where
  -- The part of `clean` behind `transformElement`. `clean_in` is `s.clean` on a node, given the
  -- `Data` of its parent.
  unfoldable pub clean_kept :
      (Option Text → List Text → Node → Option Cleaned)
      → Option Text
      → List Text
      → Text
      → List Attribute
      → Forest
      → Option Cleaned
  clean_kept clean_in parent used d attrs cs = do
    let filtered = filter_attributes fl ids d used attrs
    nested ← fix_nesting (clean_in none) (is_some parent) d filtered.used cs
    let content = if d =? codes "dl" then fix_dl_content nested.kept else nested.kept
    let d' = fix_figcaption parent d
    inner ← clean_children (clean_in (some d')) (is_phrasing_element d') nested.used content
    some (record {
      used = inner.used;
      lifted = if is_some parent then nested.lifted +++ inner.lifted else nil;
      result = some (element d' filtered.attrs inner.kept);
    })

  -- `clean`, with fuel for the depth of the recursion
  unfoldable pub clean : ℕ → Option Text → List Text → Node → Option Cleaned
  clean zero parent used n = none
  clean (suc f) parent used (node element_node d attrs cs) = do
    (used', verdict) ← transform_element (clean f none) used d attrs cs
    elim verdict [
      | remove ↦ some (record { used = used'; lifted = nil; result = none })
      | replace m ↦ some (record { used = used'; lifted = nil; result = some m })
      | keep ↦ clean_kept (clean f) parent used' d attrs cs
    ]
  clean (suc f) parent used (node k d attrs cs) = do
    inner ← clean_children (clean f (some d)) false used cs
    some (record { used = inner.used; lifted = nil; result = some (node k d attrs inner.kept) })
