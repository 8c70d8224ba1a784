-- ===== src/Cli/Markdown.antt =====
-- The renderer of images that `getMarkdownConverter` registers, on the attributes of the node.
use deckle.Base.{Text, codes, has_prefix, [], ◌++◌, ◌=?◌, not, ◌≡◌, refl, if◌then◌else◌}
use deckle.Base.Utf8.{trim_bytes}

-- `converter.RenderTryNext`, and `converter.RenderSuccess` with what has been written
pub data RenderStatus : Type 0 where
  render_try_next : RenderStatus
  render_success : Text → RenderStatus

-- What stands for an image with a data URI
unfoldable pub placeholder : Text → Text
placeholder alt = if alt =? [] then [] else codes "[Image: " ++ (alt ++ codes "]")

unfoldable pub render_img : Text → Text → RenderStatus
render_img src alt =
    if not (has_prefix src (codes "data:"))
    then render_try_next
    else render_success (placeholder (trim_bytes alt))

alt_in_brackets :
    render_img (codes "data:image/png;base64,AA==") (codes " A cat\n")
    ≡ render_success (codes "[Image: A cat]")
unfolding render_img placeholder has_prefix trim_bytes ◌=?◌
alt_in_brackets = refl
