-- ===== src/Sanitize/Dl.antt =====
-- `fixDLContent`: the content model of <dl>. Each pass of the loop is a function on the children.
use deckle.Base.{
  Bool, true, false, not, ◌&&◌, ◌||◌, [], Text, codes, ◌=?◌, trim_space, if◌then◌else◌,
}
use deckle.Sanitize.Dom.{element_node, text_node, Node, node, Forest, nil, cons, element, ◌+++◌}

-- `c.Type == html.ElementNode && c.Data == tag`
abbrev pub is_tag : Text → Node → Bool
is_tag tag (node element_node d attrs cs) = d =? tag
is_tag tag (node _ d attrs cs) = false

abbrev pub dt : Forest → Node
dt = element (codes "dt") []

abbrev pub dd : Forest → Node
dd = element (codes "dd") []

abbrev pub is_dt : Node → Bool
is_dt = is_tag (codes "dt")

-- An element that ends a group: `c.Data == "dd" || c.Data == "div"`.
abbrev pub is_dd_or_div : Node → Bool
is_dd_or_div n = is_tag (codes "dd") n || is_tag (codes "div") n

-- First pass: bare text goes into a <dt>, an element that is not dt, dd or div into a <dd>.
unfoldable pub wrap_child : Node → Node
unfolding trim_space ◌=?◌
wrap_child (node text_node d attrs cs) =
    if trim_space d =? []
    then node text_node d attrs cs
    else dt (cons (node text_node d attrs cs) nil)
wrap_child (node element_node d attrs cs) =
    if not (d =? codes "dt") && (not (d =? codes "dd") && not (d =? codes "div"))
    then dd (cons (node element_node d attrs cs) nil)
    else node element_node d attrs cs
wrap_child n = n

unfoldable pub wrap_children : Forest → Forest
unfolding wrap_child
wrap_children nil = nil
wrap_children (cons c cs) = cons (wrap_child c) (wrap_children cs)

-- Second pass: an empty <dt> before a <dd> that has none before it. The flag is `seenDt`.
unfoldable pub open_groups : Bool → Forest → Forest
unfolding ◌=?◌
open_groups seen_dt nil = nil
open_groups seen_dt (cons c cs) =
    if is_dt c
    then cons c (open_groups true cs)
    else if is_tag (codes "dd") c && not seen_dt
    then cons (dt nil) (cons c (open_groups true cs))
    else cons c (open_groups seen_dt cs)

unfoldable pub any_child : (Node → Bool) → Forest → Bool
any_child p nil = false
any_child p (cons c cs) = p c || any_child p cs

-- Third pass: an empty <dd> after `lastDt`, the <dt> with no dt, dd or div after it.
unfoldable pub close_last_group : Forest → Forest
unfolding any_child ◌=?◌
close_last_group nil = nil
close_last_group (cons c cs) =
    if is_dt c && not (any_child (λ x. is_dt x || is_dd_or_div x) cs)
    then cons c (cons (dd nil) cs)
    else cons c (close_last_group cs)

-- `if !hasDt` and `if !hasDd`
unfoldable pub ensure_pair : Forest → Forest
unfolding any_child ◌=?◌
ensure_pair cs =
    let has_dt = any_child is_dt cs in
    let has_dd = any_child is_dd_or_div cs in
    let with_dt = if has_dt then cs else cons (dt nil) cs in
    if has_dd then with_dt else with_dt +++ cons (dd nil) nil

-- `fixDLContent`, on the children of the node
unfoldable pub fix_dl_content : Forest → Forest
unfolding wrap_children open_groups close_last_group ensure_pair
fix_dl_content cs = ensure_pair (close_last_group (open_groups false (wrap_children cs)))
