-- ===== src/Sanitize/DlContent.antt =====
-- What `fixDLContent` achieves: the content model of <dl>.
use deckle.Base.{
  Bool, true, false, not, ◌&&◌, ◌||◌, [], ◌≡◌, refl, arith, codes, ◌=?◌, =?_iff, trim_space,
  if◌then◌else◌,
}
use deckle.Sanitize.Dl.{
  is_tag, dt, dd, is_dt, is_dd_or_div, wrap_child, wrap_children, open_groups, any_child,
  close_last_group, ensure_pair, fix_dl_content,
}
use deckle.Sanitize.Dom.{text_node, element_node, Node, node, Forest, nil, cons, ◌+++◌}

-- A child that may stand in a <dl>: a dt, dd or div element, or what is no element and no text.
unfoldable pub is_dl_child : Node → Bool
is_dl_child (node element_node d attrs cs) =
    d =? codes "dt" || (d =? codes "dd" || d =? codes "div")
is_dl_child (node text_node d attrs cs) = trim_space d =? []
is_dl_child n = true

unfoldable pub all_children : (Node → Bool) → Forest → Bool
all_children p nil = true
all_children p (cons c cs) = p c && all_children p cs

-- No <dd> stands before the first <dt>. The flag says that a <dt> was seen.
unfoldable pub is_opened : Bool → Forest → Bool
is_opened seen nil = true
is_opened seen (cons c cs) =
    if is_dt c
    then is_opened true cs
    else (seen || not (is_tag (codes "dd") c)) && is_opened seen cs

-- The last <dt> has a <dd> or <div> after it. The flag says that a <dt> waits for one.
unfoldable pub is_closed : Bool → Forest → Bool
is_closed waits nil = not waits
is_closed waits (cons c cs) =
    if is_dt c
    then is_closed true cs
    else if is_dd_or_div c
    then is_closed false cs
    else is_closed waits cs

pub record IsDlContent (cs : Forest) : Type 0 where
  pub children : all_children is_dl_child cs ≡ true
  pub opened : is_opened false cs ≡ true
  pub closed : is_closed false cs ≡ true
  pub has_dt : any_child is_dt cs ≡ true
  pub has_dd : any_child is_dd_or_div cs ≡ true

exclusive : (c : Node) → is_dt c ≡ true → is_dd_or_div c ≡ false
exclusive (node element_node d attrs cs) h =
    ground (arith, =?_iff d (codes "dt"), =?_iff d (codes "dd"), =?_iff d (codes "div"))
exclusive (node _ d attrs cs) h = cc

abbrev is_part : Node → Bool
is_part x = is_dt x || is_dd_or_div x

-- First pass.
wrap_child-is_dl_child : (c : Node) → is_dl_child (wrap_child c) ≡ true
unfolding wrap_child is_dl_child ◌=?◌
wrap_child-is_dl_child (node text_node d attrs cs) = ground arith
wrap_child-is_dl_child (node element_node d attrs cs) = ground arith
wrap_child-is_dl_child (node _ d attrs cs) = refl

wrap_children-children : (cs : Forest) → all_children is_dl_child (wrap_children cs) ≡ true
unfolding wrap_children all_children
wrap_children-children nil = refl
wrap_children-children (cons c cs) =
    ground (arith, wrap_child-is_dl_child c, wrap_children-children cs)

new_dt : (is_dl_child (dt nil) ≡ true) × (is_dt (dt nil) ≡ true) × (is_dd_or_div (dt nil) ≡ false)
unfolding is_dl_child ◌=?◌
new_dt = (refl, refl, refl)

new_dd : (is_dl_child (dd nil) ≡ true) × (is_dt (dd nil) ≡ false) × (is_dd_or_div (dd nil) ≡ true)
unfolding is_dl_child ◌=?◌
new_dd = (refl, refl, refl)

-- Second pass.
open_groups-children :
    (b : Bool) (cs : Forest)
    → all_children is_dl_child cs ≡ true
    → all_children is_dl_child (open_groups b cs) ≡ true
unfolding open_groups all_children
open_groups-children b nil h = refl
open_groups-children b (cons c cs) h =
    ground (arith, new_dt, open_groups-children true cs, open_groups-children b cs)

open_groups-is_opened : (b : Bool) (cs : Forest) → is_opened b (open_groups b cs) ≡ true
unfolding open_groups is_opened
open_groups-is_opened b nil = refl
open_groups-is_opened b (cons c cs) =
    ground (arith, new_dt, open_groups-is_opened true cs, open_groups-is_opened b cs)

-- Third pass.
close_last_group-children :
    (cs : Forest)
    → all_children is_dl_child cs ≡ true
    → all_children is_dl_child (close_last_group cs) ≡ true
unfolding close_last_group all_children
close_last_group-children nil h = refl
close_last_group-children (cons c cs) h = ground (arith, new_dd, close_last_group-children cs)

opened_after : (cs : Forest) → is_opened true cs ≡ true
unfolding is_opened
opened_after nil = refl
opened_after (cons c cs) = ground (arith, opened_after cs)

close_last_group-is_opened :
    (b : Bool) (cs : Forest) → is_opened b cs ≡ true → is_opened b (close_last_group cs) ≡ true
unfolding close_last_group is_opened
close_last_group-is_opened b nil h = refl
close_last_group-is_opened b (cons c cs) h = ground (
  arith,
  new_dd,
  opened_after (cons (dd nil) cs),
  opened_after cs,
  close_last_group-is_opened true cs,
  close_last_group-is_opened b cs,
)

closed_without_parts :
    (b : Bool) (cs : Forest) → any_child is_part cs ≡ false → is_closed b cs ≡ not b
unfolding is_closed any_child
closed_without_parts b nil h = refl
closed_without_parts b (cons c cs) h = ground (arith, closed_without_parts b cs)

close_last_group-is_closed :
    (b : Bool) (cs : Forest) → is_closed b (close_last_group cs) ≡ (not b || any_child is_part cs)
unfolding close_last_group is_closed any_child
close_last_group-is_closed b nil = ground arith
close_last_group-is_closed b (cons c cs) = ground (
  arith,
  new_dd,
  exclusive c,
  closed_without_parts false cs,
  close_last_group-is_closed true cs,
  close_last_group-is_closed false cs,
  close_last_group-is_closed b cs,
)

-- The last pass.
module _ (p : Node → Bool) where
  children-append :
      (xs ys : Forest) → all_children p (xs +++ ys) ≡ (all_children p xs && all_children p ys)
  unfolding all_children
  children-append nil ys = refl
  children-append (cons c xs) ys = ground (arith, children-append xs ys)

  any_child-append : (xs ys : Forest) → any_child p (xs +++ ys) ≡ (any_child p xs || any_child p ys)
  unfolding any_child
  any_child-append nil ys = refl
  any_child-append (cons c xs) ys = ground (arith, any_child-append xs ys)

closed_by_dd : (b : Bool) (cs : Forest) → is_closed b (cs +++ cons (dd nil) nil) ≡ true
unfolding is_closed
closed_by_dd b nil = ground (arith, new_dd)
closed_by_dd b (cons c cs) =
    ground (arith, closed_by_dd true cs, closed_by_dd false cs, closed_by_dd b cs)

closed_without_dt :
    (b : Bool) (cs : Forest)
    → any_child is_dt cs ≡ false
    → any_child is_dd_or_div cs ≡ true
    → is_closed b cs ≡ true
unfolding is_closed any_child
closed_without_dt b nil h g = cc
closed_without_dt b (cons c cs) h g = ground (arith, closed_without_dt b cs, closed_false cs)
  where
    closed_false : (cs : Forest) → any_child is_dt cs ≡ false → is_closed false cs ≡ true
    closed_false nil h = refl
    closed_false (cons c cs) h = ground (arith, closed_false cs)

opened-append :
    (b : Bool) (xs ys : Forest)
    → any_child is_dt xs ≡ true
    → is_opened b xs ≡ true
    → is_opened b (xs +++ ys) ≡ true
unfolding is_opened any_child
opened-append b nil ys h g = cc
opened-append b (cons c xs) ys h g = ground (arith, opened_after (xs +++ ys), opened-append b xs ys)

ensure_pair-IsDlContent :
    (cs : Forest)
    → all_children is_dl_child cs ≡ true
    → is_opened false cs ≡ true
    → is_closed false cs ≡ true
    → IsDlContent (ensure_pair cs)
unfolding ensure_pair all_children is_opened is_closed any_child
ensure_pair-IsDlContent cs h o c =
    let last = cons (dd nil) nil in
    record {
      children = ground (arith, new_dt, new_dd, children-append is_dl_child cs last);
      opened =
          ground (
            arith,
            new_dt,
            opened_after cs,
            opened_after (cs +++ last),
            opened-append false cs last,
          );
      closed =
          ground
            (arith, new_dt, closed_by_dd true cs, closed_by_dd false cs, closed_without_dt true cs);
      has_dt = ground (arith, new_dt, any_child-append is_dt cs last);
      has_dd = ground (arith, new_dt, new_dd, any_child-append is_dd_or_div cs last);
    }

-- After `fixDLContent`, whatever the children were: each is a dt, a dd, a div, or neither an
-- element nor text that is not blank; no <dd> is before the first <dt>; the last <dt> has a <dd> or
-- <div> after it; and there are a <dt> and a <dd> or <div>.
pub fix_dl_content-IsDlContent : (cs : Forest) → IsDlContent (fix_dl_content cs)
unfolding fix_dl_content
fix_dl_content-IsDlContent cs =
    let wrapped = wrap_children cs in
    let grouped = open_groups false wrapped in
    ensure_pair-IsDlContent (close_last_group grouped)
      (close_last_group-children grouped
        (open_groups-children false wrapped (wrap_children-children cs)))
      (close_last_group-is_opened false grouped (open_groups-is_opened false wrapped))
      (close_last_group-is_closed false grouped)
