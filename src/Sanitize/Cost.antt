-- ===== src/Sanitize/Cost.antt =====
-- The depth of recursion that `clean` needs for a tree, and what `fixDLContent` does to it.
use deckle.Base.{
  ℕ, ◌+◌, ◌*◌, ◌≤◌, max, Bool, true, false, ◌||◌, ◌≡◌, refl, arith, Text, codes, ◌=?◌,
  if◌then◌else◌,
}
use deckle.Sanitize.Dl.{
  wrap_child, wrap_children, open_groups, close_last_group, ensure_pair, fix_dl_content, dt, dd,
}
use deckle.Sanitize.Dom.{
  text_node, element_node, Node, node, Forest, nil, cons, ◌+++◌, height, heights,
}

-- A wrapper that `fixDLContent` adds costs one level of recursion, any other node counts for two.
abbrev pub weight : Text → ℕ
weight d = if d =? codes "dt" || d =? codes "dd" then 1 else 2

unfoldable mutual
  pub cost : Node → ℕ
  cost (node k d attrs cs) = weight d + costs cs

  pub costs : Forest → ℕ
  costs nil = 0
  costs (cons n ns) = max (cost n) (costs ns)

pub costs-append : (xs ys : Forest) → costs (xs +++ ys) ≡ max (costs xs) (costs ys)
unfolding cost
costs-append nil ys = omega arith
costs-append (cons x xs) ys = omega (arith, costs-append xs ys)

pub weight-le : (d : Text) → weight d ≤ 2
weight-le d = ground arith

pub one-le-weight : (d : Text) → 1 ≤ weight d
one-le-weight d = ground arith

mutual
  unfolding cost height

  pub cost-le : (n : Node) → cost n ≤ 2 * height n
  cost-le (node k d attrs cs) = omega (arith, weight-le d, costs-le cs)

  costs-le : (ns : Forest) → costs ns ≤ 2 * heights ns
  costs-le nil = omega arith
  costs-le (cons n ns) = omega (arith, cost-le n, costs-le ns)

cost-dt : (cs : Forest) → cost (dt cs) ≡ 1 + costs cs
unfolding cost ◌=?◌
cost-dt cs = refl

cost-dd : (cs : Forest) → cost (dd cs) ≡ 1 + costs cs
unfolding cost ◌=?◌
cost-dd cs = refl

pub costs-cons : (n : Node) (ns : Forest) → costs (cons n ns) ≡ max (cost n) (costs ns)
unfolding cost
costs-cons n ns = refl

pub costs-nil : costs nil ≡ 0
unfolding cost
costs-nil = refl

cost-wrap_child : (c : Node) → cost (wrap_child c) ≤ 1 + cost c
unfolding wrap_child
cost-wrap_child (node text_node d attrs cs) =
    let c = node text_node d attrs cs in
    ground (arith, cost-dt (cons c nil), costs-cons c nil, costs-nil)
cost-wrap_child (node element_node d attrs cs) =
    let c = node element_node d attrs cs in
    ground (arith, cost-dd (cons c nil), costs-cons c nil, costs-nil)
cost-wrap_child (node _ d attrs cs) = omega arith

costs-wrap_children : (cs : Forest) → costs (wrap_children cs) ≤ 1 + costs cs
unfolding wrap_children
costs-wrap_children nil = omega (arith, costs-nil)
costs-wrap_children (cons c cs) = omega (
  arith,
  cost-wrap_child c,
  costs-wrap_children cs,
  costs-cons c cs,
  costs-cons (wrap_child c) (wrap_children cs),
)

costs-open_groups : (b : Bool) (cs : Forest) → costs (open_groups b cs) ≤ max 1 (costs cs)
unfolding open_groups
costs-open_groups b nil = omega arith
costs-open_groups b (cons c cs) = ground (
  arith,
  costs-nil,
  cost-dt nil,
  costs-cons c cs,
  costs-open_groups true cs,
  costs-open_groups b cs,
  costs-cons c (open_groups true cs),
  costs-cons c (open_groups b cs),
  costs-cons (dt nil) (cons c (open_groups true cs)),
)

costs-close_last_group : (cs : Forest) → costs (close_last_group cs) ≤ max 1 (costs cs)
unfolding close_last_group
costs-close_last_group nil = omega arith
costs-close_last_group (cons c cs) = ground (
  arith,
  costs-nil,
  cost-dd nil,
  costs-cons c cs,
  costs-close_last_group cs,
  costs-cons c (cons (dd nil) cs),
  costs-cons (dd nil) cs,
  costs-cons c (close_last_group cs),
)

costs-ensure_pair : (cs : Forest) → costs (ensure_pair cs) ≤ max 1 (costs cs)
unfolding ensure_pair
costs-ensure_pair cs = ground (
  arith,
  costs-nil,
  cost-dt nil,
  cost-dd nil,
  costs-cons (dt nil) cs,
  costs-cons (dd nil) nil,
  costs-append cs (cons (dd nil) nil),
  costs-append (cons (dt nil) cs) (cons (dd nil) nil),
)

pub costs-fix_dl_content : (cs : Forest) → costs (fix_dl_content cs) ≤ 1 + costs cs
unfolding fix_dl_content
costs-fix_dl_content cs =
    let wrapped = wrap_children cs in
    let opened = open_groups false wrapped in
    omega (
      arith,
      costs-wrap_children cs,
      costs-open_groups false wrapped,
      costs-close_last_group opened,
      costs-ensure_pair (close_last_group opened),
    )
