-- ===== src/Sanitize/Dom.antt =====
-- The tree that golang.org/x/net/html parses a document to, as far as sanitize.go reads it.
-- The sibling and parent pointers of a node are its place in the tree. `DataAtom` is left out:
-- the parser sets it to the atom of `Data`, and so does sanitize.go for each tag of `voidElements`.
use deckle.Base.{
  ℕ, suc, max, Bool, true, false, List, [], ◌∷◌, ◌≡◌, refl, ap, arith, Text, ◌=?◌, if◌then◌else◌,
  Option, none, some,
}

pub record Attribute : Type 0 where
  pub key : Text
  pub val : Text

pub data NodeType : Type 0 where
  error_node text_node document_node element_node comment_node doctype_node raw_node : NodeType

mutual
  pub data Node : Type 0 where
    node : NodeType → Text → List Attribute → Forest → Node

  -- The children of a node, from `FirstChild` along `NextSibling`.
  pub data Forest : Type 0 where
    nil : Forest
    cons : Node → Forest → Forest

abbrev pub element : Text → List Attribute → Forest → Node
element = node element_node

abbrev pub text : Text → Node
text t = node text_node t [] nil

infixr 65 ◌+++◌
abbrev pub ◌+++◌ : Forest → Forest → Forest
nil +++ ys = ys
cons x xs +++ ys = cons x (xs +++ ys)

pub +++_assoc : (xs ys zs : Forest) → (xs +++ ys) +++ zs ≡ xs +++ (ys +++ zs)
+++_assoc nil ys zs = refl
+++_assoc (cons x xs) ys zs = ap (cons x) (+++_assoc xs ys zs)

pub +++-nil : (xs : Forest) → xs +++ nil ≡ xs
+++-nil nil = refl
+++-nil (cons x xs) = ap (cons x) (+++-nil xs)

-- What stands in the place of a node: nothing for `nil`, or the node that replaces it.
abbrev pub from_option : Option Node → Forest
from_option none = nil
from_option (some n) = cons n nil

abbrev pub is_element : NodeType → Bool
is_element element_node = true
is_element _ = false

-- The height of the tree.
unfoldable mutual
  pub height : Node → ℕ
  height (node k d attrs cs) = suc (heights cs)

  pub heights : Forest → ℕ
  heights nil = 0
  heights (cons n ns) = max (height n) (heights ns)

pub heights-append : (xs ys : Forest) → heights (xs +++ ys) ≡ max (heights xs) (heights ys)
unfolding heights
heights-append nil ys = omega arith
heights-append (cons x xs) ys = omega (arith, heights-append xs ys)

-- `a.Key == key` for the first such attribute: its value.
unfoldable pub get_attr : Text → List Attribute → Option Text
get_attr k [] = none
get_attr k (a ∷ attrs) = if a.key =? k then some a.val else get_attr k attrs
