-- ===== src/Json.antt =====
-- JSON documents, as `json.load` decodes them and `json.dump` prints them.
use ggen_igniter.Base.{
  ℕ, zero, suc, String, Option, none, some, List, [], ◌∷◌, Bool, if◌then◌else◌, ◌==◌, string_eq,
  map,
}
use ggen_igniter.Ocel.{ℤ, pos}

-- A decoded JSON value. An object has its members in their order.
mutual
  pub data Json : Type 0 where
    null : Json
    boolean : Bool → Json
    number : ℤ → Json
    text : String → Json
    array : Elements → Json
    object : Members → Json

  pub data Elements : Type 0 where
    no_element : Elements
    element : Json → Elements → Elements

  pub data Members : Type 0 where
    no_member : Members
    member : String → Json → Members → Members

unfoldable pub count_elements : Elements → ℕ
count_elements no_element = zero
count_elements (element e es) = suc (count_elements es)

unfoldable pub count_members : Members → ℕ
count_members no_member = zero
count_members (member k e es) = suc (count_members es)

-- The array of the values and the object of the members, in their order.
elements_of : List Json → Elements
elements_of [] = no_element
elements_of (j ∷ js) = element j (elements_of js)

members_of : List (String × Json) → Members
members_of [] = no_member
members_of ((k, j) ∷ ms) = member k j (members_of ms)

unfoldable pub array_of : List Json → Json
unfolding elements_of
array_of js = array (elements_of js)

unfoldable pub object_of : List (String × Json) → Json
unfolding members_of
object_of ms = object (members_of ms)

unfoldable pub texts_of : List String → Json
unfolding array_of
texts_of ts = array_of (map text ts)

unfoldable pub text_or_null : Option String → Json
text_or_null none = null
text_or_null (some s) = text s

unfoldable pub exit_or_null : Option ℕ → Json
exit_or_null none = null
exit_or_null (some n) = number (pos n)

member_of : String → Members → Option Json
member_of key no_member = none
member_of key (member k j ms) = if k == key then some j else member_of key ms

-- `document[key]` for each of the keys, outer first.
unfoldable pub at : List String → Json → Option Json
unfolding member_of
at [] j = some j
at (key ∷ keys) (object ms) = at_next (member_of key ms) (at keys)
  where
    at_next : Option Json → (Json → Option Json) → Option Json
    at_next none next = none
    at_next (some j) next = next j
at (key ∷ keys) _ = none
