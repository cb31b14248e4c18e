-- ===== src/Ocel.antt =====
-- The OCEL 2.0 documents that `priv/ggen/ash-manufacture-pack/bin/conformance.py` reads, as decoded
-- JSON, and `events_of`. A field that a script reads by `.get` or by a subscript may be missing, and
-- is an `Option`. The fields that hold names are texts; the value of an attribute is null, an
-- integer or a text.
mod Values
unfoldable pub use Values.*
use ggen_igniter.Base.{String, Option, none, some, List, [], ◌∷◌, if◌then◌else◌, ◌==◌, string_eq}
use ggen_igniter.Base.Dict.{Dict, from_pairs}
use ggen_igniter.Base.Exec.{Result, ok, subscript, map_m, ◌>>=◌}

pub record Attribute : Type 0 where
  pub name : Option String
  pub value : Option Value

pub record Relationship : Type 0 where
  pub object_id : Option String
  pub qualifier : Option String

-- An entry of `events`.
pub record RawEvent : Type 0 where
  pub id : Option String
  pub type : Option String
  pub attributes : List Attribute
  pub relationships : List Relationship

-- An entry of `objects`.
pub record Object : Type 0 where
  pub id : Option String
  pub type : Option String

-- A document. A type declaration is its `name`.
pub record Doc : Type 0 where
  pub event_types : Option (List (Option String))
  pub object_types : Option (List (Option String))
  pub events : Option (List RawEvent)
  pub objects : Option (List Object)

-- `doc.get(key, [])`
abbrev pub or_empty {ℓ} : {A : Type ℓ} → Option (List A) → List A
or_empty none = []
or_empty (some xs) = xs

-- What `events_of` makes of an event.
pub record Event : Type 0 where
  pub id : String
  pub type : String
  pub attrs : Dict String Value
  pub objects : List (String × String)
  pub task : Option String
  pub subject : Option String

attribute_pair : Attribute → Result (String × Value)
attribute_pair a = do n ← subscript a.name; v ← subscript a.value; ok (n, v)

-- `{a["name"]: a["value"] for a in e.get("attributes", [])}`
unfoldable pub attrs_of : List Attribute → Result (Dict String Value)
unfolding attribute_pair
attrs_of attributes = do pairs ← map_m attribute_pair attributes; ok (from_pairs pairs)

relationship_pair : Relationship → Result (String × String)
relationship_pair r = do o ← subscript r.object_id; q ← subscript r.qualifier; ok (o, q)

-- `next((r["objectId"] for r in rels if r["qualifier"] == qualifier), None)`
unfoldable pub object_of : String → List (String × String) → Option String
object_of qualifier [] = none
object_of qualifier ((o, q) ∷ rels) = if q == qualifier then some o else object_of qualifier rels

unfoldable pub event_of : RawEvent → Result Event
unfolding attrs_of relationship_pair object_of
event_of e = do
  attrs ← attrs_of e.attributes
  id ← subscript e.id
  type ← subscript e.type
  objects ← map_m relationship_pair e.relationships
  ok (record {
    id = id;
    type = type;
    attrs = attrs;
    objects = objects;
    task = object_of "generator" objects;
    subject = object_of "subject" objects;
  })

unfoldable pub events_of : List RawEvent → Result (List Event)
unfolding event_of
events_of = map_m event_of
