-- ===== src/Inbox.antt =====
-- Inbound ActivityPub activities (crates/federation/src/activity.rs): their types and how they are
-- read. The URL parser and the reader of the library's tombstones are parameters. Only a JSON
-- object is an activity; the follow inside another activity may be an array of its fields, too.
pub mod Pipeline
use toot_tok.Common.{
  ℕ, Bool, true, false, ◌&&◌, if◌then◌else◌, Option, none, some, List, [], ◌∷◌, ◌++◌, String,
}
use toot_tok.Common.Text.{Text, codes, text_eq}
use toot_tok.Assets.Decimal.{print_u64}
use toot_tok.Egress.Guard.{Url}
use toot_tok.Json.{
  Value, string, array, object, null, Items, nil, cons, Fields, get, and_then, as_str, str_field,
  non_empty,
}
use toot_tok.Notes.{is_text, or_empty}

abbrev pub as_text : Url → Text
as_text u = codes u.text

pub record Follow : Type 0 where
  pub id : Url
  pub actor : Url
  pub object : Url

-- The `object` of Accept, Reject and Undo: the follow, a reference with its id, or its URL.
pub data FollowObject : Type 0 where
  whole : Follow → FollowObject
  ref : Url → FollowObject
  url : Url → FollowObject

unfoldable pub follow_id : FollowObject → Url
follow_id (whole f) = f.id
follow_id (ref u) = u
follow_id (url u) = u

-- Either the library's tombstone, with its id, or the URL of the deleted object.
pub data DeleteObject : Type 0 where
  tombstone : Url → DeleteObject
  gone : Url → DeleteObject

unfoldable pub deleted_id : DeleteObject → Url
deleted_id (tombstone u) = u
deleted_id (gone u) = u

-- The types' own content, behind the id and the actor that all have.
pub data Content : Type 0 where
  follow : Url → Content
  accept : FollowObject → Content
  reject : FollowObject → Content
  undo : Value → Content
  delete : DeleteObject → Content
  create : Value → Content
  update : Value → Content
  move : Url → Option Url → Content
  -- Any other type, with its raw JSON.
  passthrough : Value → Content

pub record Activity : Type 0 where
  pub id : Url
  pub actor : Url
  pub content : Content

-- What the reader takes from libraries.
pub record Readers : Type 0 where
  pub parse_url : Text → Option Url
  pub tombstone_id : Value → Option Url

abbrev url_of : Readers → Value → Option Url
url_of r v = and_then (as_str v) r.parse_url

abbrev url_field : Readers → Value → String → Option Url
url_field r v key = and_then (str_field v key) r.parse_url

-- The values of a structure's fields: those of an object with the keys, or the items of an array
-- of that length.
unfoldable pub keyed : List String → Value → Option (List Value)
keyed [] v = some []
keyed (k ∷ ks) v = and_then (get v (codes k)) (λ a. and_then (keyed ks v) (λ vs. some (a ∷ vs)))

unfoldable pub listed : List String → Items → Option (List Value)
listed [] nil = some []
listed [] (cons v vs) = none
listed (k ∷ ks) nil = none
listed (k ∷ ks) (cons v vs) = and_then (listed ks vs) (λ ws. some (v ∷ ws))

unfoldable pub parts : List String → Value → Option (List Value)
parts ks (array vs) = listed ks vs
parts ks v = keyed ks v

follow_of_parts : Readers → Option (List Value) → Option Follow
follow_of_parts r (some (kind ∷ id ∷ actor ∷ target ∷ [])) =
    if is_text (as_str kind) "Follow"
    then and_then (url_of r id) (λ i.
      and_then (url_of r actor)
        (λ a. and_then (url_of r target) (λ o. some (record { id = i; actor = a; object = o }))))
    else none
follow_of_parts r vs = none

ref_of_parts : Readers → Option (List Value) → Option Url
ref_of_parts r (some (kind ∷ id ∷ [])) =
    if is_text (as_str kind) "Follow" then url_of r id else none
ref_of_parts r vs = none

-- The variants of an untagged enum are tried in their order.
unfoldable pub read_follow_object : Readers → Value → Option FollowObject
unfolding follow_of_parts ref_of_parts
read_follow_object r v =
    elim (follow_of_parts r (parts ("type" ∷ "id" ∷ "actor" ∷ "object" ∷ []) v)) [
      | some f ↦ some (whole f)
      | none ↦ elim (ref_of_parts r (parts ("type" ∷ "id" ∷ []) v)) [
        | some u ↦ some (ref u)
        | none ↦ and_then (url_of r v) (λ u. some (url u))
      ]
    ]

unfoldable pub read_delete_object : Readers → Value → Option DeleteObject
read_delete_object r v = elim (r.tombstone_id v) [
  | some u ↦ some (tombstone u)
  | none ↦ and_then (url_of r v) (λ u. some (gone u))
]

-- `#[serde(default)]` on an optional URL.
abbrev optional_url : Readers → Option Value → Option (Option Url)
optional_url r none = some none
optional_url r (some null) = some none
optional_url r (some v) = and_then (url_of r v) (λ u. some (some u))

-- A structure with the given type and an `object`, and the reader of that object.
unfoldable pub read_typed : Readers → String → (Value → Option Content) → Value → Option Activity
read_typed r kind content v =
    if is_text (str_field v "type") kind
    then and_then (url_field r v "id") (λ i. and_then (url_field r v "actor") (λ a.
      and_then (and_then (get v (codes "object")) content)
        (λ c. some (record { id = i; actor = a; content = c }))))
    else none

unfoldable pub read_passthrough : Readers → Value → Option Activity
read_passthrough r v = and_then (url_field r v "id") (λ i.
    and_then (url_field r v "actor")
      (λ a. some (record { id = i; actor = a; content = passthrough v })))

-- What cannot be read as its type is kept as raw JSON.
abbrev or_passthrough : Readers → Value → Option Activity → Option Activity
or_passthrough r v (some a) = some a
or_passthrough r v none = read_passthrough r v

-- `none` is an error of the reader, answered 400.
unfoldable pub deserialize : Readers → Value → Option Activity
deserialize r v =
    let is = is_text (str_field v "type") in
    if is "Follow"
    then read_typed r "Follow" (λ o. and_then (url_of r o) (λ u. some (follow u))) v
    else if is "Accept"
    then read_typed r "Accept" (λ o. and_then (read_follow_object r o) (λ f. some (accept f))) v
    else if is "Reject"
    then read_typed r "Reject" (λ o. and_then (read_follow_object r o) (λ f. some (reject f))) v
    else if is "Undo"
    then or_passthrough r v (read_typed r "Undo" (λ o. some (undo o)) v)
    else if is "Delete"
    then read_typed r "Delete" (λ o. and_then (read_delete_object r o) (λ d. some (delete d))) v
    else if is "Create"
    then or_passthrough r v (read_typed r "Create" (λ o. some (create o)) v)
    else if is "Update"
    then or_passthrough r v (read_typed r "Update" (λ o. some (update o)) v)
    else if is "Move"
    then read_typed r "Move"
        (λ o.
          and_then (url_of r o)
            (λ u. and_then (optional_url r (get v (codes "target"))) (λ t. some (move u t))))
        v
    else read_passthrough r v

-- The id of the follow that an Undo takes back, when its object is or names one.
unfoldable mutual
  pub undo_follow_target : Value → Option Text
  undo_follow_target (string s) = some s
  undo_follow_target (object fs) =
      if is_text (str_field (object fs) "type") "Follow"
      then non_empty (str_field (object fs) "id")
      else none
  undo_follow_target (array vs) = first_follow_target vs
  undo_follow_target v = none

  pub first_follow_target : Items → Option Text
  first_follow_target nil = none
  first_follow_target (cons v vs) = elim (undo_follow_target v) [
    | some t ↦ some t
    | none ↦ first_follow_target vs
  ]

-- The best-effort id of an activity's `object`.
unfoldable pub raw_object_id : Option Value → Option Text
raw_object_id (some (string s)) = some s
raw_object_id (some (object fs)) = str_field (object fs) "id"
raw_object_id v = none

unfoldable pub embedded_object_id : Value → Option Text
embedded_object_id v = non_empty (str_field v "id")

abbrev host_with_port : Url → Option Text
host_with_port u = elim u.host_str [
  | none ↦ none
  | some h ↦ elim u.port [ none ↦ some (codes h) | some p ↦ some (codes h ++ b':' ∷ print_u64 p) ]
]

abbrev is_domain : Text → Option Text → Bool
is_domain domain none = false
is_domain domain (some t) = text_eq t domain

unfoldable pub is_local_url : Url → Text → Bool
is_local_url u domain = is_domain domain (host_with_port u)
