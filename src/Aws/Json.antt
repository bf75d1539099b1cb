-- ===== src/Aws/Json.antt =====
-- JSON values, as encoding/json reads them into `any`, and `mergePolicyDocuments` of
-- internal/backend/aws/provider.go.
use k8s_s3_bucket_operator.Prelude.{Option, none, some, [], Result, ok, err, is_nil, if◌then◌else◌}
use k8s_s3_bucket_operator.Text.{Text, codes, ◌==◌}
use k8s_s3_bucket_operator.Errors.{GoError, plain, wrapped}

mutual
  pub data Json : Type 0 where
    text : Text → Json
    -- a number, a Boolean or null, by its text
    scalar : Text → Json
    array : Items → Json
    object : Fields → Json

  pub data Items : Type 0 where
    nil : Items
    cons : Json → Items → Items

  -- A map from strings: of two fields of a name the first counts.
  pub data Fields : Type 0 where
    empty : Fields
    with : Text → Json → Fields → Fields

unfoldable pub field : Text → Fields → Option Json
field k empty = none
field k (with j v fields) = if j == k then some v else field k fields

-- doc[k] = v
unfoldable pub set : Text → Json → Fields → Fields
set k v empty = with k v empty
set k v (with j w fields) =
    let rest = set k v fields in if j == k then with k v fields else with j w rest

unfoldable pub join : Items → Items → Items
join nil ys = ys
join (cons x xs) ys = cons x (join xs ys)

-- `getStatements`
abbrev pub statements_in : Option Json → Result GoError Items
statements_in none = ok nil
statements_in (some (array items)) = ok items
statements_in (some (text t)) = err (plain (codes "bucket policy Statement must be an array"))
statements_in (some (scalar t)) = err (plain (codes "bucket policy Statement must be an array"))
statements_in (some (object fields)) =
    err (plain (codes "bucket policy Statement must be an array"))

unfoldable pub statements : Fields → Result GoError Items
statements doc = statements_in (field (codes "Statement") doc)

abbrev or_version : Option Json → Json
or_version (some v) = v
or_version none = text (codes "2012-10-17")

-- The user's document with a version: its own, or that of the base.
abbrev pub versioned : Fields → Fields → Option Json → Fields
versioned base user (some v) = user
versioned base user none = set (codes "Version") (or_version (field (codes "Version") base)) user

abbrev with_statements : Items → Fields → Fields
with_statements nil doc = doc
with_statements (cons x xs) doc = set (codes "Statement") (array (cons x xs)) doc

abbrev merged :
    Fields → Fields → Result GoError Items → Result GoError Items → Result GoError Fields
merged base user (err e) user_statements = err e
merged base user (ok first) (err e) = err e
merged base user (ok first) (ok second) =
    ok (with_statements (join first second) (versioned base user (field (codes "Version") user)))

-- `mergePolicyDocuments`, behind the reading of the user's document.
unfoldable pub merge_policies : Fields → Fields → Result GoError Fields
merge_policies base user = merged base user (statements base) (statements user)

abbrev merge_read : Fields → Result GoError Fields → Result GoError Fields
merge_read base (err e) = err (wrapped (codes "invalid bucket policy JSON: ") e [])
merge_read base (ok user) = merge_policies base user

-- `mergePolicyDocuments`. `unmarshal` is json.Unmarshal into a map; null reads as the empty map.
unfoldable pub merge_policy_documents :
    (Text → Result GoError Fields) → Fields → Text → Result GoError Fields
merge_policy_documents unmarshal base raw =
    if is_nil raw then ok base else merge_read base (unmarshal raw)
