-- ===== src/Cosi/Mapper.antt =====
-- internal/cosi/mapper.go: from the names that COSI hands over to claims and classes.
pub mod Laws
use k8s_s3_bucket_operator.Prelude.{
  Bool, true, false, ◌&&◌, ◌||◌, Option, none, some, List, [], ◌∷◌, take, Result, ok, err, leb,
  nat_eq, if◌then◌else◌, ℕ, Option-cases, ◌++◌,
}
use k8s_s3_bucket_operator.Text.{Text, codes, ◌==◌, trim_space, to_lower, replace_byte}
use k8s_s3_bucket_operator.Errors.{GoError, plain}
use k8s_s3_bucket_operator.Api.{Params, at_key, BucketClaim, empty_claim, empty_spec, read_write}

-- `SyntheticClaimName`. The slice `s[:63]` of a shorter text is the text.
unfoldable pub synthetic_claim_name : Text → Text
synthetic_claim_name cosi_name =
    let s = trim_space cosi_name in
    if s == [] then codes "cosi-access" else take 63 (replace_byte b'_' b'-' (to_lower s))

-- The expression of the UID: eight, four, four, four and twelve of [0-9a-f], with dashes between.

unfoldable pub is_hex : ℕ → Bool
is_hex c = (leb b'0' c && leb c b'9') || (leb b'a' c && leb c b'f')

-- Whether the text is matched whole: one test for each byte.
unfoldable pub matches : List (ℕ → Bool) → Text → Bool
matches [] [] = true
matches [] (c ∷ s) = false
matches (p ∷ ps) [] = false
matches (p ∷ ps) (c ∷ s) = p c && matches ps s

abbrev pub is_dash : ℕ → Bool
is_dash c = nat_eq c b'-'

abbrev four : List (ℕ → Bool) → List (ℕ → Bool)
four rest = is_hex ∷ is_hex ∷ is_hex ∷ is_hex ∷ rest

unfoldable pub uid_shape : List (ℕ → Bool)
uid_shape =
    four (four (is_dash ∷ four (is_dash ∷ four (is_dash ∷ four (is_dash ∷ four (four (four [])))))))

unfoldable pub is_uid : Text → Bool
is_uid = matches uid_shape

-- The group `^(.+)` in front of a UID; a dot does not match the line feed.
abbrev extend : ℕ → Option Text → Option Text
extend c none = none
extend c (some s) = some (c ∷ s)

unfoldable pub class_prefix : Text → Option Text
class_prefix [] = none
class_prefix (c ∷ s) =
    let rest = class_prefix s in
    if nat_eq c 10 then none else if is_uid s then some (c ∷ []) else extend c rest

abbrev or_blank : Option Text → Text
or_blank none = []
or_blank (some s) = s

-- `BucketClassNameFromBucketObjectName`
unfoldable pub class_name_from_bucket_name : Text → Text
class_name_from_bucket_name name = or_blank (class_prefix (trim_space name))

-- The class of a synthetic claim: the parameter, or what the name tells, or a fixed name.
unfoldable pub synthetic_class_name : Text → Params → Text
synthetic_class_name name parameters =
    let asked = trim_space (at_key parameters (codes "bucketClassName")) in
    let decoded = class_name_from_bucket_name name in
    let chosen = if asked == [] then decoded else asked in
    if chosen == [] then codes "cosi-bucketclass" else chosen

-- `BuildSyntheticClaim`
unfoldable pub build_synthetic_claim : Text → Text → Params → Result GoError BucketClaim
build_synthetic_claim namespace bucket_object_name parameters =
    let name = trim_space bucket_object_name in
    if name == []
    then err (plain (codes "bucket object name is empty"))
    else ok (record empty_claim {
      name = synthetic_claim_name name;
      namespace = namespace;
      spec = record empty_spec {
        bucket_class_name = synthetic_class_name name parameters;
        protocols = codes "S3" ∷ [];
        bucket_name = to_lower name;
        access_type = read_write;
      };
    })

abbrev pub renamed : Text → Result GoError BucketClaim → Result GoError BucketClaim
renamed name (ok claim) = ok (record claim { name = name })
renamed name (err e) = err e

-- `BuildSyntheticClaimForAccess`
unfoldable pub build_synthetic_claim_for_access :
    Text → Text → Text → Params → Result GoError BucketClaim
build_synthetic_claim_for_access namespace bucket_object_name access_name parameters =
    renamed (synthetic_claim_name access_name)
      (build_synthetic_claim namespace bucket_object_name parameters)
