-- ===== src/Api.antt =====
-- The custom resources: api/v1alpha1/bucketclaim_types.go and bucketclass_types.go, with what the
-- program uses of `metav1`.
use k8s_s3_bucket_operator.Prelude.{
  ℕ, Bool, false, Option, none, some, List, [], ◌∷◌, if◌then◌else◌,
}
use k8s_s3_bucket_operator.Prelude.Int.{ℤ}
use k8s_s3_bucket_operator.Text.{Text, codes, ◌==◌}

-- A Go map from strings to strings, as an association list.
abbrev pub Params : Type 0
Params = List (Text × Text)

-- v, ok := m[k]
unfoldable pub lookup : Text → Params → Option Text
unfolding ◌==◌
lookup k [] = none
lookup k ((j, v) ∷ m) = if j == k then some v else lookup k m

abbrev pub or_empty : Option Text → Text
or_empty none = []
or_empty (some v) = v

-- m[k], which is "" at a missing key
unfoldable pub at_key : Params → Text → Text
unfolding lookup
at_key m k = or_empty (lookup k m)

-- m[k] = v
unfoldable pub insert : Text → Text → Params → Params
unfolding ◌==◌
insert k v [] = (k, v) ∷ []
insert k v ((j, w) ∷ m) = if j == k then (k, v) ∷ m else (j, w) ∷ insert k v m

pub record LifecycleRule : Type 0 where
  pub id : Text
  pub status : Text
  pub prefix : Text
  pub days : ℤ

-- The program reads the name of the bucket alone.
pub record ReplicationTarget : Type 0 where
  pub endpoint : Text
  pub bucket_name : Text
  pub access_key : Text
  pub secret_key : Text
  pub use_ssl : Bool

-- A `resource.Quantity`, as far as the program looks: what `AsInt64` returns, `none` if not ok.
pub record Quantity : Type 0 where
  pub as_int64 : Option ℤ

pub record BucketClaimSpec : Type 0 where
  pub bucket_class_name : Text
  pub protocols : List Text
  pub bucket_name : Text
  pub quota : Option Quantity
  pub access_type : Text
  pub lifecycle_rules : List LifecycleRule
  pub replication_target : Option ReplicationTarget

-- A `metav1.Condition`, without the time of its last transition.
pub record Condition : Type 0 where
  pub kind : Text
  pub status : Bool
  pub observed_generation : ℕ
  pub reason : Text
  pub note : Text

pub record ObjectReference : Type 0 where
  pub name : Text
  pub namespace : Text

pub record BucketClaimStatus : Type 0 where
  pub conditions : List Condition
  pub bucket_ready : Bool
  pub secret_reference : Option ObjectReference
  pub endpoint : Text
  pub bucket_name : Text
  pub phase : Text

-- A `BucketClaim`, with what the program uses of its metadata.
pub record BucketClaim : Type 0 where
  pub name : Text
  pub namespace : Text
  pub generation : ℕ
  pub being_deleted : Bool
  pub finalizers : List Text
  pub spec : BucketClaimSpec
  pub status : BucketClaimStatus

pub record BucketPolicyRef : Type 0 where
  pub kind : Text
  pub namespace : Text
  pub name : Text
  pub key : Text

pub record BucketClass : Type 0 where
  pub name : Text
  pub driver_name : Text
  pub backend : Text
  pub deletion_policy : Text
  pub object_locking_enabled : Bool
  pub retention_mode : Text
  pub retention_days : ℤ
  pub parameters : Params
  pub bucket_policy_ref : Option BucketPolicyRef
  pub minio_credential_secret_ref : Option ObjectReference
  pub aws_credential_secret_ref : Option ObjectReference

abbrev pub delete_policy : Text
delete_policy = codes "Delete"

abbrev pub retain_policy : Text
retain_policy = codes "Retain"

abbrev pub read_write : Text
read_write = codes "ReadWrite"

abbrev pub read_only : Text
read_only = codes "ReadOnly"

-- `&BucketClaim{}`
abbrev pub empty_spec : BucketClaimSpec
empty_spec = record {
  bucket_class_name = [];
  protocols = [];
  bucket_name = [];
  quota = none;
  access_type = [];
  lifecycle_rules = [];
  replication_target = none;
}

abbrev pub empty_status : BucketClaimStatus
empty_status = record {
  conditions = [];
  bucket_ready = false;
  secret_reference = none;
  endpoint = [];
  bucket_name = [];
  phase = [];
}

abbrev pub empty_claim : BucketClaim
empty_claim = record {
  name = [];
  namespace = [];
  generation = 0;
  being_deleted = false;
  finalizers = [];
  spec = empty_spec;
  status = empty_status;
}

-- `&BucketClass{}`
abbrev pub empty_class : BucketClass
empty_class = record {
  name = [];
  driver_name = [];
  backend = [];
  deletion_policy = [];
  object_locking_enabled = false;
  retention_mode = [];
  retention_days = ℤ.pos 0;
  parameters = [];
  bucket_policy_ref = none;
  minio_credential_secret_ref = none;
  aws_credential_secret_ref = none;
}
