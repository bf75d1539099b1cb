-- ===== src/Controller/Claim/Status.antt =====
-- internal/controller/bucketclaim_controller.go: what Reconcile writes for a claim that is bound.
use k8s_s3_bucket_operator.Prelude.{
  ◌++◌, Bool, true, false, ◌&&◌, Option, none, some, List, [], ◌∷◌, is_nil, nat_eq, Result, ok, err,
  if◌then◌else◌,
}
use k8s_s3_bucket_operator.Text.{Text, codes, ◌==◌, trim_space}
use k8s_s3_bucket_operator.Errors.{GoError}
use k8s_s3_bucket_operator.Api.{
  Params, at_key, insert, Condition, ObjectReference, BucketClaim, BucketClass,
}
use k8s_s3_bucket_operator.Provisioning.{AccessCredentials}
use k8s_s3_bucket_operator.Controller.Kube.{SecretObject, CosiBucket, Meta}
use k8s_s3_bucket_operator.Controller.Notes.{bucket_provisioned, reason_text, ready_type}

abbrev pub bucket_claim_finalizer : Text
bucket_claim_finalizer = codes "objectstorage.k8s.io/finalizer"

abbrev pub operator_driver : Text
operator_driver = codes "k8s-s3-bucket-operator"

-- The first condition of the type Ready.
unfoldable pub ready_condition : List Condition → Option Condition
ready_condition [] = none
ready_condition (c ∷ conditions) =
    let rest = ready_condition conditions in if c.kind == ready_type then some c else rest

abbrev pub settled_by : BucketClaim → Option Condition → Bool
settled_by claim none = false
settled_by claim (some ready) =
    ready.status
    && (claim.status.phase == codes "Bound" && nat_eq ready.observed_generation claim.generation)

-- Whether the claim was provisioned for its generation.
unfoldable pub is_settled : BucketClaim → Bool
is_settled claim = settled_by claim (ready_condition claim.status.conditions)

abbrev pub key_in : Text → Result GoError Params → Text
key_in key (ok entries) = trim_space (at_key entries key)
key_in key (err e) = []

-- What CreateOrUpdate is to do with the secret of a claim.
unfoldable pub fill_secret :
    Meta → BucketClaim → AccessCredentials → SecretObject → Result GoError SecretObject
fill_secret meta claim creds secret = meta.set_controller_reference claim (record secret {
  string_data = insert (codes "endpoint") creds.endpoint (
      insert (codes "bucketName") creds.bucket_name (
        insert (codes "accessSecretKey") creds.access_secret_key
          (insert (codes "accessKeyID") creds.access_key_id secret.string_data)));
})

abbrev pub credentials_name : BucketClaim → ObjectReference
credentials_name claim = record {
  name = claim.name ++ codes "-credentials";
  namespace = claim.namespace;
}

-- The condition of success.
abbrev pub ready_now : (Text → Text) → BucketClaim → AccessCredentials → Condition
ready_now quote claim creds = record {
  kind = ready_type;
  status = true;
  observed_generation = claim.generation;
  reason = reason_text bucket_provisioned;
  note =
      codes "Bucket "
      ++ (quote creds.bucket_name ++ codes " is provisioned and credentials are available.");
}

-- The claim with the status of success.
unfoldable pub bound_claim :
    (Text → Text) → Meta → ObjectReference → AccessCredentials → BucketClaim → BucketClaim
bound_claim quote meta secret creds claim = record claim {
  status = record (claim.status) {
    bucket_name = creds.bucket_name;
    endpoint = creds.endpoint;
    secret_reference = some secret;
    phase = codes "Bound";
    bucket_ready = true;
    conditions = meta.set_status_condition (ready_now quote claim creds) claim.status.conditions;
  };
}

-- The COSI `Bucket` of a claim.
unfoldable pub cosi_bucket : Text → BucketClaim → BucketClass → CosiBucket
cosi_bucket name claim class = record {
  name = name;
  spec = record {
    bucket_claim = record { name = claim.name; namespace = claim.namespace };
    bucket_class_name = claim.spec.bucket_class_name;
    driver_name = class.driver_name;
    deletion_policy = class.deletion_policy;
    protocols = if is_nil claim.spec.protocols then codes "S3" ∷ [] else claim.spec.protocols;
    parameters = if is_nil class.parameters then none else some class.parameters;
  };
  status = record { bucket_ready = true; bucket_id = name };
}
