-- ===== src/Controller/Kube.antt =====
-- What the reconcilers of internal/controller use of Kubernetes: the API server, and the helpers of
-- controller-runtime and apimachinery. All of it is a parameter of theirs.
use k8s_s3_bucket_operator.Prelude.{ℕ, Bool, Option, List, Result}
use k8s_s3_bucket_operator.Text.{Text}
use k8s_s3_bucket_operator.Errors.{GoError, Go}
use k8s_s3_bucket_operator.Api.{Params, Condition, ObjectReference, BucketClaim, BucketClass}

-- A `ctrl.Result`: nothing, or `RequeueAfter` in seconds.
pub data Requeue : Type 0 where
  done : Requeue
  after : ℕ → Requeue

-- A `corev1.Secret` that is made for a claim: its StringData, and the claim that owns it.
pub record SecretObject : Type 0 where
  pub string_data : Params
  pub owner : Option ObjectReference

-- The spec of COSI's `Bucket`. The API version and the kind of the claim's reference are constants.
pub record CosiBucketSpec : Type 0 where
  pub bucket_claim : ObjectReference
  pub bucket_class_name : Text
  pub driver_name : Text
  pub deletion_policy : Text
  pub protocols : List Text
  pub parameters : Option Params

pub record CosiBucketStatus : Type 0 where
  pub bucket_ready : Bool
  pub bucket_id : Text

pub record CosiBucket : Type 0 where
  pub name : Text
  pub spec : CosiBucketSpec
  pub status : CosiBucketStatus

-- COSI's `BucketAccess`, an unstructured object: the fields are what the type assertions of the
-- reconciler read, "" or false where a field is missing or has another type.
pub record BucketAccess : Type 0 where
  pub being_deleted : Bool
  pub finalizers : List Text
  pub bucket_claim_name : Text
  pub credentials_secret_name : Text
  pub access_granted : Bool
  pub account_id : Text

-- `client.Client`. An update returns the object as the server has it then, which Go writes over the
-- argument.
pub record Cluster (W : Type 0) : Type 0 where
  pub get_claim : ObjectReference → Go W BucketClaim
  pub update_claim : BucketClaim → Go W BucketClaim
  pub update_claim_status : BucketClaim → Go W BucketClaim
  pub get_class : Text → Go W BucketClass
  pub get_secret : ObjectReference → Go W Params
  pub create_secret : ObjectReference → Params → Go W (Unit {0})
  pub update_secret : ObjectReference → Params → Go W (Unit {0})
  pub delete_secret : ObjectReference → Go W (Unit {0})
  -- controllerutil.CreateOrUpdate: the function changes the secret that is there, or an empty one.
  pub create_or_update_secret :
      ObjectReference → (SecretObject → Result GoError SecretObject) → Go W (Unit {0})
  pub get_bucket : Text → Go W CosiBucket
  pub create_bucket : CosiBucket → Go W (Unit {0})
  pub update_bucket_status : CosiBucket → Go W (Unit {0})
  pub get_access : ObjectReference → Go W BucketAccess
  pub update_access : BucketAccess → Go W BucketAccess
  pub update_access_status : BucketAccess → Go W (Unit {0})

-- controllerutil's and meta's functions on objects.
pub record Meta : Type 0 where
  pub contains_finalizer : Text → List Text → Bool
  pub add_finalizer : Text → List Text → List Text
  pub remove_finalizer : Text → List Text → List Text
  pub set_status_condition : Condition → List Condition → List Condition
  pub is_status_condition_true : Text → List Condition → Bool
  pub set_controller_reference : BucketClaim → SecretObject → Result GoError SecretObject
