-- ===== src/Controller/Trace.antt =====
-- A cluster and providers that keep a record of what was asked and answered, over an environment
-- that answers as it likes.
use k8s_s3_bucket_operator.Prelude.{
  Bool, true, false, Option, none, some, List, ◌∷◌, Result, ok, err,
}
use k8s_s3_bucket_operator.Text.{Text}
use k8s_s3_bucket_operator.Errors.{GoError, Go}
use k8s_s3_bucket_operator.Api.{Params, ObjectReference, BucketClaim, BucketClass}
use k8s_s3_bucket_operator.Provider.{
  Call, create, harden, quota, lifecycle, replication, grant, revoke, delete, Provider,
}
use k8s_s3_bucket_operator.Controller.Kube.{SecretObject, CosiBucket, BucketAccess, Cluster}

-- A request with its answer. A secret that is made or updated stands as it is written.
pub data Event : Type 0 where
  claim_read : ObjectReference → Result GoError BucketClaim → Event
  claim_write : BucketClaim → Result GoError BucketClaim → Event
  status_write : BucketClaim → Result GoError BucketClaim → Event
  class_read : Text → Result GoError BucketClass → Event
  secret_read : ObjectReference → Result GoError Params → Event
  secret_made secret_changed : ObjectReference → Params → Result GoError (Unit {0}) → Event
  secret_dropped : ObjectReference → Result GoError (Unit {0}) → Event
  secret_written : ObjectReference → Result GoError SecretObject → Result GoError (Unit {0}) → Event
  bucket_read : Text → Result GoError CosiBucket → Event
  bucket_made bucket_status : CosiBucket → Result GoError (Unit {0}) → Event
  access_read : ObjectReference → Result GoError BucketAccess → Event
  access_write : BucketAccess → Result GoError BucketAccess → Event
  access_status : BucketAccess → Result GoError (Unit {0}) → Event
  resolved : BucketClass → Result GoError Bool → Event
  called : Call → Result GoError (Unit {0}) → Event
  granted : Text → Text → Text → Text → Text → Result GoError Params → Event

-- What happened so far, the last event first.
abbrev pub Trace : Type 0
Trace = List Event

-- The environment: its answers may depend on all that happened before.
pub record Environment : Type 0 where
  pub claim : Trace → ObjectReference → Result GoError BucketClaim
  pub updated : Trace → BucketClaim → Result GoError BucketClaim
  pub status_updated : Trace → BucketClaim → Result GoError BucketClaim
  pub class : Trace → Text → Result GoError BucketClass
  pub secret : Trace → ObjectReference → Result GoError Params
  pub stored : Trace → ObjectReference → SecretObject
  pub bucket : Trace → Text → Result GoError CosiBucket
  pub access : Trace → ObjectReference → Result GoError BucketAccess
  pub access_updated : Trace → BucketAccess → Result GoError BucketAccess
  -- every other request
  pub accepted : Trace → Result GoError (Unit {0})
  -- ProviderForClass: an error, or whether the provider is a `BucketSecurityConfigurer`
  pub provider : Trace → BucketClass → Result GoError Bool
  pub performed : Trace → Call → Result GoError (Unit {0})
  pub credentials : Trace → Call → Result GoError Params

abbrev pub ask : {A : Type 0} → (Result GoError A → Event) → (Trace → Result GoError A) → Go Trace A
ask event answer t = (answer t, event (answer t) ∷ t)

module _ (env : Environment) where
  abbrev pub changed :
      ObjectReference
      → (SecretObject → Result GoError SecretObject)
      → Trace
      → Result GoError (Unit {0})
  changed ref f t = elim (f (env.stored t ref)) [ ok secret ↦ env.accepted t | err e ↦ err e ]

  abbrev pub cluster : Cluster Trace
  cluster = record {
    get_claim = λ nn. ask (claim_read nn) (λ t. env.claim t nn);
    update_claim = λ claim. ask (claim_write claim) (λ t. env.updated t claim);
    update_claim_status = λ claim. ask (status_write claim) (λ t. env.status_updated t claim);
    get_class = λ name. ask (class_read name) (λ t. env.class t name);
    get_secret = λ ref. ask (secret_read ref) (λ t. env.secret t ref);
    create_secret = λ ref entries. ask (secret_made ref entries) env.accepted;
    update_secret = λ ref entries. ask (secret_changed ref entries) env.accepted;
    delete_secret = λ ref. ask (secret_dropped ref) env.accepted;
    create_or_update_secret = λ ref f t.
        (changed ref f t, secret_written ref (f (env.stored t ref)) (changed ref f t) ∷ t);
    get_bucket = λ name. ask (bucket_read name) (λ t. env.bucket t name);
    create_bucket = λ bucket. ask (bucket_made bucket) env.accepted;
    update_bucket_status = λ bucket. ask (bucket_status bucket) env.accepted;
    get_access = λ nn. ask (access_read nn) (λ t. env.access t nn);
    update_access = λ access. ask (access_write access) (λ t. env.access_updated t access);
    update_access_status = λ access. ask (access_status access) env.accepted;
  }

  abbrev perform : Call → Go Trace (Unit {0})
  perform c = ask (called c) (λ t. env.performed t c)

  abbrev security : Bool → Option (Text → Params → Go Trace (Unit {0}))
  security true = some (λ bucket params. perform (harden bucket params))
  security false = none

  abbrev pub provider_with : Bool → Provider Trace
  provider_with hardens = record {
    create_bucket = λ bucket region locking. perform (create bucket region locking);
    set_bucket_quota = λ bucket bytes. perform (quota bucket bytes);
    set_bucket_lifecycle = λ bucket rules. perform (lifecycle bucket rules);
    set_bucket_replication = λ bucket target. perform (replication bucket target);
    grant_access = λ bucket account access key secret.
        ask (granted bucket account access key secret)
          (λ t. env.credentials t (grant bucket account access key secret));
    revoke_access = λ bucket account key. perform (revoke bucket account key);
    delete_bucket = λ bucket. perform (delete bucket);
    configure_bucket_security = security hardens;
  }

  abbrev pub made : Result GoError Bool → Result GoError (Provider Trace)
  made (ok hardens) = ok (provider_with hardens)
  made (err e) = err e

  -- ProviderForClass
  abbrev pub resolving : BucketClass → Go Trace (Provider Trace)
  resolving class t = (made (env.provider t class), resolved class (env.provider t class) ∷ t)
