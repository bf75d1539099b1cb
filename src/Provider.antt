-- ===== src/Provider.antt =====
-- internal/backend/provider.go: the object storage surface that provisioning uses, and a provider
-- that keeps a record of its calls and is answered by an arbitrary back end.
use k8s_s3_bucket_operator.Prelude.{
  ◌++◌, Bool, true, false, Option, none, some, List, [], ◌∷◌, Result, ok, err,
}
use k8s_s3_bucket_operator.Prelude.Int.{ℤ}
use k8s_s3_bucket_operator.Text.{Text}
use k8s_s3_bucket_operator.Errors.{GoError, Go}
use k8s_s3_bucket_operator.Api.{Params, LifecycleRule}

-- `Provider`, over the state `W` of the world outside. A context is not modelled.
-- `configure_bucket_security` is there if the provider is a `BucketSecurityConfigurer`.
pub record Provider (W : Type 0) : Type 0 where
  pub create_bucket : Text → Text → Bool → Go W (Unit {0})
  pub set_bucket_quota : Text → ℤ → Go W (Unit {0})
  pub set_bucket_lifecycle : Text → List LifecycleRule → Go W (Unit {0})
  pub set_bucket_replication : Text → Text → Go W (Unit {0})
  pub grant_access : Text → Text → Text → Text → Text → Go W Params
  pub revoke_access : Text → Text → Text → Go W (Unit {0})
  pub delete_bucket : Text → Go W (Unit {0})
  pub configure_bucket_security : Option (Text → Params → Go W (Unit {0}))

-- One call of a provider's method.
pub data Call : Type 0 where
  create : Text → Text → Bool → Call
  harden : Text → Params → Call
  quota : Text → ℤ → Call
  lifecycle : Text → List LifecycleRule → Call
  replication : Text → Text → Call
  grant : Text → Text → Text → Text → Text → Call
  revoke : Text → Text → Text → Call
  delete : Text → Call

-- The calls made so far, the first one first.
abbrev pub Calls : Type 0
Calls = List Call

-- What a back end answers to each call, after the calls before it.
pub record Backend : Type 0 where
  pub failure : Calls → Call → Option GoError
  pub credentials : Calls → Call → Result GoError Params

abbrev pub outcome : Option GoError → Result GoError (Unit {0})
outcome none = ok tt
outcome (some e) = err e

module _ (b : Backend) where
  abbrev pub perform : Call → Go Calls (Unit {0})
  perform c calls = (outcome (b.failure calls c), calls ++ c ∷ [])

  abbrev pub ask : Call → Go Calls Params
  ask c calls = (b.credentials calls c, calls ++ c ∷ [])

  abbrev security : Bool → Option (Text → Params → Go Calls (Unit {0}))
  security true = some (λ bucket params. perform (harden bucket params))
  security false = none

  -- `hardens` says whether the provider is a `BucketSecurityConfigurer`.
  abbrev pub recording : Bool → Provider Calls
  recording hardens = record {
    create_bucket = λ bucket region locking. perform (create bucket region locking);
    set_bucket_quota = λ bucket bytes. perform (quota bucket bytes);
    set_bucket_lifecycle = λ bucket rules. perform (lifecycle bucket rules);
    set_bucket_replication = λ bucket target. perform (replication bucket target);
    grant_access = λ bucket account access key secret. ask (grant bucket account access key secret);
    revoke_access = λ bucket account key. perform (revoke bucket account key);
    delete_bucket = λ bucket. perform (delete bucket);
    configure_bucket_security = security hardens;
  }
