-- ===== src/Controller/Success.antt =====
-- Runs in an environment that accepts what it is asked for.
pub mod Provisioned
pub mod Bound
pub mod Whole
use k8s_s3_bucket_operator.Prelude.{
  Bool, true, false, List, [], ◌∷◌, Result, ok, err, continue, attempt, ◌>>=◌, ◌>>◌, ◌⊎◌, ◌≡◌, refl,
  subst, ap, sym, ◌∙◌,
}
use k8s_s3_bucket_operator.Text.{Text, ◌==◌}
use k8s_s3_bucket_operator.Errors.{GoError, Go, is_not_found}
use k8s_s3_bucket_operator.Api.{Params, ObjectReference, BucketClaim, BucketClass}
use k8s_s3_bucket_operator.Provider.{Call}
use k8s_s3_bucket_operator.Provisioning.{AccessCredentials, complete}
use k8s_s3_bucket_operator.Controller.Kube.{Meta, SecretObject, CosiBucket}
use k8s_s3_bucket_operator.Controller.Claim.{operator_driver}
use k8s_s3_bucket_operator.Controller.Trace.{Trace, Environment}

-- Every request is granted: the claim `nn` is there and not being deleted, its class is this
-- operator's, and the provider's answers to a grant are complete.
pub record IsAccepting (meta : Meta) (nn : ObjectReference) (env : Environment) : Type 0 where
  pub claim : (t : Trace) → (c : BucketClaim) × (env.claim t nn ≡ ok c) × (c.being_deleted ≡ false)
  pub updated : (t : Trace) (c : BucketClaim) → (d : BucketClaim) × (env.updated t c ≡ ok d)
  pub status_updated :
      (t : Trace) (c : BucketClaim) → (d : BucketClaim) × (env.status_updated t c ≡ ok d)
  pub class :
      (t : Trace) (name : Text)
      → (class : BucketClass) × (env.class t name ≡ ok class)
        × ((class.driver_name == operator_driver) ≡ true)
  pub bucket :
      (t : Trace) (name : Text)
      → ((b : CosiBucket) × (env.bucket t name ≡ ok b))
        ⊎ ((e : GoError) × (env.bucket t name ≡ err e) × (is_not_found e ≡ true))
  pub accepted : (t : Trace) → env.accepted t ≡ ok tt
  pub provider :
      (t : Trace) (class : BucketClass) → (hardens : Bool) × (env.provider t class ≡ ok hardens)
  pub performed : (t : Trace) (c : Call) → env.performed t c ≡ ok tt
  pub credentials :
      (t : Trace) (c : Call)
      → (params : Params) × (env.credentials t c ≡ ok params)
        × ((bucket : Text) → (creds : AccessCredentials) × (complete bucket params ≡ ok creds))
  pub owned :
      (claim : BucketClaim) (secret : SecretObject)
      → (s : SecretObject) × (meta.set_controller_reference claim secret ≡ ok s)

-- A run that succeeds from every trace.
abbrev pub Works : {A : Type 0} → Go Trace A → Type 0
Works {A} m = (t : Trace) → (a : A) × ((m t).0 ≡ ok a)

continue_works :
    {A B : Type 0} (f : A → Go Trace B) (run : Result GoError A × Trace) (a : A)
    → run.0 ≡ ok a
    → (b : B) × ((f a run.1).0 ≡ ok b)
    → (b : B) × ((continue f run.1 run.0).0 ≡ ok b)
continue_works f (ok c, u) a e (b, h) =
    let same : a ≡ c = cc in (b, subst (λ x. (f x u).0 ≡ ok b) same h)
continue_works f (err d, u) a e h = cc

pub bind-Works :
    {A B : Type 0} (m : Go Trace A) (f : A → Go Trace B)
    → Works m
    → ((a : A) → Works (f a))
    → Works (m >>= f)
unfolding ◌>>=◌
bind-Works m f hm hf t = let (a, e) = hm t in continue_works f (m t) a e (hf a (m t).1)
