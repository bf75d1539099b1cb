-- ===== src/Tests/Controller.antt =====
-- The reconcilers at concrete clusters.
use k8s_s3_bucket_operator.Prelude.{
  ◌++◌, Bool, true, false, ◌||◌, none, some, List, [], ◌∷◌, Result, ok, err, ◌>>=◌, if◌then◌else◌,
  ◌≡◌, refl, arith,
}
use k8s_s3_bucket_operator.Text.{
  Text, codes, ◌==◌, eq_refl, trim_space, to_lower, equal_fold, dashed,
}
use k8s_s3_bucket_operator.Errors.{GoError, plain}
use k8s_s3_bucket_operator.Api.{
  Params, at_key, insert, lookup, Condition, ObjectReference, BucketClaim, BucketClass, empty_class,
  empty_claim, delete_policy,
}
use k8s_s3_bucket_operator.Policy.{AccessPolicy, bucket_policy}
use k8s_s3_bucket_operator.Minio.{
  Clients, is_alnum, alnum, access_key_for_account, policy_name, policy_for, grant_access,
  revoke_access,
}
use k8s_s3_bucket_operator.Minio.Access.{
  Changes, user, policy, attach, drop_user, drop_policy, recorded,
}
use k8s_s3_bucket_operator.Provisioning
use k8s_s3_bucket_operator.Controller.Claim
use k8s_s3_bucket_operator.Provisioning.{AccessCredentials}
use k8s_s3_bucket_operator.Controller.Kube.{done, BucketAccess, Meta}
use k8s_s3_bucket_operator.Controller.Notes.{
  ready_type, is_bound, merge_claim_status, merge_read, not_ready, note_claim_provisioning,
}
use k8s_s3_bucket_operator.Controller.Claim.{
  operator_driver, bucket_claim_finalizer, ready_condition, bound_claim, reconcile,
}
use k8s_s3_bucket_operator.Controller.Trace.{claim_read, Environment, cluster, resolving}
use k8s_s3_bucket_operator.Controller.Lawful.{Has, Keeps}
use k8s_s3_bucket_operator.Controller.Protocol.{Needs}
use k8s_s3_bucket_operator.Controller.Protocol.Order.{reconcile-Keeps}
use k8s_s3_bucket_operator.Controller.Outcome.{IsEnd}
use k8s_s3_bucket_operator.Controller.Outcome.Claims.{reconcile_done}
use k8s_s3_bucket_operator.Controller.Settled.{reconcile_again_still}
use k8s_s3_bucket_operator.Controller.Access.{
  BucketInfo, default_access_key, key_bytes, is_key_byte, reconcile_access,
}
use k8s_s3_bucket_operator.Controller.Access.Rules.{AccessNeeds}
use k8s_s3_bucket_operator.Controller.Access.Order.{reconcile_access-Keeps}
use k8s_s3_bucket_operator.Controller.Access.Documents.{revoke_default_undoes_grant}

abbrev pub plainly : Text → Text
plainly t = t

abbrev pub listed : Text → List Text → Bool
listed f [] = false
listed f (g ∷ l) = let rest = listed f l in (g == f) || rest

abbrev pub without : Text → List Text → List Text
without f [] = []
without f (g ∷ l) = let rest = without f l in if g == f then rest else g ∷ rest

abbrev pub holds : Text → List Condition → Bool
holds kind [] = false
holds kind (c ∷ l) = let rest = holds kind l in if c.kind == kind then c.status else rest

-- The helpers of controller-runtime, on lists.
abbrev pub helpers : Meta
helpers = record {
  contains_finalizer = listed;
  add_finalizer = λ f l. f ∷ l;
  remove_finalizer = without;
  set_status_condition = λ c l. c ∷ l;
  is_status_condition_true = holds;
  set_controller_reference = λ claim secret.
      ok (record secret {
        owner = some (record { name = claim.name; namespace = claim.namespace });
      });
}

helpers_add : (f : Text) (l : List Text) → listed f (f ∷ l) ≡ true
helpers_add f l = rw (eq_refl f) refl

helpers_set :
    (c : Condition) (l : List Condition)
    → c.kind ≡ ready_type
    → ready_condition (helpers.set_status_condition c l) ≡ some c
unfolding ready_condition
helpers_set c l h = ground (arith, h, eq_refl ready_type)

abbrev pub logs : ObjectReference
logs = record { name = codes "logs"; namespace = codes "team" }

abbrev pub new_claim : BucketClaim
new_claim = record empty_claim { name = codes "logs"; namespace = codes "team" }

abbrev pub class : BucketClass
class = record empty_class { driver_name = operator_driver; deletion_policy = delete_policy }

abbrev pub response : Params
response =
    (codes "accessKeyID", codes "key")
    ∷ (codes "accessSecretKey", codes "secret")
    ∷ (codes "endpoint", codes "http://minio:9000")
    ∷ []

abbrev pub access : BucketAccess
access = record {
  being_deleted = false;
  finalizers = [];
  bucket_claim_name = codes "logs";
  credentials_secret_name = codes "logs-key";
  access_granted = false;
  account_id = [];
}

-- A cluster with the claim, its class and the access, which accepts what it is asked for.
abbrev pub accepting : BucketClaim → BucketAccess → Environment
accepting claim ba = record {
  claim = λ t nn. ok claim;
  updated = λ t c. ok c;
  status_updated = λ t c. ok c;
  class = λ t name. ok class;
  secret = λ t ref. ok [];
  stored = λ t ref. record { string_data = []; owner = none };
  bucket = λ t name. err (plain (codes "down"));
  access = λ t nn. ok ba;
  access_updated = λ t a. ok a;
  accepted = λ t. ok tt;
  provider = λ t c. ok true;
  performed = λ t c. ok tt;
  credentials = λ t c. ok response;
}

reconcile-Keeps_example :
    Keeps
      (Needs helpers)
      (reconcile plainly helpers
        (cluster (accepting new_claim access))
        (resolving (accepting new_claim access))
        false
        logs
        []).1
reconcile-Keeps_example =
    reconcile-Keeps plainly helpers (accepting new_claim access) false helpers_add logs

abbrev credentials : AccessCredentials
credentials = record {
  access_key_id = codes "key";
  access_secret_key = codes "secret";
  bucket_name = codes "logs";
  endpoint = codes "http://minio:9000";
}

abbrev held_claim : BucketClaim
held_claim = record new_claim { finalizers = bucket_claim_finalizer ∷ [] }

abbrev bound_env : Environment
bound_env = accepting (bound_claim plainly helpers logs credentials held_claim) access

reconcile_again_still_example :
    reconcile plainly helpers (cluster bound_env) (resolving bound_env) false logs []
    ≡ (ok done, claim_read logs (ok (bound_claim plainly helpers logs credentials held_claim)) ∷ [])
unfolding codes ◌==◌
reconcile_again_still_example =
    reconcile_again_still plainly helpers (cluster bound_env) (resolving bound_env) false
      helpers_set logs logs credentials held_claim []
      (claim_read logs (ok (bound_claim plainly helpers logs credentials held_claim)) ∷ []) refl
      refl refl

-- A document that is the key.
abbrev keyed : BucketInfo → Result GoError Text
keyed info = ok info.access_key_id

pub keyed_read : (info : BucketInfo) (raw : Text) → keyed info ≡ ok raw → raw ≡ info.access_key_id
keyed_read info raw h = cc

reconcile_access-Keeps_example :
    Keeps
      (AccessNeeds keyed helpers logs)
      (reconcile_access keyed plainly helpers
        (cluster (accepting new_claim access))
        (resolving (accepting new_claim access))
        logs
        []).1
reconcile_access-Keeps_example =
    reconcile_access-Keeps keyed plainly helpers (accepting new_claim access) logs helpers_add

abbrev written : AccessPolicy → Result GoError Text
written p = ok (codes "{}")

abbrev server : Clients Changes
server = recorded (codes "http://minio:9000") (λ _ _. ok true) (λ _ _. none)

revoke_default_undoes_grant_example :
    let key = codes "cositeamlogs" in
    let name = codes "cosi-logs-team-logs" in
    let changes : Changes =
      user key (codes "team-logs") ∷ policy name (codes "{}") ∷ attach name key ∷ [] in
    (changes ≡ [] ++ user key (codes "team-logs") ∷ policy name (codes "{}") ∷ attach name key ∷ [])
    × ((later : Changes)
        → revoke_access plainly plainly written server (codes "logs") (codes "team-logs") key later
          ≡ (ok tt, later ++ drop_user key ∷ drop_policy name ∷ []))
unfolding grant_access default_access_key key_bytes is_key_byte access_key_for_account alnum
    is_alnum policy_name policy_for equal_fold bucket_policy to_lower dashed codes ◌==◌ ◌>>=◌
revoke_default_undoes_grant_example =
    revoke_default_undoes_grant plainly plainly written (codes "http://minio:9000") (λ _ _. ok true)
      (λ _ _. none) (codes "logs") (codes "team-logs") (codes "{}") []
      (user (codes "cositeamlogs") (codes "team-logs")
        ∷ policy (codes "cosi-logs-team-logs") (codes "{}")
        ∷ attach (codes "cosi-logs-team-logs") (codes "cositeamlogs")
        ∷ [])
      ((codes "accessKeyID", codes "cositeamlogs")
        ∷ (codes "accessSecretKey", codes "team-logs")
        ∷ (codes "bucketName", codes "logs")
        ∷ (codes "endpoint", codes "http://minio:9000")
        ∷ [])
      refl refl

accepting_done :
    (reconcile plainly helpers
      (cluster (accepting new_claim access))
      (resolving (accepting new_claim access))
      false
      logs
      []).0
    ≡ ok done
unfolding reconcile ◌>>=◌ Claim.with_claim Claim.protect Claim.advance Claim.is_settled
    Claim.with_class Claim.with_provider Claim.with_credentials Claim.bind_claim ready_condition
    bound_claim Claim.fill_secret is_bound merge_claim_status merge_read not_ready
    note_claim_provisioning Provisioning.provision_bucket_and_grant_access
    Provisioning.create_bucket_and_configure Provisioning.make_bucket Provisioning.configure
    Provisioning.limit_size Provisioning.expire_rules Provisioning.replicate_to Provisioning.grant
    Provisioning.complete Provisioning.bucket_name_for Provisioning.account_id
    Provisioning.region_of at_key insert lookup dashed to_lower trim_space ◌==◌ codes
accepting_done = refl

reconcile_done_example :
    Has
      (IsEnd helpers)
      (reconcile plainly helpers
        (cluster (accepting new_claim access))
        (resolving (accepting new_claim access))
        false
        logs
        []).1
reconcile_done_example =
    reconcile_done plainly helpers (accepting new_claim access) false logs accepting_done
