-- ===== src/Tests/Success.antt =====
-- A cluster that accepts everything, and the claim bound in it.
use k8s_s3_bucket_operator.Prelude.{true, [], Result, ok, err, ◌>>=◌, inr, ◌≡◌, refl}
use k8s_s3_bucket_operator.Text.{Text, codes, ◌==◌, eq_refl, trim_space, to_lower, dashed}
use k8s_s3_bucket_operator.Errors.{GoError, is_not_found}
use k8s_s3_bucket_operator.Api.{at_key, insert, lookup, BucketClaim}
use k8s_s3_bucket_operator.Provisioning.{complete}
use k8s_s3_bucket_operator.Controller.Kube.{done}
use k8s_s3_bucket_operator.Controller.Claim.{operator_driver, reconcile}
use k8s_s3_bucket_operator.Controller.Trace.{Environment, cluster, resolving}
use k8s_s3_bucket_operator.Controller.Lawful.{Has}
use k8s_s3_bucket_operator.Controller.Success.{IsAccepting}
use k8s_s3_bucket_operator.Controller.Success.Bound.{IsGood}
use k8s_s3_bucket_operator.Controller.Success.Whole.{reconcile_binds}
use k8s_s3_bucket_operator.Controller.Access.{
  BucketInfo, bucket_info, reconcile_access, with_access, hold, grant_once, grant_on, grant_by,
  with_granted, with_document, upsert, provider_for_claim,
}
use k8s_s3_bucket_operator.Controller.Access.Outcome.{IsAccessEnd, reconcile_access_done}
use k8s_s3_bucket_operator.Tests.Controller.{
  plainly, helpers, logs, new_claim, class, response, access, accepting,
}

abbrev absent : GoError
absent = GoError.api_status true (codes "no such bucket")

abbrev pub serving : Environment
serving = record (accepting new_claim access) { bucket = λ t name. err absent }

completed_response :
    (bucket : Text)
    → complete bucket response
      ≡ ok (record {
        access_key_id = codes "key";
        access_secret_key = codes "secret";
        bucket_name = bucket;
        endpoint = codes "http://minio:9000";
      })
unfolding complete at_key lookup trim_space codes ◌==◌
completed_response bucket = refl

serving-IsAccepting : IsAccepting helpers logs serving
unfolding is_not_found
serving-IsAccepting = record {
  claim = λ t. (new_claim, refl, refl);
  updated = λ t c. (c, refl);
  status_updated = λ t c. (c, refl);
  class = λ t name. (class, refl, eq_refl operator_driver);
  bucket = λ t name. inr (absent, refl, refl);
  accepted = λ t. refl;
  provider = λ t c. (true, refl);
  performed = λ t c. refl;
  credentials = λ t c. (response, refl, λ bucket. (_, completed_response bucket));
  owned = λ claim secret. (_, refl);
}

reconcile_binds_example :
    ((reconcile plainly helpers (cluster serving) (resolving serving) true logs []).0 ≡ ok done)
    × Has
        (IsGood helpers)
        (reconcile plainly helpers (cluster serving) (resolving serving) true logs []).1
reconcile_binds_example = reconcile_binds plainly helpers logs serving serving-IsAccepting true

-- A claim whose bucket is ready.
abbrev pub ready_claim : BucketClaim
ready_claim = record new_claim {
  status = record (new_claim.status) { bucket_ready = true; bucket_name = codes "logs" };
}

abbrev pub granting : Environment
granting = accepting ready_claim access

abbrev pub keyed : BucketInfo → Result GoError Text
keyed info = ok info.access_key_id

granting_done :
    (reconcile_access keyed plainly helpers (cluster granting) (resolving granting) logs []).0
    ≡ ok done
unfolding reconcile_access with_access hold grant_once grant_on grant_by with_granted with_document
    upsert provider_for_claim bucket_info insert at_key lookup trim_space to_lower dashed ◌>>=◌
    codes ◌==◌
granting_done = refl

reconcile_access_done_example :
    Has
      (IsAccessEnd helpers)
      (reconcile_access keyed plainly helpers (cluster granting) (resolving granting) logs []).1
reconcile_access_done_example =
    reconcile_access_done keyed plainly helpers granting logs granting_done
