-- ===== src/Cosi/Server/Deletion.antt =====
-- When the COSI driver deletes a bucket.
use k8s_s3_bucket_operator.Prelude.{
  ◌++◌, Bool, true, Option, none, some, [], ◌∷◌, Result, ok, err, ◌>>=◌, if◌then◌else◌, ◌≡◌, ◌≢◌,
  refl, arith,
}
use k8s_s3_bucket_operator.Text.{Text, codes, ◌==◌, eq_iff, trim_space, to_lower}
use k8s_s3_bucket_operator.Errors.{GoError, Go}
use k8s_s3_bucket_operator.Api.{lookup, at_key, delete_policy}
use k8s_s3_bucket_operator.Provider.{delete, Calls, Backend, outcome, recording}
use k8s_s3_bucket_operator.Provisioning.Extensions.{Parsers}
use k8s_s3_bucket_operator.Cosi.Mapper.{class_name_from_bucket_name}
use k8s_s3_bucket_operator.Cosi.Server.{
  reported, BucketReader, synthetic_class, deletes, guessed, allowed_by, may_delete, delete_if,
  driver_delete_bucket,
}

synthetic_class_retains :
    (driver_name name : Text) → deletes (synthetic_class driver_name name []) ≢ ok true
unfolding synthetic_class at_key lookup codes ◌==◌ trim_space
synthetic_class_retains driver_name name h = ground arith

guessed_keeps : (driver_name name : Text) → guessed driver_name name ≢ ok true
unfolding guessed
guessed_keeps driver_name name h =
    ground (arith, synthetic_class_retains driver_name (class_name_from_bucket_name name))

-- A Kubernetes API that is only read: what the `Bucket` objects hold.
abbrev pub reading : (Text → Result GoError Text) → BucketReader Calls
reading table name calls = (table name, calls)

module _ (quote : Text → Text) (parsers : Parsers) (driver_name : Text) (b : Backend)
    (hardens : Bool) where
  abbrev pub delete_bucket_run : Option (Text → Result GoError Text) → Text → Go Calls (Unit {0})
  delete_bucket_run none id =
      driver_delete_bucket quote parsers driver_name (recording b hardens) none (some id)
  delete_bucket_run (some table) id =
      driver_delete_bucket quote parsers driver_name (recording b hardens) (some (reading table))
        (some id)

  module _ (id : Text) (calls : Calls) where
    abbrev bucket : Text
    bucket = to_lower (trim_space id)

    -- What follows from the reading of the `Bucket` object.
    abbrev pub Decided : Result GoError Text → Result GoError (Unit {0}) × Calls → Type 0
    Decided (ok policy) run = run ≡ (
        if trim_space policy == delete_policy
        then (reported (outcome (b.failure calls (delete bucket))), calls ++ delete bucket ∷ [])
        else (ok tt, calls))
    Decided (err e) run = run.1 ≡ calls

    abbrev pub Deletion :
        Option (Text → Result GoError Text) → Result GoError (Unit {0}) × Calls → Type 0
    Deletion none run = run ≡ (ok tt, calls)
    Deletion (some table) run = Decided (table (trim_space id)) run

    decided :
        (table : Text → Result GoError Text)
        → trim_space id ≢ []
        → (found : Result GoError Text) → table (trim_space id) ≡ found
        → Decided found (delete_bucket_run (some table) id calls)
    unfolding driver_delete_bucket may_delete allowed_by delete_if ◌>>=◌
    decided table named (ok policy) h =
        ground (arith, eq_iff (trim_space id) [], eq_iff (trim_space policy) delete_policy)
    decided table named (err e) h =
        ground (arith, eq_iff (trim_space id) [], guessed_keeps driver_name (trim_space id))

    -- For a request that names a bucket: the bucket is deleted, by its name in lower case, if its
    -- `Bucket` object can be read and has the policy Delete, spaces aside. Under another policy, and
    -- with no Kubernetes client, the driver reports success and deletes nothing; nothing is deleted
    -- either where the object cannot be read.
    pub driver_delete_bucket_lem :
        (kube : Option (Text → Result GoError Text))
        → trim_space id ≢ []
        → Deletion kube (delete_bucket_run kube id calls)
    unfolding driver_delete_bucket may_delete delete_if ◌>>=◌
    driver_delete_bucket_lem none named = ground (arith, eq_iff (trim_space id) [])
    driver_delete_bucket_lem (some table) named = decided table named (table (trim_space id)) refl
