-- ===== src/Aws/Clients.antt =====
-- internal/backend/aws/provider.go: the subsets of the S3 and IAM clients, and clients that keep a
-- record of their calls.
use k8s_s3_bucket_operator.Prelude.{
  ◌++◌, ◌-◌, ◌%◌, Bool, Option, none, some, List, [], ◌∷◌, Result, ltb, if◌then◌else◌,
}
use k8s_s3_bucket_operator.Prelude.Int.{ℤ, pos, negsuc, positive}
use k8s_s3_bucket_operator.Text.{Text, codes, ◌==◌, trim_space}
use k8s_s3_bucket_operator.Errors.{GoError, Go}
use k8s_s3_bucket_operator.Api.{LifecycleRule}
use k8s_s3_bucket_operator.Provider.{outcome}

-- An s3types.LifecycleRule, as far as it is filled in.
pub record AwsRule : Type 0 where
  pub status : Text
  pub id : Option Text
  pub prefix : Option Text
  pub days : Option ℤ

-- int32(n), for an n that is positive.
unfoldable pub to_int32 : ℤ → ℤ
to_int32 (pos n) =
    let m = n % 4294967296 in if ltb m 2147483648 then pos m else negsuc (4294967295 - m)
to_int32 (negsuc n) = negsuc n

abbrev pub filled : Text → Option Text
filled t = if trim_space t == [] then none else some t

-- One rule of `SetBucketLifecycle`.
unfoldable pub aws_rule : LifecycleRule → AwsRule
aws_rule rule = record {
  status = codes "Enabled";
  id = filled rule.id;
  prefix = filled rule.prefix;
  days = if positive rule.days then some (to_int32 rule.days) else none;
}

pub data Encryption : Type 0 where
  aes256 : Encryption
  kms : Text → Encryption

-- `s3API` and `iamAPI`, by what the provider hands over and takes out.
pub record AwsClients (W : Type 0) : Type 0 where
  pub create_bucket : Text → Bool → Option Text → Go W (Unit {0})
  pub delete_bucket : Text → Go W (Unit {0})
  pub put_lifecycle : Text → List AwsRule → Go W (Unit {0})
  pub put_public_access_block : Text → Go W (Unit {0})
  pub put_ownership_controls : Text → Go W (Unit {0})
  pub put_encryption : Text → Encryption → Go W (Unit {0})
  pub put_policy : Text → Text → Go W (Unit {0})
  pub create_user : Text → Go W (Unit {0})
  pub delete_user : Text → Go W (Unit {0})
  pub create_access_key : Text → Go W (Text × Text)
  pub delete_access_key : Text → Text → Go W (Unit {0})
  pub list_access_keys : Text → Go W (List Text)
  pub put_user_policy : Text → Text → Text → Go W (Unit {0})
  pub delete_user_policy : Text → Text → Go W (Unit {0})

pub data AwsCall : Type 0 where
  create : Text → Bool → Option Text → AwsCall
  delete : Text → AwsCall
  lifecycle : Text → List AwsRule → AwsCall
  block_public own : Text → AwsCall
  encrypt : Text → Encryption → AwsCall
  policy : Text → Text → AwsCall
  user drop_user make_key list_keys : Text → AwsCall
  drop_key : Text → Text → AwsCall
  user_policy : Text → Text → Text → AwsCall
  drop_user_policy : Text → Text → AwsCall

abbrev pub AwsCalls : Type 0
AwsCalls = List AwsCall

-- What AWS answers to a call, after the calls before it.
pub record Cloud : Type 0 where
  pub refuses : AwsCalls → AwsCall → Option GoError
  pub new_key : AwsCalls → Result GoError (Text × Text)
  pub keys : AwsCalls → Result GoError (List Text)

module _ (cloud : Cloud) where
  abbrev perform : AwsCall → Go AwsCalls (Unit {0})
  perform c calls = (outcome (cloud.refuses calls c), calls ++ c ∷ [])

  abbrev pub recorded : AwsClients AwsCalls
  recorded = record {
    create_bucket = λ bucket locking location. perform (create bucket locking location);
    delete_bucket = λ bucket. perform (delete bucket);
    put_lifecycle = λ bucket rules. perform (lifecycle bucket rules);
    put_public_access_block = λ bucket. perform (block_public bucket);
    put_ownership_controls = λ bucket. perform (own bucket);
    put_encryption = λ bucket encryption. perform (encrypt bucket encryption);
    put_policy = λ bucket document. perform (policy bucket document);
    create_user = λ name. perform (user name);
    delete_user = λ name. perform (drop_user name);
    create_access_key = λ name calls. (cloud.new_key calls, calls ++ make_key name ∷ []);
    delete_access_key = λ name key. perform (drop_key name key);
    list_access_keys = λ name calls. (cloud.keys calls, calls ++ list_keys name ∷ []);
    put_user_policy = λ name title document. perform (user_policy name title document);
    delete_user_policy = λ name title. perform (drop_user_policy name title);
  }
