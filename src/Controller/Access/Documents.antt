-- ===== src/Controller/Access/Documents.antt =====
-- The key that the finalizer falls back on, and MinIO's.
use k8s_s3_bucket_operator.Prelude.{◌++◌, Bool, Option, [], ◌∷◌, Result, ok, ◌≡◌, refl, ◌∙◌}
use k8s_s3_bucket_operator.Text.{Text, codes, ◌==◌}
use k8s_s3_bucket_operator.Errors.{GoError}
use k8s_s3_bucket_operator.Api.{Params, read_write}
use k8s_s3_bucket_operator.Policy.{AccessPolicy}
use k8s_s3_bucket_operator.Minio.{
  Clients, is_alnum, alnum, access_key_for_account, policy_name, policy_for, grant_access,
  revoke_access,
}
use k8s_s3_bucket_operator.Minio.Access.{
  Change, Changes, user, policy, attach, drop_user, drop_policy, recorded,
  revoke_access_undoes_grant,
}
use k8s_s3_bucket_operator.Controller.Access.{is_key_byte, key_bytes, default_access_key}

key_bytes-alnum : (s : Text) → key_bytes s ≡ alnum s
unfolding key_bytes is_key_byte alnum is_alnum
key_bytes-alnum [] = refl
key_bytes-alnum (c ∷ s) = rw (key_bytes-alnum s) refl

-- The two functions for the key agree.
default_access_key-access_key_for_account :
    (account : Text) → default_access_key account ≡ access_key_for_account account
unfolding default_access_key access_key_for_account
default_access_key-access_key_for_account account = rw (key_bytes-alnum account) refl

-- MinIO's default for an account, given as a key or by no key.
revoke_access-access_key_for_account :
    {W : Type 0} (quote secret_for : Text → Text) (marshal : AccessPolicy → Result GoError Text)
    (c : Clients W) (bucket account : Text) (w : W)
    → revoke_access quote secret_for marshal c bucket account (access_key_for_account account) w
      ≡ revoke_access quote secret_for marshal c bucket account [] w
unfolding revoke_access access_key_for_account codes ◌==◌
revoke_access-access_key_for_account quote secret_for marshal c bucket account w = refl

-- At MinIO the key that the finalizer falls back on is the one that a grant without a key has made: a
-- successful grant of the reconciler makes that user and attaches the policy to it, and a revocation
-- with the fallback succeeds and asks for the removal of the same user and the same policy.
pub revoke_default_undoes_grant :
    (quote secret_for : Text → Text) (marshal : AccessPolicy → Result GoError Text)
    (endpoint : Text) (exists : Changes → Text → Result GoError Bool)
    (refuses : Changes → Change → Option GoError) (bucket account document : Text)
    (before after : Changes) (creds : Params)
    → marshal (policy_for bucket read_write) ≡ ok document
    → grant_access quote secret_for marshal
        (recorded endpoint exists refuses)
        bucket
        account
        read_write
        []
        []
        before
      ≡ (ok creds, after)
    → (after
        ≡ before
          ++ user (default_access_key account) (secret_for account)
            ∷ policy (policy_name bucket account) document
            ∷ attach (policy_name bucket account) (default_access_key account)
            ∷ [])
      × ((later : Changes)
          → revoke_access quote secret_for marshal
              (recorded endpoint exists refuses)
              bucket
              account
              (default_access_key account)
              later
            ≡ (
              ok tt,
              later
                  ++ drop_user (default_access_key account)
                    ∷ drop_policy (policy_name bucket account)
                    ∷ [],
            ))
unfolding access_key_for_account ◌==◌
revoke_default_undoes_grant quote secret_for marshal endpoint exists refuses bucket account document
      before after creds m h =
    let (made, _, undone) =
      revoke_access_undoes_grant endpoint exists refuses quote secret_for marshal bucket account
        read_write [] [] document before after creds m h in
    rw (default_access_key-access_key_for_account account) (
      made,
      λ later.
          revoke_access-access_key_for_account quote secret_for marshal
            (recorded endpoint exists refuses) bucket account later
          ∙ undone later,
    )
