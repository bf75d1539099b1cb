-- ===== src/Minio/Access.antt =====
-- Granting and revoking access in MinIO, over clients that keep a record of their calls.
use k8s_s3_bucket_operator.Prelude.{
  ℕ, ◌++◌, append_assoc, Bool, Option, List, [], ◌∷◌, Result, ok, err, ◌>>=◌, bind-eq-ok,
  pure-eq-ok, ◌≡◌, ap, sym,
}
use k8s_s3_bucket_operator.Text.{Text, codes}
use k8s_s3_bucket_operator.Errors.{GoError, Go}
use k8s_s3_bucket_operator.Api.{Params, LifecycleRule}
use k8s_s3_bucket_operator.Policy.{AccessPolicy}
use k8s_s3_bucket_operator.Provider.{outcome}
use k8s_s3_bucket_operator.Minio.{
  Clients, explained, explaining, key_or, access_key_for_account, policy_name, policy_for,
  grant_access, revoke_access,
}

-- The calls that change something.
pub data Change : Type 0 where
  make : Text → Text → Bool → Change
  remove : Text → Change
  quota : Text → ℕ → Change
  lifecycle : Text → List LifecycleRule → Change
  replication : Text → Text → Change
  user : Text → Text → Change
  policy : Text → Text → Change
  attach : Text → Text → Change
  drop_user drop_policy : Text → Change

abbrev pub Changes : Type 0
Changes = List Change

-- Clients answered by a server that may refuse each call, after the calls before it.
module _ (endpoint : Text) (exists : Changes → Text → Result GoError Bool)
    (refuses : Changes → Change → Option GoError) where
  abbrev perform : Change → Go Changes (Unit {0})
  perform c changes = (outcome (refuses changes c), changes ++ c ∷ [])

  abbrev pub recorded : Clients Changes
  recorded = record {
    bucket_exists = λ bucket changes. (exists changes bucket, changes);
    make_bucket = λ bucket region locking. perform (make bucket region locking);
    remove_bucket = λ bucket. perform (remove bucket);
    put_quota = λ bucket bytes. perform (quota bucket bytes);
    put_lifecycle = λ bucket rules. perform (lifecycle bucket rules);
    put_replication = λ bucket target. perform (replication bucket target);
    add_user = λ key secret. perform (user key secret);
    add_canned_policy = λ name document. perform (policy name document);
    set_policy = λ name key. perform (attach name key);
    remove_user = λ key. perform (drop_user key);
    remove_canned_policy = λ name. perform (drop_policy name);
    endpoint = endpoint;
  }

  module _ (quote secret_for : Text → Text) (marshal : AccessPolicy → Result GoError Text) where
    perform_explained :
        (text : Text) (c : Change) (before after : Changes)
        → explaining text (perform c) before ≡ (ok tt, after)
        → after ≡ before ++ c ∷ []
    perform_explained text c before after h =
        sym (ap (λ (r : Result GoError (Unit {0}) × Changes). r.1) h)

    document_written :
        (text : Text) (r : Result GoError Text) (w : Changes) {written document : Text}
        {w' : Changes}
        → r ≡ ok document
        → ◌≡◌ {A = Result GoError Text × Changes} (explained text r, w) (ok written, w')
        → (written ≡ document) × (w' ≡ w)
    document_written text (ok d) w e h = (cc, cc)
    document_written text (err d) w e h = let impossible : ⊥ = cc in absurd impossible

    three :
        (w : Changes) (a b c : Change) → ((w ++ a ∷ []) ++ b ∷ []) ++ c ∷ [] ≡ w ++ a ∷ b ∷ c ∷ []
    three w a b c = simp append_assoc

    revoked :
        (bucket account key : Text) (later : Changes)
        → revoke_access quote secret_for marshal recorded bucket account key later ≡ (
          ok tt,
          later
              ++ drop_user (key_or (access_key_for_account account) key)
                ∷ drop_policy (policy_name bucket account)
                ∷ [],
        )
    unfolding revoke_access ◌>>=◌
    revoked bucket account key later = simp append_assoc

    -- A grant that succeeds has made the user with its key and secret, the policy of the access asked
    -- for, and attached the one to the other, in this order; it returns that key and secret with the
    -- bucket and the endpoint. Revoking with the key that was given, none included, then always
    -- succeeds, and asks for the removal of the same user and the same policy.
    pub revoke_access_undoes_grant :
        (bucket account access key secret document : Text) (before after : Changes) (creds : Params)
        → marshal (policy_for bucket access) ≡ ok document
        → grant_access quote secret_for marshal recorded bucket account access key secret before
          ≡ (ok creds, after)
        → let used = key_or (access_key_for_account account) key in
          let used_secret = key_or (secret_for account) secret in
          let name = policy_name bucket account in
          (after ≡ before ++ user used used_secret ∷ policy name document ∷ attach name used ∷ [])
          × (creds
              ≡ (codes "accessKeyID", used)
                ∷ (codes "accessSecretKey", used_secret)
                ∷ (codes "bucketName", bucket)
                ∷ (codes "endpoint", endpoint)
                ∷ [])
          × ((later : Changes)
              → revoke_access quote secret_for marshal recorded bucket account key later
                ≡ (ok tt, later ++ drop_user used ∷ drop_policy name ∷ []))
    unfolding grant_access
    revoke_access_undoes_grant bucket account access key secret document before after creds m h =
        let made = bind-eq-ok _ _ before h in
        let written = bind-eq-ok _ _ made.between made.second in
        let allowed = bind-eq-ok _ _ written.between written.second in
        let attached = bind-eq-ok _ _ allowed.between allowed.second in
        let (same, kept) =
          document_written _ (marshal (policy_for bucket access)) made.between m written.first in
        let w1 = perform_explained _ _ before made.between made.first in
        let w3 = perform_explained _ _ written.between allowed.between allowed.first in
        let w4 = perform_explained _ _ allowed.between attached.between attached.first in
        let last =
          three before
            (user (key_or (access_key_for_account account) key)
              (key_or (secret_for account) secret))
            (policy (policy_name bucket account) document)
            (attach (policy_name bucket account) (key_or (access_key_for_account account) key)) in
        (
          cc,
          sym (pure-eq-ok _ attached.between attached.second),
          λ later. revoked bucket account key later,
        )
