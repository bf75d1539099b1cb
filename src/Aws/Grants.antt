-- ===== src/Aws/Grants.antt =====
-- Granting and revoking access in AWS.
use k8s_s3_bucket_operator.Prelude.{
  ◌++◌, append_assoc, append-nil, List, [], ◌∷◌, Result, ok, err, ◌>>=◌, bind-eq-ok, Bool-cases,
  inl, inr, ◌≡◌, ◌≢◌, refl, ap, ◌∙◌, sym, arith, if◌then◌else◌,
}
use k8s_s3_bucket_operator.Text.{Text, codes, ◌==◌, eq_iff, eq_refl, trim_space}
use k8s_s3_bucket_operator.Text.Laws.{trim_space-nil}
use k8s_s3_bucket_operator.Errors.{Operation, GoError}
use k8s_s3_bucket_operator.Api.{Params, at_key, lookup, BucketClaim}
use k8s_s3_bucket_operator.Policy.{AccessPolicy}
use k8s_s3_bucket_operator.Provisioning.{AccessCredentials, complete, labelled, account_id, grant}
use k8s_s3_bucket_operator.Aws.Clients.{
  AwsClients, AwsCalls, Cloud, recorded, drop_user, drop_user_policy, drop_key, list_keys,
}
use k8s_s3_bucket_operator.Aws.UserName.{user_name_for_account, policy_name}
use k8s_s3_bucket_operator.Aws.Security.{Codec}
use k8s_s3_bucket_operator.Aws.{
  Settings, drop_key as drop_key_of, response, drop_keys, drop_listed, drop_all_keys, keys_for,
  grant_access, revoke_access, aws_provider,
}

-- What provisioning reads off a grant that succeeded.
labelled-eq-ok :
    {W A : Type 0} (op : Operation) (bucket : Text) (run : Result GoError A × W) {a : A} {w' : W}
    → ◌≡◌ {A = Result GoError A × W} (labelled op bucket run.0, run.1) (ok a, w')
    → run ≡ (ok a, w')
labelled-eq-ok op bucket (ok a, w) h = h
labelled-eq-ok op bucket (err e, w) h = cc

endpointless :
    (bucket key secret : Text) → at_key (response bucket key secret []) (codes "endpoint") ≡ []
unfolding at_key lookup codes ◌==◌
endpointless bucket key secret = refl

incomplete :
    (bucket key secret : Text) (creds : AccessCredentials)
    → complete bucket (response bucket key secret []) ≢ ok creds
unfolding complete
incomplete bucket key secret creds h =
    ground (arith, endpointless bucket key secret, trim_space-nil, eq_refl [])

module _ {W : Type 0} (quote : Text → Text) (codec : Codec)
    (marshal : AccessPolicy → Result GoError Text) (c : AwsClients W) (settings : Settings) where
  kept_keys :
      (bucket user key secret : Text) (w : W)
      → trim_space key ≢ []
      → trim_space secret ≢ []
      → keys_for quote codec marshal c settings bucket user key secret w
        ≡ (ok (response bucket (trim_space key) (trim_space secret) []), w)
  unfolding keys_for
  kept_keys bucket user key secret w h1 h2 =
      ground (arith, eq_iff (trim_space key) [], eq_iff (trim_space secret) [])

  granted_keys :
      (bucket account access key secret : Text) (w w' : W) (creds : Params)
      → trim_space key ≢ []
      → trim_space secret ≢ []
      → grant_access quote codec marshal c settings bucket account access key secret w
        ≡ (ok creds, w')
      → creds ≡ response bucket (trim_space key) (trim_space secret) []
  unfolding grant_access
  granted_keys bucket account access key secret w w' creds h1 h2 h =
      let created = bind-eq-ok _ _ w h in
      let written = bind-eq-ok _ _ created.between created.second in
      let allowed = bind-eq-ok _ _ written.between written.second in
      let kept =
        kept_keys bucket (user_name_for_account account) key secret allowed.between h1 h2 in
      let last = allowed.second in cc

  -- With an access key and a secret of the caller's, neither blank, AWS grants no access that
  -- provisioning accepts.
  pub grant_rejects_existing_keys :
      (claim : BucketClaim) (bucket key secret : Text) (w w' : W) (creds : AccessCredentials)
      → trim_space key ≢ []
      → trim_space secret ≢ []
      → grant (aws_provider quote codec marshal c settings) claim bucket key secret w
        ≢ (ok creds, w')
  unfolding grant grant_access aws_provider
  grant_rejects_existing_keys claim bucket key secret w w' creds h1 h2 h =
      let answered = bind-eq-ok _ _ w h in
      let account = account_id claim in
      let access = claim.spec.access_type in
      let run = grant_access quote codec marshal c settings bucket account access key secret w in
      let granted = labelled-eq-ok Operation.grant_access bucket run answered.first in
      let same =
        granted_keys bucket account access key secret w answered.between answered.value h1 h2
          granted in
      let last = answered.second in incomplete bucket (trim_space key) (trim_space secret) creds cc

module _ (cloud : Cloud) (quote : Text → Text) (codec : Codec)
    (marshal : AccessPolicy → Result GoError Text) (settings : Settings) where
  -- The calls that drop each of the keys.
  abbrev drops : Text → List Text → AwsCalls
  drops user [] = []
  drops user (key ∷ keys) = drop_key user key ∷ drops user keys

  abbrev listed_drops : Text → Result GoError (List Text) → AwsCalls
  listed_drops user (ok keys) = drops user keys
  listed_drops user (err e) = []

  -- The calls that take keys from a user: the key that is named, or every key that is listed.
  abbrev pub key_calls : Text → Text → AwsCalls → AwsCalls
  key_calls user key calls =
      if key == []
      then list_keys user ∷ listed_drops user (cloud.keys calls)
      else drop_key user key ∷ []

  drop_keys-drops :
      (user : Text) (keys : List Text) (calls : AwsCalls)
      → drop_keys quote codec marshal (recorded cloud) settings user keys calls
        ≡ (ok tt, calls ++ drops user keys)
  unfolding drop_keys
  drop_keys-drops user [] calls = ap (λ (t : AwsCalls). (ok tt, t)) (sym (append-nil calls))
  drop_keys-drops user (key ∷ keys) calls =
      drop_keys-drops user keys (calls ++ drop_key user key ∷ [])
      ∙ ap (λ (t : AwsCalls). (ok tt, t))
          (append_assoc calls (drop_key user key ∷ []) (drops user keys))

  listed :
      (user : Text) (found : Result GoError (List Text)) (calls : AwsCalls)
      → drop_listed quote codec marshal
          (recorded cloud)
          settings
          user
          found
          (calls ++ list_keys user ∷ [])
        ≡ (ok tt, calls ++ list_keys user ∷ listed_drops user found)
  listed user (ok keys) calls =
      drop_keys-drops user keys (calls ++ list_keys user ∷ [])
      ∙ ap (λ (t : AwsCalls). (ok tt, t))
          (append_assoc calls (list_keys user ∷ []) (drops user keys))
  listed user (err e) calls = refl

  dropped :
      (user key : Text) (calls : AwsCalls)
      → drop_key_of quote codec marshal (recorded cloud) settings user key calls
        ≡ (ok tt, calls ++ key_calls user key calls)
  unfolding drop_key_of drop_all_keys
  dropped user key calls = elim (Bool-cases (key == [])) [
    | inl e ↦ rw e (listed user (cloud.keys calls) calls)
    | inr e ↦ rw e refl
  ]

  -- Revoking access always succeeds, whatever AWS answers. It asks for the removal of the user's
  -- policy for the bucket, of the key that is named or else of every key that is listed, and last of
  -- the user.
  pub revoke_access_lem :
      (bucket account key : Text) (calls : AwsCalls)
      → let user = user_name_for_account account in
        let unpolicied = calls ++ drop_user_policy user (policy_name bucket account) ∷ [] in
        revoke_access quote codec marshal (recorded cloud) settings bucket account key calls
        ≡ (ok tt, (unpolicied ++ key_calls user (trim_space key) unpolicied) ++ drop_user user ∷ [])
  unfolding revoke_access ◌>>=◌
  revoke_access_lem bucket account key calls =
      let user = user_name_for_account account in
      rw
        (dropped user (trim_space key)
          (calls ++ drop_user_policy user (policy_name bucket account) ∷ []))
        refl
