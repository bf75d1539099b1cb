-- ===== src/Tests/Runs.antt =====
-- What a run that was accepted leaves to a later one.
use k8s_s3_bucket_operator.Prelude.{
  true, false, none, attempt, ◌∙◌, Bool-cases, inl, if_false, subst, some, [], ◌∷◌, ok, ◌>>=◌, inr,
  ◌≡◌, refl,
}
use k8s_s3_bucket_operator.Text.{Text, codes, ◌==◌, eq_iff, trim_space, dashed}
use k8s_s3_bucket_operator.Api.{Params, at_key, insert, lookup}
use k8s_s3_bucket_operator.Provisioning.{AccessCredentials, provision_bucket_and_grant_access}
use k8s_s3_bucket_operator.Controller.Kube.{SecretObject}
use k8s_s3_bucket_operator.Controller.Claim.{
  fill_secret, note_start, credentials_name, with_credentials, with_provider, bind_claim,
}
use k8s_s3_bucket_operator.Controller.Secrets.{IsMerged}
use k8s_s3_bucket_operator.Controller.Secrets.Runs.{filled_with, with_provider-with_credentials}
use k8s_s3_bucket_operator.Controller.Notes.{is_bound}
use k8s_s3_bucket_operator.Controller.Access.Saved.{read_back, revoke_of-with_granted}
use k8s_s3_bucket_operator.Controller.Trace.{
  Event, Trace, secret_read, provider_with, Environment, cluster, resolving,
}
use k8s_s3_bucket_operator.Controller.Access.{
  bucket_info, with_granted, with_document, upsert, provider_for_claim, sibling, revoke_of,
  revoke_from,
}
use k8s_s3_bucket_operator.Tests.Controller.{
  keyed_read, plainly, helpers, logs, new_claim, class, response, access, accepting,
}
use k8s_s3_bucket_operator.Tests.Success.{serving, granting, keyed, ready_claim}

owned_entries :
    (s t : SecretObject)
    → helpers.set_controller_reference new_claim s ≡ ok t
    → t.string_data ≡ s.string_data
owned_entries s t h = cc

abbrev granted_keys : AccessCredentials
granted_keys = record {
  access_key_id = codes "key";
  access_secret_key = codes "secret";
  bucket_name = codes "logs";
  endpoint = codes "http://minio:9000";
}

abbrev secret_before : SecretObject
secret_before = record { string_data = (codes "accessKeyID", codes "old") ∷ []; owner = none }

abbrev secret_after : SecretObject
secret_after = record {
  string_data =
      (codes "accessKeyID", codes "key")
      ∷ (codes "accessSecretKey", codes "secret")
      ∷ (codes "bucketName", codes "logs")
      ∷ (codes "endpoint", codes "http://minio:9000")
      ∷ [];
  owner = some logs;
}

-- The secret as the API server has it then: an older entry is left.
abbrev merged_entries : Params
merged_entries = (codes "note", codes "kept") ∷ secret_after.string_data

secret_after-IsMerged : IsMerged secret_after.string_data merged_entries
unfolding lookup codes ◌==◌
secret_after-IsMerged k v h = elim (Bool-cases (codes "note" == k)) [
  | inl same ↦
      let absent_note =
        subst (λ (j : Text). lookup j secret_after.string_data ≡ none)
          ((eq_iff (codes "note") k).0 same) refl in
      absurd (cc (absent_note, h))
  | inr other ↦ if_false _ _ _ other ∙ h
]

abbrev next_run : Environment
next_run = record (accepting new_claim access) { secret = λ t ref. ok merged_entries }

-- The record of the earlier run, after its grant.
abbrev filling : Trace
filling =
    (with_credentials plainly helpers (cluster serving) (resolving serving) false logs new_claim
      class (ok granted_keys) []).1

filling-IsMerged : IsMerged (filled_with (credentials_name new_claim) filling) merged_entries
unfolding filled_with with_credentials bind_claim fill_secret insert ◌>>=◌ codes ◌==◌
filling-IsMerged = secret_after-IsMerged

with_provider-with_credentials_example :
    with_provider plainly helpers
      (cluster next_run)
      (resolving next_run)
      false
      logs
      new_claim
      class
      (ok (provider_with next_run true))
      []
    ≡ (do
      granted ← attempt (
          provision_bucket_and_grant_access
            (provider_with next_run true)
            new_claim
            class
            (codes "key")
            (codes "secret"))
      with_credentials plainly helpers
          (cluster next_run)
          (resolving next_run)
          false
          logs
          new_claim
          class
          granted)
        (secret_read (credentials_name new_claim) (ok merged_entries)
          ∷ (note_start plainly helpers
              (cluster next_run)
              (resolving next_run)
              false
              (is_bound helpers new_claim)
              logs
              []).1)
unfolding with_credentials bind_claim fill_secret insert ◌>>=◌ codes trim_space ◌==◌
with_provider-with_credentials_example =
    with_provider-with_credentials plainly helpers serving next_run false logs new_claim new_claim
      class granted_keys (provider_with next_run true) merged_entries [] filling [] owned_entries
      refl refl refl filling-IsMerged refl

-- The record of a run that saves the granted keys over older entries.
abbrev saving : Trace
saving =
    (with_granted keyed plainly helpers (cluster granting) (resolving granting) logs access access
      (ok response) []).1

abbrev withdrawing : Environment
withdrawing = record granting {
  secret = λ t ref. read_back (sibling logs access.credentials_secret_name) saving;
}

abbrev withdrawing_secret : Event
withdrawing_secret =
    secret_read (sibling logs access.credentials_secret_name)
      (read_back (sibling logs access.credentials_secret_name) saving)

revoke_of-with_granted_example :
    revoke_of keyed plainly helpers
      (cluster withdrawing)
      (resolving withdrawing)
      logs
      access
      (ok ready_claim)
      []
    ≡ (do
      found ← attempt (
          provider_for_claim keyed plainly helpers
            (cluster withdrawing)
            (resolving withdrawing)
            ready_claim)
      revoke_from keyed plainly helpers
          (cluster withdrawing)
          (resolving withdrawing)
          logs
          access
          ready_claim
          (codes "key")
          found)
        (withdrawing_secret ∷ [])
unfolding with_granted with_document upsert bucket_info insert at_key lookup trim_space dashed ◌>>=◌
    codes ◌==◌
revoke_of-with_granted_example =
    revoke_of-with_granted keyed plainly keyed_read helpers granting logs response access access []
      saving (λ h. cc) refl withdrawing ready_claim [] refl
