-- ===== src/Controller/Protocol/Noting.antt =====
-- The notes in the status, as runs over a trace.
use k8s_s3_bucket_operator.Prelude.{
  Bool, true, false, ◌∷◌, Result, ok, if◌then◌else◌, inr, ◌≡◌, refl,
}
use k8s_s3_bucket_operator.Text.{Text}
use k8s_s3_bucket_operator.Errors.{GoError}
use k8s_s3_bucket_operator.Api.{ObjectReference, BucketClaim}
use k8s_s3_bucket_operator.Controller.Kube.{Meta}
use k8s_s3_bucket_operator.Controller.Notes.{
  Reason, is_bound, not_ready, finish, merge_read, merge_claim_status, note_claim_provisioning,
  note_claim_not_ready,
}
use k8s_s3_bucket_operator.Controller.Trace.{claim_read, status_write, Trace, Environment, cluster}
use k8s_s3_bucket_operator.Controller.Lawful.{
  IsLawful, still-IsLawful, event-IsLawful, bind-IsLawful, retold-IsLawful,
}
use k8s_s3_bucket_operator.Controller.Protocol.{Needs}

module _ (meta : Meta) (env : Environment) where
  not_ready-flag :
      (phase : Text) (reason : Reason) (text : Text) (claim : BucketClaim)
      → (not_ready meta phase reason text claim).status.bucket_ready ≡ false
  unfolding not_ready
  not_ready-flag phase reason text claim = refl

  -- The status of a claim that was read is written unless the claim is being deleted or bound.
  written_if_open :
      (nn : ObjectReference) (phase : Text) (reason : Reason) (text : Text) (claim : BucketClaim)
      (r : Result GoError BucketClaim) (t : Trace) (dying bound : Bool)
      → r ≡ ok claim
      → claim.being_deleted ≡ dying
      → is_bound meta claim ≡ bound
      → IsLawful (Needs meta) (claim_read nn r ∷ t) (
          if dying
          then (ok tt, claim_read nn r ∷ t)
          else if bound
          then (ok tt, claim_read nn r ∷ t)
          else finish meta
              (cluster env)
              ((cluster env).update_claim_status (not_ready meta phase reason text claim))
              (claim_read nn r ∷ t))
  written_if_open nn phase reason text claim r t true bound h d b = still-IsLawful _ _
  written_if_open nn phase reason text claim r t false true h d b = still-IsLawful _ _
  written_if_open nn phase reason text claim r t false false h d b =
      let note = not_ready meta phase reason text claim in
      let answer = env.status_updated (claim_read nn r ∷ t) note in
      retold-IsLawful {A = BucketClaim} (claim_read nn r ∷ t)
        (answer, status_write note answer ∷ claim_read nn r ∷ t) _
        (event-IsLawful {A = BucketClaim} answer (status_write note answer) (claim_read nn r ∷ t)
          (inr (not_ready-flag phase reason text claim, (claim, h, d, b))))

  merge_read-IsLawful :
      (nn : ObjectReference) (phase : Text) (reason : Reason) (text : Text) (claim : BucketClaim)
      (r : Result GoError BucketClaim) (t : Trace)
      → r ≡ ok claim
      → IsLawful (Needs meta) (claim_read nn r ∷ t) (
          merge_read meta
            (cluster env)
            (not_ready meta phase reason text)
            claim
            (claim_read nn r ∷ t))
  unfolding merge_read
  merge_read-IsLawful nn phase reason text claim r t h =
      written_if_open nn phase reason text claim r t claim.being_deleted (is_bound meta claim) h
        refl refl

  pub note-IsLawful :
      (nn : ObjectReference) (phase : Text) (reason : Reason) (text : Text) (t : Trace)
      → IsLawful
          (Needs meta)
          t
          (merge_claim_status meta (cluster env) nn (not_ready meta phase reason text) t)
  unfolding merge_claim_status
  note-IsLawful nn phase reason text t =
      bind-IsLawful _ _ t (event-IsLawful _ _ t tt)
        (λ claim h. merge_read-IsLawful nn phase reason text claim _ t h)

  pub note_claim_provisioning-IsLawful :
      (nn : ObjectReference) (text : Text) (t : Trace)
      → IsLawful (Needs meta) t (note_claim_provisioning meta (cluster env) nn text t)
  unfolding note_claim_provisioning
  note_claim_provisioning-IsLawful nn text t =
      retold-IsLawful t _ (ok tt) (note-IsLawful nn _ _ text t)

  pub note_claim_not_ready-IsLawful :
      (nn : ObjectReference) (reason : Reason) (text : Text) (t : Trace)
      → IsLawful (Needs meta) t (note_claim_not_ready meta (cluster env) nn reason text t)
  unfolding note_claim_not_ready
  note_claim_not_ready-IsLawful nn reason text t =
      retold-IsLawful t _ (ok tt) (note-IsLawful nn _ reason text t)
