-- ===== src/Controller/Reports.antt =====
-- Runs that report that they are done only after an event of a kind.
use k8s_s3_bucket_operator.Prelude.{
  Bool, true, false, Result, ok, err, continue, attempt, ◌>>=◌, ◌>>◌, if◌then◌else◌, ◌≡◌, refl,
}
use k8s_s3_bucket_operator.Errors.{GoError, Go}
use k8s_s3_bucket_operator.Controller.Kube.{Requeue, done}
use k8s_s3_bucket_operator.Controller.Trace.{Event, Trace}
use k8s_s3_bucket_operator.Controller.Lawful.{Has}

module _ (P : Event → Type 0) where
  -- If the run reports that it is done, it has an event of the kind.
  abbrev pub Reports : Result GoError Requeue × Trace → Type 0
  Reports run = run.0 ≡ ok done → Has P run.1

  pub if-Reports :
      (b : Bool) (x y : Result GoError Requeue × Trace)
      → (b ≡ true → Reports x)
      → (b ≡ false → Reports y)
      → Reports (if b then x else y)
  if-Reports true x y hx hy = hx refl
  if-Reports false x y hx hy = hy refl

  continue-Reports :
      {A : Type 0} (f : A → Go Trace Requeue) (run : Result GoError A × Trace)
      → ((a : A) → run.0 ≡ ok a → Reports (f a run.1))
      → Reports (continue f run.1 run.0)
  continue-Reports f (ok a, u) k = k a refl
  continue-Reports f (err e, u) k = λ h. cc

  pub bind-Reports :
      {A : Type 0} (m : Go Trace A) (f : A → Go Trace Requeue) (t : Trace)
      → ((a : A) → (m t).0 ≡ ok a → Reports (f a (m t).1))
      → Reports ((m >>= f) t)
  unfolding ◌>>=◌
  bind-Reports m f t k = continue-Reports f (m t) k

  -- The error is passed on.
  pub attempt-Reports :
      {A : Type 0} (m : Go Trace A) (f : Result GoError A → Go Trace Requeue) (t : Trace)
      → Reports (f (m t).0 (m t).1)
      → Reports ((attempt m >>= f) t)
  unfolding ◌>>=◌
  attempt-Reports m f t k = k

  -- A note, and then a result that is not done.
  pub undone-Reports :
      (note : Go Trace (Unit {0})) (r : Result GoError Requeue) (t : Trace)
      → (r ≡ ok done → ⊥)
      → Reports ((note >> (λ w. (r, w))) t)
  undone-Reports note r t h = bind-Reports note (λ _ w. (r, w)) t (λ _ _ e. absurd (h e))
