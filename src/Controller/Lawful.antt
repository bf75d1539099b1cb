-- ===== src/Controller/Lawful.antt =====
-- Rules for runs that only add to the trace and keep a law of it.
use k8s_s3_bucket_operator.Prelude.{
  ◌++◌, append_assoc, Bool, true, false, [], ◌∷◌, Result, ok, err, continue, attempt, ◌>>=◌,
  if◌then◌else◌, ◌⊎◌, inr, ◌≡◌, refl, subst, sym, ap, ◌∙◌,
}
use k8s_s3_bucket_operator.Errors.{GoError, Go}
use k8s_s3_bucket_operator.Controller.Trace.{Event, Trace}

-- Some event so far is of a kind.
abbrev pub Has : (Event → Type 0) → Trace → Type 0
Has P [] = ⊥
Has P (e ∷ t) = P e ⊎ Has P t

-- Every event found what it needs in the trace before it.
abbrev pub Keeps : (Event → Trace → Type 0) → Trace → Type 0
Keeps needs [] = Unit
Keeps needs (e ∷ t) = needs e t × Keeps needs t

pub Has-append : (P : Event → Type 0) (new t : Trace) → Has P t → Has P (new ++ t)
Has-append P [] t h = h
Has-append P (e ∷ new) t h = inr (Has-append P new t h)

-- A run from the trace `t`: it adds events, and keeps the law.
pub record IsLawful (needs : Event → Trace → Type 0) {A : Type 0} (t : Trace)
    (run : Result GoError A × Trace) : Type 0 where
  pub new : Trace
  pub grows : run.1 ≡ new ++ t
  pub keeps : Keeps needs t → Keeps needs run.1

pub Has-run :
    {needs : Event → Trace → Type 0} {A : Type 0} (P : Event → Type 0) (t : Trace)
    (run : Result GoError A × Trace)
    → IsLawful needs t run
    → Has P t
    → Has P run.1
Has-run P t run s h = subst (Has P) (sym s.grows) (Has-append P s.new t h)

module _ {needs : Event → Trace → Type 0} where
  -- Nothing happens.
  pub still-IsLawful : {A : Type 0} (r : Result GoError A) (t : Trace) → IsLawful needs t (r, t)
  still-IsLawful r t = record { new = []; grows = refl; keeps = λ h. h }

  pub if-IsLawful :
      {A : Type 0} (b : Bool) (x y : Result GoError A × Trace) (t : Trace)
      → IsLawful needs t x
      → IsLawful needs t y
      → IsLawful needs t (if b then x else y)
  if-IsLawful true x y t hx hy = hx
  if-IsLawful false x y t hx hy = hy

  -- One event, which has what it needs.
  pub event-IsLawful :
      {A : Type 0} (r : Result GoError A) (e : Event) (t : Trace)
      → needs e t
      → IsLawful needs t (r, e ∷ t)
  event-IsLawful r e t h = record { new = e ∷ []; grows = refl; keeps = λ k. (h, k) }

  -- A run and then another.
  pub then-IsLawful :
      {A B : Type 0} (t : Trace) (first : Result GoError A × Trace)
      (second : Result GoError B × Trace)
      → IsLawful needs t first
      → IsLawful needs first.1 second
      → IsLawful needs t second
  then-IsLawful t first second a b = record {
    new = b.new ++ a.new;
    grows = b.grows ∙ ap (λ (u : Trace). b.new ++ u) a.grows ∙ sym (append_assoc b.new a.new t);
    keeps = λ k. b.keeps (a.keeps k);
  }

  continue-IsLawful :
      {A B : Type 0} (t : Trace) (f : A → Go Trace B) (run : Result GoError A × Trace)
      → IsLawful needs t run
      → ((a : A) → run.0 ≡ ok a → IsLawful needs run.1 (f a run.1))
      → IsLawful needs t (continue f run.1 run.0)
  continue-IsLawful t f (ok a, u) h k = then-IsLawful t (ok a, u) _ h (k a refl)
  continue-IsLawful t f (err e, u) h k = record { new = h.new; grows = h.grows; keeps = h.keeps }

  pub bind-IsLawful :
      {A B : Type 0} (m : Go Trace A) (f : A → Go Trace B) (t : Trace)
      → IsLawful needs t (m t)
      → ((a : A) → (m t).0 ≡ ok a → IsLawful needs (m t).1 (f a (m t).1))
      → IsLawful needs t ((m >>= f) t)
  unfolding ◌>>=◌
  bind-IsLawful m f t h k = continue-IsLawful t f (m t) h k

  -- The same run with another result.
  pub retold-IsLawful :
      {A B : Type 0} (t : Trace) (run : Result GoError A × Trace) (r : Result GoError B)
      → IsLawful needs t run
      → IsLawful needs t (r, run.1)
  retold-IsLawful t run r h = record { new = h.new; grows = h.grows; keeps = h.keeps }

  -- The result of the first run is passed on as it is, also if it is an error.
  pub attempt-IsLawful :
      {A B : Type 0} (m : Go Trace A) (f : Result GoError A → Go Trace B) (t : Trace)
      → IsLawful needs t (m t)
      → IsLawful needs (m t).1 (f (m t).0 (m t).1)
      → IsLawful needs t ((attempt m >>= f) t)
  unfolding ◌>>=◌
  attempt-IsLawful m f t h k = then-IsLawful t (m t) _ h k

-- Runs that are lawful once an event of a kind has happened.
abbrev pub Guarded :
    (Event → Trace → Type 0) → (Event → Type 0) → {A : Type 0} → Go Trace A → Type 0
Guarded needs P m = (t : Trace) → Has P t → IsLawful needs t (m t)

pub bind-Guarded :
    {A B : Type 0} (needs : Event → Trace → Type 0) (P : Event → Type 0) (m : Go Trace A)
    (f : A → Go Trace B)
    → Guarded needs P m
    → ((a : A) → Guarded needs P (f a))
    → Guarded needs P (m >>= f)
bind-Guarded needs P m f gm gf t h =
    bind-IsLawful m f t (gm t h) (λ a _. gf a (m t).1 (Has-run P t (m t) (gm t h) h))
