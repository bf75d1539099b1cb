-- ===== src/Resolver/Keys.antt =====
-- The keys of the caches, and the references that they stand for.
use k8s_s3_bucket_operator.Prelude.{ℕ, ◌++◌, [], ◌∷◌, All, All-append, ◌≡◌, ◌≢◌, refl, arith}
use k8s_s3_bucket_operator.Text.{Text, codes}
use k8s_s3_bucket_operator.Api.{ObjectReference}
use k8s_s3_bucket_operator.Resolver.{cache_key}

-- A text without a byte.
abbrev pub HasNo : ℕ → Text → Type 0
HasNo c s = All (λ d. d ≢ c) s

-- Two texts of two parts, the first without the byte between them, agree in both parts.
pub parts_unique :
    (c : ℕ) (a a' b b' : Text)
    → HasNo c a
    → HasNo c a'
    → a ++ (c ∷ b) ≡ a' ++ (c ∷ b')
    → (a ≡ a') × (b ≡ b')
parts_unique c [] [] b b' h h' e = (refl, cc)
parts_unique c [] (d ∷ a') b b' h (n, h') e = absurd (n (cc))
parts_unique c (d ∷ a) [] b b' (n, h) h' e = absurd (n (cc))
parts_unique c (d ∷ a) (d' ∷ a') b b' (n, h) (n', h') e =
    let (same, rest) = parts_unique c a a' b b' h h' (cc) in (cc, rest)

-- References with one key are one, if no namespace has a slash.
pub cache_key_unique :
    (r s : ObjectReference)
    → HasNo b'/' r.namespace
    → HasNo b'/' s.namespace
    → cache_key r ≡ cache_key s
    → r ≡ s
unfolding codes
cache_key_unique r s h h' e =
    let (namespace, name) = parts_unique b'/' r.namespace s.namespace r.name s.name h h' e in cc

-- No bar, and no slash in the namespace.
pub record IsPlainReference (r : ObjectReference) : Type 0 where
  pub namespace : HasNo b'/' r.namespace
  pub namespace_bar : HasNo b'|' r.namespace
  pub name_bar : HasNo b'|' r.name

pub cache_key-HasNo : (r : ObjectReference) → IsPlainReference r → HasNo b'|' (cache_key r)
unfolding codes
cache_key-HasNo r plain =
    All-append (λ d. d ≢ b'|') r.namespace (b'/' ∷ r.name) plain.namespace_bar
      (omega arith, plain.name_bar)
