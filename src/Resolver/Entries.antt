-- ===== src/Resolver/Entries.antt =====
-- What holds of every entry of a cache, of internal/backend/resolve/resolver.go.
use k8s_s3_bucket_operator.Prelude.{
  some, List, [], ◌∷◌, All, Bool-cases, inl, inr, ◌≡◌, ap, ◌∙◌, sym, arith, subst,
}
use k8s_s3_bucket_operator.Text.{Text, ◌==◌, eq_iff}
use k8s_s3_bucket_operator.Resolver.{Entry, find, store}

module _ {C : Type 0} (P : Entry C → Type 0) where
  pub find-All :
      (k : Text) (cache : List (Entry C)) {e : Entry C}
      → All P cache
      → find k cache ≡ some e
      → P e × (e.key ≡ k)
  unfolding find
  find-All k [] h g = cc
  find-All k (d ∷ cache) {e} (h, hs) g = elim (Bool-cases (d.key == k)) [
    | inl same ↦
        let first : d ≡ e = ground arith in
        (subst P first h, ap (λ (x : Entry C). x.key) (sym first) ∙ (eq_iff d.key k).0 same)
    | inr other ↦ find-All k cache hs (ground arith)
  ]

  pub store-All : (e : Entry C) (cache : List (Entry C)) → P e → All P cache → All P (store e cache)
  unfolding store
  store-All e [] h hs = (h, tt)
  store-All e (d ∷ cache) h (hd, hs) = elim (Bool-cases (d.key == e.key)) [
    | inl same ↦ rw same (h, hs)
    | inr other ↦ rw other (hd, store-All e cache h hs)
  ]
