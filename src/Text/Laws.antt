-- ===== src/Text/Laws.antt =====
-- Laws of the functions on texts: trimming, case and cutting.
use k8s_s3_bucket_operator.Prelude.{
  ℕ, zero, suc, ◌≤◌, ◌≡◌, refl, ap, ◌∙◌, ◌≢◌, false, some, [], ◌∷◌, ◌++◌, length, take, is_nil, All,
  arith, Option-cases, inl, inr,
}
use k8s_s3_bucket_operator.Text.{
  Text, is_space, trim_left, trim_right, trim_space, lower, to_lower, dashed, cut,
}

pub lower_idem : (c : ℕ) → lower (lower c) ≡ lower c
unfolding lower
lower_idem c = ground arith

-- Lower case text stays as it is.
pub to_lower_idem : (s : Text) → to_lower (to_lower s) ≡ to_lower s
unfolding to_lower
to_lower_idem [] = refl
to_lower_idem (c ∷ s) = unfold lower in ground (arith, to_lower_idem s)

is_space-lower : (c : ℕ) → is_space (lower c) ≡ is_space c
unfolding is_space lower
is_space-lower c = ground arith

is_nil-to_lower : (s : Text) → is_nil (to_lower s) ≡ is_nil s
unfolding to_lower
is_nil-to_lower [] = refl
is_nil-to_lower (c ∷ s) = refl

pub to_lower-eq-nil : (s : Text) → to_lower s ≡ [] → s ≡ []
unfolding to_lower
to_lower-eq-nil [] h = refl
to_lower-eq-nil (c ∷ s) h = cc

trim_left-to_lower : (s : Text) → trim_left (to_lower s) ≡ to_lower (trim_left s)
unfolding to_lower trim_left
trim_left-to_lower [] = refl
trim_left-to_lower (c ∷ s) = ground (arith, is_space-lower c, trim_left-to_lower s)

trim_right-to_lower : (s : Text) → trim_right (to_lower s) ≡ to_lower (trim_right s)
unfolding to_lower trim_right
trim_right-to_lower [] = refl
trim_right-to_lower (c ∷ s) =
    ground (arith, is_space-lower c, trim_right-to_lower s, is_nil-to_lower (trim_right s))

-- Trimming and lower case can be taken in either order.
pub trim_space-to_lower : (s : Text) → trim_space (to_lower s) ≡ to_lower (trim_space s)
unfolding trim_space
trim_space-to_lower s = ap trim_right (trim_left-to_lower s) ∙ trim_right-to_lower (trim_left s)

trim_right_idem : (s : Text) → trim_right (trim_right s) ≡ trim_right s
unfolding trim_right
trim_right_idem [] = refl
trim_right_idem (c ∷ s) = ground (arith, trim_right_idem s)

-- The first byte, if there is one, is no space.
abbrev StartsClean : Text → Type 0
StartsClean [] = Unit
StartsClean (c ∷ s) = is_space c ≡ false

trim_left-StartsClean : (s : Text) → StartsClean (trim_left s)
unfolding trim_left
trim_left-StartsClean [] = tt
trim_left-StartsClean (c ∷ s) = ground (arith, trim_left-StartsClean s)

trim_left_of_StartsClean : (s : Text) → StartsClean s → trim_left s ≡ s
unfolding trim_left
trim_left_of_StartsClean [] h = refl
trim_left_of_StartsClean (c ∷ s) h = ground arith

trim_right-StartsClean : (s : Text) → StartsClean s → StartsClean (trim_right s)
unfolding trim_right
trim_right-StartsClean [] h = tt
trim_right-StartsClean (c ∷ s) h = ground arith

pub trim_space-nil : trim_space [] ≡ []
unfolding trim_space
trim_space-nil = refl

-- Trimmed text has nothing left to trim.
pub trim_space_idem : (s : Text) → trim_space (trim_space s) ≡ trim_space s
unfolding trim_space
trim_space_idem s =
    ap trim_right (
      trim_left_of_StartsClean (trim_right (trim_left s))
        (trim_right-StartsClean (trim_left s) (trim_left-StartsClean s)))
    ∙ trim_right_idem (trim_left s)

pub append_ne_nil : (a : Text) (c : ℕ) (b : Text) → a ++ c ∷ b ≢ []
append_ne_nil [] c b h = cc
append_ne_nil (d ∷ a) c b h = cc

pub dashed-ne-nil : (a b : Text) → dashed a b ≢ []
unfolding dashed
dashed-ne-nil a b = append_ne_nil a b'-' b

-- Cutting at the first separator loses nothing.
pub cut_sound : (sep : ℕ) (s : Text) {a b : Text} → cut sep s ≡ some (a, b) → s ≡ a ++ sep ∷ b
unfolding cut
cut_sound sep [] h = cc
cut_sound sep (c ∷ s) {a} {b} h = elim (Option-cases (cut sep s)) [
  | inl e ↦ ground arith
  | inr ((x, y), e) ↦ ground (arith, cut_sound sep s e)
]

abbrev pub Lacks : ℕ → Text → Type 0
Lacks sep = All (λ c. c ≢ sep)

-- A text without the separator is cut off whole.
pub cut-append : (sep : ℕ) (a b : Text) → Lacks sep a → cut sep (a ++ sep ∷ b) ≡ some (a, b)
unfolding cut
cut-append sep [] b h = ground arith
cut-append sep (c ∷ a) b (ne, h) = ground (arith, cut-append sep a b h)

pub length-take : (n : ℕ) (s : Text) → length (take n s) ≤ n
length-take zero s = omega arith
length-take (suc n) [] = omega arith
length-take (suc n) (c ∷ s) = omega (arith, length-take n s)

pub length-to_lower : (s : Text) → length (to_lower s) ≡ length s
unfolding to_lower
length-to_lower [] = refl
length-to_lower (c ∷ s) = ap suc (length-to_lower s)

pub to_lower-append : (s t : Text) → to_lower (s ++ t) ≡ to_lower s ++ to_lower t
unfolding to_lower
to_lower-append [] t = refl
to_lower-append (c ∷ s) t = ap (λ (r : Text). lower c ∷ r) (to_lower-append s t)

-- What is taken from a text that is long enough does not depend on what follows it.
pub take-append : (n : ℕ) (s t : Text) → n ≤ length s → take n (s ++ t) ≡ take n s
take-append zero s t h = refl
take-append (suc n) [] t h = let impossible : ⊥ = omega arith in absurd impossible
take-append (suc n) (c ∷ s) t h = ap (λ (r : Text). c ∷ r) (take-append n s t (omega arith))

pub length-positive : (s : Text) → s ≢ [] → 1 ≤ length s
length-positive [] h = absurd (h refl)
length-positive (c ∷ s) h = omega arith
