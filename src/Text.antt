-- ===== src/Text.antt =====
-- Go strings as lists of bytes, and what the program uses of the package `strings`. Bytes of 128 and
-- more are read as letters without case that are no white space: this is exact for ASCII text, which
-- Kubernetes demands of names.
pub mod Laws
use Prim.Native.Char.{code}
use k8s_s3_bucket_operator.Prelude.{
  ℕ, zero, suc, ◌+◌, ◌-◌, String, ◌≡◌, refl, ◌↔◌, Bool, true, false, ◌&&◌, ◌||◌, Option, none, some,
  List, [], ◌∷◌, ◌++◌, map, is_nil, leb, nat_eq, if◌then◌else◌, arith,
}

abbrev pub Text : Type 0
Text = List ℕ

-- The bytes of a literal.
unfoldable pub codes : String → Text
codes String.[] = []
codes (String.◌∷◌ c s) = code c ∷ codes s

infix 50 ◌==◌
unfoldable pub ◌==◌ : Text → Text → Bool
[] == [] = true
[] == (b ∷ t) = false
(a ∷ s) == [] = false
(a ∷ s) == (b ∷ t) = nat_eq a b && s == t

pub eq_iff : (s t : Text) → ((s == t) ≡ true) ↔ (s ≡ t)
unfolding ◌==◌
eq_iff [] [] = (λ _. refl, λ _. refl)
eq_iff [] (b ∷ t) = (λ h. cc, λ h. cc)
eq_iff (a ∷ s) [] = (λ h. cc, λ h. cc)
eq_iff (a ∷ s) (b ∷ t) = ground (arith, eq_iff s t)

pub eq_refl : (s : Text) → (s == s) ≡ true
eq_refl s = (eq_iff s s).1 refl

-- strings.TrimSpace

is_space : ℕ → Bool
is_space c = nat_eq c 32 || (leb 9 c && leb c 13)

trim_left : Text → Text
trim_left [] = []
trim_left (c ∷ s) = if is_space c then trim_left s else c ∷ s

trim_right : Text → Text
trim_right [] = []
trim_right (c ∷ s) = let rest = trim_right s in if is_space c && is_nil rest then [] else c ∷ rest

unfoldable pub trim_space : Text → Text
unfolding is_space trim_left trim_right
trim_space s = trim_right (trim_left s)

-- strings.ToLower, strings.ToUpper, strings.EqualFold

unfoldable pub lower : ℕ → ℕ
lower c = if leb b'A' c && leb c b'Z' then c + 32 else c

unfoldable pub upper : ℕ → ℕ
upper c = if leb b'a' c && leb c b'z' then c - 32 else c

unfoldable pub to_lower : Text → Text
unfolding lower
to_lower = map lower

unfoldable pub to_upper : Text → Text
unfolding upper
to_upper = map upper

unfoldable pub equal_fold : Text → Text → Bool
unfolding to_lower ◌==◌
equal_fold s t = to_lower s == to_lower t

-- strings.HasPrefix and strings.Contains

has_prefix : Text → Text → Bool
has_prefix s [] = true
has_prefix [] (b ∷ t) = false
has_prefix (a ∷ s) (b ∷ t) = nat_eq a b && has_prefix s t

unfoldable pub contains : Text → Text → Bool
unfolding has_prefix
contains [] t = is_nil t
contains (a ∷ s) t = has_prefix (a ∷ s) t || contains s t

-- strings.ReplaceAll, where both texts are one byte.
unfoldable pub replace_byte : ℕ → ℕ → Text → Text
replace_byte a b = map (λ c. if nat_eq c a then b else c)

-- strings.SplitN(s, sep, 2) for a separator of one byte: the whole text, or what stands before and
-- behind the first separator.
unfoldable pub cut : ℕ → Text → Option (Text × Text)
cut sep [] = none
cut sep (c ∷ s) =
    let rest = cut sep s in
    if nat_eq c sep
    then some ([], s)
    else elim rest [ none ↦ none | some (before, behind) ↦ some (c ∷ before, behind) ]

-- fmt.Sprintf("%s-%s", a, b)
unfoldable pub dashed : Text → Text → Text
dashed a b = a ++ b'-' ∷ b
