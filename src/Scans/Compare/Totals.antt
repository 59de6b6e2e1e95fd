-- ===== src/Scans/Compare/Totals.antt =====
-- workflows/scans/compare.go: the totals of a comparison.
use cxone_sdk_golang.Prelude.{
  ℕ, ◌+◌, ◌≡◌, refl, inl, inr, Bool, ◌||◌, String, List, [], ◌∷◌, Bool-cases, if◌then◌else◌,
}
use cxone_sdk_golang.Prelude.Text.{str_eq}
use cxone_sdk_golang.Prelude.Maps.{get}
use cxone_sdk_golang.Scans.Compare.{ScanComparisonBucket, is_present, Buckets}

-- how many entries have a key that passes
abbrev pub count_if : {V : Type 0} → (String → Bool) → List (String × V) → ℕ
count_if p [] = 0
count_if p ((k, v) ∷ m) = (if p k then 1 else 0) + count_if p m

abbrev pub is_key : {V : Type 0} → List (String × V) → String → Bool
is_key m k = is_present (get k m)

abbrev pub sum_of : (ScanComparisonBucket → ℕ) → Buckets → ℕ
sum_of f [] = 0
sum_of f ((s, b) ∷ bs) = f b + sum_of f bs

-- what `count_new` and `count_resolved` add to each sum
record Added (new resolved recurrent : ℕ) (m n : Buckets) : Type 0 where
  new_sum : sum_of (λ b. b.new) n ≡ sum_of (λ b. b.new) m + new
  resolved_sum : sum_of (λ b. b.resolved) n ≡ sum_of (λ b. b.resolved) m + resolved
  recurrent_sum : sum_of (λ b. b.recurrent) n ≡ sum_of (λ b. b.recurrent) m + recurrent

is_key-cons :
    {V : Type 0} (k j : String) (v : V) (m : List (String × V))
    → is_key ((k, v) ∷ m) j ≡ (str_eq k j || is_key m j)
unfolding get
is_key-cons k j v m = elim (Bool-cases (str_eq k j)) [ inl h ↦ rw h refl | inr h ↦ rw h refl ]
