-- ===== src/Scans/Compare/Groups.antt =====
-- workflows/scans/compare.go: the groups of results that are not exploitable.
use cxone_sdk_golang.Prelude.{
  ℕ, ◌+◌, ◌≤◌, ◌≡◌, refl, inl, inr, true, false, ◌&&◌, String, List, [], ◌∷◌, arith, Bool-cases,
  if◌then◌else◌,
}
use cxone_sdk_golang.Prelude.Text.{str_eq}
use cxone_sdk_golang.Prelude.Maps.{get, put}
use cxone_sdk_golang.Scans.Compare.{
  ScanResult, CompareOptions, is_compared, NotExploitableGroup, is_not_exploitable, group_name,
  or_new_group, count_groups, is_less, insert_group, sort_groups, group_not_exploitable,
}

-- the sum of the counts
abbrev pub total : List NotExploitableGroup → ℕ
total [] = 0
total (g ∷ gs) = g.count + total gs

-- each group counts no more than the one before it, which is `n`
abbrev pub Falling : ℕ → List NotExploitableGroup → Type 0
Falling n [] = Unit
Falling n (g ∷ gs) = (g.count ≤ n) × Falling g.count gs

abbrev pub Sorted : List NotExploitableGroup → Type 0
Sorted [] = Unit
Sorted (g ∷ gs) = Falling g.count gs

-- the results that are counted
abbrev pub suppressed : CompareOptions → List ScanResult → ℕ
suppressed o [] = 0
suppressed o (r ∷ rs) = (if is_not_exploitable r && is_compared o r then 1 else 0) + suppressed o rs

abbrev total_of : List (String × NotExploitableGroup) → ℕ
total_of [] = 0
total_of ((k, g) ∷ m) = g.count + total_of m

total_of-put :
    (k : String) (g : NotExploitableGroup) (r : ScanResult)
    (m : List (String × NotExploitableGroup))
    → total_of (put k g m) + (or_new_group r (get k m)).count ≡ total_of m + g.count
unfolding get put
total_of-put k g r [] = omega arith
total_of-put k g r ((j, h) ∷ m) = elim (Bool-cases (str_eq j k)) [
  | inl same ↦ rw same (omega arith)
  | inr other ↦ rw other (omega (arith, total_of-put k g r m))
]

count_groups-total :
    (o : CompareOptions) (rs : List ScanResult) (m : List (String × NotExploitableGroup))
    → total_of (count_groups o rs m) ≡ total_of m + suppressed o rs
unfolding count_groups
count_groups-total o [] m = omega arith
count_groups-total o (r ∷ rs) m = elim (Bool-cases (is_not_exploitable r)) [
  | inr exploitable ↦ rw exploitable (omega (arith, count_groups-total o rs m))
  | inl suppressed ↦ elim (Bool-cases (is_compared o r)) [
    | inr unwanted ↦ rw (suppressed, unwanted) (omega (arith, count_groups-total o rs m))
    | inl wanted ↦
        let g = or_new_group r (get (group_name r) m) in
        let g' : NotExploitableGroup = record g { count = g.count + 1 } in
        rw (suppressed, wanted)
          (omega (
            arith,
            total_of-put (group_name r) g' r m,
            count_groups-total o rs (put (group_name r) g' m),
          ))
  ]
]

insert_group-total :
    (g : NotExploitableGroup) (gs : List NotExploitableGroup)
    → total (insert_group g gs) ≡ g.count + total gs
unfolding insert_group
insert_group-total g [] = refl
insert_group-total g (h ∷ hs) = elim (Bool-cases (is_less g h)) [
  | inl less ↦ rw less refl
  | inr more ↦ rw more (omega (arith, insert_group-total g hs))
]

sort_groups-total : (m : List (String × NotExploitableGroup)) → total (sort_groups m) ≡ total_of m
unfolding sort_groups
sort_groups-total [] = refl
sort_groups-total ((k, g) ∷ m) =
    omega (arith, insert_group-total g (sort_groups m), sort_groups-total m)

is_less-count : (g h : NotExploitableGroup) → is_less g h ≡ true → h.count ≤ g.count
unfolding is_less
is_less-count g h q = ground arith

not_less-count : (g h : NotExploitableGroup) → is_less g h ≡ false → g.count ≤ h.count
unfolding is_less
not_less-count g h q = ground arith

insert_group-Falling :
    (g : NotExploitableGroup) (gs : List NotExploitableGroup) (n : ℕ)
    → g.count ≤ n
    → Falling n gs
    → Falling n (insert_group g gs)
unfolding insert_group
insert_group-Falling g [] n le h = (le, tt)
insert_group-Falling g (h ∷ hs) n le (first, rest) = elim (Bool-cases (is_less g h)) [
  | inl less ↦ rw less (le, (is_less-count g h less, rest))
  | inr more ↦ rw more (first, insert_group-Falling g hs h.count (not_less-count g h more) rest)
]

insert_group-Sorted :
    (g : NotExploitableGroup) (gs : List NotExploitableGroup)
    → Sorted gs
    → Sorted (insert_group g gs)
unfolding insert_group
insert_group-Sorted g [] h = tt
insert_group-Sorted g (h ∷ hs) s = elim (Bool-cases (is_less g h)) [
  | inl less ↦ rw less (is_less-count g h less, s)
  | inr more ↦ rw more (insert_group-Falling g hs h.count (not_less-count g h more) s)
]

sort_groups-Sorted : (m : List (String × NotExploitableGroup)) → Sorted (sort_groups m)
unfolding sort_groups
sort_groups-Sorted [] = tt
sort_groups-Sorted ((k, g) ∷ m) = insert_group-Sorted g (sort_groups m) (sort_groups-Sorted m)

-- The groups are in the order of falling counts, and count every result once that is marked not
-- exploitable and has a wanted severity and engine.
pub group_not_exploitable-Sorted :
    (rs : List ScanResult) (o : CompareOptions)
    → Sorted (group_not_exploitable rs o) × (total (group_not_exploitable rs o) ≡ suppressed o rs)
unfolding group_not_exploitable
group_not_exploitable-Sorted rs o =
    let m = count_groups o rs [] in
    (sort_groups-Sorted m, omega (arith, sort_groups-total m, count_groups-total o rs []))
