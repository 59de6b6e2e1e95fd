-- ===== src/Readers/Users/Pages.antt =====
-- workflows/users/reader.go: that fetchAllUsers reads every page.
use mathlib.Core.List.{append_assoc}
use cxone_sdk_golang.Prelude.{
  ℕ, zero, suc, ◌+◌, ◌*◌, ◌≤◌, ◌<◌, ◌≡◌, refl, sym, ap, subst, ◌∙◌, inl, inr, Option, none, some,
  List, [], ◌∷◌, ◌++◌, arith, length, length-append, ltb, Bool-cases,
}
use cxone_sdk_golang.Prelude.Int.{pos, ◌+ℤ◌, wrap_int}
use cxone_sdk_golang.Errors.{nil}
use cxone_sdk_golang.Endpoints.Users.{User, UserApi, list_users}
use cxone_sdk_golang.Readers.Users.{
  Listed, page_size, page_filter, page_added, fetch_pages, fetch_all_users,
}

module _ {A : Type 0} where
  -- the first `n` elements, and what follows them
  abbrev pub take : ℕ → List A → List A
  take zero xs = []
  take (suc n) [] = []
  take (suc n) (x ∷ xs) = x ∷ take n xs

  abbrev pub drop : ℕ → List A → List A
  drop zero xs = xs
  drop (suc n) [] = []
  drop (suc n) (x ∷ xs) = drop n xs

  drop-append : (xs ys : List A) → drop (length xs) (xs ++ ys) ≡ ys
  drop-append [] ys = refl
  drop-append (x ∷ xs) ys = drop-append xs ys

  take-drop : (n : ℕ) (xs : List A) → xs ≡ take n xs ++ drop n xs
  take-drop zero xs = refl
  take-drop (suc n) [] = refl
  take-drop (suc n) (x ∷ xs) = ap (◌∷◌ x) (take-drop n xs)

  short_take : (n : ℕ) (xs : List A) → length (take n xs) < n → take n xs ≡ xs
  short_take zero xs short = absurd (omega arith)
  short_take (suc n) [] short = refl
  short_take (suc n) (x ∷ xs) short = ap (◌∷◌ x) (short_take n xs (omega arith))

  length-take_le : (n : ℕ) (xs : List A) → length (take n xs) ≤ n
  length-take_le zero xs = omega arith
  length-take_le (suc n) [] = omega arith
  length-take_le (suc n) (x ∷ xs) = omega (arith, length-take_le n xs)

next_offset : (n : ℕ) → n + 100 < 9223372036854775808 → wrap_int (pos n +ℤ pos 100) ≡ pos (n + 100)
unfolding wrap_int ◌+ℤ◌
next_offset n small = ground (arith, small)

module _ {W : Type 0} (api : UserApi W) (all : List User) where
  -- The endpoint serves the pages of one list that does not change.
  abbrev pub Serves : Type 0
  Serves =
      (n : ℕ) (w : W)
      → (list_users api (page_filter (pos n)) w).0 ≡ (take page_size (drop n all), nil)

  -- the fetch ended with these users and no error
  abbrev pub Complete : Option (Listed W) → Type 0
  Complete none = ⊥
  Complete (some (r, w)) = r ≡ (all, nil)

  page_added-Complete :
      (seen page : List User) (more : List User → W → Option (Listed W)) (w : W)
      → (length page < 100 → seen ++ page ≡ all)
      → (100 ≤ length page → Complete (more (seen ++ page) w))
      → Complete (page_added api seen more ((page, nil), w))
  unfolding page_added
  page_added-Complete seen page more w ends goes_on =
      elim (Bool-cases (ltb (length page) page_size)) [
        | inl last ↦ rw last (ap (λ us. (us, nil)) (ends (ground (arith, last))))
        | inr full ↦ rw full (goes_on (ground (arith, full)))
      ]

  module _ (serves : Serves) (small : length all + 100 < 9223372036854775808) where
    fetch_pages-Complete :
        (fuel : ℕ) (seen rest : List User) (w : W)
        → all ≡ seen ++ rest
        → length rest < fuel * 100
        → Complete (fetch_pages api fuel (pos (length seen)) seen w)
    unfolding fetch_pages
    fetch_pages-Complete zero seen rest w whole enough = absurd (omega arith)
    fetch_pages-Complete (suc fuel) seen rest w whole enough =
        subst
          (λ r. Complete (
            page_added api seen
              (fetch_pages api fuel (wrap_int (pos (length seen) +ℤ pos page_size))) r))
          (sym (ap (λ r. (r, got.1)) page_is))
          (page_added-Complete seen (take 100 rest) _ got.1
            (λ last. ap (◌++◌ seen) (short_take 100 rest last) ∙ sym whole)
            (λ full.
              subst (λ o. Complete (fetch_pages api fuel o (seen ++ take 100 rest) got.1))
                (next full)
                (fetch_pages-Complete fuel (seen ++ take 100 rest) (drop 100 rest) got.1
                  (whole
                    ∙ ap (◌++◌ seen) (take-drop 100 rest)
                    ∙ sym (append_assoc seen (take 100 rest) (drop 100 rest)))
                  (left full))))
      where
        lengths : length rest ≡ length (take 100 rest) + length (drop 100 rest)
        lengths = ap length (take-drop 100 rest) ∙ length-append (take 100 rest) (drop 100 rest)

        left : 100 ≤ length (take 100 rest) → length (drop 100 rest) < fuel * 100
        left full = omega (arith, lengths)

        next :
            100 ≤ length (take 100 rest)
            → pos (length (seen ++ take 100 rest)) ≡ wrap_int (pos (length seen) +ℤ pos page_size)
        next full =
            ap pos (omega (arith, length-append seen (take 100 rest), length-take_le 100 rest))
            ∙ sym (
                next_offset (length seen) (omega (arith, ap length whole, length-append seen rest)))

        got : Listed W
        got = list_users api (page_filter (pos (length seen))) w

        page_is : got.0 ≡ (take 100 rest, nil)
        page_is =
            serves (length seen) w
            ∙ ap (λ xs. (take 100 xs, nil)) (ap (drop (length seen)) whole ∙ drop-append seen rest)

  -- If the endpoint serves the pages of one list of users, whose length is below 2^63 - 100, then
  -- fetchAllUsers returns exactly that list and no error, within one round more than a hundredth of
  -- its length.
  pub fetch_all_users-Complete :
      Serves
      → length all + 100 < 9223372036854775808
      → (fuel : ℕ) (w : W) → length all < fuel * 100
      → Complete (fetch_all_users api fuel w)
  unfolding fetch_all_users
  fetch_all_users-Complete serves small fuel w enough =
      fetch_pages-Complete serves small fuel [] all w refl enough
