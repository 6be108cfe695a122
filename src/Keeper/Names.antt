-- ===== src/Keeper/Names.antt =====
-- `normalizeKeeperAuthNames`: which names a manual refresh is given.
use cpa_helper_s.Prelude.{
  ℕ, ◌+◌, ◌≤◌, ◌≡◌, refl, Bool, true, false, ◌||◌, List, [], ◌∷◌, ◌++◌, map, arith, ltb, ◌==◌,
  if◌then◌else◌, length,
}
use cpa_helper_s.Prelude.Text.{Text, text_eq, text_eq_iff, is_empty, trim_space}
use cpa_helper_s.Errors.{ok, err, validation}
use cpa_helper_s.Keeper.{
  mentions, normalize_names, normalize_optional_keeper_auth_names, normalize_keeper_auth_names,
}

abbrev pub any_blank : List Text → Bool
any_blank [] = false
any_blank (x ∷ xs) = is_empty (trim_space x) || any_blank xs

abbrev pub times : Text → List Text → ℕ
times n [] = 0
times n (x ∷ xs) = (if text_eq x n then 1 else 0) + times n xs

times-append : (n : Text) (xs ys : List Text) → times n (xs ++ ys) ≡ times n xs + times n ys
times-append n [] ys = omega arith
times-append n (x ∷ xs) ys = ground (arith, times-append n xs ys)

mentions-times : (n : Text) (xs : List Text) → mentions n xs ≡ ltb 0 (times n xs)
mentions-times n [] = ground arith
mentions-times n (x ∷ xs) = ground (arith, mentions-times n xs)

-- The loop keeps each name it has once, and adds those of the items that it has not.
abbrev IsMerge : List Text → List Text → List Text → Type 0
IsMerge items have result =
    (n : Text)
    → times n have ≤ 1
    → (times n result ≤ 1)
      × (mentions n result ≡ (mentions n have || mentions n (map trim_space items)))

add-IsMerge :
    (t : Text) (have : List Text) (n : Text)
    → times n have ≤ 1
    → let next = if mentions t have then have else have ++ t ∷ [] in
      (times n next ≤ 1) × (mentions n next ≡ (mentions n have || text_eq t n))
add-IsMerge t have n h = ground (
  arith,
  h,
  times-append n have (t ∷ []),
  mentions-times n have,
  mentions-times t have,
  mentions-times n (have ++ t ∷ []),
  text_eq_iff t n,
)

normalize_names_lem :
    (items have : List Text)
    → any_blank items ≡ false
    → (result : List Text) × (normalize_names items have ≡ ok result) × IsMerge items have result
unfolding normalize_names
normalize_names_lem [] have h = (have, refl, λ n k. ground (arith, k))
normalize_names_lem (x ∷ xs) have h =
    let t = trim_space x in
    let next = if mentions t have then have else have ++ t ∷ [] in
    let blank : is_empty t ≡ false = ground (arith, h) in
    let later : any_blank xs ≡ false = ground (arith, h) in
    let rest = normalize_names_lem xs next later in
    (rest.0, rw blank rest.1, λ n k. step t n have next rest.0 (add-IsMerge t have n k) (rest.2 n))
  where
    step :
        (t n : Text) (have next result : List Text)
        → (times n next ≤ 1) × (mentions n next ≡ (mentions n have || text_eq t n))
        → (times n next ≤ 1
            → (times n result ≤ 1)
              × (mentions n result ≡ (mentions n next || mentions n (map trim_space xs))))
        → (times n result ≤ 1)
          × (mentions n result
              ≡ (mentions n have || (text_eq t n || mentions n (map trim_space xs))))
    step t n have next result a f = let b = f a.0 in ground (arith, a, b)

normalize_names-blank :
    (items have : List Text) → any_blank items ≡ true → normalize_names items have ≡ err validation
unfolding normalize_names
normalize_names-blank [] have h = ground (arith, h)
normalize_names-blank (x ∷ xs) have h = ground (
  arith,
  h,
  normalize_names-blank xs
      (if mentions (trim_space x) have then have else have ++ trim_space x ∷ []),
)

append-mentions : (n : Text) (xs : List Text) → mentions n xs ≡ true → ltb 0 (length xs) ≡ true
append-mentions n [] h = ground (arith, h)
append-mentions n (x ∷ xs) h = ground arith

normalized-result :
    (x : Text) (xs : List Text)
    → any_blank (x ∷ xs) ≡ false
    → (result : List Text) × (normalize_keeper_auth_names (x ∷ xs) ≡ ok result)
      × ((n : Text)
          → (times n result ≤ 1) × (mentions n result ≡ mentions n (map trim_space (x ∷ xs))))
unfolding normalize_keeper_auth_names normalize_optional_keeper_auth_names
normalized-result x xs h =
    let rest = normalize_names_lem (x ∷ xs) [] h in
    let merged = (λ (n : Text). rest.2 n (omega arith)) in
    let here : mentions (trim_space x) rest.0 ≡ true =
      ground (arith, merged (trim_space x), text_eq_iff (trim_space x) (trim_space x)) in
    let full : (length rest.0 == 0) ≡ false =
      ground (arith, append-mentions (trim_space x) rest.0 here) in
    (rest.0, rw (rest.1, full) refl, merged)

normalized-blank :
    (xs : List Text) → any_blank xs ≡ true → normalize_keeper_auth_names xs ≡ err validation
unfolding normalize_keeper_auth_names normalize_optional_keeper_auth_names
normalized-blank xs h = rw (normalize_names-blank xs [] h) refl

-- A request for a manual refresh is refused exactly when it names nothing or has a blank name. What
-- it gives otherwise has every requested name without the spaces around it, no other, and each once.
pub normalize_keeper_auth_names_lem :
    (raw : List Text)
    → (any_blank raw || length raw == 0 ≡ true → normalize_keeper_auth_names raw ≡ err validation)
      × (any_blank raw || length raw == 0 ≡ false
          → (result : List Text) × (normalize_keeper_auth_names raw ≡ ok result)
            × ((n : Text)
                → (times n result ≤ 1) × (mentions n result ≡ mentions n (map trim_space raw))))
unfolding normalize_keeper_auth_names normalize_optional_keeper_auth_names normalize_names
normalize_keeper_auth_names_lem [] = (λ e. refl, λ e. ground (arith, e))
normalize_keeper_auth_names_lem (x ∷ xs) = (
  λ e. normalized-blank (x ∷ xs) (ground (arith, e)),
  λ e. normalized-result x xs (ground (arith, e)),
)
