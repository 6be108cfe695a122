-- ===== src/AuthPools/Models.antt =====
-- backend/internal/app/auth_pools.go: the two ways in which the models of a pool are asked, by
-- `authPoolAllowsModel` and by the set of `authPoolModelFilter`.
use cpa_helper_s.Prelude.{
  ℕ, ◌≡◌, refl, ◌∙◌, Bool, false, ◌||◌, some, List, [], ◌∷◌, if◌then◌else◌, map, ◌<◌, All,
}
use cpa_helper_s.Prelude.Text.{Text, text_eq, is_empty, trim_space, All-trim_space}
use cpa_helper_s.AuthPools.{
  AuthPool, any_of, with_model, model_filter, auth_pool_model_filter, auth_pool_model_filter_allows,
  any_equal_fold, auth_pool_allows_model,
}

-- A text in ASCII.
abbrev pub IsAscii : Text → Type 0
IsAscii = All (λ c. c < 128)

module _ (lower : ℕ → ℕ) (equal_fold : Text → Text → Bool) where
  -- `strings.EqualFold` compares texts in ASCII but for the case of the letters. On other texts it
  -- folds more than `unicode.ToLower` does.
  abbrev pub FoldsAscii : Type 0
  FoldsAscii =
      (a b : Text) → IsAscii a → IsAscii b → equal_fold a b ≡ text_eq (map lower b) (map lower a)

  with_model-any :
      FoldsAscii
      → (model m : Text) (filter : List Text) → is_empty model ≡ false
      → IsAscii model
      → IsAscii m
      → any_of (map lower model) (with_model lower m filter)
        ≡ (equal_fold m model || any_of (map lower model) filter)
  unfolding text_eq
  with_model-any law [] m filter h a b = cc
  with_model-any law (c ∷ cs) [] filter h a b = rw (law [] (c ∷ cs) b a) refl
  with_model-any law (c ∷ cs) (d ∷ ds) filter h a b = rw (law (d ∷ ds) (c ∷ cs) b a) refl

  model_filter-any :
      FoldsAscii
      → (model : Text) (models : List Text) → is_empty model ≡ false
      → IsAscii model
      → All IsAscii models
      → any_of (map lower model) (model_filter lower models)
        ≡ any_equal_fold equal_fold model models
  model_filter-any law model [] h a b = refl
  model_filter-any law model (m ∷ ms) h a b =
      with_model-any law model (trim_space m) (model_filter lower ms) h a (All-trim_space _ m b.0)
      ∙ rw (model_filter-any law model ms h a b.1) refl

  with_model-blank :
      (m : Text) (filter : List Text)
      → any_of [] filter ≡ false
      → any_of [] (with_model lower m filter) ≡ false
  unfolding text_eq
  with_model-blank [] filter h = h
  with_model-blank (c ∷ cs) filter h = h

  model_filter-blank : (models : List Text) → any_of [] (model_filter lower models) ≡ false
  model_filter-blank [] = refl
  model_filter-blank (m ∷ ms) =
      with_model-blank (trim_space m) (model_filter lower ms) (model_filter-blank ms)

  filter-allows :
      FoldsAscii
      → (model : Text) (models : List Text) → IsAscii model
      → All IsAscii models
      → any_of (map lower model) (model_filter lower models)
        ≡ (if is_empty model then false else any_equal_fold equal_fold model models)
  filter-allows law [] models a b = model_filter-blank models
  filter-allows law (c ∷ cs) models a b = model_filter-any law (c ∷ cs) models refl a b

  -- For models with names in ASCII, the set of trimmed lower-case names, in which blank names are left
  -- out and which is asked for the trimmed lower-case name, and the search that trims and compares
  -- each name allow the same models of a pool, a blank one never; the comparison of texts in ASCII
  -- ignores the case of letters.
  pub auth_pool_model_filter_allows-auth_pool_allows_model :
      (law : FoldsAscii) (pool : AuthPool) (model : Text)
      → IsAscii model
      → All IsAscii pool.models
      → auth_pool_model_filter_allows lower (some (auth_pool_model_filter lower pool)) model
        ≡ auth_pool_allows_model equal_fold pool model
  unfolding auth_pool_model_filter auth_pool_model_filter_allows auth_pool_allows_model
  auth_pool_model_filter_allows-auth_pool_allows_model law pool model a b =
      filter-allows law (trim_space model) pool.models (All-trim_space _ model a) b
