-- ===== src/Usage/Scope/Own.antt =====
-- backend/internal/app/usage.go: who is no administrator, or asks for the own account, is shown the
-- own records only.
use cpa_helper_s.Prelude.{
  ℕ, zero, suc, ◌*◌, ◌-◌, ◌^◌, ◌%◌, false, ◌≡◌, refl, ap, sym, Bool, true, not, ◌||◌, Option, none,
  some, List, [], ◌∷◌, leb, arith, inl, inr, Bool-cases, All, length, take, drop,
}
use cpa_helper_s.Prelude.Int.{ℤ}
use cpa_helper_s.Prelude.Text.{Text, codes, text_eq, text_eq_iff}
use cpa_helper_s.AuthPools.{AuthUser}
use cpa_helper_s.Usage.Statistics.{paged_usage_records, negative_page}
use cpa_helper_s.Usage.Scope.{
  StoredRecord, UsageFilters, access_scope, scoped_filters, normalized_usage_filters, same_text,
  usage_where, selected, apply_usage_post_filters, filtered_usage_records, usage_records,
  largest_page,
}

-- A record of a user.
abbrev pub IsOf : Text → StoredRecord → Type 0
IsOf name r = r.billed.usage_username ≡ some name

module _ (P : StoredRecord → Type 0) where
  All-take : (n : ℕ) (rs : List StoredRecord) → All P rs → All P (take n rs)
  All-take zero rs all = tt
  All-take (suc n) [] all = tt
  All-take (suc n) (r ∷ rs) all = (all.0, All-take n rs all.1)

  All-drop : (n : ℕ) (rs : List StoredRecord) → All P rs → All P (drop n rs)
  All-drop zero rs all = all
  All-drop (suc n) [] all = tt
  All-drop (suc n) (r ∷ rs) all = All-drop n rs all.1

  All-negative_page :
      (filtered : Bool) (rs : List StoredRecord) (page_size : ℕ)
      → All P rs
      → All P (negative_page filtered rs page_size)
  All-negative_page true rs page_size all = tt
  All-negative_page false rs page_size all = All-take page_size rs all

  All-page :
      (filtered : Bool) (rs : List StoredRecord) (page page_size : ℕ)
      → All P rs
      → All P (paged_usage_records filtered rs page page_size)
  unfolding paged_usage_records
  All-page filtered rs page page_size all =
      let start = (page - 1) * page_size % 2 ^ 64 in
      elim (Bool-cases (leb (2 ^ 63) start)) [
        | inl w ↦ rw w (All-negative_page filtered rs page_size all)
        | inr w ↦ elim (Bool-cases (leb (length rs) start)) [
          | inl e ↦ rw (w, e) tt
          | inr e ↦ rw (w, e) (All-take page_size _ (All-drop start rs all))
        ]
      ]

same_text-eq : (name : Text) (o : Option Text) → same_text (some name) o ≡ true → o ≡ some name
same_text-eq name none h = cc
same_text-eq name (some t) h = ap some ((text_eq_iff t name).0 h)

scoped_filters-own :
    (user_name : ℤ → Option Text) (f : UsageFilters) (user : AuthUser) (requested : Text)
    → (text_eq requested (codes "account") || not user.is_admin) ≡ true
    → let scoped = scoped_filters user_name f (access_scope user requested) in
      (scoped.usage_username ≡ some user.username) × (scoped.source_key ≡ none)
unfolding access_scope scoped_filters
scoped_filters-own user_name f user requested own = rw own (refl, refl)

module _ (like : Text → Text → Bool) (source_hash : Text → Text) where
  usage_where-own :
      (f : UsageFilters) (r : StoredRecord) (name : Text)
      → f.usage_username ≡ some name
      → usage_where like source_hash f r ≡ true
      → same_text (some name) r.billed.usage_username ≡ true
  unfolding usage_where
  usage_where-own f r name e h =
      let wanted : same_text f.usage_username r.billed.usage_username ≡ true = ground arith in
      rw (sym e) wanted

  selected-own :
      (f : UsageFilters) (name : Text) (rs : List StoredRecord)
      → f.usage_username ≡ some name
      → All (IsOf name) (selected like source_hash f rs)
  selected-own f name [] e = tt
  selected-own f name (r ∷ rs) e = elim (Bool-cases (usage_where like source_hash f r)) [
    | inl w ↦
        rw (selected, w)
          (
            same_text-eq name r.billed.usage_username (usage_where-own f r name e w),
            selected-own f name rs e,
          )
    | inr w ↦ rw (selected, w) (selected-own f name rs e)
  ]

  filtered-own :
      (f : UsageFilters) (name : Text) (rs : List StoredRecord)
      → f.usage_username ≡ some name
      → f.source_key ≡ none
      → All (IsOf name) (filtered_usage_records like source_hash f rs)
  unfolding filtered_usage_records apply_usage_post_filters
  filtered-own f name rs e n = rw n (selected-own f name rs e)

  -- A user who is no administrator, or who asks for the own account, is shown a page of records that
  -- are all the user's own, whatever the filters say, the source and another user's ID included.
  pub usage_records-own :
      (user_name : ℤ → Option Text) (today : ℕ) (stored : List StoredRecord) (f : UsageFilters)
      (user : AuthUser) (page page_size : ℕ)
      → (text_eq f.scope (codes "account") || not user.is_admin) ≡ true
      → All
          (IsOf user.username)
          (usage_records like source_hash user_name today stored f user page page_size).1
  unfolding usage_records
  usage_records-own user_name today stored f user page page_size own =
      let g = normalized_usage_filters today f in
      let scoped = scoped_filters user_name g (access_scope user f.scope) in
      let narrowed = scoped_filters-own user_name g user f.scope own in
      All-page (IsOf user.username) _ _ page (largest_page like source_hash page_size)
        (filtered-own scoped user.username stored narrowed.0 narrowed.1)
