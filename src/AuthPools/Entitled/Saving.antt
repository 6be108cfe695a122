-- ===== src/AuthPools/Entitled/Saving.antt =====
-- backend/internal/app/auth_pools.go: the pools that the plugin lists, saved by
-- `saveLocalAuthPools`, leave who may use a pool as it was.
use cpa_helper_s.Prelude.{
  ℕ, ◌≡◌, refl, ap, sym, ◌∙◌, Bool, true, false, ◌||◌, Option, none, some, List, [], ◌∷◌,
  if◌then◌else◌, arith, inl, inr, ◌⊎◌, Bool-cases, All,
}
use cpa_helper_s.Prelude.Int.{ℤ}
use cpa_helper_s.Prelude.Text.{
  Text, text_eq, text_eq_iff, text_eq_left, text_eq_right, is_empty, trim_space, normal,
}
use cpa_helper_s.Errors.{Result, ok, err, then_do, ok-injective, >>=-eq-ok}
use cpa_helper_s.AuthPools.{
  AuthPool, all_users, selected_users, normalize_auth_pool_visibility,
  normalize_auth_pool_scheduling_strategy,
}
use cpa_helper_s.AuthPools.Database.{
  pool_row, put_pool, save_local_auth_pool, save_local_auth_pools, continue_save, saved_row,
  visibility_to_save, stored_visibility,
}
use cpa_helper_s.AuthPools.Access.Replaced.{may_use_row}

-- A visibility that lets users in besides administrators.
abbrev lets_in : Text → Bool
lets_in v = text_eq v all_users || text_eq v selected_users

module _ (lower : ℕ → ℕ) where
  -- `unicode.ToLower` leaves the names of the visibilities.
  abbrev pub KeepsNames : Type 0
  KeepsNames = (normal lower all_users ≡ all_users) × (normal lower selected_users ≡ selected_users)

  -- A pool as the plugin lists it, which does not know the visibility.
  abbrev pub OmitsVisibility : AuthPool → Type 0
  OmitsVisibility p = is_empty (trim_space p.visibility) ≡ true

  normalize_auth_pool_visibility-all_users :
      KeepsNames
      → (ids : List ℤ) → normalize_auth_pool_visibility lower all_users ids ≡ ok all_users
  unfolding normalize_auth_pool_visibility text_eq
  normalize_auth_pool_visibility-all_users keeps ids = rw keeps.0 refl

  normalize_auth_pool_visibility-selected_users :
      KeepsNames
      → (ids : List ℤ) → normalize_auth_pool_visibility lower selected_users ids ≡ ok selected_users
  unfolding normalize_auth_pool_visibility text_eq
  normalize_auth_pool_visibility-selected_users keeps ids = rw keeps.1 refl

  normalize_auth_pool_visibility-lets_in :
      KeepsNames
      → (v : Text) (ids : List ℤ) → lets_in v ≡ true
      → normalize_auth_pool_visibility lower v ids ≡ ok v
  normalize_auth_pool_visibility-lets_in keeps v ids h = elim (Bool-cases (text_eq v all_users)) [
    | inl e ↦
        rw ((text_eq_iff v all_users).0 e) (normalize_auth_pool_visibility-all_users keeps ids)
    | inr e ↦
        rw ((text_eq_iff v selected_users).0 (ground arith))
          (normalize_auth_pool_visibility-selected_users keeps ids)
  ]

-- The row of a pool after a row was put.
if_again {ℓ} :
    {A : Type ℓ} (b : Bool) (x y z : A)
    → (if b then x else y) ≡ (if b then x else if b then z else y)
if_again true x y z = refl
if_again false x y z = refl

pool_row-put_pool :
    (q : Text) (r : AuthPool) (ps : List AuthPool)
    → pool_row q (put_pool r ps) ≡ (if text_eq r.id q then some r else pool_row q ps)
unfolding pool_row put_pool
pool_row-put_pool q r [] = refl
pool_row-put_pool q r (p ∷ ps) = elim (Bool-cases (text_eq p.id r.id)) [
  | inl e ↦
      rw (e, text_eq_left p.id r.id q e)
        (if_again (text_eq r.id q) (some r) (pool_row q ps) (some p))
  | inr e ↦ elim (Bool-cases (text_eq r.id q)) [
    | inl f ↦
        let n = sym (text_eq_right p.id r.id q f) ∙ e in
        let same = pool_row-put_pool q r ps in rw (e, n, same, f) refl
    | inr f ↦ let same = pool_row-put_pool q r ps in rw (e, same, f) refl
  ]
]

-- Whoever may use a pool may still use it, but for the pools that are left out.
abbrev pub Grows : (Text → Bool) → List AuthPool → List AuthPool → Type 0
Grows exempt before after =
    (q : Text) (listed : Bool)
    → exempt q ≡ false
    → may_use_row (pool_row q before) listed ≡ true
    → may_use_row (pool_row q after) listed ≡ true

Grows-eq :
    (exempt : Text → Bool) (ps qs saved : List AuthPool)
    → qs ≡ saved
    → Grows exempt ps qs
    → Grows exempt ps saved
Grows-eq exempt ps qs saved same grows = rw (sym same) grows

may_use_row-lets_in :
    (o : Option AuthPool) (listed : Bool)
    → may_use_row o listed ≡ true
    → lets_in (stored_visibility o) ≡ true
unfolding text_eq
may_use_row-lets_in none listed h = cc
may_use_row-lets_in (some p) listed h = ground arith

put_pool-Grows :
    (exempt : Text → Bool) (r : AuthPool) (ps : List AuthPool)
    → ((listed : Bool)
        → exempt r.id ≡ false
        → may_use_row (pool_row r.id ps) listed ≡ true
        → may_use_row (some r) listed ≡ true)
    → Grows exempt ps (put_pool r ps)
put_pool-Grows exempt r ps keeps q listed n h =
    rw (pool_row-put_pool q r ps) (elim (Bool-cases (text_eq r.id q)) [
      | inl e ↦ rw e (let same = (text_eq_iff r.id q).0 e in keeps listed (rw same n) (rw same h))
      | inr e ↦ rw e h
    ])

same_visibility :
    (o : Option AuthPool) (r : AuthPool) (listed : Bool)
    → r.visibility ≡ stored_visibility o
    → may_use_row o listed ≡ true
    → may_use_row (some r) listed ≡ true
same_visibility none r listed same h = cc
same_visibility (some p) r listed same h = rw same h

if-eq-ok {κ} :
    {V : Type κ} {w : V} (t : Bool) (x y : Result V)
    → (if t then x else y) ≡ ok w
    → (x ≡ ok w) ⊎ (y ≡ ok w)
if-eq-ok true x y h = inl h
if-eq-ok false x y h = inr h

-- A pool that the plugin lists without a visibility, or one that is left out.
abbrev pub OmitsOrExempt : (ℕ → ℕ) → (Text → Bool) → AuthPool → Type 0
OmitsOrExempt lower exempt p = OmitsVisibility lower p ⊎ exempt (trim_space p.id) ≡ true

module _ (lower : ℕ → ℕ) (keeps : KeepsNames lower) (exempt : Text → Bool) where
  saved_row-Grows :
      (p : AuthPool) (ps : List AuthPool) (name strategy visibility : Text)
      → OmitsVisibility lower p
      → normalize_auth_pool_visibility lower (visibility_to_save lower p ps) p.allowed_user_ids
        ≡ ok visibility
      → Grows exempt ps (put_pool (saved_row lower p (trim_space p.id) name strategy visibility) ps)
  saved_row-Grows p ps name strategy visibility omits h =
      let id = trim_space p.id in
      let o = pool_row id ps in
      let stored : visibility_to_save lower p ps ≡ stored_visibility o = rw omits refl in
      let r = saved_row lower p id name strategy visibility in
      put_pool-Grows exempt r ps (λ listed n may.
        same_visibility o r listed
          (ok-injective (
            sym h
            ∙ ap (λ v. normalize_auth_pool_visibility lower v p.allowed_user_ids) stored
            ∙ normalize_auth_pool_visibility-lets_in lower keeps (stored_visibility o)
                p.allowed_user_ids (may_use_row-lets_in o listed may)))
          may)

  saved_row-exempt :
      (p : AuthPool) (ps : List AuthPool) (name strategy visibility : Text)
      → exempt (trim_space p.id) ≡ true
      → Grows exempt ps (put_pool (saved_row lower p (trim_space p.id) name strategy visibility) ps)
  saved_row-exempt p ps name strategy visibility out =
      put_pool-Grows exempt (saved_row lower p (trim_space p.id) name strategy visibility) ps
        (λ listed n may. absurd (ground arith))

  save_local_auth_pool-Grows :
      (p : AuthPool) (ps saved : List AuthPool)
      → OmitsOrExempt lower exempt p
      → save_local_auth_pool lower p ps ≡ ok saved
      → Grows exempt ps saved
  unfolding save_local_auth_pool
  save_local_auth_pool-Grows p ps saved omits h =
      elim (if-eq-ok (is_empty (trim_space p.id) || is_empty (trim_space p.name)) (ok ps) _ h) [
        | inl same ↦ Grows-eq exempt ps ps saved (ok-injective same) (λ q listed n may. may)
        | inr done ↦
            let id = trim_space p.id in
            let name = trim_space p.name in
            let seen =
              normalize_auth_pool_visibility lower (visibility_to_save lower p ps)
                p.allowed_user_ids in
            let put : Text → Text → Result (List AuthPool) =
              λ s v. ok (put_pool (saved_row lower p id name s v) ps) in
            let strategy =
              >>=-eq-ok (normalize_auth_pool_scheduling_strategy lower p.scheduling_strategy)
                (λ s. then_do (put s) seen) done in
            let visibility = >>=-eq-ok seen (put strategy.0) (strategy.2) in
            Grows-eq exempt ps _ saved (ok-injective visibility.2) (elim omits [
              | inl omitted ↦ saved_row-Grows p ps name strategy.0 visibility.0 omitted visibility.1
              | inr out ↦ saved_row-exempt p ps name strategy.0 visibility.0 out
            ])
      ]

  continue_save-Grows :
      (next : List AuthPool → List AuthPool × Result (Unit {0})) (ps : List AuthPool)
      (r : Result (List AuthPool))
      → ((saved : List AuthPool) → r ≡ ok saved → Grows exempt ps saved)
      → ((qs : List AuthPool) → Grows exempt qs (next qs).0)
      → Grows exempt ps (continue_save lower next ps r).0
  continue_save-Grows next ps (err e) one more = λ q listed n may. may
  continue_save-Grows next ps (ok saved) one more =
      λ q listed n may. more saved q listed n (one saved refl q listed n may)

  -- What the plugin lists without a visibility leaves every pool open to those it was open to, but
  -- for the pools that are left out.
  pub save_local_auth_pools-Grows :
      (listed ps : List AuthPool)
      → All (OmitsOrExempt lower exempt) listed
      → Grows exempt ps (save_local_auth_pools lower listed ps).0
  save_local_auth_pools-Grows [] ps omits = λ q b n may. may
  save_local_auth_pools-Grows (p ∷ rest) ps omits =
      continue_save-Grows (save_local_auth_pools lower rest) ps (save_local_auth_pool lower p ps)
        (λ saved h. save_local_auth_pool-Grows p ps saved omits.0 h)
        (λ qs. save_local_auth_pools-Grows rest qs omits.1)
