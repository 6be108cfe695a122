-- ===== src/AuthPools/Users.antt =====
-- backend/internal/app/auth_pools.go: what `normalizeAuthPoolUserIDs` makes of a list of user IDs.
use cpa_helper_s.Prelude.{
  ◌≡◌, refl, true, false, not, ◌&&◌, ◌||◌, List, [], ◌∷◌, arith, inl, inr, ◌∙◌, Bool-cases, All,
}
use cpa_helper_s.Prelude.Int.{ℤ, ltb_ℤ}
use cpa_helper_s.AuthPools.{
  same_int, auth_pool_user_id_allowed, insert_int, sort_ints, is_positive, new_user_ids,
  normalize_auth_pool_user_ids,
}

-- Each is less than all that follow.
abbrev pub Ascending : List ℤ → Type 0
Ascending [] = Unit
Ascending (a ∷ rest) = All (λ b. ltb_ℤ a b ≡ true) rest × Ascending rest

pub same_int_eq : (a b : ℤ) → same_int a b ≡ true → a ≡ b
unfolding same_int
same_int_eq a b h = ground arith

allowed-same :
    (a u : ℤ) (rs : List ℤ)
    → same_int a u ≡ true
    → auth_pool_user_id_allowed rs u ≡ auth_pool_user_id_allowed rs a
allowed-same a u rs h = rw (same_int_eq a u h) refl

positive-same : (a u : ℤ) → same_int a u ≡ true → is_positive u ≡ is_positive a
positive-same a u h = rw (same_int_eq a u h) refl

insert_int-allowed :
    (a u : ℤ) (rs : List ℤ)
    → auth_pool_user_id_allowed (insert_int a rs) u
      ≡ (same_int a u || auth_pool_user_id_allowed rs u)
unfolding auth_pool_user_id_allowed
insert_int-allowed a u [] = refl
insert_int-allowed a u (b ∷ rs) = elim (Bool-cases (ltb_ℤ b a)) [
  | inl e ↦ rw (insert_int, e) (ground (arith, insert_int-allowed a u rs))
  | inr e ↦ rw (insert_int, e) refl
]

sort_ints-allowed :
    (u : ℤ) (rs : List ℤ)
    → auth_pool_user_id_allowed (sort_ints rs) u ≡ auth_pool_user_id_allowed rs u
unfolding auth_pool_user_id_allowed
sort_ints-allowed u [] = refl
sort_ints-allowed u (a ∷ rs) =
    ground (arith, insert_int-allowed a u (sort_ints rs), sort_ints-allowed u rs)

new_user_ids-allowed :
    (u : ℤ) (seen rs : List ℤ)
    → (auth_pool_user_id_allowed (new_user_ids seen rs) u || auth_pool_user_id_allowed seen u)
      ≡ (is_positive u && auth_pool_user_id_allowed rs u || auth_pool_user_id_allowed seen u)
unfolding auth_pool_user_id_allowed new_user_ids
new_user_ids-allowed u seen [] = ground arith
new_user_ids-allowed u seen (a ∷ rs) =
    elim (Bool-cases (not (is_positive a) || auth_pool_user_id_allowed seen a)) [
      | inl e ↦
          rw e (
            ground
              (arith, new_user_ids-allowed u seen rs, allowed-same a u seen, positive-same a u))
      | inr e ↦ rw e (ground (arith, new_user_ids-allowed u (a ∷ seen) rs, positive-same a u))
    ]

-- What was seen is not taken again.
new_user_ids-new :
    (u : ℤ) (seen rs : List ℤ)
    → auth_pool_user_id_allowed seen u ≡ true
    → auth_pool_user_id_allowed (new_user_ids seen rs) u ≡ false
unfolding auth_pool_user_id_allowed new_user_ids
new_user_ids-new u seen [] h = refl
new_user_ids-new u seen (a ∷ rs) h =
    elim (Bool-cases (not (is_positive a) || auth_pool_user_id_allowed seen a)) [
      | inl e ↦ rw e (new_user_ids-new u seen rs h)
      | inr e ↦ rw e (ground (arith, new_user_ids-new u (a ∷ seen) rs, allowed-same a u seen))
    ]

abbrev DistinctInts : List ℤ → Type 0
DistinctInts [] = Unit
DistinctInts (a ∷ rest) = (auth_pool_user_id_allowed rest a ≡ false) × DistinctInts rest

same_int_refl : (a : ℤ) → same_int a a ≡ true
unfolding same_int
same_int_refl a = ground arith

new_user_ids-DistinctInts : (seen rs : List ℤ) → DistinctInts (new_user_ids seen rs)
unfolding auth_pool_user_id_allowed new_user_ids
new_user_ids-DistinctInts seen [] = tt
new_user_ids-DistinctInts seen (a ∷ rs) =
    elim (Bool-cases (not (is_positive a) || auth_pool_user_id_allowed seen a)) [
      | inl e ↦ rw e (new_user_ids-DistinctInts seen rs)
      | inr e ↦ rw e (
        new_user_ids-new a (a ∷ seen) rs (rw (same_int_refl a) refl),
        new_user_ids-DistinctInts (a ∷ seen) rs,
      )
    ]

-- `sort.Ints` on a list without repetitions.
All-insert_int :
    (a b : ℤ) (rs : List ℤ)
    → ltb_ℤ b a ≡ true
    → All (λ c. ltb_ℤ b c ≡ true) rs
    → All (λ c. ltb_ℤ b c ≡ true) (insert_int a rs)
All-insert_int a b [] h all = (h, tt)
All-insert_int a b (c ∷ rs) h all = elim (Bool-cases (ltb_ℤ c a)) [
  | inl e ↦ rw (insert_int, e) (all.0, All-insert_int a b rs h all.1)
  | inr e ↦ rw (insert_int, e) (h, all)
]

All-below :
    (a b : ℤ) (rs : List ℤ)
    → ltb_ℤ a b ≡ true
    → All (λ c. ltb_ℤ b c ≡ true) rs
    → All (λ c. ltb_ℤ a c ≡ true) rs
All-below a b [] h all = tt
All-below a b (c ∷ rs) h all = (ground arith, All-below a b rs h all.1)

ltb_ℤ_of_distinct : (a b : ℤ) → ltb_ℤ b a ≡ false → same_int b a ≡ false → ltb_ℤ a b ≡ true
unfolding same_int
ltb_ℤ_of_distinct a b h n = ground arith

insert_int-Ascending :
    (a : ℤ) (rs : List ℤ)
    → Ascending rs
    → auth_pool_user_id_allowed rs a ≡ false
    → Ascending (insert_int a rs)
unfolding auth_pool_user_id_allowed
insert_int-Ascending a [] up new = (tt, tt)
insert_int-Ascending a (b ∷ rs) up new = elim (Bool-cases (ltb_ℤ b a)) [
  | inl e ↦
      rw (insert_int, e)
        (All-insert_int a b rs e up.0, insert_int-Ascending a rs up.1 (ground arith))
  | inr e ↦
      let less = ltb_ℤ_of_distinct a b e (ground arith) in
      rw (insert_int, e) ((less, All-below a b rs less up.0), up)
]

sort_ints-Ascending : (rs : List ℤ) → DistinctInts rs → Ascending (sort_ints rs)
sort_ints-Ascending [] d = tt
sort_ints-Ascending (a ∷ rs) d =
    insert_int-Ascending a (sort_ints rs) (sort_ints-Ascending rs d.1)
      (sort_ints-allowed a rs ∙ d.0)

-- The user IDs of a list come out in strictly ascending order, and an ID is among them if it is
-- positive and in the list.
pub normalize_auth_pool_user_ids_lem :
    (ids : List ℤ) (user : ℤ)
    → Ascending (normalize_auth_pool_user_ids ids)
      × (auth_pool_user_id_allowed (normalize_auth_pool_user_ids ids) user
          ≡ (is_positive user && auth_pool_user_id_allowed ids user))
unfolding normalize_auth_pool_user_ids auth_pool_user_id_allowed
normalize_auth_pool_user_ids_lem ids user = (
  sort_ints-Ascending (new_user_ids [] ids) (new_user_ids-DistinctInts [] ids),
  sort_ints-allowed user (new_user_ids [] ids) ∙ ground (arith, new_user_ids-allowed user [] ids),
)
