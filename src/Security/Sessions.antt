-- ===== src/Security/Sessions.antt =====
-- backend/internal/security/security.go: what a session token that was issued is read back as, and
-- what a token that is accepted must be.
use cpa_helper_s.Prelude.{
  ℕ, ◌+◌, ◌^◌, ◌≡◌, refl, ap, ◌∙◌, ◌<◌, ◌≤◌, inl, inr, Bool, true, false, Option, none, some, [],
  ◌∷◌, ◌++◌, leb, ◌==◌, if◌then◌else◌, arith, Bool-cases, Option-cases, contains,
}
use cpa_helper_s.Prelude.Int.{ℤ, pos, negsuc}
use cpa_helper_s.Prelude.Text.{Text, codes, text_eq, text_eq_refl, text_eq_iff}
use cpa_helper_s.Security.{
  Payload, Codec, Identity, field, split_dot, decode, read_payload, read_parts, read_session_token,
  as_user, chain, same_bytes, create_session_token, session_payload, session_max_age_seconds, dot,
  signed, lasts, as_number, before, payload_identity,
}

-- A Go `int`.
abbrev pub IsInt64 : ℤ → Type 0
IsInt64 (pos n) = n < 2 ^ 63
IsInt64 (negsuc n) = n < 2 ^ 63

-- What the code relies on: base64 text has no dot and decodes to what was encoded; a payload of two
-- strings and a number that a float64 holds is marshalled, and read back field by field; `Atoi`
-- reads what `Itoa` writes.
pub record IsCodec (c : Codec) : Type 0 where
  pub no_dot : (b : Text) → contains dot (c.raw_encode b) ≡ false
  pub encoded : (b : Text) → c.raw_decode (c.raw_encode b) ≡ some b
  pub marshalled :
      (now : ℕ) (user : ℤ)
      → now + session_max_age_seconds ≤ 2 ^ 53
      → (bytes : Text) × (payload : Payload) × (c.marshal (session_payload c now user) ≡ some bytes)
        × (c.unmarshal bytes ≡ some payload)
        × ((key : Text) → field key payload ≡ field key (session_payload c now user))
  pub written : (n : ℤ) → IsInt64 n → c.atoi (c.itoa n) ≡ some n

pub split_dot-append :
    (a b : Text) → contains dot a ≡ false → split_dot (a ++ dot ∷ b) ≡ some (a, b)
unfolding split_dot
split_dot-append [] b h = refl
split_dot-append (x ∷ a) b h = elim (Bool-cases (x == dot)) [
  | inl e ↦ absurd (ground arith)
  | inr e ↦ rw (e, split_dot-append a b (ground arith)) refl
]

split_dot_here :
    (x : ℕ) (t a b : Text)
    → (x == dot) ≡ true
    → split_dot (x ∷ t) ≡ some (a, b)
    → x ∷ t ≡ a ++ dot ∷ b
unfolding split_dot
split_dot_here x t [] b e h = ground arith
split_dot_here x t (y ∷ a) b e h = ground arith

split_dot_later :
    (x : ℕ) (t a b : Text) (p : Text × Text)
    → t ≡ p.0 ++ dot ∷ p.1
    → before x (some p) ≡ some (a, b)
    → x ∷ t ≡ a ++ dot ∷ b
split_dot_later x t a b p e h = ground arith

pub split_dot_sound : (t a b : Text) → split_dot t ≡ some (a, b) → t ≡ a ++ dot ∷ b
unfolding split_dot
split_dot_sound [] a b h = cc
split_dot_sound (x ∷ t) a b h = elim (Bool-cases (x == dot)) [
  | inl e ↦ split_dot_here x t a b e h
  | inr e ↦ elim (Option-cases (split_dot t)) [
    | inl n ↦ absurd (ground arith)
    | inr (p, f) ↦ split_dot_later x t a b p (split_dot_sound t p.0 p.1 f) (ground arith)
  ]
]

read_payload-session :
    (c : Codec) (law : IsCodec c) (now later : ℕ) (user : ℤ) (payload : Payload)
    → IsInt64 user
    → ((key : Text) → field key payload ≡ field key (session_payload c now user))
    → read_payload c later payload
      ≡ (if leb later (now + session_max_age_seconds) then some (as_user user) else none)
unfolding read_payload payload_identity field text_eq
read_payload-session c law now later user payload small same =
    rw (same (codes "exp"), same (codes "typ"), same (codes "sub"), law.written user small) refl

-- A signed part is read for its payload.
read-signed :
    (c : Codec) (law : IsCodec c) (later : ℕ) (secret bytes : Text) (payload : Payload)
    → c.unmarshal bytes ≡ some payload
    → read_session_token c later (signed c secret bytes) secret ≡ read_payload c later payload
unfolding read_session_token read_parts signed decode
read-signed c law later secret bytes payload known =
    let part = c.raw_encode bytes in
    let sum = c.hmac secret part in
    rw
      (
        split_dot-append part (c.raw_encode sum) (law.no_dot bytes),
        law.encoded sum,
        text_eq_refl sum,
        law.encoded bytes,
        known,
      )
      refl

-- A session that is issued at `now` for a user ID is read back as that user ID up to the end of
-- seven days, with the same secret, and not afterwards; the times are Unix seconds that a float64
-- holds, and base64, JSON and decimal numbers are read back as they were written.
pub create-read_session_token :
    (c : Codec) (law : IsCodec c) (now later : ℕ) (user : ℤ) (secret : Text)
    → IsInt64 user
    → now + session_max_age_seconds ≤ 2 ^ 53
    → chain (create_session_token c now user secret) (λ t. read_session_token c later t secret)
      ≡ (if leb later (now + session_max_age_seconds) then some (as_user user) else none)
unfolding create_session_token read_session_token
create-read_session_token c law now later user secret small early =
    let m = law.marshalled now user early in
    rw (m.2) (
      read-signed c law later secret m.0 m.1 m.3
      ∙ read_payload-session c law now later user m.1 small m.4)

-- A test that a chain of options passes.
chain-eq-some {ℓ κ} :
    {A : Type ℓ} {B : Type κ} {b : B} (o : Option A) (next : A → Option B)
    → chain o next ≡ some b
    → (a : A) × (o ≡ some a) × (next a ≡ some b)
chain-eq-some none next h = cc
chain-eq-some (some a) next h = (a, refl, h)

if-eq-some {ℓ} :
    {B : Type ℓ} {b : B} (t : Bool) (o : Option B)
    → (if t then o else none) ≡ some b
    → (t ≡ true) × (o ≡ some b)
if-eq-some true o h = (refl, h)
if-eq-some false o h = cc

same_bytes-eq : (o : Option Text) (t : Text) → same_bytes o t ≡ true → o ≡ some t
same_bytes-eq none t h = cc
same_bytes-eq (some a) t h = ap some ((text_eq_iff a t).0 h)

lasts-eq : (now : ℕ) (o : Option ℤ) → lasts now o ≡ true → (n : ℕ) × (o ≡ some (pos n)) × (now ≤ n)
lasts-eq now none h = cc
lasts-eq now (some (negsuc n)) h = cc
lasts-eq now (some (pos n)) h = (n, refl, ground arith)

-- Two parts around the first dot, the second of which decodes to the HMAC of the first under the
-- secret, and the first to a payload whose end is not before now.
abbrev pub IsSigned : Codec → ℕ → Text → Text → Type 0
IsSigned c now token secret =
    (part : Text) × (signature : Text) × (bytes : Text) × (payload : Payload) × (exp : ℕ) × (token
      ≡ part ++ dot ∷ signature)
    × (decode c signature ≡ some (c.hmac secret part))
    × (decode c part ≡ some bytes)
    × (c.unmarshal bytes ≡ some payload)
    × (as_number (field (codes "exp") payload) ≡ some (pos exp))
    × (now ≤ exp)

-- A token that is accepted has two parts around its first dot, the second of which decodes to the
-- HMAC of the first under the secret, and the first to a payload whose end is not before now.
pub read_session_token-IsSigned :
    (c : Codec) (now : ℕ) (token secret : Text) (who : Identity)
    → read_session_token c now token secret ≡ some who
    → IsSigned c now token secret
unfolding read_session_token read_parts read_payload
read_session_token-IsSigned c now token secret who h =
    let split = chain-eq-some (split_dot token) (read_parts c now secret) h in
    let parts = split.0 in
    let signed_ok = if-eq-some _ _ (split.2) in
    let bytes = chain-eq-some _ _ (signed_ok.1) in
    let payload = chain-eq-some _ (read_payload c now) (bytes.2) in
    let in_time = if-eq-some _ _ (payload.2) in
    let exp = lasts-eq now _ (in_time.0) in
    (
      parts.0,
      parts.1,
      bytes.0,
      payload.0,
      exp.0,
      split_dot_sound token parts.0 parts.1 split.1,
      same_bytes-eq _ _ (signed_ok.0),
      bytes.1,
      payload.1,
      exp.1,
      exp.2,
    )
