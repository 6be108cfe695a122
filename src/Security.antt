-- ===== src/Security.antt =====
-- backend/internal/security/security.go: session tokens and masked secrets. A text is a list of
-- bytes. HMAC-SHA256, base64, JSON and the decimal form of an integer are the fields of `Codec`,
-- with what the code relies on in `IsCodec`.
pub mod Sessions
mod Tests
use cpa_helper_s.Prelude.{
  ℕ, ◌+◌, ◌-◌, ◌*◌, ◌≡◌, ◌<◌, ◌^◌, Bool, true, false, not, ◌&&◌, Option, none, some, List, [], ◌∷◌,
  ◌++◌, ltb, leb, ◌==◌, if◌then◌else◌, length, take, drop,
}
use cpa_helper_s.Prelude.Int.{ℤ, pos, negsuc}
use cpa_helper_s.Prelude.Text.{Text, codes, text_eq, is_empty, trim_space}

-- A JSON value, as far as a session needs it: a number as `int64` takes it.
pub data Json : Type 0 where
  number : ℤ → Json
  string : Text → Json
  other : Json

abbrev pub Payload : Type 0
Payload = List (Text × Json)

pub record Codec : Type 0 where
  pub hmac : Text → Text → Text
  pub raw_encode : Text → Text
  pub raw_decode : Text → Option Text
  pub url_decode : Text → Option Text
  pub marshal : Payload → Option Text
  pub unmarshal : Text → Option Payload
  pub itoa : ℤ → Text
  pub atoi : Text → Option ℤ

pub record Identity : Type 0 where
  pub user_id : Option ℤ
  pub username : Option Text

abbrev pub dot : ℕ
dot = b'.'

abbrev pub session_max_age_seconds : ℕ
session_max_age_seconds = 60 * 60 * 24 * 7

-- `strings.SplitN(token, ".", 2)`, none where it has no dot.
abbrev pub before : ℕ → Option (Text × Text) → Option (Text × Text)
before c none = none
before c (some p) = some (c ∷ p.0, p.1)

unfoldable pub split_dot : Text → Option (Text × Text)
split_dot [] = none
split_dot (c ∷ cs) = if c == dot then some ([], cs) else before c (split_dot cs)

-- `payload[key]`.
unfoldable pub field : Text → Payload → Option Json
field key [] = none
field key (entry ∷ rest) = if text_eq entry.0 key then some entry.1 else field key rest

abbrev pub as_string : Option Json → Text
as_string (some (string s)) = s
as_string _ = []

abbrev pub as_number : Option Json → Option ℤ
as_number (some (number n)) = some n
as_number _ = none

-- `time.Now().Unix() > int64(exp)` does not hold.
abbrev pub lasts : ℕ → Option ℤ → Bool
lasts now none = false
lasts now (some (negsuc n)) = false
lasts now (some (pos n)) = leb now n

abbrev pub or_try {ℓ} : {A : Type ℓ} → Option A → Option A → Option A
or_try none b = b
or_try (some a) b = some a

unfoldable pub decode : Codec → Text → Option Text
decode c s = or_try (c.raw_decode s) (c.url_decode s)

abbrev pub same_bytes : Option Text → Text → Bool
same_bytes none expected = false
same_bytes (some actual) expected = text_eq actual expected

abbrev pub chain {ℓ κ} : {A : Type ℓ} {B : Type κ} → Option A → (A → Option B) → Option B
chain none next = none
chain (some a) next = next a

abbrev pub as_user : ℤ → Identity
as_user n = record { user_id = some n; username = none }

unfoldable pub payload_identity : Codec → Payload → Option Identity
unfolding field
payload_identity c payload =
    let sub = as_string (field (codes "sub") payload) in
    if text_eq (as_string (field (codes "typ") payload)) (codes "user_id")
    then chain (c.atoi sub) (λ n. some (as_user n))
    else if is_empty sub
    then none
    else some (record { user_id = none; username = some sub })

unfoldable pub read_payload : Codec → ℕ → Payload → Option Identity
unfolding field payload_identity
read_payload c now payload =
    if lasts now (as_number (field (codes "exp") payload)) then payload_identity c payload else none

unfoldable pub read_parts : Codec → ℕ → Text → Text × Text → Option Identity
unfolding decode read_payload
read_parts c now secret parts =
    if same_bytes (decode c parts.1) (c.hmac secret parts.0)
    then chain (decode c parts.0) (λ bytes. chain (c.unmarshal bytes) (read_payload c now))
    else none

unfoldable pub read_session_token : Codec → ℕ → Text → Text → Option Identity
unfolding split_dot read_parts
read_session_token c now token secret = chain (split_dot token) (read_parts c now secret)

abbrev pub session_payload : Codec → ℕ → ℤ → Payload
session_payload c now user =
    (codes "sub", string (c.itoa user))
    ∷ (codes "typ", string (codes "user_id"))
    ∷ (codes "exp", number (pos (now + session_max_age_seconds)))
    ∷ []

unfoldable pub signed : Codec → Text → Text → Text
signed c secret bytes =
    let part = c.raw_encode bytes in part ++ dot ∷ c.raw_encode (c.hmac secret part)

unfoldable pub create_session_token : Codec → ℕ → ℤ → Text → Option Text
unfolding signed
create_session_token c now user secret =
    chain (c.marshal (session_payload c now user)) (λ bytes. some (signed c secret bytes))

-- `MaskSecret`, of a secret that may be nil.
abbrev pub unknown : Text
unknown = codes "unknown"

abbrev pub last_bytes : ℕ → Text → Text
last_bytes n s = drop (length s - n) s

unfoldable pub mask_normalized : Text → Text
mask_normalized s =
    if is_empty s
    then unknown
    else if text_eq s unknown
    then unknown
    else if leb (length s) 4
    then codes "****"
    else if leb (length s) 8
    then take 1 s ++ codes "..." ++ last_bytes 1 s
    else take 6 s ++ codes "..." ++ last_bytes 4 s

unfoldable pub mask_secret : Option Text → Text
unfolding mask_normalized
mask_secret none = unknown
mask_secret (some s) = mask_normalized (trim_space s)
