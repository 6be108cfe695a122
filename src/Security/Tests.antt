-- ===== src/Security/Tests.antt =====
-- A codec that writes bytes shifted past the dot, and the theorems at it.
use cpa_helper_s.Prelude.{
  ◌+◌, ◌-◌, ◌≡◌, refl, false, Option, none, some, [], ◌∷◌, ◌++◌, ◌==◌, if◌then◌else◌, map, contains,
  arith,
}
use cpa_helper_s.Prelude.Int.{ℤ, pos, negsuc}
use cpa_helper_s.Prelude.Text.{Text, codes, text_eq, trim_space}
use cpa_helper_s.Security.{
  number, string, Payload, Codec, field, read_session_token, as_user, chain, create_session_token,
  mask_secret, dot,
}
use cpa_helper_s.Security.Sessions.{
  IsCodec, IsSigned, create-read_session_token, read_session_token-IsSigned,
}

abbrev shift : Text → Text
shift b = map (λ x. x + 47) b

abbrev shift_back : Text → Text
shift_back b = map (λ x. x - 47) b

abbrev tiny_marshal : Payload → Option Text
tiny_marshal ((k, string sub) ∷ (l, typ) ∷ (m, number (pos n)) ∷ []) = some (n ∷ sub)
tiny_marshal _ = none

abbrev tiny_unmarshal : Text → Option Payload
tiny_unmarshal [] = none
tiny_unmarshal (n ∷ sub) = some (
    (codes "sub", string sub)
    ∷ (codes "typ", string (codes "user_id"))
    ∷ (codes "exp", number (pos n))
    ∷ [])

abbrev tiny_itoa : ℤ → Text
tiny_itoa (pos n) = 0 ∷ n ∷ []
tiny_itoa (negsuc n) = 1 ∷ n ∷ []

abbrev tiny_atoi : Text → Option ℤ
tiny_atoi (s ∷ n ∷ []) = some (if s == 0 then pos n else negsuc n)
tiny_atoi _ = none

abbrev tiny : Codec
tiny = record {
  hmac = λ secret s. secret ++ s;
  raw_encode = shift;
  raw_decode = λ b. some (shift_back b);
  url_decode = λ b. none;
  marshal = tiny_marshal;
  unmarshal = tiny_unmarshal;
  itoa = tiny_itoa;
  atoi = tiny_atoi;
}

shift-no_dot : (b : Text) → contains dot (shift b) ≡ false
shift-no_dot [] = refl
shift-no_dot (x ∷ b) = ground (arith, shift-no_dot b)

shift_back-shift : (b : Text) → shift_back (shift b) ≡ b
shift_back-shift [] = refl
shift_back-shift (x ∷ b) = ground (arith, shift_back-shift b)

tiny_written : (n : ℤ) → tiny_atoi (tiny_itoa n) ≡ some n
tiny_written (pos n) = refl
tiny_written (negsuc n) = refl

tiny-IsCodec : IsCodec tiny
tiny-IsCodec = record {
  no_dot = shift-no_dot;
  encoded = λ b. rw (shift_back-shift b) refl;
  marshalled = λ now user early. (_, _, refl, refl, λ key. refl);
  written = λ n small. tiny_written n;
}

create-read_session_token_example :
    chain
      (create_session_token tiny 1000 (pos 7) (codes "key"))
      (λ t. read_session_token tiny 605800 t (codes "key"))
    ≡ some (as_user (pos 7))
create-read_session_token_example =
    create-read_session_token tiny tiny-IsCodec 1000 605800 (pos 7) (codes "key") (omega arith)
      (omega arith)

-- After seven days the same token is refused, and under another secret it always is.
expires :
    chain
      (create_session_token tiny 1000 (pos 7) (codes "key"))
      (λ t. read_session_token tiny 605801 t (codes "key"))
    ≡ none
unfolding create_session_token read_session_token field text_eq
expires = refl

other_secret :
    chain
      (create_session_token tiny 1000 (pos 7) (codes "key"))
      (λ t. read_session_token tiny 1001 t (codes "kex"))
    ≡ none
unfolding create_session_token read_session_token field text_eq
other_secret = refl

masked : mask_secret (some (codes " sk-1234567890 ")) ≡ codes "sk-123...7890"
unfolding mask_secret trim_space text_eq
masked = refl

abbrev token : Text
token = shift (1600 ∷ 0 ∷ 7 ∷ []) ++ dot ∷ shift (codes "key" ++ shift (1600 ∷ 0 ∷ 7 ∷ []))

accepts : read_session_token tiny 1600 token (codes "key") ≡ some (as_user (pos 7))
unfolding read_session_token field text_eq
accepts = refl

read_session_token-IsSigned_example : IsSigned tiny 1600 token (codes "key")
read_session_token-IsSigned_example =
    read_session_token-IsSigned tiny 1600 token (codes "key") (as_user (pos 7)) accepts
