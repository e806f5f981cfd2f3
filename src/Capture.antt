-- ===== src/Capture.antt =====
-- internal/capture/scrub.go: what is redacted before anything captured is written.
pub mod Scrubbed
use tortureu.Base.{
  ℕ, zero, suc, ◌+◌, ◌-◌, String, Bool, true, false, List, [], ◌∷◌, ◌++◌, Option, none, some, ◌==◌,
  ◌&&◌, ◌||◌, not, Dict, contains, leb, eqb, length, map, if◌then◌else◌,
}
use tortureu.Base.Decimal.{append_text}
use tortureu.Base.Strings.{lower_ascii, lower_char, upper_char}
use tortureu.Base.Text.{codes, fold_case}
use Prim.Native.Char.{code}
use Prim.Native.String
use tortureu.Value.{Value, Items, Fields, str, seq, obj, nil, cons, end, field}

unfoldable pub redacted : String
redacted = "[SCRUBBED]"

unfoldable pub sensitive_headers : List String
sensitive_headers =
    "Authorization" ∷ "Proxy-Authorization" ∷ "Cookie" ∷ "Set-Cookie" ∷ "X-Api-Key" ∷ "X-Auth-Token"
    ∷ "X-Access-Token" ∷ "X-Csrf-Token" ∷ "X-Session-Token" ∷ "X-Amz-Security-Token" ∷ []

unfoldable pub sensitive_fields : List String
sensitive_fields =
    "password" ∷ "passwd" ∷ "pass" ∷ "secret" ∷ "token" ∷ "access_token" ∷ "refresh_token"
    ∷ "id_token" ∷ "api_key" ∷ "apikey" ∷ "client_secret" ∷ "private_key" ∷ "authorization"
    ∷ "session" ∷ "ssn" ∷ "credit_card" ∷ []

unfoldable pub normalize_key : String → String
unfolding lower_ascii
normalize_key k = lower_ascii k

abbrev pub is_sensitive : String → Bool
is_sensitive k = contains sensitive_fields (normalize_key k)

-- a byte of a header's name, RFC 7230's tchar
abbrev pub is_token : ℕ → Bool
is_token c =
    leb b'a' c && leb c b'z'
    || leb b'A' c && leb c b'Z'
    || leb b'0' c && leb c b'9'
    || eqb c b'!'
    || leb b'#' c && leb c b'\''
    || eqb c b'*'
    || eqb c b'+'
    || eqb c b'-'
    || eqb c b'.'
    || leb b'^' c && leb c b'`'
    || eqb c b'|'
    || eqb c b'~'

abbrev all_tokens : String → Bool
all_tokens String.[] = true
all_tokens (String.◌∷◌ c s) = is_token (code c) && all_tokens s

unfoldable pub capitalized : Bool → String → String
unfolding upper_char lower_char
capitalized up String.[] = ""
capitalized up (String.◌∷◌ c s) =
    append_text (if up then upper_char c else lower_char c) (capitalized (eqb (code c) b'-') s)

-- http.CanonicalHeaderKey
unfoldable pub canonical_header_key : String → String
unfolding capitalized
canonical_header_key k = if all_tokens k then capitalized true k else k

unfoldable pub scrub_header : Dict (List String) → Dict (List String)
unfolding canonical_header_key
scrub_header [] = []
scrub_header ((k, vs) ∷ h) =
    if contains sensitive_headers (canonical_header_key k)
    then (k, redacted ∷ []) ∷ scrub_header h
    else (k, vs) ∷ scrub_header h

unfoldable mutual
  unfolding redacted normalize_key sensitive_fields

  pub scrub_value : Value → Value
  scrub_value (obj fs) = obj (scrub_fields fs)
  scrub_value (seq xs) = seq (scrub_items xs)
  scrub_value v = v

  pub scrub_items : Items → Items
  scrub_items nil = nil
  scrub_items (cons x xs) = cons (scrub_value x) (scrub_items xs)

  pub scrub_fields : Fields → Fields
  scrub_fields end = end
  scrub_fields (field k v fs) =
      if is_sensitive k
      then field k (str redacted) (scrub_fields fs)
      else field k (scrub_value v) (scrub_fields fs)
