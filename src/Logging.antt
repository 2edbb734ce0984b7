-- ===== src/Logging.antt =====
-- packages/shared/src/utils/Logger.ts: what a log line shows of its fields. The writing of the line
-- is a third-party package's.
pub mod Masks
mod Tests
use Prim.Native.String
use Prim.Native.String.{[], ◌∷◌}
use aws_access_bridge.Base.{
  ℕ, String, Option, none, some, List, [], ◌∷◌, Bool, true, false, ◌||◌, ◌==◌, any, nat_eq,
  if◌then◌else◌,
}
use aws_access_bridge.Arn.{strip_prefix}
use aws_access_bridge.Identity.Address.{lower}

abbrev pub redacted : String
redacted = "[REDACTED]"

abbrev pub redacted_key_fragments : List String
redacted_key_fragments =
    "secret" ∷ "password" ∷ "passwd" ∷ "token" ∷ "authorization" ∷ "auth_token" ∷ "authheader"
    ∷ "auth_header" ∷ "signature" ∷ "apikey" ∷ "api_key" ∷ "credential" ∷ "privatekey"
    ∷ "private_key" ∷ "sessionkey" ∷ "session_key" ∷ "cookie" ∷ []

-- The patterns, with the flags `g`, `g` and `gi`.
abbrev pub secret_value_patterns : List String
secret_value_patterns =
    "\\b(?:AKIA|ASIA|AIDA|AROA|ANPA|ABIA|ACCA)[0-9A-Z]{16}\\b"
    ∷ "\\beyJ[\\w-]{5,}\\.[\\w-]{5,}\\.[\\w-]{5,}" ∷ "\\b[A-F0-9]{40,}\\b" ∷ []

abbrev is_there : Option String → Bool
is_there none = false
is_there (some s) = true

-- `s.includes(fragment)`
unfoldable pub includes : String → String → Bool
unfolding strip_prefix
includes fragment [] = fragment == ""
includes fragment (c ∷ s) = is_there (strip_prefix fragment (c ∷ s)) || includes fragment s

unfoldable pub is_secret_key : String → Bool
is_secret_key key = any (λ fragment. includes fragment (lower key)) redacted_key_fragments

-- What a call site hands over. A scalar is a number, a Boolean, null or undefined, as it is
-- written; an object has an identity, and an error its message.
mutual
  pub data Value : Type 0 where
    string : String → Value
    scalar : String → Value
    array : Values → Value
    error_value : String → Value
    object : ℕ → Fields → Value

  pub data Values : Type 0 where
    empty_array : Values
    and_value : Value → Values → Values

  pub data Fields : Type 0 where
    empty_object : Fields
    field : String → Value → Fields → Fields

-- What reaches the line.
mutual
  pub data Safe : Type 0 where
    safe_string : String → Safe
    safe_scalar : String → Safe
    safe_array : SafeValues → Safe
    safe_object : SafeFields → Safe

  pub data SafeValues : Type 0 where
    empty_safe_array : SafeValues
    and_safe_value : Safe → SafeValues → SafeValues

  pub data SafeFields : Type 0 where
    empty_safe_object : SafeFields
    safe_field : String → Safe → SafeFields → SafeFields

abbrev circular : SafeFields
circular = safe_field "note" (safe_string "[CIRCULAR]") empty_safe_object

-- `{ ...context, ...fields }`
unfoldable pub put_field : String → Value → Fields → Fields
put_field key value empty_object = field key value empty_object
put_field key value (field k v rest) =
    let other = put_field key value rest in if k == key then field k value rest else field k v other

unfoldable pub spread : Fields → Fields → Fields
spread context empty_object = context
spread context (field k v rest) = spread (put_field k v context) rest

abbrev has_seen : ℕ → List ℕ → Bool
has_seen identity = any (λ i. nat_eq i identity)

-- `replace_all` puts the mark in place of each match of a pattern: the engine of regular expressions.
module _ (replace_all : String → String → String) where
  abbrev replace_each : List String → String → String
  replace_each [] text = text
  replace_each (pattern ∷ patterns) text = replace_each patterns (replace_all pattern text)

  unfoldable pub redact_message : String → String
  redact_message = replace_each secret_value_patterns

  -- The second argument and result are `seen`, by identity.
  unfoldable mutual
    unfolding redact_message

    pub redact_value : Value → List ℕ → Safe × List ℕ
    redact_value (string s) seen = (safe_string (redact_message s), seen)
    redact_value (scalar s) seen = (safe_scalar s, seen)
    redact_value (array values) seen =
        let (entries, later) = redact_values values seen in (safe_array entries, later)
    redact_value (error_value message) seen = (safe_string message, seen)
    redact_value (object identity fields) seen =
        let (entries, later) = redact_entries fields (identity ∷ seen) in
        if has_seen identity seen
        then (safe_object circular, seen)
        else (safe_object entries, later)

    pub redact_values : Values → List ℕ → SafeValues × List ℕ
    redact_values empty_array seen = (empty_safe_array, seen)
    redact_values (and_value value values) seen =
        let (first, after) = redact_value value seen in
        let (others, later) = redact_values values after in (and_safe_value first others, later)

    pub redact_entries : Fields → List ℕ → SafeFields × List ℕ
    redact_entries empty_object seen = (empty_safe_object, seen)
    redact_entries (field key value fields) seen =
        let hidden = redact_entries fields seen in
        let (shown, after) = redact_value value seen in
        let visible = redact_entries fields after in
        if is_secret_key key
        then (safe_field key (safe_string redacted) hidden.0, hidden.1)
        else (safe_field key shown visible.0, visible.1)

  -- The message and the fields of the line, of a logger with a bound context.
  unfoldable pub log_line : Fields → String → Fields → String × SafeFields
  log_line context message fields =
      (redact_message message, (redact_entries (spread context fields) []).0)
