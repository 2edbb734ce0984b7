-- ===== src/AssumeRole/Sts.antt =====
-- `assumeRole` of packages/provider-clients/src/aws/StsClient.ts, and `parseXmlTag` of AwsSignedFetcher.ts
-- beside it. The signed fetch is a parameter.
pub mod Laws
use Prim.Native.Char.{Char, code}
use Prim.Native.String
use Prim.Native.String.{[], ◌∷◌}
use aws_access_bridge.Base.{
  ℕ, ◌≤◌, ◌≡◌, String, Option, none, some, List, [], ◌∷◌, Bool, true, false, not, ◌&&◌, ◌||◌, min,
  nat_eq, is_set, present, text_or_empty, if◌then◌else◌, arith,
}
use aws_access_bridge.Base.Errors.{Result, ok, err, forbidden, unauthorized, internal_server, ◌>>=◌}
use aws_access_bridge.Arn.{strip_prefix}
use aws_access_bridge.Credential.Model.{AccessKeys}

pub record StsRequest : Type 0 where
  pub keys : AccessKeys
  pub role_arn : String
  pub session_name : String
  pub duration_seconds : ℕ

pub record StsResponse : Type 0 where
  pub success : Bool
  pub status : ℕ
  pub body : String

-- A role that is assumed from a session may last an hour at most.
unfoldable pub max_duration_seconds : AccessKeys → ℕ
max_duration_seconds k = if present k.session_token then 3600 else 43200

unfoldable pub effective_duration_seconds : AccessKeys → Option ℕ → ℕ
unfolding max_duration_seconds
effective_duration_seconds k none = min (max_duration_seconds k) (max_duration_seconds k)
effective_duration_seconds k (some d) = min d (max_duration_seconds k)

-- `[^<]+`: what comes before the first `<`, and the rest.
abbrev pub before_angle : String → String × String
before_angle [] = ("", "")
before_angle (c ∷ s) =
    let rest = before_angle s in if nat_eq (code c) b'<' then ("", c ∷ s) else (c ∷ rest.0, rest.1)

-- The content of an element that starts here.
unfoldable pub tag_here : String → String → Option String
tag_here tag s = elim (strip_prefix (String.◌++◌ "<" (String.◌++◌ tag ">")) s) [
  | none ↦ none
  | some rest ↦
      let (text, after) = before_angle rest in
      elim (strip_prefix (String.◌++◌ "</" (String.◌++◌ tag ">")) after) [
        | none ↦ none
        | some end ↦ if is_set text then some text else none
      ]
]

abbrev pub or_else : Option String → Option String → Option String
or_else none o = o
or_else (some s) o = some s

-- The first match of `<tag>([^<]+)</tag>`.
unfoldable pub parse_xml_tag : String → String → Option String
parse_xml_tag tag [] = none
parse_xml_tag tag (c ∷ s) = or_else (tag_here tag (c ∷ s)) (parse_xml_tag tag s)

abbrev sts_failed : String
sts_failed =
    "We could not sign you in due to a permissions issue. Please try again later or contact support if the problem continues."

abbrev sts_unparsed : String
sts_unparsed = "Unable to parse temporary credentials from STS AssumeRole response."

-- The four tags, all there.
unfoldable pub keys_of :
    Option String → Option String → Option String → Option String → Result AccessKeys
keys_of (some a) (some b) (some t) (some e) = ok (record {
  access_key_id = a;
  secret_access_key = b;
  session_token = some t;
  expiration = some e;
})
keys_of a b t e = err (internal_server sts_unparsed)

module _ (fetch : StsRequest → Result StsResponse) where
  unfoldable pub assume_role : String → AccessKeys → String → Option ℕ → Result AccessKeys
  assume_role role_arn k session_name duration =
      fetch (record {
        keys = k;
        role_arn = role_arn;
        session_name = session_name;
        duration_seconds = effective_duration_seconds k duration;
      })
      >>= λ response.
          if not response.success && nat_eq response.status 403
          then err (forbidden sts_failed)
          else if not response.success
          then err (unauthorized sts_failed)
          else keys_of (parse_xml_tag "AccessKeyId" response.body)
              (parse_xml_tag "SecretAccessKey" response.body)
              (parse_xml_tag "SessionToken" response.body)
              (parse_xml_tag "Expiration" response.body)
