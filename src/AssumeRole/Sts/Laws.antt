-- ===== src/AssumeRole/Sts/Laws.antt =====
-- The keys that the STS client returns, and the sessions it asks for.
use Prim.Native.String
use Prim.Native.String.{[], ◌∷◌}
use aws_access_bridge.Base.{
  ℕ, ◌≤◌, ◌≡◌, refl, String, Option, none, some, Bool-cases, Option-cases, inl, inr, true, is_set,
  present, arith, subst,
}
use aws_access_bridge.Base.Errors.{Result, ok, >>=-eq-ok}
use aws_access_bridge.Arn.{strip_prefix}
use aws_access_bridge.Credential.Model.{AccessKeys}
use aws_access_bridge.AssumeRole.Sts.{
  StsRequest, StsResponse, max_duration_seconds, effective_duration_seconds, before_angle, tag_here,
  parse_xml_tag, keys_of, assume_role,
}

tag_here-set : (tag s t : String) → tag_here tag s ≡ some t → is_set t ≡ true
unfolding tag_here
tag_here-set tag s t e =
    elim (Option-cases (strip_prefix (String.◌++◌ "<" (String.◌++◌ tag ">")) s)) [
      | inl f ↦ cc (rw (tag_here, f) at e)
      | inr (rest, f) ↦
          elim (Option-cases
            (strip_prefix (String.◌++◌ "</" (String.◌++◌ tag ">")) (before_angle rest).1)) [
              | inl g ↦ cc (rw (tag_here, f, g) at e)
              | inr (end, g) ↦ elim (Bool-cases (is_set (before_angle rest).0)) [
                | inl h ↦
                    let q = rw (tag_here, f, g, h) at e in subst (λ u. is_set u ≡ true) (cc q) h
                | inr h ↦ cc (rw (tag_here, f, g, h) at e)
              ]
            ]
    ]

parse_xml_tag-set : (tag s t : String) → parse_xml_tag tag s ≡ some t → is_set t ≡ true
unfolding parse_xml_tag
parse_xml_tag-set tag [] t e = cc
parse_xml_tag-set tag (c ∷ s) t e = elim (Option-cases (tag_here tag (c ∷ s))) [
  | inl f ↦ parse_xml_tag-set tag s t (rw f at e)
  | inr (u, f) ↦ tag_here-set tag (c ∷ s) t (cc (rw f at e, f))
]

-- Keys with a session token and an expiration, and no field empty.
abbrev pub IsSession : AccessKeys → Type 0
IsSession k =
    (is_set k.access_key_id ≡ true)
    × (is_set k.secret_access_key ≡ true)
    × (present k.session_token ≡ true)
    × (present k.expiration ≡ true)

abbrev Checked : Option String → Type 0
Checked o = (u : String) → o ≡ some u → is_set u ≡ true

keys_of-IsSession :
    (a b t e : Option String) (k : AccessKeys)
    → Checked a
    → Checked b
    → Checked t
    → Checked e
    → keys_of a b t e ≡ ok k
    → IsSession k
unfolding keys_of
keys_of-IsSession (some a) (some b) (some t) (some e) k ha hb ht he q =
    let parsed : AccessKeys = record {
      access_key_id = a;
      secret_access_key = b;
      session_token = some t;
      expiration = some e;
    } in
    let p : parsed ≡ k = cc q in subst IsSession p (ha a refl, hb b refl, ht t refl, he e refl)
keys_of-IsSession none b t e k ha hb ht he q = cc
keys_of-IsSession (some a) none t e k ha hb ht he q = cc
keys_of-IsSession (some a) (some b) none e k ha hb ht he q = cc
keys_of-IsSession (some a) (some b) (some t) none k ha hb ht he q = cc

-- Whatever STS answers, the keys that the client returns are a session's: all four fields are there
-- and none is empty.
pub assume_role-IsSession :
    (fetch : StsRequest → Result StsResponse) (role_arn : String) (k new : AccessKeys)
    (session_name : String) (duration : Option ℕ)
    → assume_role fetch role_arn k session_name duration ≡ ok new
    → IsSession new
unfolding assume_role
assume_role-IsSession fetch role_arn k new session_name duration e =
    let (r, f, g) = >>=-eq-ok (fetch _) _ e in
    elim (Bool-cases r.success) [
      | inr x ↦ absurd (ground (arith, x, g))
      | inl x ↦
          keys_of-IsSession _ _ _ _ new (parse_xml_tag-set _ r.body) (parse_xml_tag-set _ r.body)
            (parse_xml_tag-set _ r.body) (parse_xml_tag-set _ r.body) (rw x at g)
    ]

-- No session is asked for that is longer than what was asked of the client, or than an hour where
-- the role is assumed from a session, or than twelve hours at all.
effective_duration_seconds-le :
    (k : AccessKeys) (d : ℕ)
    → (effective_duration_seconds k (some d) ≤ d)
      × (effective_duration_seconds k (some d) ≤ max_duration_seconds k)
      × (effective_duration_seconds k none ≡ max_duration_seconds k)
      × (present k.session_token ≡ true → effective_duration_seconds k (some d) ≤ 3600)
      × (effective_duration_seconds k (some d) ≤ 43200)
unfolding effective_duration_seconds max_duration_seconds
effective_duration_seconds-le k d = elim (Bool-cases (present k.session_token)) [
  | inl e ↦ rw e (omega arith, omega arith, omega arith, λ h. omega arith, omega arith)
  | inr e ↦ rw e (omega arith, omega arith, omega arith, λ h. cc, omega arith)
]
