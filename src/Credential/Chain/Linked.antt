-- ===== src/Credential/Chain/Linked.antt =====
-- What a chain of `assumed_by` relations is, apart from the walks.
use aws_access_bridge.Base.{
  text_or_empty, String, ◌≡◌, some, none, Option, List, [], ◌∷◌, true, false, arith, present,
}
use aws_access_bridge.Base.Errors.{Result, ok}
use aws_access_bridge.Credential.Model.{Credential}
use aws_access_bridge.Credential.Chain.{step_to}

-- The last of the rows `c ∷ rows`.
abbrev pub last_row : Credential → List Credential → Credential
last_row c [] = c
last_row c (d ∷ rows) = last_row d rows

module _ (read : String → Result Credential) where
  -- Each row is what is read at the `assumed_by` of the one before, and the last has none.
  abbrev pub Follows : Credential → List Credential → Type 0
  Follows c [] = present c.assumed_by ≡ false
  Follows c (d ∷ rows) =
      (present c.assumed_by ≡ true) × (read (text_or_empty c.assumed_by) ≡ ok d) × Follows d rows

  -- The same, where the last row still has an `assumed_by`.
  abbrev pub Reads : Credential → List Credential → Type 0
  Reads c [] = present c.assumed_by ≡ true
  Reads c (d ∷ rows) =
      (present c.assumed_by ≡ true) × (read (text_or_empty c.assumed_by) ≡ ok d) × Reads d rows

pub step_to-eq :
    (o : Option String) (at : String) → present o ≡ true → step_to o at ≡ text_or_empty o
step_to-eq none at h = ground arith
step_to-eq (some s) at h = ground arith
