-- ===== src/Collect/Pages.antt =====
-- `paginate` of packages/backend-services/src/aws/collectors/BaseAwsCollector.ts. The signed request
-- with its parsing is a parameter; its number in the walk stands for the moment of the call.
pub mod Listing
use aws_access_bridge.Base.{
  ℕ, zero, suc, String, Option, none, some, List, [], ◌∷◌, ◌++◌, Bool, true, false, not, ◌||◌, ◌==◌,
  any, leb, present, text_or_empty, if◌then◌else◌,
}
use aws_access_bridge.Base.Errors.{ServiceError, Result, ok, err, ◌>>=◌, out_of_fuel}

abbrev pub max_collection_pages : ℕ
max_collection_pages = 50

-- The answer of a call: the page, and the token that the service gave for the next.
abbrev pub Fetch : Type 0 → Type 0
Fetch Page = ℕ → Option String → Result (Page × Option String)

abbrev pub is_exhausted : ℕ → List String → String → Bool
is_exhausted page_count seen token =
    leb max_collection_pages page_count || any (λ t. t == token) seen

module _ {Page : Type 0} where
  -- Where the page is not the last: the refusal of a partial list, or the rest of the walk.
  abbrev go_on : Bool → Bool → ServiceError → List Page → Result (List Page) → Result (List Page)
  go_on false refused partial pages rest = ok pages
  go_on true true partial pages rest = err partial
  go_on true false partial pages rest = rest

  -- The loop, with the number of pages read, the tokens seen and the pages.
  unfoldable pub paginate_from :
      Fetch Page
      → ServiceError
      → ℕ
      → Option String
      → ℕ
      → List String
      → List Page
      → Result (List Page)
  paginate_from fetch partial zero token count seen pages = err out_of_fuel
  paginate_from fetch partial (suc fuel) token count seen pages = fetch count token >>= λ answer.
      let rest =
        paginate_from fetch partial fuel answer.1 (suc count) (text_or_empty answer.1 ∷ seen)
          (pages ++ answer.0 ∷ []) in
      go_on (present answer.1) (is_exhausted (suc count) seen (text_or_empty answer.1)) partial
        (pages ++ answer.0 ∷ []) rest

  -- `partial` is the error of a walk that cannot finish. The walk reads at most the ceiling's
  -- number of pages, which is its fuel.
  unfoldable pub paginate : Fetch Page → ServiceError → Result (List Page)
  unfolding paginate_from
  paginate fetch partial = paginate_from fetch partial max_collection_pages none 0 [] []
