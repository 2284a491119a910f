-- ===== src/Editor/Validation.antt =====
-- What the validators of apps/web/src/modules/presentations/model/editor.ts share: lists of issues,
-- each pushed under a test, and the tests on texts and numbers, with their meanings.
pub mod Content
pub mod TextActivity
pub mod Question
use pro_slides_go.Base.{
  ℕ, ◌/◌, ◌≤◌, String, ◌≡◌, refl, ◌↔◌, Bool, true, false, not, ◌||◌, Option, none, some, List, [],
  ◌∷◌, ◌++◌, arith, ltb, pos, negsuc, All,
}
use pro_slides_go.Js.Number.{Number, int, milli, is_integer, lt}
use pro_slides_go.Js.Text.{is_empty, text_length}

pub record Issue (Field : Type 0) : Type 0 where
  pub code : String
  pub field : Field
  pub message : String
  pub option_id : Option String

module _ {Field : Type 0} where
  abbrev pub plain : String → Field → String → Issue Field
  plain code field message = record {
    code = code;
    field = field;
    message = message;
    option_id = none;
  }

  -- `if (test) issues.push(issue)`.
  abbrev pub issue_if : Bool → Issue Field → List (Issue Field)
  issue_if true issue = issue ∷ []
  issue_if false issue = []

  -- `if (test) … else if (test') …`.
  abbrev pub issue_either : Bool → Issue Field → Bool → Issue Field → List (Issue Field)
  issue_either true issue test' issue' = issue ∷ []
  issue_either false issue test' issue' = issue_if test' issue'

  -- `validate(…)[0]?.message ?? null`.
  abbrev pub first_message : List (Issue Field) → Option String
  first_message [] = none
  first_message (issue ∷ issues) = some issue.message

  pub no_issue_if :
      (test : Bool) (issue : Issue Field) → (issue_if test issue ≡ []) ↔ (test ≡ false)
  no_issue_if test issue = (λ h. ground arith, λ h. ground arith)

-- The issues of one test after another.
module _ {ℓ} {A : Type ℓ} where
  abbrev pub gather : List (List A) → List A
  gather [] = []
  gather (xs ∷ rest) = xs ++ gather rest

  pub append-eq-nil : (xs ys : List A) → xs ++ ys ≡ [] → (xs ≡ []) × (ys ≡ [])
  append-eq-nil [] ys h = (refl, h)
  append-eq-nil (x ∷ xs) ys h = cc

  gather_sound : (parts : List (List A)) → gather parts ≡ [] → All (λ xs. xs ≡ []) parts
  gather_sound [] h = tt
  gather_sound (xs ∷ rest) h =
      let (here, later) = append-eq-nil xs (gather rest) h in (here, gather_sound rest later)

  gather_complete : (parts : List (List A)) → All (λ xs. xs ≡ []) parts → gather parts ≡ []
  gather_complete [] h = refl
  gather_complete (xs ∷ rest) (here, later) = rw here (gather_complete rest later)

  pub gather_iff : (parts : List (List A)) → (gather parts ≡ []) ↔ All (λ xs. xs ≡ []) parts
  gather_iff parts = (gather_sound parts, gather_complete parts)

pub is_empty_iff : (s : String) → (is_empty s ≡ true) ↔ (s ≡ "")
is_empty_iff String.[] = (λ h. refl, λ h. refl)
is_empty_iff (String.◌∷◌ c s) = (λ h. cc, λ h. cc)

-- `textLength(value) > limit`.
abbrev pub longer : ℕ → String → Bool
longer limit s = ltb limit (text_length s)

-- `!Number.isInteger(n) || n < lo || n > hi`.
unfoldable pub outside : ℕ → ℕ → Number → Bool
outside lo hi n = not (is_integer n) || (lt n (int lo) || lt (int hi) n)

abbrev pub InRange : ℕ → ℕ → Number → Type 0
InRange lo hi n = (k : ℕ) × (n ≡ int k) × (lo ≤ k) × (k ≤ hi)

outside_sound : (lo hi : ℕ) (n : Number) → outside lo hi n ≡ false → InRange lo hi n
unfolding outside
outside_sound lo hi (milli (pos m)) h = (m / 1000, ground arith, ground arith, ground arith)
outside_sound lo hi (milli (negsuc m)) h = absurd (ground arith)
outside_sound lo hi n h = cc

outside_complete : (lo hi : ℕ) (n : Number) → InRange lo hi n → outside lo hi n ≡ false
unfolding outside
outside_complete lo hi n (k, e, low, high) = rw e (ground arith)

pub outside_iff : (lo hi : ℕ) (n : Number) → (outside lo hi n ≡ false) ↔ InRange lo hi n
outside_iff lo hi n = (outside_sound lo hi n, outside_complete lo hi n)
