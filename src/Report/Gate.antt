-- ===== src/Report/Gate.antt =====
-- src/verify/gate.ts, `checkVerifyGate`. A text whose length counts is the list of its UTF-16 code
-- units, as in JavaScript.
use scrum4me_mcp.Prelude.{
  ℕ, ◌≡◌, arith, String, Bool, true, false, not, ◌&&◌, ◌||◌, Option, none, some, List, [], ◌∷◌,
  ◌==◌, leb, ltb, nat_eq, length, if◌then◌else◌,
}

pub data VerifyRequired : Type 0 where
  aligned aligned_or_partial any : VerifyRequired

-- The errors, by the branch that gives them.
pub data GateError : Type 0 where
  not_verified empty_diff not_aligned no_summary : GateError

pub data GateResult : Type 0 where
  allowed : GateResult
  refused : GateError → GateResult

-- The white space and line ends that `trim` removes.
unfoldable pub is_space : ℕ → Bool
is_space c =
    (leb 9 c && leb c 13)
    || nat_eq c 32
    || nat_eq c 160
    || nat_eq c 5760
    || (leb 8192 c && leb c 8202)
    || nat_eq c 8232
    || nat_eq c 8233
    || nat_eq c 8239
    || nat_eq c 8287
    || nat_eq c 12288
    || nat_eq c 65279

trim_start : List ℕ → List ℕ
trim_start [] = []
trim_start (c ∷ cs) = let rest = trim_start cs in if is_space c then rest else c ∷ cs

trim_end : List ℕ → List ℕ
trim_end [] = []
trim_end (c ∷ cs) = elim (trim_end cs) [
  | [] ↦ if is_space c then [] else c ∷ []
  | d ∷ ds ↦ c ∷ d ∷ ds
]

pub trim : List ℕ → List ℕ
unfolding trim_start trim_end
trim cs = trim_end (trim_start cs)

abbrev pub summary_min_length : ℕ
summary_min_length = 20

-- `!summary || summary.trim().length < SUMMARY_MIN_LENGTH` is false.
unfoldable pub explains : Option (List ℕ) → Bool
unfolding trim
explains none = false
explains (some []) = false
explains (some (c ∷ cs)) = not (ltb (length (trim (c ∷ cs))) summary_min_length)

abbrev drifted : VerifyRequired → Option (List ℕ) → GateResult
drifted VerifyRequired.any summary = GateResult.allowed
drifted VerifyRequired.aligned summary = GateResult.refused GateError.not_aligned
drifted VerifyRequired.aligned_or_partial summary =
    if explains summary then GateResult.allowed else GateResult.refused GateError.no_summary

unfoldable pub check_verify_gate :
    Option String → Bool → VerifyRequired → Option (List ℕ) → GateResult
check_verify_gate none verify_only required summary = GateResult.refused GateError.not_verified
check_verify_gate (some result) verify_only required summary =
    if result == "EMPTY"
    then (if verify_only then GateResult.allowed else GateResult.refused GateError.empty_diff)
    else if result == "ALIGNED"
    then GateResult.allowed
    else drifted required summary

abbrev pub is_allowed : GateResult → Bool
is_allowed GateResult.allowed = true
is_allowed (GateResult.refused e) = false

abbrev pub rank : VerifyRequired → ℕ
rank VerifyRequired.aligned = 2
rank VerifyRequired.aligned_or_partial = 1
rank VerifyRequired.any = 0

-- A job that passes at a level of a task passes at every weaker level too.
pub weaker_level_allows :
    (result : Option String) (verify_only : Bool) (required weaker : VerifyRequired)
    (summary : Option (List ℕ))
    → leb (rank weaker) (rank required) ≡ true
    → is_allowed (check_verify_gate result verify_only required summary) ≡ true
    → is_allowed (check_verify_gate result verify_only weaker summary) ≡ true
unfolding check_verify_gate
weaker_level_allows result verify_only required weaker summary h k = ground arith
