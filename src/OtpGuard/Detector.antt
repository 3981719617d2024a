-- ===== src/OtpGuard/Detector.antt =====
-- services/brain-otp-guard/src/brain_otp_guard/detector.py. `lower` and `upper` stand for the case
-- mappings of `str`, and `find_code` for the search of `_OTP_CODE_RE`, with the group it captures.
-- A confidence is held in hundredths.
use Prim.Native.String.{String}
use fraudnet.Prelude.{
  ℕ, Bool, true, false, ◌&&◌, ◌||◌, Option, none, some, List, [], ◌∷◌, filter, length, ltb, leb,
  is_some, if◌then◌else◌, truthy,
}
use fraudnet.Prelude.StringSet
use fraudnet.Prelude.Text.{has_text}

abbrev pub otp_keywords : List String
otp_keywords =
    "otp" ∷ "one time password" ∷ "one-time password" ∷ "verification code" ∷ "verification"
    ∷ "verify" ∷ "transaction" ∷ "authentication" ∷ "auth code" ∷ "secure code" ∷ "pin" ∷ "passcode"
    ∷ "do not share" ∷ "code is" ∷ "your code" ∷ []

pub record OtpDetectionResult : Type 0 where
  pub is_otp : Bool
  pub matched_code : Option String
  pub matched_keywords : List String
  pub matched_short_code : Option String
  pub confidence : ℕ

-- The scoring rules, by whether the short code, a keyword, and a code matched, and the number of
-- keywords: whether it is an OTP, and the confidence.
unfoldable pub score : Bool → ℕ → Bool → Bool × ℕ
score true keywords code =
    if ltb 0 keywords && code
    then (true, 97)
    else if ltb 0 keywords || code
    then (true, 92)
    else (true, 85)
score false keywords code =
    if ltb 0 keywords && code then (true, 80) else if leb 2 keywords then (true, 55) else (false, 0)

module _ (lower upper : String → String) (find_code : String → Option String) where
  abbrev pub body_text : Option String → String
  body_text none = ""
  body_text (some b) = lower b

  abbrev pub code_of : Option String → Option String
  code_of none = none
  code_of (some b) = find_code b

  abbrev pub short_code_match : List String → Option String → Option String
  short_code_match bank_codes none = none
  short_code_match bank_codes (some sc) = elim (truthy (some (upper sc))) [
    | none ↦ none
    | some n ↦ if StringSet.member n bank_codes then some n else none
  ]

  unfoldable pub detect_otp : Option String → Option String → List String → OtpDetectionResult
  unfolding score
  detect_otp body short_code bank_codes =
      let sc = short_code_match bank_codes (truthy short_code) in
      let keywords = filter (λ k. has_text k (body_text (truthy body))) otp_keywords in
      let code = code_of (truthy body) in
      let (is_otp, confidence) = score (is_some sc) (length keywords) (is_some code) in
      record {
        is_otp = is_otp;
        matched_code = code;
        matched_keywords = keywords;
        matched_short_code = sc;
        confidence = confidence;
      }
