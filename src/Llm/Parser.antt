-- ===== src/Llm/Parser.antt =====
-- runtime/llm/parser.go. Decoding JSON and the lower case of letters outside ASCII are the library's
-- and parameters; an error keeps what its text is formatted from.
pub mod Wrapped
pub mod Clean
pub mod Safe
mod Scenarios
use jarvinx.Shared.{
  ℕ, suc, ◌+◌, ◌-◌, Bool, true, false, ◌&&◌, ◌||◌, List, [], ◌∷◌, ◌++◌, map, Option, none, some,
  ◌⊎◌, inl, inr, ltb, leb, ◌==◌, if◌then◌else◌, length, take, drop,
}
use jarvinx.Shared.Float.{Float64}
use jarvinx.Shared.Text.{Text, codes, text_eq, trim_space, trim_prefix, trim_suffix}
use mathlib.Core.List.{reverse}

pub record Decision (F : Type 0) : Type 0 where
  pub analysis : Text
  pub action : Text
  pub command : Text
  pub reason : Text
  pub confidence : F

-- What parser.go uses of other libraries: whether a text decodes to a map, the decision that a text
-- decodes to or the text of the error, and unicode.ToLower from code point 128 on.
pub record Decoder (F : Type 0) : Type 0 where
  pub decode_map : Text → Bool
  pub decode_decision : Text → Text ⊎ Decision F
  pub unicode_lower : ℕ → ℕ

pub data ParseError : Type 0 where
  unmarshal : Text → ParseError
  missing_analysis : ParseError
  invalid_action : Text → ParseError

-- ErrInvalidDecision; `none` is the reason "no valid JSON found".
pub record ErrInvalidDecision : Type 0 where
  pub raw : Text
  pub reason : Option ParseError

abbrev pub open_brace : ℕ
open_brace = 123

abbrev pub close_brace : ℕ
close_brace = 125

-- strings.Index and strings.LastIndex for one character; none is -1.
unfoldable pub index : ℕ → Text → Option ℕ
index c [] = none
index c (x ∷ s) =
    if x == c then some 0 else elim (index c s) [ none ↦ none | some i ↦ some (suc i) ]

unfoldable pub last_index : ℕ → Text → Option ℕ
last_index c [] = none
last_index c (x ∷ s) = elim (last_index c s) [
  | none ↦ if x == c then some 0 else none
  | some i ↦ some (suc i)
]

cut_before : Text → Option ℕ → Text
cut_before s none = s
cut_before s (some i) = if ltb 0 i then drop i s else s

pub strip_before : Text → Text
unfolding cut_before index
strip_before s = cut_before s (index open_brace s)

-- Where a brace is found the text is not empty, so its length is at least 1.
cut_after : Text → Option ℕ → Text
cut_after s none = s
cut_after s (some i) = if ltb i (length s - 1) then take (i + 1) s else s

pub strip_after : Text → Text
unfolding cut_after last_index
strip_after s = cut_after s (last_index close_brace s)

unfoldable pub clean_llm_output : Text → Text
unfolding strip_before strip_after trim_space trim_prefix trim_suffix
clean_llm_output s =
    let s1 = trim_space s in
    let s2 = trim_prefix s1 (codes "```json") in
    let s3 = trim_prefix s2 (codes "```") in
    let s4 = trim_suffix s3 (codes "```") in trim_space (strip_after (strip_before s4))

-- One step of matching `\{[^{}]*\}` from the left: the match that is begun, reversed, and the match
-- that is completed. An opening brace inside a match that is begun begins it anew.
match_step : ℕ → Option Text → Option Text × Option Text
match_step c begun = if c == open_brace then (some (c ∷ []), none) else elim begun [
  | none ↦ (none, none)
  | some text ↦
      if c == close_brace then (none, some (reverse (c ∷ text))) else (some (c ∷ text), none)
]

-- FindAllString of that expression.
unfoldable pub find_objects : Option Text → Text → List Text
unfolding match_step
find_objects begun [] = []
find_objects begun (c ∷ s) =
    let (begun', found) = match_step c begun in
    let rest = find_objects begun' s in elim found [ none ↦ rest | some text ↦ text ∷ rest ]

module _ {F : Type 0} where
  first_decodable : Decoder F → List Text → Option Text
  first_decodable dec [] = none
  first_decodable dec (text ∷ texts) =
      if dec.decode_map text then some text else first_decodable dec texts

  unfoldable pub extract_json : Decoder F → Text → Option Text
  unfolding first_decodable find_objects
  extract_json dec s = first_decodable dec (find_objects none s)

  -- unicode.ToLower
  unfoldable pub lower : Decoder F → ℕ → ℕ
  lower dec c =
      if ltb c 128 then (if leb 65 c && leb c 90 then c + 32 else c) else dec.unicode_lower c

unfoldable pub is_valid_action : Text → Bool
unfolding text_eq
is_valid_action action =
    text_eq action (codes "log")
    || text_eq action (codes "alert")
    || text_eq action (codes "suggest")
    || text_eq action (codes "execute")

module _ {F : Type 0} ⦃fl : Float64 F⦄ where
  unfoldable pub validate_decision : Decision F → ParseError ⊎ Decision F
  unfolding is_valid_action trim_space
  validate_decision d =
      if text_eq (trim_space d.analysis) []
      then inl missing_analysis
      else if is_valid_action d.action
      then inr (
          if text_eq d.action (codes "execute") && fl.lt d.confidence (fl.decimal 75 2)
          then record d { action = codes "suggest"; command = [] }
          else d)
      else inl (invalid_action d.action)

  unfoldable pub normalized : Decoder F → Decision F → Decision F
  unfolding lower trim_space
  normalized dec d = record d {
    action = map (lower dec) (trim_space d.action);
    confidence = if fl.eq d.confidence (fl.decimal 0 0) then fl.decimal 5 1 else d.confidence;
  }

  unfoldable pub parse_and_validate : Decoder F → Text → ParseError ⊎ Decision F
  unfolding validate_decision normalized
  parse_and_validate dec s = elim (dec.decode_decision s) [
    | inl message ↦ inl (unmarshal message)
    | inr d ↦ validate_decision (normalized dec d)
  ]

  -- The reason holds at most 80 characters of the text.
  unfoldable pub fallback_decision : Text → Decision F
  fallback_decision raw = record {
    analysis = codes "Impossible d'analyser la réponse LLM";
    action = codes "log";
    command = [];
    reason = codes "Fallback — réponse brute : " ++ take 80 raw;
    confidence = fl.decimal 0 0;
  }

  -- Step 3 of ParseDecision: what is decided once the extracted object is parsed, once an object is
  -- looked for, and once the cleaned text itself is parsed.
  decided : Text → ParseError ⊎ Decision F → Decision F × Option ErrInvalidDecision
  unfolding fallback_decision
  decided raw (inr d) = (d, none)
  decided raw (inl reason) =
      (fallback_decision raw, some (record { raw = raw; reason = some reason }))

  extracted : Decoder F → Text → Option Text → Decision F × Option ErrInvalidDecision
  unfolding fallback_decision decided parse_and_validate
  extracted dec raw none = (fallback_decision raw, some (record { raw = raw; reason = none }))
  extracted dec raw (some text) = decided raw (parse_and_validate dec text)

  attempted :
      Decoder F → Text → Text → ParseError ⊎ Decision F → Decision F × Option ErrInvalidDecision
  unfolding extracted extract_json
  attempted dec raw cleaned (inr d) = (d, none)
  attempted dec raw cleaned (inl _) = extracted dec raw (extract_json dec cleaned)

  unfoldable pub parse_decision : Decoder F → Text → Decision F × Option ErrInvalidDecision
  unfolding attempted clean_llm_output parse_and_validate
  parse_decision dec raw =
      let cleaned = clean_llm_output raw in
      attempted dec raw cleaned (parse_and_validate dec cleaned)
