-- ===== src/Llm/Parser/Safe.antt =====
-- What holds of the decision that ParseDecision of runtime/llm/parser.go returns.
use jarvinx.Shared.{
  ◌≡◌, ◌≢◌, refl, ap, ◌∙◌, true, false, ◌&&◌, [], Option, none, some, ◌⊎◌, inl, inr, arith,
  Bool-cases,
}
use jarvinx.Shared.Float.{Float64}
use jarvinx.Shared.Text.{Text, codes, text_eq, text_eq_refl, trim_space}
use jarvinx.Llm.Parser.{
  Decision, Decoder, ParseError, ErrInvalidDecision, is_valid_action, validate_decision,
  parse_and_validate, parse_decision, decided, extracted, attempted, fallback_decision, normalized,
  extract_json, clean_llm_output,
}

is_execute : (action : Text) → action ≡ codes "execute" → text_eq action (codes "execute") ≡ true
is_execute action e = ap (λ a. text_eq a (codes "execute")) e ∙ text_eq_refl (codes "execute")

module _ {F : Type 0} ⦃fl : Float64 F⦄ where
  -- A known action, with enough confidence if it is to execute, and an analysis that is not blank.
  pub record IsSafe (d : Decision F) : Type 0 where
    pub known : is_valid_action d.action ≡ true
    pub confident : d.action ≡ codes "execute" → fl.lt d.confidence (fl.decimal 75 2) ≡ false
    pub analysed : text_eq (trim_space d.analysis) [] ≡ false

  validate_decision-IsSafe : (d d' : Decision F) → validate_decision d ≡ inr d' → IsSafe d'
  unfolding validate_decision
  validate_decision-IsSafe d d' e = elim (Bool-cases (text_eq (trim_space d.analysis) [])) [
    | inl blank ↦ absurd (ground arith)
    | inr analysed ↦ elim (Bool-cases (is_valid_action d.action)) [
      | inr unknown ↦ absurd (ground arith)
      | inl known ↦
          elim (Bool-cases
            (text_eq d.action (codes "execute") && fl.lt d.confidence (fl.decimal 75 2))) [
              | inl weak ↦
                  let done : d' ≡ record d { action = codes "suggest"; command = [] } =
                    ground arith in
                  rw done (record {
                    known = unfold is_valid_action in refl;
                    confident = λ e. absurd (ground (arith, is_execute (codes "suggest") e));
                    analysed = analysed;
                  })
              | inr kept ↦
                  let done : d' ≡ d = ground arith in
                  rw done (record {
                    known = known;
                    confident = λ e. ground (arith, is_execute d.action e);
                    analysed = analysed;
                  })
            ]
    ]
  ]

  parse_and_validate-IsSafe :
      (dec : Decoder F) (s : Text) (d : Decision F) → parse_and_validate dec s ≡ inr d → IsSafe d
  unfolding parse_and_validate
  parse_and_validate-IsSafe dec s d e = go (dec.decode_decision s) refl
    where
      go : (r : Text ⊎ Decision F) → dec.decode_decision s ≡ r → IsSafe d
      go (inl message) q = absurd (ground (arith, q))
      go (inr raw) q = validate_decision-IsSafe (normalized dec raw) d (ground (arith, q))

  pub fallback_decision-IsSafe : (raw : Text) → IsSafe (fallback_decision raw)
  unfolding fallback_decision
  fallback_decision-IsSafe raw = record {
    known = unfold is_valid_action text_eq in refl;
    confident = λ e. absurd (ground (arith, is_execute (codes "log") e));
    analysed = unfold trim_space text_eq in refl;
  }

  IsGood : Text → Decision F × Option ErrInvalidDecision → Type 0
  IsGood raw p = IsSafe p.0 × (p.1 ≢ none → p.0 ≡ fallback_decision raw)

  decided-IsGood :
      (dec : Decoder F) (raw text : Text) (r : ParseError ⊎ Decision F)
      → parse_and_validate dec text ≡ r
      → IsGood raw (decided raw r)
  unfolding IsGood decided
  decided-IsGood dec raw text (inr d) q =
      (parse_and_validate-IsSafe dec text d q, λ h. absurd (h refl))
  decided-IsGood dec raw text (inl reason) q = (fallback_decision-IsSafe raw, λ h. refl)

  extracted-IsGood :
      (dec : Decoder F) (raw : Text) (o : Option Text) → IsGood raw (extracted dec raw o)
  unfolding IsGood extracted
  extracted-IsGood dec raw none = (fallback_decision-IsSafe raw, λ h. refl)
  extracted-IsGood dec raw (some text) =
      decided-IsGood dec raw text (parse_and_validate dec text) refl

  attempted-IsGood :
      (dec : Decoder F) (raw cleaned : Text) (r : ParseError ⊎ Decision F)
      → parse_and_validate dec cleaned ≡ r
      → IsGood raw (attempted dec raw cleaned r)
  unfolding IsGood attempted
  attempted-IsGood dec raw cleaned (inr d) q =
      (parse_and_validate-IsSafe dec cleaned d q, λ h. absurd (h refl))
  attempted-IsGood dec raw cleaned (inl e) q = extracted-IsGood dec raw (extract_json dec cleaned)

  -- Whatever the language model writes, ParseDecision returns a decision with a known action and an
  -- analysis, which executes only with a confidence that is not below 0.75; with an error it is the
  -- fallback for that text, which logs and has no command.
  pub parse_decision-IsSafe :
      (dec : Decoder F) (raw : Text)
      → IsSafe (parse_decision dec raw).0
        × ((parse_decision dec raw).1 ≢ none → (parse_decision dec raw).0 ≡ fallback_decision raw)
  unfolding parse_decision
  parse_decision-IsSafe dec raw =
      unfold IsGood in
      attempted-IsGood dec raw (clean_llm_output raw)
        (parse_and_validate dec (clean_llm_output raw)) refl
