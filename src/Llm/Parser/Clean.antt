-- ===== src/Llm/Parser/Clean.antt =====
-- What the cleaning of runtime/llm/parser.go leaves of a text that wraps one object.
use jarvinx.Shared.{ℕ, ◌≡◌, refl, sym, ap, ◌∙◌, false, [], ◌∷◌, ◌++◌, none, inr}
use jarvinx.Shared.Float.{Float64}
use jarvinx.Shared.Text.{Text, codes, is_space, trim_left, trim_space, trim_prefix, trim_suffix}
use jarvinx.Llm.Parser.{
  open_brace, close_brace, strip_before, strip_after, clean_llm_output, Decoder, Decision,
  parse_decision, parse_and_validate, attempted,
}
use jarvinx.Llm.Parser.Wrapped.{
  IsFree, IsMarked, reverse_aux-IsFree, trim_left-IsMarked', trim_prefix-IsMarked,
  strip_before-marked, strip_after-marked,
}
use mathlib.Core.List.{append_assoc, reverse, reverse-append, reverse-reverse, reverse-cons}

reverse-IsFree : (c : ℕ) (s : Text) → IsFree c s → IsFree c (reverse s)
reverse-IsFree c s h = reverse_aux-IsFree c s [] h tt

-- An object with its braces.
abbrev pub braced : Text → Text
braced body = open_brace ∷ (body ++ (close_brace ∷ []))

pub record IsWrapped (body s : Text) : Type 0 where
  pub before : Text
  pub after : Text
  pub free_before : IsFree open_brace before
  pub free_after : IsFree close_brace after
  pub split : s ≡ before ++ (braced body ++ after)

-- The same text, cut before its closing brace.
cut_close :
    (before body after : Text)
    → before ++ (braced body ++ after) ≡ (before ++ (open_brace ∷ body)) ++ (close_brace ∷ after)
cut_close before body after =
    ap (λ r. before ++ (open_brace ∷ r)) (append_assoc body (close_brace ∷ []) after)
    ∙ sym (append_assoc before (open_brace ∷ body) (close_brace ∷ after))

reverse-wrapped :
    (before body after : Text)
    → reverse (before ++ (braced body ++ after))
      ≡ reverse after ++ (close_brace ∷ reverse (before ++ (open_brace ∷ body)))
reverse-wrapped before body after =
    ap reverse (cut_close before body after)
    ∙ reverse-append (before ++ (open_brace ∷ body)) (close_brace ∷ after)
    ∙ ap (λ r. r ++ reverse (before ++ (open_brace ∷ body))) (reverse-cons close_brace after)
    ∙ append_assoc (reverse after) (close_brace ∷ []) (reverse (before ++ (open_brace ∷ body)))

-- An operation on the front keeps the text wrapped, and so does one on the reversed text.
front-IsWrapped :
    (f : Text → Text) (body s : Text)
    → ((t : Text) → IsMarked open_brace t s → IsMarked open_brace t (f s))
    → IsWrapped body s
    → IsWrapped body (f s)
front-IsWrapped f body s h w =
    let m =
      h ((body ++ (close_brace ∷ [])) ++ w.after)
        (record { front = w.before; free = w.free_before; split = w.split }) in
    record {
      before = m.front;
      after = w.after;
      free_before = m.free;
      free_after = w.free_after;
      split = m.split;
    }

back-IsWrapped :
    (f : Text → Text) (body s : Text)
    → ((t : Text) → IsMarked close_brace t (reverse s) → IsMarked close_brace t (f (reverse s)))
    → IsWrapped body s
    → IsWrapped body (reverse (f (reverse s)))
back-IsWrapped f body s h w =
    let m = h (reverse (w.before ++ (open_brace ∷ body))) (record {
      front = reverse w.after;
      free = reverse-IsFree close_brace w.after w.free_after;
      split = ap reverse w.split ∙ reverse-wrapped w.before body w.after;
    }) in
    record {
      before = w.before;
      after = reverse m.front;
      free_before = w.free_before;
      free_after = reverse-IsFree close_brace m.front m.free;
      split =
          ap reverse m.split
          ∙ ap (λ r. reverse (r ++ (close_brace ∷ reverse (w.before ++ (open_brace ∷ body)))))
              (sym (reverse-reverse m.front))
          ∙ ap reverse (sym (reverse-wrapped w.before body (reverse m.front)))
          ∙ reverse-reverse (w.before ++ (braced body ++ reverse m.front));
    }

open_shows : is_space open_brace ≡ false
unfolding is_space
open_shows = refl

close_shows : is_space close_brace ≡ false
unfolding is_space
close_shows = refl

trim_space-IsWrapped : (body s : Text) → IsWrapped body s → IsWrapped body (trim_space s)
unfolding trim_space
trim_space-IsWrapped body s w =
    back-IsWrapped trim_left body (trim_left s)
      (λ t. trim_left-IsMarked' close_brace t (reverse (trim_left s)) close_shows)
      (front-IsWrapped trim_left body s (λ t. trim_left-IsMarked' open_brace t s open_shows) w)

trim_prefix-IsWrapped :
    (p body s : Text) → IsFree open_brace p → IsWrapped body s → IsWrapped body (trim_prefix s p)
trim_prefix-IsWrapped p body s h w =
    front-IsWrapped (λ r. trim_prefix r p) body s (λ t. trim_prefix-IsMarked open_brace t s p h) w

trim_suffix-IsWrapped :
    (p body s : Text) → IsFree close_brace p → IsWrapped body s → IsWrapped body (trim_suffix s p)
unfolding trim_suffix
trim_suffix-IsWrapped p body s h w =
    back-IsWrapped (λ r. trim_prefix r (reverse p)) body s
      (λ t.
        trim_prefix-IsMarked close_brace t (reverse s) (reverse p) (reverse-IsFree close_brace p h))
      w

trim_space-braced : (body : Text) → trim_space (braced body) ≡ braced body
unfolding trim_space trim_left is_space
trim_space-braced body =
    let turned : reverse (braced body) ≡ close_brace ∷ reverse (open_brace ∷ body) =
      reverse-append (open_brace ∷ body) (close_brace ∷ []) in
    ap (λ r. reverse (trim_left r)) turned ∙ ap reverse (sym turned) ∙ reverse-reverse (braced body)

strip-wrapped : (body s : Text) → IsWrapped body s → strip_after (strip_before s) ≡ braced body
strip-wrapped body s w =
    ap strip_after (
      strip_before-marked ((body ++ (close_brace ∷ [])) ++ w.after) s
        (record { front = w.before; free = w.free_before; split = w.split })
      ∙ cut_close [] body w.after)
    ∙ strip_after-marked (open_brace ∷ body) w.after w.free_after

-- Whatever stands before an object that has no opening brace, and whatever stands after it that has
-- no closing brace, blanks and code fences included, cleaning a reply leaves exactly the object.
pub clean_llm_output-braced :
    (before body after : Text)
    → IsFree open_brace before
    → IsFree close_brace after
    → clean_llm_output (before ++ (braced body ++ after)) ≡ braced body
unfolding clean_llm_output
clean_llm_output-braced before body after h k =
    ap trim_space (
      strip-wrapped body _ (
        trim_suffix-IsWrapped (codes "```") body _ ((refl, (refl, (refl, tt)))) (
          trim_prefix-IsWrapped (codes "```") body _ ((refl, (refl, (refl, tt)))) (
            trim_prefix-IsWrapped (codes "```json") body _
              ((refl, (refl, (refl, (refl, (refl, (refl, (refl, tt))))))))
              (trim_space-IsWrapped body (before ++ (braced body ++ after)) (record {
                before = before;
                after = after;
                free_before = h;
                free_after = k;
                split = refl;
              }))))))
    ∙ trim_space-braced body

-- Of a reply with any text without an opening brace before an object and any text without a closing
-- brace after it, ParseDecision returns the decision of the object, without an error, whenever the
-- object itself parses to a valid decision.
pub parse_decision-braced :
    {F : Type 0} ⦃fl : Float64 F⦄ (dec : Decoder F) (before body after : Text) {d : Decision F}
    → IsFree open_brace before
    → IsFree close_brace after
    → parse_and_validate dec (braced body) ≡ inr d
    → parse_decision dec (before ++ (braced body ++ after)) ≡ (d, none)
unfolding parse_decision attempted
parse_decision-braced dec before body after h k e =
    rw (clean_llm_output-braced before body after h k, e) refl
