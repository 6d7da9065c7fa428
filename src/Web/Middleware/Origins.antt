-- ===== src/Web/Middleware/Origins.antt =====
-- Which origins the replies name, of runtime/web/server.go.
pub mod Handlers
use jarvinx.Shared.{
  ℕ, ◌≡◌, refl, sym, ap, ◌∙◌, Bool, true, false, not, ◌&&◌, ◌||◌, List, [], ◌∷◌, Option, none, some,
  Bool-cases, inl, inr, if◌then◌else◌,
}
use jarvinx.Shared.Float.{Float64}
use jarvinx.Shared.Text.{Text, codes, text_eq, text_eq→≡, text_eq_refl, has_prefix}
use mathlib.Core.Path.{subst}
use jarvinx.Web.Server.{Server, World}
use jarvinx.Web.Responses.{Request, Reply, empty, set_header, header, set, http_error, write_json}
use jarvinx.Web.Changes.{Served, replied}
use jarvinx.Web.Middleware.{
  carries, auth_middleware, cors_middleware, serve, is_allowed, with_origin, with_security,
}
use jarvinx.Web.Routes.{mux}
use jarvinx.Web.Middleware.Origins.Handlers.{
  origin_of, Names, set-origin, http_error-origin, mux-Names,
}

-- The field has the value that it was set to.
header-set_header_same :
    (name value : Text) (headers : List (Text × Text))
    → header name (set_header name value headers) ≡ value
unfolding header set_header
header-set_header_same name value [] = rw (text_eq_refl name) refl
header-set_header_same name value ((n, v) ∷ headers) = elim (Bool-cases (text_eq n name)) [
  | inl same ↦ rw (same, text_eq_refl name) refl
  | inr differs ↦ rw (differs, differs) (header-set_header_same name value headers)
]

module _ {F : Type 0} where
  with_security-origin : (reply : Reply F) → origin_of (with_security reply) ≡ origin_of reply
  unfolding with_security text_eq
  with_security-origin reply =
      set-origin (codes "Content-Security-Policy") _ (set _ _ (set _ _ reply)) refl
      ∙ (set-origin (codes "X-Content-Type-Options") _ (set _ _ reply) refl
          ∙ set-origin (codes "X-Frame-Options") _ reply refl)

  with_origin-origin :
      (origin : Text) (reply : Reply F) → origin_of (with_origin origin reply) ≡ origin
  unfolding with_origin text_eq set
  with_origin-origin origin reply =
      set-origin (codes "Access-Control-Max-Age") _ (set _ _ (set _ _ (set _ _ reply))) refl
      ∙ (set-origin (codes "Access-Control-Allow-Headers") _ (set _ _ (set _ _ reply)) refl
          ∙ (set-origin (codes "Access-Control-Allow-Methods") _ (set _ _ reply) refl ∙ own reply))
    where
      own :
          (reply : Reply F)
          → origin_of (set (codes "Access-Control-Allow-Origin") origin reply) ≡ origin
      own reply = header-set_header_same (codes "Access-Control-Allow-Origin") origin reply.headers

module _ {F : Type 0} ⦃fl : Float64 F⦄ (clean : Text → Text) where
  auth_middleware-Names :
      (w : World F) (r : Request) (s : Server F) (reply : Reply F)
      → Names (origin_of reply) (auth_middleware clean w r s reply)
  unfolding auth_middleware replied
  auth_middleware-Names w r s reply =
      elim (Bool-cases (text_eq s.cfg.api_token [] || not (has_prefix r.path (codes "/api/")))) [
        | inl free ↦ rw free (mux-Names clean w r s reply)
        | inr protected ↦ rw protected (go (carries s.cfg.api_token r))
      ]
    where
      go :
          (b : Bool)
          → Names (origin_of reply) (
              if b
              then mux clean w r s reply
              else some (replied s (http_error (codes "unauthorized") 401 reply)))
      go true = mux-Names clean w r s reply
      go false = http_error-origin [] 401 reply

  preflight-Names :
      (w : World F) (r : Request) (s : Server F) (preflight : Bool) (code : ℕ) (t : Text)
      (reply : Reply F)
      → origin_of reply ≡ t
      → Names t (
          if preflight
          then some (replied s (record reply { status = code }))
          else auth_middleware clean w r s reply)
  unfolding replied
  preflight-Names w r s true code t reply e = e
  preflight-Names w r s false code t reply e =
      subst (λ x. Names x (auth_middleware clean w r s reply)) e (auth_middleware-Names w r s reply)

  -- Whatever is requested, a reply names an origin as one that may read it exactly if the request comes
  -- from an origin that is configured, and then it names that one.
  pub serve-Names :
      (w : World F) (r : Request) (s : Server F)
      → Names (if is_allowed r.origin s then r.origin else []) (serve clean w r s)
  unfolding serve cors_middleware header
  serve-Names w r s =
      let start : Reply F = record { status = 200; headers = []; body = empty } in
      let preflight = text_eq r.method (codes "OPTIONS") in
      elim (Bool-cases (is_allowed r.origin s)) [
        | inl allowed ↦ rw allowed (
            preflight-Names w r s preflight 204 r.origin
              (with_origin r.origin (with_security start))
              (with_origin-origin r.origin (with_security start)))
        | inr refused ↦ rw refused (
            preflight-Names w r s preflight 403 [] (with_security start)
              (with_security-origin start))
      ]
