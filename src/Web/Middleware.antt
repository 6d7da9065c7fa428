-- ===== src/Web/Middleware.antt =====
-- The middlewares of runtime/web/server.go: authMiddleware around the routes, and corsMiddleware around it.
pub mod Access
pub mod Origins
pub mod Effects
use jarvinx.Shared.{
  ℕ, Bool, true, false, not, ◌&&◌, ◌||◌, List, [], ◌∷◌, Option, none, some, if◌then◌else◌,
}
use jarvinx.Shared.Float.{Float64}
use jarvinx.Shared.Text.{Text, codes, text_eq, has_prefix, trim_prefix}
use jarvinx.Web.Server.{Server, World}
use jarvinx.Web.Responses.{Request, Reply, empty, http_error, set}
use jarvinx.Web.Changes.{Served, replied}
use jarvinx.Web.Routes.{mux}

-- Whether the request carries the token.
unfoldable pub carries : Text → Request → Bool
unfolding text_eq has_prefix trim_prefix
carries token r =
    has_prefix r.authorization (codes "Bearer ")
    && text_eq (trim_prefix r.authorization (codes "Bearer ")) token

unfoldable pub contains_origin : Text → List Text → Bool
unfolding text_eq
contains_origin origin [] = false
contains_origin origin (o ∷ origins) = text_eq o origin || contains_origin origin origins

module _ {F : Type 0} where
  unfoldable pub with_security : Reply F → Reply F
  unfolding set
  with_security reply =
      let w1 = set (codes "X-Frame-Options") (codes "DENY") reply in
      let w2 = set (codes "X-Content-Type-Options") (codes "nosniff") w1 in
      set (codes "Content-Security-Policy")
        (codes
          "default-src 'self'; script-src 'self' 'unsafe-inline'; style-src 'self' 'unsafe-inline'; img-src 'self' data:")
        w2

  unfoldable pub with_origin : Text → Reply F → Reply F
  unfolding set
  with_origin origin reply =
      let w1 = set (codes "Access-Control-Allow-Origin") origin reply in
      let w2 = set (codes "Access-Control-Allow-Methods") (codes "GET, POST, OPTIONS") w1 in
      let w3 =
        set (codes "Access-Control-Allow-Headers") (codes "Content-Type, Authorization") w2 in
      set (codes "Access-Control-Max-Age") (codes "86400") w3

  unfoldable pub is_allowed : Text → Server F → Bool
  unfolding text_eq contains_origin
  is_allowed origin s = not (text_eq origin []) && contains_origin origin s.allowed_origins

  module _ ⦃fl : Float64 F⦄ (clean : Text → Text) where
    unfoldable pub auth_middleware : World F → Request → Server F → Reply F → Option (Served F)
    unfolding mux carries replied http_error text_eq has_prefix
    auth_middleware w r s reply =
        if text_eq s.cfg.api_token [] || not (has_prefix r.path (codes "/api/"))
        then mux clean w r s reply
        else if carries s.cfg.api_token r
        then mux clean w r s reply
        else some (replied s (http_error (codes "unauthorized") 401 reply))

    unfoldable pub cors_middleware : World F → Request → Server F → Reply F → Option (Served F)
    unfolding with_security with_origin is_allowed auth_middleware replied text_eq
    cors_middleware w r s reply =
        let secured = with_security reply in
        let shared = if is_allowed r.origin s then with_origin r.origin secured else secured in
        if text_eq r.method (codes "OPTIONS")
        then some
            (replied s (record shared { status = if is_allowed r.origin s then 204 else 403 }))
        else auth_middleware w r s shared

    -- A request to the server, whose reply is empty with status 200 before any handler wrote.
    unfoldable pub serve : World F → Request → Server F → Option (Served F)
    unfolding cors_middleware
    serve w r s = cors_middleware w r s (record { status = 200; headers = []; body = empty })
