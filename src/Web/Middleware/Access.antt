-- ===== src/Web/Middleware/Access.antt =====
-- What a request without the token can do, of runtime/web/server.go.
use jarvinx.Shared.{
  ℕ, ◌≡◌, refl, ap, Bool, true, false, List, [], ◌∷◌, Option, none, some, All, Bool-cases, inl, inr,
}
use jarvinx.Shared.Float.{Float64}
use jarvinx.Shared.Text.{Text, codes, text_eq, text_eq→≡, has_prefix}
use jarvinx.Web.Server.{Server, World}
use jarvinx.Web.Responses.{
  Request, Reply, Body, empty, encoded, message, page, static_file, set, http_error,
}
use jarvinx.Web.Changes.{Served, replied}
use jarvinx.Web.Reads.{handle_index, index_part}
use jarvinx.Web.Routes.{Endpoint, patterns, match, moved, static_part, dispatch, mux}
use jarvinx.Web.Middleware.{
  carries, auth_middleware, cors_middleware, serve, is_allowed, with_origin, with_security,
}

-- A body that holds nothing of the components.
abbrev pub is_public : {F : Type 0} → Body F → Bool
is_public (encoded v) = false
is_public empty = true
is_public (message text) = true
is_public (page bytes) = true
is_public (static_file path) = true

-- A path outside /api/ matches none of the patterns under it.
pub match-outside :
    (rest : List (Text × Endpoint)) (path : Text)
    → All (λ e. has_prefix e.0 (codes "/api/") ≡ true) rest
    → has_prefix path (codes "/api/") ≡ false
    → match rest path ≡ none
unfolding match
match-outside [] path under outside = refl
match-outside ((p, e) ∷ rest) path (here, there) outside = elim (Bool-cases (text_eq path p)) [
  | inl same ↦
      absurd (cc (here, outside, ap (λ t. has_prefix t (codes "/api/")) (text_eq→≡ path p same)))
  | inr other ↦ rw (other) (match-outside rest path there outside)
]

patterns-IsUnder : All (λ e. has_prefix e.0 (codes "/api/") ≡ true) patterns
unfolding has_prefix
patterns-IsUnder = (
  refl,
  (refl, (refl, (refl, (refl, (refl, (refl, (refl, (refl, (refl, (refl, (refl, tt))))))))))),
)

module _ {F : Type 0} ⦃fl : Float64 F⦄ (clean : Text → Text) where
  -- The server is as it was, no goroutine was started, and the body is public.
  abbrev pub IsUntouched : Server F → Option (Served F) → Type 0
  IsUntouched s served =
      (reply : Reply F) × (served ≡ some (replied s reply)) × (is_public reply.body ≡ true)

  index_part-IsPublic :
      (index : Option (List ℕ)) (reply : Reply F) → is_public (index_part index reply).body ≡ true
  unfolding index_part http_error
  index_part-IsPublic none reply = refl
  index_part-IsPublic (some bytes) reply = refl

  mux-IsUntouched :
      (w : World F) (r : Request) (s : Server F) (reply : Reply F)
      → has_prefix r.path (codes "/api/") ≡ false
      → IsUntouched s (mux clean w r s reply)
  unfolding mux dispatch moved static_part handle_index
  mux-IsUntouched w r s reply outside = elim (Bool-cases (text_eq (clean r.path) r.path)) [
    | inr moves ↦ rw moves (_, refl, refl)
    | inl stays ↦
        rw (stays, match-outside patterns r.path patterns-IsUnder outside)
          (elim (Bool-cases (has_prefix r.path (codes "/static/"))) [
            | inl static ↦ rw static (_, refl, refl)
            | inr index ↦ rw index (_, refl, index_part-IsPublic s.index reply)
          ])
  ]

  auth_middleware-IsUntouched :
      (w : World F) (r : Request) (s : Server F) (reply : Reply F)
      → text_eq s.cfg.api_token [] ≡ false
      → carries s.cfg.api_token r ≡ false
      → IsUntouched s (auth_middleware clean w r s reply)
  unfolding auth_middleware http_error
  auth_middleware-IsUntouched w r s reply token without =
      elim (Bool-cases (has_prefix r.path (codes "/api/"))) [
        | inl api ↦ rw (token, api, without) (_, refl, refl)
        | inr outside ↦ rw (token, outside) (mux-IsUntouched w r s reply outside)
      ]

  -- With a token configured, a request that does not carry it is answered without a panic, with any
  -- method and any path: the server and its components are as they were, no report is sent, and the body
  -- of the reply holds no data of theirs.
  pub serve-IsUntouched :
      (w : World F) (r : Request) (s : Server F)
      → text_eq s.cfg.api_token [] ≡ false
      → carries s.cfg.api_token r ≡ false
      → IsUntouched s (serve clean w r s)
  unfolding serve cors_middleware is_allowed with_origin with_security set
  serve-IsUntouched w r s token without = elim (Bool-cases (text_eq r.method (codes "OPTIONS"))) [
    | inl options ↦ rw options (elim (Bool-cases (is_allowed r.origin s)) [
      | inl allowed ↦ rw allowed (_, refl, refl)
      | inr refused ↦ rw refused (_, refl, refl)
    ])
    | inr other ↦ rw other (auth_middleware-IsUntouched w r s _ token without)
  ]
