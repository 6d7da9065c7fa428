-- ===== src/Web/RateLimit/Pace.antt =====
-- The limiter of runtime/web/ratelimit.go in exact arithmetic: numbers of billionths, so that the seconds
-- of a duration are its nanoseconds.
use jarvinx.Shared.{
  ℕ, ◌+◌, ◌-◌, ◌*◌, ◌/◌, ◌^◌, ◌≤◌, ◌≡◌, refl, ap, arith, min, Bool, true, List, [], ◌∷◌, Option,
  none, some, ltb, leb, ◌==◌, Bool-cases, inl, inr, if◌then◌else◌,
}
use jarvinx.Shared.Clock.{Time, second}
use jarvinx.Shared.Float.{Float64}
use jarvinx.Web.RateLimit.{TokenBucket, new_token_bucket, refilled, allow}

abbrev pub billionths : Float64 ℕ
billionths = record {
  lt = ltb;
  le = leb;
  eq = ◌==◌;
  add = λ a b. a + b;
  sub = λ a b. a - b;
  mul = λ a b. a * b / 1000000000;
  div = λ a b. a * 1000000000 / b;
  decimal = λ n k. n * 1000000000 / 10 ^ k;
}

-- The answers of a bucket to calls at the given instants.
abbrev pub answers : TokenBucket ℕ → List Time → List Bool
answers b [] = []
answers b (now ∷ times) =
    let (b', granted) = allow ⦃fl = billionths⦄ (λ d. d) now b in granted ∷ answers b' times

-- The rule: a call is granted if a second has passed since the last one that was granted, or if none was.
abbrev pub is_spaced : Option Time → Time → Bool
is_spaced none now = true
is_spaced (some granted) now = leb (granted + second) now

abbrev pub spaced : Option Time → List Time → List Bool
spaced last [] = []
spaced last (now ∷ times) =
    let rest = spaced (if is_spaced last now then some now else last) times in
    is_spaced last now ∷ rest

-- Instants that do not go back.
abbrev pub IsMonotone : Time → List Time → Type 0
IsMonotone t [] = Unit
IsMonotone t (now ∷ times) = (t ≤ now) × IsMonotone now times

-- The tokens of a bucket that was last refilled at t, by the last call that it granted.
abbrev tokens_after : Option Time → Time → ℕ
tokens_after none t = second
tokens_after (some granted) t = min second (t - granted)

abbrev IsBefore : Option Time → Time → Type 0
IsBefore none t = Unit
IsBefore (some granted) t = granted ≤ t

abbrev bucket : ℕ → Time → TokenBucket ℕ
bucket tokens t = record {
  tokens = tokens;
  capacity = second;
  refill_rate = second;
  last_refill = t;
}

scaled : (d : ℕ) → d * 1000000000 / 1000000000 ≡ d
scaled d = omega arith

refilled-tokens_after :
    (last : Option Time) (t now : Time)
    → IsBefore last t
    → t ≤ now
    → refilled ⦃fl = billionths⦄ (λ d. d) now (bucket (tokens_after last t) t)
      ≡ tokens_after last now
unfolding refilled
refilled-tokens_after none t now b h = rw (scaled (now - t)) (ground arith)
refilled-tokens_after (some g) t now b h = rw (scaled (now - t)) (ground arith)

enough :
    (last : Option Time) (now : Time)
    → IsBefore last now
    → leb second (tokens_after last now) ≡ is_spaced last now
enough none now b = refl
enough (some g) now b = ground arith

used_up :
    (last : Option Time) (now : Time) → tokens_after last now - second ≡ tokens_after (some now) now
used_up none now = ground arith
used_up (some g) now = ground arith

-- The last call that was granted, after a call at `now`.
abbrev updated : Option Time → Time → Option Time
updated last now = if is_spaced last now then some now else last

IsBefore-after : (last : Option Time) (t now : Time) → IsBefore last t → t ≤ now → IsBefore last now
IsBefore-after none t now b h = tt
IsBefore-after (some g) t now b h = omega arith

updated-IsBefore :
    (last : Option Time) (now : Time) → IsBefore last now → IsBefore (updated last now) now
updated-IsBefore last now b = elim (Bool-cases (is_spaced last now)) [
  | inl granted ↦ rw granted (omega arith)
  | inr refused ↦ rw refused b
]

allow-updated :
    (last : Option Time) (t now : Time)
    → IsBefore last t
    → t ≤ now
    → allow ⦃fl = billionths⦄ (λ d. d) now (bucket (tokens_after last t) t)
      ≡ (bucket (tokens_after (updated last now) now) now, is_spaced last now)
unfolding allow
allow-updated last t now b h =
    rw (refilled-tokens_after last t now b h, enough last now (IsBefore-after last t now b h))
      (elim (Bool-cases (is_spaced last now)) [
        | inl granted ↦ rw (granted, used_up last now) refl
        | inr refused ↦ rw refused refl
      ])

answers-spaced :
    (last : Option Time) (t : Time) (times : List Time)
    → IsBefore last t
    → IsMonotone t times
    → answers (bucket (tokens_after last t) t) times ≡ spaced last times
answers-spaced last t [] b m = refl
answers-spaced last t (now ∷ times) b (h, m) = rw (allow-updated last t now b h) (
    ap (λ rest. is_spaced last now ∷ rest)
      (answers-spaced (updated last now) now times
        (updated-IsBefore last now (IsBefore-after last t now b h)) m))

-- In exact arithmetic, a new limiter of one token per second and of capacity one grants, of any calls at
-- instants that do not go back, exactly those that come a second or more after the last one that it
-- granted, and the first.
pub answers_lem :
    (start : Time) (times : List Time)
    → IsMonotone start times
    → answers (new_token_bucket start second second) times ≡ spaced none times
unfolding new_token_bucket
answers_lem start times m = answers-spaced none start times tt m
