-- ===== src/Client/Failure/Laws.antt =====
-- When a call fails, and how much of the answer is kept: internal/authentik/errors.go.
use authentik_operator.Client.Redaction.{redact_body}
use authentik_operator.Effect.{Error}
use authentik_operator.Models.Json.{Json}
use authentik_operator.Prelude.{
  String, ℕ, Option, ◌≤◌, suc, arith, zero, some, ◌≡◌, none, ◌↔◌, refl, Bool, false, if◌then◌else◌,
  true, ◌⊎◌, ◌<◌, ap, ltb, inr, inl,
}
use authentik_operator.Client.Failure.{
  byte_count, read_body, take_bytes, wrap_error, error_body, is_failure, plain_error, Response,
  CallError,
}

-- `kept` is a prefix of `whole`.
abbrev pub Starts : String → String → Type 0
Starts String.[] whole = Unit
Starts (String.◌∷◌ c kept) String.[] = ⊥
Starts (String.◌∷◌ c kept) (String.◌∷◌ d whole) = (c ≡ d) × Starts kept whole

-- `kept` is a prefix of `whole`: all of it when it has at most 4096 bytes, or else 4096 bytes.
abbrev pub Truncates : String → String → Type 0
Truncates kept whole =
    Starts kept whole
    × (((byte_count whole ≤ 4096) × (kept ≡ whole))
        ⊎ ((4096 < byte_count whole) × (byte_count kept ≡ 4096)))

take_bytes-Starts :
    (n : ℕ) (s : String)
    → n < byte_count s
    → Starts (take_bytes n s) s × (byte_count (take_bytes n s) ≡ n)
unfolding take_bytes byte_count
take_bytes-Starts zero s h = (tt, refl)
take_bytes-Starts (suc n) String.[] h = absurd (omega (arith, h))
take_bytes-Starts (suc n) (String.◌∷◌ c s) h =
    let (starts, k) = take_bytes-Starts n s (omega (arith, h)) in ((refl, starts), ap suc k)

Starts-refl : (s : String) → Starts s s
Starts-refl String.[] = tt
Starts-refl (String.◌∷◌ c s) = (refl, Starts-refl s)

truncated :
    (b : Bool) (s : String)
    → ltb 4096 (byte_count s) ≡ b
    → Truncates (if b then take_bytes 4096 s else s) s
truncated true s h =
    let long : 4096 < byte_count s = ground (arith, h) in
    let (starts, k) = take_bytes-Starts 4096 s long in (starts, inr (long, k))
truncated false s h = (Starts-refl s, inl (ground (arith, h), refl))

-- The body that is kept in an API error is a prefix of the redacted body: all of it when that has
-- at most 4096 bytes, and its first 4096 bytes otherwise.
pub error_body-Truncates :
    (decode : String → Option Json) (encode : Json → Option String) (resp : Response)
    (e : Option CallError)
    → Truncates (error_body decode encode resp e) (redact_body decode encode (read_body resp e))
unfolding error_body
error_body-Truncates decode encode resp e = truncated _ _ refl

in_range : (n : ℕ) → is_failure n ≡ false → (200 ≤ n) × (n ≤ 299)
unfolding is_failure
in_range n h = (ground arith, ground arith)

no_failure : (n : ℕ) → 200 ≤ n → n ≤ 299 → is_failure n ≡ false
unfolding is_failure
no_failure n h k = ground arith

no_error : (operation : String) (e : Option CallError) → plain_error operation e ≡ none → e ≡ none
unfolding plain_error
no_error operation none h = refl
no_error operation (some e) h = absurd cc

succeeded :
    (b : Bool) (x : Error) (operation : String) (e : Option CallError)
    → (if b then some x else plain_error operation e) ≡ none
    → (b ≡ false) × (e ≡ none)
succeeded true x operation e h = absurd cc
succeeded false x operation e h = (refl, no_error operation e h)

-- For a call that got a response, the converted error is nil exactly when the status is from 200
-- to 299 and client-go returned no error.
pub wrap_error_iff :
    (decode : String → Option Json) (encode : Json → Option String) (operation : String)
    (resp : Response) (e : Option CallError)
    → (wrap_error decode encode operation (some resp) e ≡ none)
      ↔ ((200 ≤ resp.status) × (resp.status ≤ 299) × (e ≡ none))
unfolding wrap_error plain_error
wrap_error_iff decode encode operation resp e = (
  λ h.
      let (fits, silent) = succeeded (is_failure resp.status) _ operation e h in
      let (low, high) = in_range resp.status fits in (low, high, silent),
  λ h. let (low, high, silent) = h in rw (no_failure resp.status low high) (rw silent refl),
)
