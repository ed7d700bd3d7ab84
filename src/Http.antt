-- ===== src/Http.antt =====
-- bridge/http_retry.py: the retry of calls to Dispatch and GitHub, and of calls to the Kubernetes
-- API. Delays are milliseconds. A callable is given by the answer of its first, second, ... call.
use foreman_dispatch_bridge.Base.{
  ℕ, suc, ◌+◌, ◌*◌, ◌^◌, Bool, true, false, ◌&&◌, ◌||◌, Option, none, some, List, [], ◌∷◌, leb, ltb,
  nat_eq, any, if◌then◌else◌, not, or_default,
}
use foreman_dispatch_bridge.Base.Text.{Text}
use foreman_dispatch_bridge.Base.Json.{Json}
use foreman_dispatch_bridge.Base.Dict.{Dict}
pub mod Attempts
use Attempts.{Next, done, again, run_attempts}
pub mod Decisive
pub mod Kubernetes

-- What a call can raise: the classes that `_is_retryable` tells apart, an HTTPError with the status
-- of its response if it has one, and whatever is no RequestException.
pub data Failure : Type 0 where
  timeout_error : Text → Failure
  connection_error : Text → Failure
  http_error : Option ℕ → Failure
  request_error : Text → Failure
  other_error : Text → Failure

-- A response, with its Retry-After header; a missing one is empty.
pub record Response : Type 0 where
  pub status_code : ℕ
  pub retry_after : Text
  pub body : Json

pub data Reply : Type 0 where
  responded : Response → Reply
  raised : Failure → Reply

abbrev pub retryable_status_codes : List ℕ
retryable_status_codes = 429 ∷ 500 ∷ 502 ∷ 503 ∷ 504 ∷ []

abbrev is_retryable_status : ℕ → Bool
is_retryable_status status = any (nat_eq status) retryable_status_codes

unfoldable pub is_retryable_failure : Failure → Bool
is_retryable_failure (timeout_error text) = true
is_retryable_failure (connection_error text) = true
is_retryable_failure (http_error none) = false
is_retryable_failure (http_error (some status)) = is_retryable_status status
is_retryable_failure (request_error text) = true
is_retryable_failure (other_error text) = false

-- `_is_retryable`
unfoldable pub is_retryable : Reply → Bool
unfolding is_retryable_failure
is_retryable (responded r) = is_retryable_status r.status_code
is_retryable (raised e) = is_retryable_failure e

pub record Backoff : Type 0 where
  pub base_delay : ℕ
  pub max_delay : ℕ
  pub backoff_factor : ℕ

-- `float(text)`, where it does not raise: a delay, more than any, or one that `time.sleep` refuses
-- with a ValueError (negative, or not a number).
pub data Seconds : Type 0 where
  finite : ℕ → Seconds
  infinite : Seconds
  unusable : Seconds

abbrev pub min : ℕ → ℕ → ℕ
min a b = if ltb b a then b else a

-- `resp.raise_for_status()` raises.
abbrev raises_for_status : ℕ → Bool
raises_for_status status = leb 400 status && ltb status 600

-- `time.sleep(delay)`, and on to the next attempt.
abbrev pause : Option Failure → Option ℕ → Next (Option Failure) Reply
pause last none = done (raised (other_error []))
pause last (some ms) = again last ms

-- What follows the loop, if it ends by itself.
abbrev after_loop : Option Failure → Reply
after_loop none = raised (request_error [])
after_loop (some e) = raised e

-- The delay of the attempt's backoff.
unfoldable pub backoff_delay : Backoff → ℕ → ℕ
backoff_delay b attempt = min (b.base_delay * b.backoff_factor ^ attempt) b.max_delay

-- `min(float(retry_after), max_delay)`, as `time.sleep` takes it.
abbrev capped_delay : ℕ → Seconds → Option ℕ
capped_delay max_delay (finite ms) = some (min ms max_delay)
capped_delay max_delay infinite = some max_delay
capped_delay max_delay unusable = none

module _ (float : Text → Option Seconds) (b : Backoff) where
  abbrev header_delay : ℕ → Option Seconds → Option ℕ
  header_delay attempt none = some (backoff_delay b attempt)
  header_delay attempt (some seconds) = capped_delay b.max_delay seconds

  -- The delay after a retryable response; `none` if `time.sleep` refuses it.
  unfoldable pub response_delay : ℕ → Response → Option ℕ
  response_delay attempt r =
      if nat_eq r.status_code 429
      then elim r.retry_after [
        | [] ↦ some (backoff_delay b attempt)
        | c ∷ s ↦ header_delay attempt (float (c ∷ s))
      ]
      else some (backoff_delay b attempt)

  -- The body of the loop, at an attempt; `last` is `last_exc`.
  unfoldable pub request_attempt :
      (retries attempt : ℕ) → Option Failure → Reply → Next (Option Failure) Reply
  unfolding is_retryable is_retryable_failure response_delay
  request_attempt retries attempt last (raised (other_error text)) =
      done (raised (other_error text))
  request_attempt retries attempt last (raised e) =
      if is_retryable_failure e && not (nat_eq attempt retries)
      then again (some e) (backoff_delay b attempt)
      else done (raised e)
  request_attempt retries attempt last (responded r) =
      if is_retryable (responded r)
      then (if nat_eq attempt retries && raises_for_status r.status_code
          then done (raised (http_error (some r.status_code)))
          else pause last (response_delay attempt r))
      else done (responded r)

  -- The result, and the delays between the calls.
  unfoldable pub retry_request : (func : ℕ → Reply) (retries : ℕ) → Reply × List ℕ
  unfolding run_attempts request_attempt
  retry_request func retries =
      run_attempts (λ attempt last. request_attempt retries attempt last (func attempt)) after_loop
        (suc retries) 0 none

-- `requests`: each answer to a call with these arguments, by its number. A timeout is in seconds.
pub record Requests : Type 0 where
  pub get : Text → Dict Text → ℕ → ℕ → Reply
  pub post : Text → Dict Text → Json → ℕ → ℕ → Reply
  pub put : Text → Dict Text → Json → ℕ → ℕ → Reply
  pub patch : Text → Dict Text → Json → ℕ → ℕ → Reply

module _ (float : Text → Option Seconds) (b : Backoff) (retries : ℕ) (requests : Requests) where
  pub http_get : Text → Option (Dict Text) → (timeout : ℕ) → Reply × List ℕ
  http_get url headers timeout =
      retry_request float b (requests.get url (or_default headers []) timeout) retries

  pub http_post : Text → Option (Dict Text) → Json → (timeout : ℕ) → Reply × List ℕ
  http_post url headers json timeout =
      retry_request float b (requests.post url (or_default headers []) json timeout) retries

  pub http_put : Text → Option (Dict Text) → Json → (timeout : ℕ) → Reply × List ℕ
  http_put url headers json timeout =
      retry_request float b (requests.put url (or_default headers []) json timeout) retries

  pub http_patch : Text → Option (Dict Text) → Json → (timeout : ℕ) → Reply × List ℕ
  http_patch url headers json timeout =
      retry_request float b (requests.patch url (or_default headers []) json timeout) retries
