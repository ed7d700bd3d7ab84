-- ===== src/Http/Decisive.antt =====
-- bridge/http_retry.py: the reply that `retry_request` gives back, found without its loop.
use foreman_dispatch_bridge.Base.{
  subst, ℕ, suc, ◌+◌, ◌≤◌, ◌≡◌, ◌≢◌, refl, true, false, Option, none, some, List, [], ◌∷◌, length,
  arith, nat_eq, if◌then◌else◌, Bool-cases, inl, inr,
}
use foreman_dispatch_bridge.Base.Text.{Text}
use foreman_dispatch_bridge.Http.{
  Failure, timeout_error, connection_error, http_error, request_error, other_error, Response, Reply,
  responded, raised, is_retryable, is_retryable_failure, is_retryable_status, Backoff, Seconds,
  backoff_delay, response_delay, request_attempt, raises_for_status, retry_request, after_loop,
  pause, capped_delay, header_delay, finite, infinite, unusable,
}
use foreman_dispatch_bridge.Http.Attempts.{Next, done, again, forget, Delays, run_attempts_lem}

-- The delay after a reply that is retried; `none` if `time.sleep` refuses it.
abbrev pub delay_after : (Text → Option Seconds) → Backoff → ℕ → Reply → Option ℕ
delay_after float b attempt (responded r) = response_delay float b attempt r
delay_after float b attempt (raised e) = some (backoff_delay b attempt)

-- A reply as an exception.
abbrev pub as_failure : Reply → Reply
as_failure (responded r) = raised (http_error (some r.status_code))
as_failure (raised e) = raised e

module _ (float : Text → Option Seconds) (b : Backoff) (func : ℕ → Reply) (retries : ℕ) where
  -- Why the reply number k, the first being 0, is the last one, and what it is given back as.
  pub data Ends : ℕ → Reply → Type 0 where
    decisive : (k : ℕ) → is_retryable (func k) ≡ false → Ends k (func k)
    spent : (k : ℕ) → k ≡ retries → is_retryable (func k) ≡ true → Ends k (as_failure (func k))
    refused :
        (k : ℕ)
        → k ≢ retries
        → is_retryable (func k) ≡ true
        → delay_after float b k (func k) ≡ none
        → Ends k (raised (other_error []))

  -- The replies from number k on were retried after these delays.
  abbrev pub Retried : ℕ → List ℕ → Type 0
  Retried k [] = Unit
  Retried k (ms ∷ rest) =
      (is_retryable (func k) ≡ true)
      × (delay_after float b k (func k) ≡ some ms)
      × (ms ≤ b.max_delay)
      × Retried (suc k) rest

abbrev after_delay : Option ℕ → Next (Unit {0}) Reply
after_delay none = done (raised (other_error []))
after_delay (some ms) = again tt ms

retryable-raises_for_status : (n : ℕ) → is_retryable_status n ≡ true → raises_for_status n ≡ true
retryable-raises_for_status n h = ground arith

module _ (float : Text → Option Seconds) (b : Backoff) (retries : ℕ) where
  -- The loop's body as one decision.
  judge : ℕ → Reply → Next (Unit {0}) Reply
  judge k x =
      if is_retryable x
      then (if nat_eq k retries then done (as_failure x) else after_delay (delay_after float b k x))
      else done x

  forget-pause : (last : Option Failure) (o : Option ℕ) → forget (pause last o) ≡ after_delay o
  forget-pause last none = refl
  forget-pause last (some ms) = refl

  request_attempt-judge :
      (k : ℕ) (last : Option Failure) (x : Reply)
      → forget (request_attempt float b retries k last x) ≡ judge k x
  unfolding request_attempt judge is_retryable is_retryable_failure
  request_attempt-judge k last (responded r) =
      elim (Bool-cases (is_retryable_status r.status_code)) [
        | inl h ↦ ground (
          arith,
          retryable-raises_for_status r.status_code h,
          forget-pause last (response_delay float b k r),
        )
        | inr h ↦ rw (h, request_attempt) refl
      ]
  request_attempt-judge k last (raised (timeout_error t)) = ground arith
  request_attempt-judge k last (raised (connection_error t)) = ground arith
  request_attempt-judge k last (raised (http_error none)) = refl
  request_attempt-judge k last (raised (http_error (some n))) = ground arith
  request_attempt-judge k last (raised (request_error t)) = ground arith
  request_attempt-judge k last (raised (other_error t)) = refl

  capped_delay-le-max :
      (x : Seconds) (ms : ℕ) → capped_delay b.max_delay x ≡ some ms → ms ≤ b.max_delay
  capped_delay-le-max (finite n) ms h = ground arith
  capped_delay-le-max infinite ms h = ground arith
  capped_delay-le-max unusable ms h = cc

  backoff-le-max : (k : ℕ) → backoff_delay b k ≤ b.max_delay
  unfolding backoff_delay
  backoff-le-max k = ground arith

  header-le-max :
      (k ms : ℕ) (x : Option Seconds) → header_delay float b k x ≡ some ms → ms ≤ b.max_delay
  header-le-max k ms none h = ground (arith, backoff-le-max k)
  header-le-max k ms (some x) h = capped_delay-le-max x ms h

  text-le-max :
      (k ms : ℕ) (r : Response) (t : Text)
      → r.retry_after ≡ t
      → response_delay float b k r ≡ some ms
      → ms ≤ b.max_delay
  unfolding response_delay
  text-le-max k ms r [] e h = ground (arith, backoff-le-max k)
  text-le-max k ms r (c ∷ s) e h =
      ground (arith, backoff-le-max k, header-le-max k ms (float (c ∷ s)))

  delay-le-max : (k : ℕ) (x : Reply) (ms : ℕ) → delay_after float b k x ≡ some ms → ms ≤ b.max_delay
  delay-le-max k (raised e) ms h = ground (arith, backoff-le-max k)
  delay-le-max k (responded r) ms h = text-le-max k ms r r.retry_after refl h

module _ (float : Text → Option Seconds) (b : Backoff) (func : ℕ → Reply) (retries : ℕ) where
  abbrev verdict : ℕ → Next (Unit {0}) Reply
  verdict k = judge float b retries k (func k)

  verdict_last : (r : Reply) × (verdict retries ≡ done r)
  unfolding judge
  verdict_last = elim (Bool-cases (is_retryable (func retries))) [
    | inl h ↦ (as_failure (func retries), ground arith)
    | inr h ↦ (func retries, ground arith)
  ]

  after-done :
      (k : ℕ) (r : Reply) (o : Option ℕ)
      → delay_after float b k (func k) ≡ o
      → k ≢ retries
      → is_retryable (func k) ≡ true
      → after_delay o ≡ done r
      → Ends float b func retries k r
  after-done k r none d n h e = subst (Ends float b func retries k) (cc) (Ends.refused k n h d)
  after-done k r (some ms) d n h e = cc

  verdict-done : (k : ℕ) (r : Reply) → verdict k ≡ done r → Ends float b func retries k r
  unfolding judge
  verdict-done k r e = elim (Bool-cases (is_retryable (func k))) [
    | inr h ↦ subst (Ends float b func retries k) (ground arith) (Ends.decisive k h)
    | inl h ↦ elim (Bool-cases (nat_eq k retries)) [
      | inl l ↦ subst (Ends float b func retries k) (ground arith) (Ends.spent k (ground arith) h)
      | inr l ↦ after-done k r (delay_after float b k (func k)) refl (ground arith) h (ground arith)
    ]
  ]

  after-again : (o : Option ℕ) (ms : ℕ) → after_delay o ≡ again tt ms → o ≡ some ms
  after-again none ms e = cc
  after-again (some n) ms e = cc

  verdict-again :
      (k ms : ℕ)
      → verdict k ≡ again tt ms
      → (is_retryable (func k) ≡ true) × (delay_after float b k (func k) ≡ some ms)
  unfolding judge
  verdict-again k ms e = elim (Bool-cases (is_retryable (func k))) [
    | inr h ↦ ground arith
    | inl h ↦ (h, after-again _ ms (ground arith))
  ]

  Retried-Delays :
      (k : ℕ) (delays : List ℕ) → Delays verdict k delays → Retried float b func retries k delays
  Retried-Delays k [] d = tt
  Retried-Delays k (ms ∷ rest) (e, d) =
      let (h, w) = verdict-again k ms e in
      (h, w, delay-le-max float b retries k (func k) ms w, Retried-Delays (suc k) rest d)

  -- A call through `retry_request` comes to its end after at most `retries` delays: every reply
  -- before the last was one to retry, was followed by its delay, and no delay exceeds the maximum;
  -- and what is given back is the last reply, which is decisive or, as an exception, is the last
  -- one allowed, or the refusal of a delay that cannot be slept.
  pub retry_request-Ends :
      (length (retry_request float b func retries).1 ≤ retries)
      × Retried float b func retries 0 (retry_request float b func retries).1
      × Ends float b func retries
          (length (retry_request float b func retries).1)
          (retry_request float b func retries).0
  unfolding retry_request
  retry_request-Ends =
      let (h, e, d) =
        run_attempts_lem (λ k last. request_attempt float b retries k last (func k)) after_loop
          retries verdict (λ k last. request_attempt-judge float b retries k last (func k))
          verdict_last retries 0 none (omega arith) in
      let z : 0 + length (retry_request float b func retries).1
          ≡ length (retry_request float b func retries).1 =
        omega arith in
      (omega arith, Retried-Delays 0 _ d, verdict-done _ _ (rw z at e))
