-- ===== src/Http/Kubernetes.antt =====
-- bridge/http_retry.py and bridge/main.py: calls to the Kubernetes API with their retry, and the
-- deletion of a Workload that waits until it is gone.
use foreman_dispatch_bridge.Base.{
  ℕ, zero, suc, Bool, true, false, ◌&&◌, Option, none, some, List, [], ◌∷◌, any, nat_eq, not,
  if◌then◌else◌,
}
use foreman_dispatch_bridge.Base.Text.{Text}
use foreman_dispatch_bridge.Http.{Backoff, backoff_delay}
use foreman_dispatch_bridge.Http.Attempts.{Next, done, again, run_attempts}
pub mod Gone

-- What a call of the Kubernetes client comes to: a value, an ApiException with its status if it has
-- one, or another exception.
pub data KubeReply (A : Type 0) : Type 0 where
  answered : A → KubeReply A
  api_exception : Option ℕ → KubeReply A
  other_exception : Text → KubeReply A

abbrev pub k8s_retryable_status_codes : List ℕ
k8s_retryable_status_codes = 429 ∷ 500 ∷ 502 ∷ 503 ∷ 504 ∷ []

module _ {A : Type 0} where
  -- `_is_k8s_retryable`; false for a reply that is no exception.
  unfoldable pub is_k8s_retryable : KubeReply A → Bool
  is_k8s_retryable (api_exception none) = false
  is_k8s_retryable (api_exception (some status)) =
      if nat_eq status 403 then false else any (nat_eq status) k8s_retryable_status_codes
  is_k8s_retryable (other_exception text) = false
  is_k8s_retryable (answered a) = false

  -- The body of the loop of `_retry_k8s_request`; the variable that it carries is `last_exc`.
  unfoldable pub k8s_attempt :
      Backoff → (retries attempt : ℕ) → KubeReply A → Next (Option (KubeReply A)) (KubeReply A)
  unfolding is_k8s_retryable
  k8s_attempt b retries attempt (answered a) = done (answered a)
  k8s_attempt b retries attempt exc =
      if is_k8s_retryable exc && not (nat_eq attempt retries)
      then again (some exc) (backoff_delay b attempt)
      else done exc

  abbrev after_k8s_loop : Option (KubeReply A) → KubeReply A
  after_k8s_loop none = other_exception []
  after_k8s_loop (some exc) = exc

  -- The result, and the delays between the calls.
  unfoldable pub retry_k8s_request :
      Backoff → (callable : ℕ → KubeReply A) (retries : ℕ) → KubeReply A × List ℕ
  unfolding run_attempts k8s_attempt
  retry_k8s_request b callable retries =
      run_attempts (λ attempt last. k8s_attempt b retries attempt (callable attempt)) after_k8s_loop
        (suc retries) 0 none

-- The defaults of both retries, in milliseconds, with two retries.
abbrev pub default_backoff : Backoff
default_backoff = record { base_delay = 500; max_delay = 16000; backoff_factor = 2 }

-- How a deletion ends: normally, or with an exception.
pub data Deletion : Type 0 where
  deleted : Deletion
  timed_out : Deletion
  failed : KubeReply (Unit {0}) → Deletion

-- `exc.status == 404`
unfoldable pub is_gone : KubeReply (Unit {0}) → Bool
is_gone (api_exception (some status)) = nat_eq status 404
is_gone _ = false

-- `except ApiException`: a Workload that is gone is a normal end; without an exception the code goes on.
unfoldable pub unless_gone : KubeReply (Unit {0}) → Deletion → Deletion
unfolding is_gone
unless_gone (answered a) rest = rest
unless_gone exc rest = if is_gone exc then deleted else failed exc

-- The loop that polls: `get` gives the answers to each poll, number by number, its retries included.
unfoldable pub poll_until_gone : (get : ℕ → ℕ → KubeReply (Unit {0})) (left poll : ℕ) → Deletion
unfolding unless_gone retry_k8s_request
poll_until_gone get zero poll = timed_out
poll_until_gone get (suc left) poll =
    unless_gone (retry_k8s_request default_backoff (get poll) 2).0
      (poll_until_gone get left (suc poll))

-- `_delete_workload`
unfoldable pub delete_workload :
    (delete : ℕ → KubeReply (Unit {0})) (get : ℕ → ℕ → KubeReply (Unit {0})) (timeout : ℕ)
    → Deletion
unfolding poll_until_gone unless_gone retry_k8s_request
delete_workload delete get timeout =
    unless_gone (retry_k8s_request default_backoff delete 2).0 (poll_until_gone get timeout 0)
