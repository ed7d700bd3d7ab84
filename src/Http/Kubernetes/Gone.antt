-- ===== src/Http/Kubernetes/Gone.antt =====
-- bridge/http_retry.py and bridge/main.py: what the retry gives back, and when a deletion returns.
use foreman_dispatch_bridge.Base.{
  ℕ, zero, suc, ◌+◌, ◌≤◌, ◌<◌, ◌≡◌, ◌≢◌, refl, true, false, ◌&&◌, Option, none, some, List, [], ◌∷◌,
  length, arith, nat_eq, not, if◌then◌else◌, Bool-cases, ◌⊎◌, inl, inr, subst, sym,
}
use foreman_dispatch_bridge.Http.{Backoff, backoff_delay}
use foreman_dispatch_bridge.Http.Attempts.{Next, done, again, forget, Delays, run_attempts_lem}
use foreman_dispatch_bridge.Http.Kubernetes.{
  KubeReply, answered, api_exception, other_exception, is_k8s_retryable, k8s_attempt,
  after_k8s_loop, retry_k8s_request, default_backoff, Deletion, deleted, timed_out, failed, is_gone,
  unless_gone, poll_until_gone, delete_workload,
}

module _ {A : Type 0} (b : Backoff) (retries : ℕ) where
  judge : ℕ → KubeReply A → Next (Unit {0}) (KubeReply A)
  judge k x =
      if is_k8s_retryable x && not (nat_eq k retries) then again tt (backoff_delay b k) else done x

  k8s_attempt-judge :
      (k : ℕ) (x : KubeReply A)
      → forget {S = Option (KubeReply A)} (k8s_attempt b retries k x) ≡ judge k x
  unfolding k8s_attempt judge is_k8s_retryable
  k8s_attempt-judge k (answered a) = refl
  k8s_attempt-judge k (api_exception none) = refl
  k8s_attempt-judge k (api_exception (some n)) = ground arith
  k8s_attempt-judge k (other_exception t) = refl

module _ {A : Type 0} (b : Backoff) (callable : ℕ → KubeReply A) (retries : ℕ) where
  abbrev pub Repeated : ℕ → List ℕ → Type 0
  Repeated k [] = Unit
  Repeated k (ms ∷ rest) = (is_k8s_retryable (callable k) ≡ true) × Repeated (suc k) rest

  abbrev verdict : ℕ → Next (Unit {0}) (KubeReply A)
  verdict k = judge b retries k (callable k)

  Repeated-Delays : (k : ℕ) (delays : List ℕ) → Delays verdict k delays → Repeated k delays
  unfolding judge
  Repeated-Delays k [] d = tt
  Repeated-Delays k (ms ∷ rest) (e, d) = (ground arith, Repeated-Delays (suc k) rest d)

  verdict_last : (x : KubeReply A) × (verdict retries ≡ done x)
  unfolding judge
  verdict_last = (callable retries, ground arith)

  verdict-done :
      (k : ℕ) (x : KubeReply A)
      → verdict k ≡ done x
      → (x ≡ callable k) × ((is_k8s_retryable x ≡ false) ⊎ (k ≡ retries))
  unfolding judge
  verdict-done k x e = elim (Bool-cases (is_k8s_retryable (callable k))) [
    | inl h ↦ (ground arith, inr (ground arith))
    | inr h ↦ (ground arith, inl (ground arith))
  ]

  -- A call of the Kubernetes API through the retry comes to its end after at most `retries` delays;
  -- every reply before the last was a transient exception, and the last one is given back, whatever
  -- it is: it is not transient, or no more retries are allowed.
  pub retry_k8s_request_lem :
      let n = length (retry_k8s_request b callable retries).1 in
      let x = (retry_k8s_request b callable retries).0 in
      (n ≤ retries)
      × Repeated 0 (retry_k8s_request b callable retries).1
      × (x ≡ callable n)
      × ((is_k8s_retryable x ≡ false) ⊎ (n ≡ retries))
  unfolding retry_k8s_request
  retry_k8s_request_lem =
      let (h, e, d) =
        run_attempts_lem (λ k last. k8s_attempt b retries k (callable k)) after_k8s_loop retries
          verdict (λ k last. k8s_attempt-judge b retries k (callable k)) (verdict_last) retries 0
          none (omega arith) in
      let z : 0 + length (retry_k8s_request b callable retries).1
          ≡ length (retry_k8s_request b callable retries).1 =
        omega arith in
      let (x, w) = verdict-done _ _ (rw z at e) in (omega arith, Repeated-Delays 0 _ d, x, w)

-- A call of the API, its retries included, that meets this reply.
abbrev pub Meets : {A : Type 0} → (ℕ → KubeReply A) → KubeReply A → Type 0
Meets f x = (n : ℕ) × (n ≤ 2) × (f n ≡ x)

abbrev pub Api : Type 0
Api = ℕ → KubeReply (Unit {0})

retry-Meets : (f : Api) → Meets f (retry_k8s_request default_backoff f 2).0
retry-Meets f = let (h, d, e, w) = retry_k8s_request_lem default_backoff f 2 in (_, h, sym e)

-- How the polls from a number on end.
abbrev pub Polled : (get : ℕ → Api) (from to : ℕ) → Deletion → Type 0
Polled get from to deleted =
    (k : ℕ) × (from ≤ k)
    × (k < to)
    × Meets (get k) (api_exception (some 404))
    × ((i : ℕ) → from ≤ i → i < k → Meets (get i) (answered tt))
Polled get from to timed_out = (i : ℕ) → from ≤ i → i < to → Meets (get i) (answered tt)
Polled get from to (failed x) =
    (is_gone x ≡ false) × (x ≢ answered tt) × ((k : ℕ) × (from ≤ k) × (k < to) × Meets (get k) x)

from_or_later :
    (get : ℕ → Api) (from i : ℕ)
    → Meets (get from) (answered tt)
    → from ≤ i
    → (suc from ≤ i → Meets (get i) (answered tt))
    → Meets (get i) (answered tt)
from_or_later get from i m h later = elim (Bool-cases (nat_eq from i)) [
  | inl e ↦ subst (λ j. Meets (get j) (answered tt)) (ground arith) m
  | inr n ↦ later (ground arith)
]

Polled-later :
    (get : ℕ → Api) (from to : ℕ) (d : Deletion)
    → Meets (get from) (answered tt)
    → Polled get (suc from) to d
    → Polled get from to d
Polled-later get from to deleted m (k, a, b, c, before) =
    (k, omega arith, b, c, λ i h l. from_or_later get from i m h λ g. before i g l)
Polled-later get from to timed_out m all = λ i h l. from_or_later get from i m h λ g. all i g l
Polled-later get from to (failed x) m (g, n, (k, a, b, c)) = (g, n, (k, omega arith, b, c))

is_gone→ : (x : KubeReply (Unit {0})) → is_gone x ≡ true → x ≡ api_exception (some 404)
unfolding is_gone
is_gone→ (answered a) h = cc
is_gone→ (api_exception none) h = cc
is_gone→ (api_exception (some n)) h = ground arith
is_gone→ (other_exception t) h = cc

-- An exception that the code does not pass over.
Refuses : KubeReply (Unit {0}) → Type 0
Refuses x = (is_gone x ≡ false) × (x ≢ answered tt)

unless_gone-cases :
    (x : KubeReply (Unit {0})) (rest : Deletion)
    → ((x ≡ answered tt) × (unless_gone x rest ≡ rest))
      ⊎ ((x ≡ api_exception (some 404)) × (unless_gone x rest ≡ deleted))
      ⊎ (Refuses x × (unless_gone x rest ≡ failed x))
unfolding unless_gone Refuses
unless_gone-cases (answered a) rest = inl (refl, refl)
unless_gone-cases (api_exception s) rest = elim (Bool-cases (is_gone (api_exception s))) [
  | inl g ↦ inr (inl (is_gone→ _ g, rw (g, unless_gone) refl))
  | inr g ↦ inr (inr ((g, λ e. cc), rw (g, unless_gone) refl))
]
unless_gone-cases (other_exception t) rest = inr (inr ((refl, λ e. cc), refl))

poll_until_gone-Polled :
    (get : ℕ → Api) (left from : ℕ) → Polled get from (from + left) (poll_until_gone get left from)
unfolding poll_until_gone Refuses
poll_until_gone-Polled get zero from = λ i h l. absurd (omega arith)
poll_until_gone-Polled get (suc left) from =
    let met = retry-Meets (get from) in
    elim (unless_gone-cases (retry_k8s_request default_backoff (get from) 2).0
      (poll_until_gone get left (suc from))) [
        | inl (x, e) ↦ rw e (
            Polled-later get from (from + suc left) _ (rw x at met)
              (rw-sum get left from (poll_until_gone-Polled get left (suc from))))
        | inr (inl (x, e)) ↦
            rw e (from, omega arith, omega arith, rw x at met, λ i h l. absurd (omega arith))
        | inr (inr ((g, n), e)) ↦ rw e (g, n, (from, omega arith, omega arith, met))
      ]
  where
    rw-sum :
        (get : ℕ → Api) (left from : ℕ)
        → Polled get (suc from) (suc from + left) (poll_until_gone get left (suc from))
        → Polled get (suc from) (from + suc left) (poll_until_gone get left (suc from))
    rw-sum get left from p =
        subst (λ n. Polled get (suc from) n (poll_until_gone get left (suc from)))
          {x = suc from + left} {y = from + suc left} (omega arith) p

-- How a deletion ends, with this many polls allowed: normally, only where the API answers the
-- deletion or a poll with 404, all polls before it finding the Workload; with a timeout, only where
-- all polls find it; and with an exception, only where this is the answer, and no 404.
pub Deletes : (delete : Api) (get : ℕ → Api) (timeout : ℕ) → Deletion → Type 0
Deletes delete get timeout deleted =
    Meets delete (api_exception (some 404))
    ⊎ (Meets delete (answered tt) × Polled get 0 timeout deleted)
Deletes delete get timeout timed_out = Meets delete (answered tt) × Polled get 0 timeout timed_out
Deletes delete get timeout (failed x) =
    (is_gone x ≡ false)
    × (x ≢ answered tt)
    × (Meets delete x ⊎ (Meets delete (answered tt) × ((k : ℕ) × (k < timeout) × Meets (get k) x)))

Polled-Deletes :
    (delete : Api) (get : ℕ → Api) (timeout : ℕ) (d : Deletion)
    → Meets delete (answered tt)
    → Polled get 0 timeout d
    → Deletes delete get timeout d
unfolding Deletes
Polled-Deletes delete get timeout deleted m p = inr (m, p)
Polled-Deletes delete get timeout timed_out m p = (m, p)
Polled-Deletes delete get timeout (failed x) m (g, n, (k, a, b, c)) = (g, n, inr (m, (k, b, c)))

-- A deletion of a Workload returns only once the API answers that it is gone, to the deletion or to
-- a poll before which all others found it; it times out only if the deletion was taken and every
-- poll found the Workload; and it raises an exception of the API only if that answered the deletion
-- or a poll, and was no 404.
pub delete_workload-Deletes :
    (delete : Api) (get : ℕ → Api) (timeout : ℕ)
    → Deletes delete get timeout (delete_workload delete get timeout)
unfolding delete_workload Deletes Refuses
delete_workload-Deletes delete get timeout =
    let met = retry-Meets delete in
    elim (unless_gone-cases (retry_k8s_request default_backoff delete 2).0
      (poll_until_gone get timeout 0)) [
        | inl (x, e) ↦ rw e (
            Polled-Deletes delete get timeout _ (rw x at met) (
              subst (λ n. Polled get 0 n (poll_until_gone get timeout 0)) {x = 0 + timeout}
                {y = timeout} (omega arith) (poll_until_gone-Polled get timeout 0)))
        | inr (inl (x, e)) ↦ rw e (inl (rw x at met))
        | inr (inr ((g, n), e)) ↦ rw e (g, n, inl met)
      ]
