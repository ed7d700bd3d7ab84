-- ===== src/Http/Attempts.antt =====
-- bridge/http_retry.py: `for attempt in range(retries + 1)`, with the delays that it sleeps.
use foreman_dispatch_bridge.Base.{
  ℕ, zero, suc, ◌+◌, ◌≤◌, ◌≡◌, refl, List, [], ◌∷◌, length, arith, ◌⊎◌, inl, inr, ◌≢◌,
}

-- How the loop's body ends: out of the function, or after a delay with the next attempt.
pub data Next {ℓ κ} (S : Type ℓ) (R : Type κ) : Type (ℓ ⊔ κ) where
  done : R → Next S R
  again : S → ℕ → Next S R

-- Without the variable that the loop carries.
abbrev pub forget {ℓ κ} : {S : Type ℓ} {R : Type κ} → Next S R → Next (Unit {0}) R
forget (done r) = done r
forget (again s ms) = again tt ms

pub Next-cases {ℓ κ} :
    {S : Type ℓ} {R : Type κ} (n : Next S R)
    → ((r : R) × (n ≡ done r)) ⊎ ((s : S) × (ms : ℕ) × (n ≡ again s ms))
Next-cases (done r) = inl (r, refl)
Next-cases (again s ms) = inr (s, ms, refl)

module _ {ℓ κ} {S : Type ℓ} {R : Type κ} (body : ℕ → S → Next S R) (exit : S → R) where
  unfoldable pub run_attempts : (left attempt : ℕ) → S → R × List ℕ
  run_attempts zero attempt s = (exit s, [])
  run_attempts (suc left) attempt s = elim (body attempt s) [
    | done r ↦ (r, [])
    | again s' ms ↦ (let rest = run_attempts left (suc attempt) s' in (rest.0, ms ∷ rest.1))
  ]

-- The attempts from one on that end in a delay, with their delays.
abbrev pub Delays {κ} : {R : Type κ} → (ℕ → Next (Unit {0}) R) → ℕ → List ℕ → Type κ
Delays verdict attempt [] = Unit
Delays verdict attempt (ms ∷ rest) =
    (verdict attempt ≡ again tt ms) × Delays verdict (suc attempt) rest

abbrev EndsWell {κ} : {R : Type κ} → ℕ → (ℕ → Next (Unit {0}) R) → ℕ → R × List ℕ → Type κ
EndsWell retries verdict attempt (r, delays) =
    (attempt + length delays ≤ retries)
    × (verdict (attempt + length delays) ≡ done r)
    × Delays verdict attempt delays

module _ {κ} {R : Type κ} (retries : ℕ) (verdict : ℕ → Next (Unit {0}) R) where
  EndsWell-done :
      (attempt : ℕ) (r : R)
      → attempt ≤ retries
      → verdict attempt ≡ done r
      → EndsWell retries verdict attempt (r, [])
  EndsWell-done attempt r h e =
      let z : attempt + 0 ≡ attempt = omega arith in (omega arith, rw z e, tt)

  EndsWell-again :
      (attempt ms : ℕ) (rest : R × List ℕ)
      → verdict attempt ≡ again tt ms
      → EndsWell retries verdict (suc attempt) rest
      → EndsWell retries verdict attempt (rest.0, ms ∷ rest.1)
  EndsWell-again attempt ms rest e (h, v, d) =
      let s : attempt + suc (length rest.1) ≡ suc attempt + length rest.1 = omega arith in
      (omega arith, rw s v, (e, d))

module _ {ℓ κ} {S : Type ℓ} {R : Type κ} (body : ℕ → S → Next S R) (exit : S → R) (retries : ℕ)
    (verdict : ℕ → Next (Unit {0}) R)
    (agrees : (attempt : ℕ) (s : S) → forget (body attempt s) ≡ verdict attempt)
    (last : (r : R) × (verdict retries ≡ done r)) where
  stops : (attempt : ℕ) (s s' : S) (ms : ℕ) → body attempt s ≡ again s' ms → attempt ≢ retries
  stops attempt s s' ms go e = cc (agrees attempt s, last.1)

  -- The loop ends within its attempts, with the first verdict that is no delay.
  pub run_attempts_lem :
      (left attempt : ℕ) (s : S)
      → attempt + left ≡ retries
      → EndsWell retries verdict attempt (run_attempts body exit (suc left) attempt s)
  unfolding run_attempts
  run_attempts_lem zero attempt s e = elim (Next-cases (body attempt s)) [
    | inl (r, stop) ↦
        rw (stop, run_attempts)
          (EndsWell-done retries verdict attempt r (omega arith) (cc (agrees attempt s)))
    | inr (s', ms, go) ↦ absurd (stops attempt s s' ms go (omega arith))
  ]
  run_attempts_lem (suc left) attempt s e = elim (Next-cases (body attempt s)) [
    | inl (r, stop) ↦
        rw (stop, run_attempts)
          (EndsWell-done retries verdict attempt r (omega arith) (cc (agrees attempt s)))
    | inr (s', ms, go) ↦
        rw (go, run_attempts)
          (EndsWell-again retries verdict attempt ms _ (cc (agrees attempt s))
            (run_attempts_lem left (suc attempt) s' (omega arith)))
  ]
