-- ===== src/Retry.antt =====
-- utils/helpers.ts: `retryAsyncRequest`, which runs a request again where it throws.
use thunderchat_server.Base.{
  ℕ, zero, suc, ◌+◌, ◌≤◌, ◌≡◌, ◌⊎◌, refl, arith, Bool, true, false, if◌then◌else◌, ltb, inl, inr,
  Bool-cases,
}
use thunderchat_server.Base.Action.{Result, Result-cases, ok, err, Action, Exception}

module _ {S A : Type 0} (request_executor : Action S A) (on_pre_retry : Exception → ℕ → S → S)
    (max_retries : ℕ) where
  -- The fuel of one more than `maxRetries` is never used up.
  unfoldable pub retry_handler : (fuel retries_count : ℕ) → Action S A
  retry_handler zero retries_count s = request_executor s
  retry_handler (suc fuel) retries_count s = elim (request_executor s).0 [
    | ok a ↦ request_executor s
    | err e ↦
        let again =
          retry_handler fuel (suc retries_count)
            (on_pre_retry e retries_count (request_executor s).1) in
        if ltb retries_count max_retries then again else request_executor s
  ]

  unfoldable pub retry_async_request : Action S A
  unfolding retry_handler
  retry_async_request = retry_handler (suc max_retries) 0

  -- What stands before a run, after `n` more runs that threw.
  abbrev after_error : Result A × S → ℕ → S
  after_error (ok a, s) k = s
  after_error (err e, s) k = on_pre_retry e k s

  abbrev pub before : (n retries_count : ℕ) → S → S
  before zero k s = s
  before (suc n) k s = before n (suc k) (after_error (request_executor s) k)

  abbrev pub has_failed : Result A → Bool
  has_failed (ok a) = false
  has_failed (err e) = true

  -- The next `n` runs throw.
  abbrev pub Fail : (n retries_count : ℕ) → S → Type 0
  Fail zero k s = Unit
  Fail (suc n) k s =
      (has_failed (request_executor s).0 ≡ true)
      × Fail n (suc k) (after_error (request_executor s) k)

  abbrev Outcome : (fuel k : ℕ) → S → Type 0
  Outcome fuel k s =
      (n : ℕ) × (k + n ≤ max_retries)
      × Fail n k s
      × (retry_handler fuel k s ≡ request_executor (before n k s))
      × ((has_failed (request_executor (before n k s)).0 ≡ false) ⊎ (k + n ≡ max_retries))

  -- The runs that are left, by the fuel that is left.
  handler_lem :
      (fuel k : ℕ) (s : S) → k + fuel ≡ suc max_retries → k ≤ max_retries → Outcome fuel k s
  unfolding retry_handler
  handler_lem zero k s h le = absurd (omega arith)
  handler_lem (suc fuel) k s h le = elim (Result-cases (request_executor s).0) [
    | inl (a, e) ↦ (0, omega arith, tt, ground arith, inl (rw e refl))
    | inr (x, e) ↦ elim (Bool-cases (ltb k max_retries)) [
      | inr last ↦ (0, omega arith, tt, ground arith, inr (ground arith))
      | inl more ↦
          let next = on_pre_retry x k (request_executor s).1 in
          let after : after_error (request_executor s) k ≡ next = ground arith in
          let (n, bound, fail, same, end) =
            handler_lem fuel (suc k) next (omega arith) (ground arith) in
          (
            suc n,
            omega (arith, bound),
            (rw e refl, rw after fail),
            ground arith,
            rw after (ground (arith, end)),
          )
    ]
  ]

  -- The executor runs at most `maxRetries` times more than once, each time but the last it throws,
  -- and the answer is that of the last run: one that did not throw, or the last that is allowed.
  pub retry_async_request_lem :
      (s : S)
      → (n : ℕ) × (n ≤ max_retries)
        × Fail n 0 s
        × (retry_async_request s ≡ request_executor (before n 0 s))
        × ((has_failed (request_executor (before n 0 s)).0 ≡ false) ⊎ (n ≡ max_retries))
  unfolding retry_async_request
  retry_async_request_lem s =
      let (n, bound, fail, same, end) =
        handler_lem (suc max_retries) 0 s (omega arith) (omega arith) in
      (n, omega (arith, bound), fail, same, ground (arith, end))
