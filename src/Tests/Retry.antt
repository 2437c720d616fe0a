-- ===== src/Tests/Retry.antt =====
-- A request that throws twice.
use thunderchat_server.Base.{ℕ, ◌+◌, ◌≤◌, ◌≡◌, ◌⊎◌, false, if◌then◌else◌, ltb}
use thunderchat_server.Base.Action.{Action, Exception, ok, err, db_error}
use thunderchat_server.Retry.{
  retry_async_request, before, Fail, has_failed, retry_async_request_lem,
}

abbrev third_time : Action ℕ ℕ
third_time runs = if ltb runs 2 then (err db_error, runs + 1) else (ok runs, runs + 1)

abbrev no_hook : Exception → ℕ → ℕ → ℕ
no_hook e retries_count runs = runs

retry_async_request_lem_example :
    (n : ℕ) × (n ≤ 3)
    × Fail third_time no_hook 3 n 0 0
    × (retry_async_request third_time no_hook 3 0 ≡ third_time (before third_time no_hook 3 n 0 0))
    × ((has_failed third_time no_hook 3 (third_time (before third_time no_hook 3 n 0 0)).0 ≡ false)
        ⊎ (n ≡ 3))
retry_async_request_lem_example = retry_async_request_lem third_time no_hook 3 0
