-- ===== src/Notifier/Retry.antt =====
-- What `deliverWithRetry` of notification-service/internal/notifier/delivery.go guarantees, whatever
-- the backend.
use onyxchat.Base.{
  ℕ, zero, suc, ◌+◌, ◌*◌, ◌≤◌, ◌<◌, Bool, true, false, ◌≡◌, ◌≢◌, refl, inl, inr, none, List, [],
  ◌∷◌, arith, Bool-cases, length,
}
use onyxchat.Notifier.{
  Context, max_attempts, initial_backoff, select_done, Delivery, delivered, cancelled, exhausted,
  Attempts, with_call, retry_loop, deliver_with_retry,
}

-- The time of the last of the calls, where there is one.
abbrev pub last_call : ℕ → List ℕ → ℕ
last_call t [] = t
last_call t (u ∷ us) = last_call u us

-- The longest time for which the loop waits in all.
abbrev pub patience : (left backoff : ℕ) → ℕ
patience zero backoff = 0
patience (suc left) backoff = backoff + patience left (backoff * 2)

module _ (backend : ℕ → Bool × ℕ) (ctx : Context) where
  -- Every call but the last failed.
  abbrev pub FailedBefore : List ℕ → Type 0
  FailedBefore [] = Unit
  FailedBefore (t ∷ us) = ((us ≢ []) → (backend t).0 ≡ true) × FailedBefore us

  -- What a result says of the last call and of the number of calls.
  abbrev pub Ends : (attempts : ℕ) → Delivery → (last calls : ℕ) → Type 0
  Ends n delivered t k = (backend t).0 ≡ false
  Ends n cancelled t k = ((backend t).0 ≡ true) × (k < n) × (ctx ≢ none)
  Ends n exhausted t k = ((backend t).0 ≡ true) × (k ≡ n)

  pub record IsRetry (n : ℕ) (d : ℕ) (a : Attempts) : Type 0 where
    pub enough : 0 < length a.calls
    pub bounded : length a.calls ≤ n
    pub before : FailedBefore a.calls
    pub ends : Ends n a.result (last_call d a.calls) (length a.calls)

  more_Ends : (n : ℕ) (r : Delivery) (t k : ℕ) → Ends n r t k → Ends (suc n) r t (suc k)
  more_Ends n delivered t k e = e
  more_Ends n cancelled t k (f, less, c) = (f, omega arith, c)
  more_Ends n exhausted t k (f, same) = (f, omega arith)

  never_done : (d now : ℕ) → (select_done ctx d now).0 ≡ true → ctx ≢ none
  never_done d now e = λ never. ground (arith, rw never at e)

  one_call :
      (n now d : ℕ) (r : Delivery)
      → 0 < n
      → Ends n r now 1
      → IsRetry n d (record { result = r; calls = now ∷ [] })
  one_call n now d r some_left e = record {
    enough = omega arith;
    bounded = omega arith;
    before = (λ apart. absurd (apart refl), tt);
    ends = e;
  }

  more_calls :
      (n now d : ℕ) (a : Attempts)
      → (backend now).0 ≡ true
      → IsRetry n now a
      → IsRetry (suc n) d (with_call now a)
  more_calls n now d a fails v = record {
    enough = omega arith;
    bounded = omega (arith, v.bounded);
    before = (λ apart. fails, v.before);
    ends = more_Ends n a.result (last_call now a.calls) (length a.calls) v.ends;
  }

  retry_loop-IsRetry :
      (left backoff now d : ℕ) → IsRetry (suc left) d (retry_loop backend ctx left backoff now)
  unfolding retry_loop
  retry_loop-IsRetry zero backoff now d = elim (Bool-cases (backend now).0) [
    | inl fails ↦ rw fails (one_call 1 now d exhausted (omega arith) (fails, refl))
    | inr fine ↦ rw fine (one_call 1 now d delivered (omega arith) fine)
  ]
  retry_loop-IsRetry (suc left) backoff now d = elim (Bool-cases (backend now).0) [
    | inl fails ↦ elim (Bool-cases (select_done ctx backoff (backend now).1).0) [
      | inl ended ↦
          rw (fails, ended)
            (one_call (suc (suc left)) now d cancelled (omega arith)
              (fails, omega arith, never_done _ _ ended))
      | inr waited ↦
          rw (fails, waited)
            (more_calls (suc left) now d _ fails (retry_loop-IsRetry left (backoff * 2) _ now))
    ]
    | inr fine ↦ rw fine (one_call (suc (suc left)) now d delivered (omega arith) fine)
  ]

  -- Whatever the backend does and whenever the context is cancelled, the retries end: the backend is
  -- called at least once and at most three times, each call but the last failed, and the result says
  -- how the last one went. It is a success where that call succeeded, the context's error only where
  -- it failed before the third and the context can be cancelled, and the final error only where all
  -- three failed.
  pub deliver_with_retry-IsRetry :
      (now : ℕ) → IsRetry max_attempts now (deliver_with_retry backend ctx now)
  unfolding deliver_with_retry
  deliver_with_retry-IsRetry now = retry_loop-IsRetry 2 initial_backoff now now

module _ (backend : ℕ → Bool × ℕ) (no_going_back : (t : ℕ) → t ≤ (backend t).1) (recovery : ℕ)
    (fine_after : (t : ℕ) → recovery ≤ t → (backend t).0 ≡ false) where
  retry_loop_recovers :
      (left backoff now : ℕ)
      → recovery ≤ now + patience left backoff
      → (retry_loop backend none left backoff now).result ≡ delivered
  unfolding retry_loop
  retry_loop_recovers zero backoff now h = rw (fine_after now (omega arith)) refl
  retry_loop_recovers (suc left) backoff now h = elim (Bool-cases (backend now).0) [
    | inl fails ↦
        rw fails (retry_loop_recovers left (backoff * 2) _ (omega (arith, no_going_back now)))
    | inr fine ↦ rw fine refl
  ]

  -- An outage of the backend that is over within three seconds loses no notification: when every call
  -- from some time on succeeds, that time is at most 3000 ms after the first call, no call returns
  -- before it started and the context is never cancelled, the delivery succeeds.
  pub deliver_with_retry_recovers :
      (now : ℕ) → recovery ≤ now + 3000 → (deliver_with_retry backend none now).result ≡ delivered
  unfolding deliver_with_retry
  deliver_with_retry_recovers now h = retry_loop_recovers 2 initial_backoff now h
