-- ===== src/LlmRetry/Attempts.antt =====
-- Which attempt settles a call, and what the caller gets.
use agent_langraph.Prelude.{
  ℕ, zero, suc, ◌+◌, ◌≤◌, ◌<◌, String, ◌≡◌, refl, ap, sym, subst, ◌∙◌, inl, inr, Bool, true, false,
  not, ◌&&◌, Bool-cases, [], ◌∷◌, ◌++◌, arith, if◌then◌else◌, eqb, and_false, length, length-append,
}
use agent_langraph.CircuitBreaker.{Breaker, Permit, allowed, circuit_open_error, allow_call}
use agent_langraph.CircuitBreaker.Classify.{
  LlmErrorCategory, classify_llm_error, is_retryable_category,
}
use agent_langraph.LlmRetry.{
  Attempt, returned, circuit_open, retryable, raised, escaped, open_error, retryable_error,
  exception, escape, Reply, result, error, World, note_success, note_failure, sleep, note_error,
  is_fatal, is_transient, is_zero, Verdict, again, ends, after_attempt, retry_loop, after_permit,
  with_retry,
}

sleeps-note_success : (w : World) → (note_success w).sleeps ≡ w.sleeps
unfolding note_success
sleeps-note_success w = ground arith

sleeps-note_failure : (now : ℕ) (w : World) → (note_failure now w).sleeps ≡ w.sleeps
unfolding note_failure
sleeps-note_failure now w = ground arith

sleeps-note_error :
    (now : ℕ) (c : LlmErrorCategory) (w : World) → (note_error now c w).sleeps ≡ w.sleeps
unfolding note_error
sleeps-note_error now c w = elim (Bool-cases (is_retryable_category c)) [
  | inl e ↦ rw e (sleeps-note_failure now (record w { errors = w.errors ++ (c ∷ []) }))
  | inr e ↦ rw e (sleeps-note_success (record w { errors = w.errors ++ (c ∷ []) }))
]

last-zero :
    (left attempt stop : ℕ) → attempt + suc left ≡ stop → eqb (suc attempt) stop ≡ is_zero left
last-zero zero attempt stop e = ground arith
last-zero (suc left) attempt stop e = ground arith

nonzero : (n : ℕ) → is_zero n ≡ false → 1 ≤ n
nonzero zero h = cc h
nonzero (suc n) h = omega arith

eqb→eq : (a b : ℕ) → eqb a b ≡ true → a ≡ b
eqb→eq a b h = ground arith

next_le : (a j : ℕ) → a ≤ j → eqb j a ≡ false → a + 1 ≤ j
next_le a j h other = ground arith

refused_name :
    (now : ℕ) (b : Breaker) (name : String)
    → (allow_call now b).1 ≡ circuit_open_error name
    → name ≡ b.name
unfolding allow_call
refused_name now b name h = ground arith

module _ {A : Type 0} where
  -- A failure after which another attempt is made, if there is one left.
  abbrev pub is_retriable : Attempt A → Bool
  is_retriable (returned a) = false
  is_retriable (circuit_open name) = false
  is_retriable (retryable text) = true
  is_retriable (raised text name) =
      not (is_fatal (classify_llm_error text name)) && is_transient text
  is_retriable (escaped text) = false

  -- What the caller gets of the attempt that settles the call.
  abbrev pub answer : Attempt A → Reply A
  answer (returned a) = result a
  answer (circuit_open name) = error (open_error name)
  answer (retryable text) = error (retryable_error text)
  answer (raised text name) =
      if is_fatal (classify_llm_error text name)
      then error (exception text name)
      else if is_transient text
      then error (retryable_error text)
      else error (exception text name)
  answer (escaped text) = error (escape text)

  -- A verdict: whether the loop goes on, with one more delay, or ends with the answer.
  abbrev Judged : Bool → ℕ → Attempt A → World → Verdict A → Type 0
  Judged last attempt a w (again w') =
      (last ≡ false) × (is_retriable a ≡ true) × (w'.sleeps ≡ w.sleeps ++ (attempt ∷ []))
  Judged last attempt a w (ends w' r) =
      ((not last && is_retriable a) ≡ false) × (r ≡ answer a) × (w'.sleeps ≡ w.sleeps)

  judged :
      (last : Bool) (attempt now : ℕ) (a : Attempt A) (w : World)
      → Judged last attempt a w (after_attempt last attempt now a w)
  unfolding after_attempt sleep
  judged last attempt now (returned a) w = (ground arith, refl, sleeps-note_success w)
  judged last attempt now (circuit_open name) w = (ground arith, refl, refl)
  judged last attempt now (escaped text) w = (ground arith, refl, refl)
  judged true attempt now (retryable text) w = (refl, refl, sleeps-note_failure now w)
  judged false attempt now (retryable text) w =
      (refl, refl, ap (λ s. s ++ (attempt ∷ [])) (sleeps-note_failure now w))
  judged last attempt now (raised text name) w =
      elim (Bool-cases (is_fatal (classify_llm_error text name))) [
        | inl f ↦
            rw f (no_more f, rw f refl, sleeps-note_error now (classify_llm_error text name) w)
        | inr f ↦ elim (Bool-cases (is_transient text)) [
          | inr t ↦
              rw (f, t)
                (
                  no_retry f t,
                  rw (f, t) refl,
                  sleeps-note_error now (classify_llm_error text name) w,
                )
          | inl t ↦ rw (f, t) (by_last f t last)
        ]
      ]
    where
      no_more :
          is_fatal (classify_llm_error text name) ≡ true
          → (not last && is_retriable (raised text name)) ≡ false
      no_more f = rw f (and_false (not last))

      no_retry :
          is_fatal (classify_llm_error text name) ≡ false
          → is_transient text ≡ false
          → (not last && is_retriable (raised text name)) ≡ false
      no_retry f t = rw (f, t) (and_false (not last))

      by_last :
          (f : is_fatal (classify_llm_error text name) ≡ false) (t : is_transient text ≡ true)
          (l : Bool)
          → let w' = note_error now (classify_llm_error text name) w in
            Judged l attempt (raised text name) w (
              if l
              then ends w' (error (retryable_error text))
              else again (sleep attempt (note_failure now w')))
      by_last f t true =
          (refl, rw (f, t) refl, sleeps-note_error now (classify_llm_error text name) w)
      by_last f t false = (
        refl,
        rw (f, t) refl,
        ap (λ s. s ++ (attempt ∷ []))
            (sleeps-note_failure now (note_error now (classify_llm_error text name) w)
              ∙ sleeps-note_error now (classify_llm_error text name) w),
      )

  module _ (try : ℕ → ℕ × Attempt A) where
    -- Attempt `n` settles a call of which the attempts end before `stop`.
    pub record Settles (start stop n : ℕ) (w : World) (after : World × Reply A) : Type 0 where
      pub from_start : start ≤ n
      pub in_time : n < stop
      pub before : (j : ℕ) → start ≤ j → j < n → is_retriable (try j).1 ≡ true
      pub final : (not (eqb (suc n) stop) && is_retriable (try n).1) ≡ false
      pub answered : after.1 ≡ answer (try n).1
      pub delays : length after.0.sleeps + start ≡ length w.sleeps + n

    settled :
        (left attempt stop : ℕ) (w : World)
        → attempt + left ≡ stop
        → 1 ≤ left
        → (n : ℕ) × Settles attempt stop n w (retry_loop try left attempt w)
    unfolding retry_loop
    settled zero attempt stop w e some_left = absurd (omega arith)
    settled (suc left) attempt stop w e some_left =
        by_verdict (after_attempt (is_zero left) attempt (try attempt).0 (try attempt).1 w)
          (judged (is_zero left) attempt (try attempt).0 (try attempt).1 w)
          (λ v. settled left (attempt + 1) stop v (omega arith))
      where
        by_verdict :
            (v : Verdict A)
            → Judged (is_zero left) attempt (try attempt).1 w v
            → ((u : World)
                → 1 ≤ left
                → (n : ℕ) × Settles (attempt + 1) stop n u (retry_loop try left (attempt + 1) u))
            → (n : ℕ) × Settles attempt stop n w
                (elim v [ ends w' r ↦ (w', r) | again w' ↦ retry_loop try left (attempt + 1) w' ])
        by_verdict (ends w' r) (stops, a, s) later = (
          attempt,
          record {
            from_start = omega arith;
            in_time = omega arith;
            before = λ j lo hi. absurd (omega arith);
            final = rw (last-zero left attempt stop e) stops;
            answered = a;
            delays = omega (arith, ap length s);
          },
        )
        by_verdict (again w') (more, retried, s) later =
            let (n, rest) = later w' (nonzero left more) in
            (
              n,
              record {
                from_start = omega (arith, rest.from_start);
                in_time = rest.in_time;
                before = λ j lo hi. elim (Bool-cases (eqb j attempt)) [
                  | inl same ↦ rw (eqb→eq j attempt same) retried
                  | inr other ↦ rest.before j (next_le attempt j lo other) hi
                ];
                final = rest.final;
                answered = rest.answered;
                delays =
                    omega (arith, rest.delays, ap length s, length-append w.sleeps (attempt ∷ []));
              },
            )

    -- What a call comes to by the breaker's answer, which leaves the breaker `b`. A refusal stops a
    -- guarded call: the caller gets the refusal, and of the world only the breaker has changed. Else
    -- some attempt settles the call.
    abbrev pub Follows : Bool → Permit → ℕ → World → Breaker → World × Reply A → Type 0
    Follows false p retries w b after = (n : ℕ) × Settles 0 retries n w after
    Follows true allowed retries w b after = (n : ℕ) × Settles 0 retries n w after
    Follows true (circuit_open_error name) retries w b after =
        (name ≡ w.breaker.name) × (after ≡ (record w { breaker = b }, error (open_error name)))

    asked :
        (retries : ℕ) (w : World) (b : Breaker) (p : Permit)
        → 1 ≤ retries
        → ((name : String) → p ≡ circuit_open_error name → name ≡ w.breaker.name)
        → Follows true p retries w b (after_permit try p retries (record w { breaker = b }))
    unfolding after_permit
    asked retries w b allowed some_try named =
        let (n, s) = settled retries 0 retries (record w { breaker = b }) (omega arith) some_try in
        (
          n,
          record {
            from_start = s.from_start;
            in_time = s.in_time;
            before = s.before;
            final = s.final;
            answered = s.answered;
            delays = s.delays;
          },
        )
    asked retries w b (circuit_open_error name) some_try named = (named name refl, refl)

    guarded-with_retry :
        (retries now : ℕ) (w : World)
        → with_retry try retries now w ≡ (
            if w.guarded
            then after_permit try
                (allow_call now w.breaker).1
                retries
                (record w { breaker = (allow_call now w.breaker).0 })
            else retry_loop try retries 0 w)
    unfolding with_retry
    guarded-with_retry retries now w = refl

    -- With at least one attempt to make: when the call is guarded and the breaker refuses it, the
    -- caller gets the refusal with the breaker's name, and nothing is tried, slept or counted, only
    -- the breaker is as its answer left it. When the breaker allows the call, or is not asked, some
    -- attempt settles it: all before it failed in a way that is retried, it did not or was the last,
    -- the caller gets what it gave, and there was one delay for each attempt before it.
    pub with_retry_lem :
        (retries now : ℕ) (w : World)
        → 1 ≤ retries
        → let (b, p) = allow_call now w.breaker in
          Follows w.guarded p retries w b (with_retry try retries now w)
    with_retry_lem retries now w some_try =
        subst
          (Follows w.guarded (allow_call now w.breaker).1 retries w (allow_call now w.breaker).0)
          (sym (guarded-with_retry retries now w)) (by_guard w.guarded)
      where
        by_guard :
            (g : Bool)
            → Follows g (allow_call now w.breaker).1 retries w (allow_call now w.breaker).0 (
                if g
                then after_permit try
                    (allow_call now w.breaker).1
                    retries
                    (record w { breaker = (allow_call now w.breaker).0 })
                else retry_loop try retries 0 w)
        by_guard false = settled retries 0 retries w (omega arith) some_try
        by_guard true =
            asked retries w (allow_call now w.breaker).0 (allow_call now w.breaker).1 some_try
              (refused_name now w.breaker)
