-- ===== src/Evm/Heights/Retry.antt =====
-- How long relayer/chains/evm/listener.go tries to fetch logs, and what it gets.
use centralized_relay.Common.{
  ℕ, zero, suc, ◌+◌, ◌*◌, ◌≤◌, ◌<◌, ◌≡◌, ◌∙◌, subst, Result, Error, ok, err, ◌==◌, arith,
  Bool-cases, Result-cases, inl, inr,
}
use centralized_relay.Evm.Heights.{
  get_logs_from, get_logs_retry, max_retry_count, max_retry_interval,
}

module _ {A : Type 0} (ask : ℕ → Result A) where
  -- The attempt `i` is the first of those from `n` on that succeeds, and it yields `a`.
  abbrev pub IsFirst : ℕ → ℕ → A → Type 0
  IsFirst n i a =
      (n ≤ i) × (ask i ≡ ok a) × ((j : ℕ) → n ≤ j → j < i → (e : Error) × (ask j ≡ err e))

  get_logs_from-ok :
      (left n : ℕ) (last : Error) (a : A)
      → (get_logs_from ask left n last).0 ≡ ok a
      → (i : ℕ) × (i < n + left) × IsFirst n i a
  unfolding get_logs_from
  get_logs_from-ok zero n last a e = cc
  get_logs_from-ok (suc left) n last a e = elim (Result-cases (ask n)) [
    | inl (b, f) ↦ (
      n,
      omega arith,
      (omega arith, got b f (rw (f, get_logs_from) at e), λ j p q. absurd (omega arith)),
    )
    | inr (x, f) ↦
        let (i, bound, (from, found, earlier)) =
          get_logs_from-ok left (n + 1) x a (rw (f, get_logs_from) at e) in
        (
          i,
          omega arith,
          (
            omega arith,
            found,
            λ j p q. elim (Bool-cases (j == n)) [
              | inl same ↦ let eq : n ≡ j = ground arith in (x, subst (λ k. ask k ≡ err x) eq f)
              | inr other ↦ earlier j (ground arith) q
            ],
          ),
        )
  ]
    where
      result_of : A → Result A
      result_of b = ok b

      got : (b : A) → ask n ≡ ok b → result_of b ≡ ok a → ask n ≡ ok a
      got b f g = f ∙ g

  get_logs_from-err :
      (left n i : ℕ) (last x : Error)
      → (get_logs_from ask left n last).0 ≡ err x
      → n ≤ i
      → i < n + left
      → (e : Error) × (ask i ≡ err e)
  unfolding get_logs_from
  get_logs_from-err zero n i last x e p q = absurd (omega arith)
  get_logs_from-err (suc left) n i last x e p q = elim (Result-cases (ask n)) [
    | inl (b, f) ↦ absurd (refused b (rw (f, get_logs_from) at e))
    | inr (y, f) ↦ elim (Bool-cases (i == n)) [
      | inl same ↦ let eq : n ≡ i = ground arith in (y, subst (λ k. ask k ≡ err y) eq f)
      | inr other ↦
          get_logs_from-err left (n + 1) i y x (rw (f, get_logs_from) at e) (ground arith)
            (omega arith)
    ]
  ]
    where
      result_of : A → Result A
      result_of b = ok b

      refused : (b : A) → result_of b ≡ err x → ⊥
      refused b g = cc

  get_logs_from-sleep :
      (left n : ℕ) (last : Error) → (get_logs_from ask left n last).1 ≤ left * max_retry_interval
  unfolding get_logs_from
  get_logs_from-sleep zero n last = omega arith
  get_logs_from-sleep (suc left) n last = elim (Result-cases (ask n)) [
    | inl (b, f) ↦ rw (f, get_logs_from) (omega arith)
    | inr (x, f) ↦ rw (f, get_logs_from) (ground (arith, get_logs_from-sleep left (n + 1) x))
  ]

  -- The logs that are returned come from the first of five attempts that succeeds; an error means
  -- that all five have failed; and the pauses between them are 25 minutes at most.
  pub get_logs_retry-IsFirst :
      (initial : Error)
      → ((a : A) → (get_logs_retry ask initial).0 ≡ ok a → (i : ℕ) × (i < 5) × IsFirst 0 i a)
        × ((x : Error) (i : ℕ)
            → (get_logs_retry ask initial).0 ≡ err x
            → i < 5
            → (e : Error) × (ask i ≡ err e))
        × ((get_logs_retry ask initial).1 ≤ 5 * max_retry_interval)
  unfolding get_logs_retry
  get_logs_retry-IsFirst initial = (
    λ a e. get_logs_from-ok max_retry_count 0 initial a e,
    λ x i e q. get_logs_from-err max_retry_count 0 i initial x e (omega arith) q,
    get_logs_from-sleep max_retry_count 0 initial,
  )
