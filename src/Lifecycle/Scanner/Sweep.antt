-- ===== src/Lifecycle/Scanner/Sweep.antt =====
-- What a sweep does to every lifecycle of the store.
use athar.Prelude.{
  ℕ, ◌-◌, ◌≤◌, ◌<◌, ◌⊎◌, ◌≢◌, ap, Bool, String, List, [], ◌∷◌, some, true, false, ◌&&◌, not, ◌≡◌,
  refl, All, contains, str_eq, if◌then◌else◌, arith, eq_iff, Bool-cases, inl, inr, ◌∙◌,
}
use athar.Lifecycle.Types.{
  State, started, processing, pending, abandoned, timeout, closed_with_uncertainty, Lifecycle,
  is_closed,
}
use athar.Lifecycle.Store.{LifecycleStore, StoreLaws}
use athar.Lifecycle.Scanner.{
  StalenessResult, staleness_result, timeout_state_for, is_stale, expire, sweep_from, sweep,
}

abbrev pub ids : List Lifecycle → List String
ids [] = []
ids (lc ∷ lcs) = lc.id ∷ ids lcs

-- `all_open` lists lifecycles of the store, open ones, and all of those.
pub record ListsOpen {S : Type 0} (store : LifecycleStore S) (s : S) : Type 0 where
  pub listed : All (λ lc. store.get s lc.id ≡ some lc) (store.all_open s)
  pub opened : All (λ lc. is_closed lc.closure ≡ false) (store.all_open s)
  pub complete :
      (id : String) (lc : Lifecycle)
      → store.get s id ≡ some lc
      → is_closed lc.closure ≡ false
      → contains (ids (store.all_open s)) id ≡ true

-- The lifecycles that a sweep reports.
abbrev pub reported : List StalenessResult → List String
reported [] = []
reported (r ∷ rs) = r.lifecycle_id ∷ reported rs

-- What becomes of a lifecycle that a sweep closes.
pub record IsExpired (now : ℕ) (lc after : Lifecycle) : Type 0 where
  pub started_abandoned : lc.state ≡ started → after.state ≡ abandoned
  pub waiting_timed_out :
      (lc.state ≡ processing) ⊎ ((lc.state ≡ pending) ⊎ (lc.state ≡ State.unknown))
      → after.state ≡ timeout
  pub other_kept :
      lc.state ≢ started
      → lc.state ≢ processing
      → lc.state ≢ pending
      → lc.state ≢ State.unknown
      → after.state ≡ lc.state
  pub uncertain : after.closure ≡ closed_with_uncertainty
  pub closed_at : after.closed_at_ms ≡ some now
  pub rest_kept : after ≡ record lc {
    state = after.state;
    closure = after.closure;
    closed_at_ms = after.closed_at_ms;
  }

-- What a sweep makes of a lifecycle, and whether it reports it.
abbrev pub Swept : ℕ → Lifecycle → Lifecycle → Bool → Type 0
Swept now lc after told =
    ((is_closed lc.closure ≡ false)
      × (lc.staleness_ms ≤ now - lc.last_event_at_ms)
      × (told ≡ true)
      × IsExpired now lc after)
    ⊎ (((is_closed lc.closure ≡ true) ⊎ (now - lc.last_event_at_ms < lc.staleness_ms))
        × (told ≡ false)
        × (after ≡ lc))

expire-IsExpired : (now : ℕ) (lc : Lifecycle) → IsExpired now lc (expire now lc)
unfolding expire timeout_state_for
expire-IsExpired now lc = record {
  started_abandoned = λ h. ground (arith, h);
  waiting_timed_out = λ h. ground (arith, h);
  other_kept = λ h1 h2 h3 h4. ground (arith, h1, h2, h3, h4);
  uncertain = refl;
  closed_at = refl;
  rest_kept = refl;
}

-- A lifecycle is open and stale, or it is not.
stale-cases :
    (now : ℕ) (lc : Lifecycle)
    → ((is_closed lc.closure ≡ false)
        × (lc.staleness_ms ≤ now - lc.last_event_at_ms)
        × ((not (is_closed lc.closure) && is_stale now lc) ≡ true))
      ⊎ (((is_closed lc.closure ≡ true) ⊎ (now - lc.last_event_at_ms < lc.staleness_ms))
          × ((not (is_closed lc.closure) && is_stale now lc) ≡ false))
unfolding is_stale
stale-cases now lc = ground arith

module _ {S : Type 0} (store : LifecycleStore S) (laws : StoreLaws store) where
  get-upsert_expire :
      (s : S) (now : ℕ) (x : Lifecycle) (id : String)
      → store.get (store.upsert s (expire now x)) id
        ≡ (if str_eq x.id id then some (expire now x) else store.get s id)
  unfolding expire
  get-upsert_expire s now x id = laws.get-upsert s (expire now x) id

  -- A loop over lifecycles that agree with `lc` under its id.
  get-sweep_from :
      (s : S) (now : ℕ) (lcs : List Lifecycle) (id : String) (lc : Lifecycle)
      → All (λ x. x.id ≡ id → x ≡ lc) lcs
      → store.get (sweep_from store s now lcs).0 id ≡ (
          if contains (ids lcs) id && is_stale now lc then some (expire now lc) else store.get s id)
  unfolding sweep_from
  get-sweep_from s now [] id lc agree = refl
  get-sweep_from s now (x ∷ xs) id lc agree = ground (
    arith,
    agree.0,
    eq_iff x.id id,
    get-sweep_from s now xs id lc agree.1,
    get-sweep_from (store.upsert s (expire now x)) now xs id lc agree.1,
    get-upsert_expire s now x id,
  )

  agree_of :
      (s : S) (id : String) (lc : Lifecycle) (lcs : List Lifecycle)
      → store.get s id ≡ some lc
      → All (λ x. store.get s x.id ≡ some x) lcs
      → All (λ x. x.id ≡ id → x ≡ lc) lcs
  agree_of s id lc [] g l = tt
  agree_of s id lc (x ∷ xs) g l = (λ same. cc (l.0), agree_of s id lc xs g l.1)

  -- What stands in a list of open lifecycles of the store is open.
  open_of_contains :
      (s : S) (id : String) (lc : Lifecycle) (lcs : List Lifecycle)
      → store.get s id ≡ some lc
      → All (λ x. store.get s x.id ≡ some x) lcs
      → All (λ x. is_closed x.closure ≡ false) lcs
      → contains (ids lcs) id ≡ true
      → is_closed lc.closure ≡ false
  open_of_contains s id lc [] g l o c = cc
  open_of_contains s id lc (x ∷ xs) g l o c = elim (Bool-cases (str_eq x.id id)) [
    | inl same ↦
        let one : x ≡ lc = (agree_of s id lc (x ∷ xs) g l).0 ((eq_iff x.id id).0 same) in
        rw (← one) o.0
    | inr other ↦ open_of_contains s id lc xs g l.1 o.1 (rw other at c)
  ]

  get-sweep-expire :
      (s : S) (now : ℕ) (id : String) (lc : Lifecycle)
      → ListsOpen store s
      → store.get s id ≡ some lc
      → store.get (sweep store s now).0 id
        ≡ some (if not (is_closed lc.closure) && is_stale now lc then expire now lc else lc)
  unfolding sweep
  get-sweep-expire s now id lc lists g =
      get-sweep_from s now (store.all_open s) id lc
        (agree_of s id lc (store.all_open s) g lists.listed)
      ∙ ground (
        arith,
        g,
        lists.complete id lc g,
        open_of_contains s id lc (store.all_open s) g lists.listed lists.opened,
      )

  reported-sweep_from :
      (s : S) (now : ℕ) (lcs : List Lifecycle) (id : String) (lc : Lifecycle)
      → All (λ x. x.id ≡ id → x ≡ lc) lcs
      → contains (reported (sweep_from store s now lcs).1) id
        ≡ (contains (ids lcs) id && is_stale now lc)
  unfolding sweep_from staleness_result
  reported-sweep_from s now [] id lc agree = refl
  reported-sweep_from s now (x ∷ xs) id lc agree = ground (
    arith,
    agree.0,
    eq_iff x.id id,
    reported-sweep_from s now xs id lc agree.1,
    reported-sweep_from (store.upsert s (expire now x)) now xs id lc agree.1,
  )

  reported-sweep :
      (s : S) (now : ℕ) (id : String) (lc : Lifecycle)
      → ListsOpen store s
      → store.get s id ≡ some lc
      → contains (reported (sweep store s now).1) id
        ≡ (not (is_closed lc.closure) && is_stale now lc)
  unfolding sweep
  reported-sweep s now id lc lists g =
      reported-sweep_from s now (store.all_open s) id lc
        (agree_of s id lc (store.all_open s) g lists.listed)
      ∙ ground (
        arith,
        lists.complete id lc g,
        open_of_contains s id lc (store.all_open s) g lists.listed lists.opened,
      )

  -- A sweep closes and reports exactly the open lifecycles whose last event is as old as their staleness
  -- threshold or older, and leaves every other lifecycle as it is. What it closes is closed with
  -- uncertainty, now: abandoned if it had only started, timed out if it was processing, pending or
  -- unknown, in its old state otherwise. All else of it is unchanged. The store has the laws, and lists
  -- its open lifecycles.
  pub get-sweep :
      (s : S) (now : ℕ) (id : String) (lc : Lifecycle)
      → ListsOpen store s
      → store.get s id ≡ some lc
      → (after : Lifecycle) × (store.get (sweep store s now).0 id ≡ some after)
        × Swept now lc after (contains (reported (sweep store s now).1) id)
  get-sweep s now id lc lists g =
      let found = get-sweep-expire s now id lc lists g in
      let told = reported-sweep s now id lc lists g in
      elim (stale-cases now lc) [
        | inl (is_open, old, due) ↦ (
          expire now lc,
          found ∙ ap (λ b. some (if b then expire now lc else lc)) due,
          inl (is_open, old, told ∙ due, expire-IsExpired now lc),
        )
        | inr (why, not_due) ↦ (
          lc,
          found ∙ ap (λ b. some (if b then expire now lc else lc)) not_due,
          inr (why, told ∙ not_due, refl),
        )
      ]
