-- ===== src/Lifecycle/Scanner/Soundness.antt =====
-- A sweep keeps the store well-formed.
use athar.Prelude.{ℕ, List, [], ◌∷◌, some, false, ◌≡◌, refl, All, arith, Bool-cases, inl, inr}
use athar.Lifecycle.Types.{Lifecycle, is_closed}
use athar.Lifecycle.Store.{LifecycleStore, StoreLaws}
use athar.Lifecycle.Valid.{IsValid, IsSound}
use athar.Lifecycle.Engine.Validity.{upsert-IsSound}
use athar.Lifecycle.Scanner.{timeout_state_for, is_stale, expire, sweep_from, sweep}
use athar.Lifecycle.Scanner.Sweep.{ListsOpen}

module _ {S : Type 0} (store : LifecycleStore S) (laws : StoreLaws store) where
  expire-IsValid :
      (now : ℕ) (lc : Lifecycle)
      → IsValid lc
      → is_closed lc.closure ≡ false
      → IsValid (expire now lc)
  unfolding expire timeout_state_for
  expire-IsValid now lc v open_ = record {
    consistent = ground (arith, v.consistent);
    closed_at = refl;
    tiers = v.tiers;
    staleness = v.staleness;
  }

  sweep_from-IsSound :
      (s : S) (now : ℕ) (lcs : List Lifecycle)
      → All IsValid lcs
      → All (λ x. is_closed x.closure ≡ false) lcs
      → IsSound store s
      → IsSound store (sweep_from store s now lcs).0
  unfolding sweep_from
  sweep_from-IsSound s now [] v o h = h
  sweep_from-IsSound s now (x ∷ xs) v o h = elim (Bool-cases (is_stale now x)) [
    | inl stale ↦
        rw (stale, sweep_from)
          (sweep_from-IsSound (store.upsert s (expire now x)) now xs v.1 o.1
            (upsert-IsSound store laws s (expire now x) (expire-IsValid now x v.0 o.0) h))
    | inr fresh ↦ rw (fresh, sweep_from) (sweep_from-IsSound s now xs v.1 o.1 h)
  ]

  listed-IsValid :
      (s : S) (lcs : List Lifecycle)
      → IsSound store s
      → All (λ x. store.get s x.id ≡ some x) lcs
      → All IsValid lcs
  listed-IsValid s [] h l = tt
  listed-IsValid s (x ∷ xs) h l = (h.valid x.id x l.0, listed-IsValid s xs h l.1)

  -- A sweep keeps the store sound: what it closes is in a terminal state, with a closing time.
  pub sweep-IsSound :
      (s : S) (now : ℕ) → ListsOpen store s → IsSound store s → IsSound store (sweep store s now).0
  unfolding sweep
  sweep-IsSound s now lists h =
      sweep_from-IsSound s now (store.all_open s)
        (listed-IsValid s (store.all_open s) h lists.listed) lists.opened h
