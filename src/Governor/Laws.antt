-- ===== src/Governor/Laws.antt =====
-- What the ladder lets through, and how the level moves.
use athar.Prelude.{
  ℕ, ◌-◌, ◌≤◌, ◌<◌, Bool, ◌≡◌, ◌≢◌, ◌⊎◌, refl, sym, ◌∙◌, leb, ◌==◌, if◌then◌else◌, arith,
}
use athar.Governor.Level.{
  PressureLevel, Priority, p0, p1, p2, p3, p4, l0_normal, l1_reduce, l2_defer, l3_essential,
  l4_safe_mode, allows, rank,
}
use athar.Governor.Recompute.{
  Config, State, DeadmanSignal, intrinsic_level, evaluate_deadman, apply_hysteresis, set_deadman,
  set_level, target_level, recompute,
}

-- How many priority classes a class stands below the customer's workflow.
abbrev pub urgency : Priority → ℕ
urgency p0 = 0
urgency p1 = 1
urgency p2 = 2
urgency p3 = 3
urgency p4 = 4

-- The ladder sheds exactly one more class with each level, from the least urgent up.
pub allows-leb : (l : PressureLevel) (p : Priority) → allows l p ≡ leb (urgency p) (4 - rank l)
unfolding allows rank
allows-leb l0_normal p0 = refl
allows-leb l0_normal p1 = refl
allows-leb l0_normal p2 = refl
allows-leb l0_normal p3 = refl
allows-leb l0_normal p4 = refl
allows-leb l1_reduce p4 = refl
allows-leb l1_reduce p0 = refl
allows-leb l1_reduce _ = refl
allows-leb l2_defer p3 = refl
allows-leb l2_defer p4 = refl
allows-leb l2_defer _ = refl
allows-leb l3_essential p0 = refl
allows-leb l3_essential p1 = refl
allows-leb l3_essential _ = refl
allows-leb l4_safe_mode p0 = refl
allows-leb l4_safe_mode _ = refl

rank-injective : (a b : PressureLevel) → rank a ≡ rank b → a ≡ b
unfolding rank
rank-injective a b h = ground arith

module _ {F32 : Type 0} (s : State F32) where
  pub set_deadman-parts :
      (d : DeadmanSignal)
      → ((set_deadman s d).deadman ≡ d)
        × ((set_deadman s d).current ≡ s.current)
        × ((set_deadman s d).at_current_since ≡ s.at_current_since)
        × ((set_deadman s d).published_level ≡ s.published_level)
        × (s.published_deadman ≡ s.deadman → (set_deadman s d).published_deadman ≡ d)
  unfolding set_deadman
  set_deadman-parts d = ground arith

  pub set_level-parts :
      (l : PressureLevel) (now : ℕ)
      → ((set_level s l now).current ≡ l)
        × ((set_level s l now).deadman ≡ s.deadman)
        × ((set_level s l now).published_deadman ≡ s.published_deadman)
        × (s.published_level ≡ s.current → (set_level s l now).published_level ≡ l)
        × ((set_level s l now).at_current_since
            ≡ (if rank l == rank s.current then s.at_current_since else now))
  unfolding set_level
  set_level-parts l now = ground (arith, rank-injective l s.current)

module _ {F32 : Type 0} (lt : F32 → F32 → Bool) (c : Config F32) where
  -- The level that a call of `recompute` aims at.
  abbrev pub target : State F32 → ℕ → PressureLevel
  target s now =
      target_level (evaluate_deadman c s now (intrinsic_level lt c s)).1 (intrinsic_level lt c s)

  -- The switch after a call.
  abbrev pub switch_after : State F32 → ℕ → DeadmanSignal
  switch_after s now = (evaluate_deadman c s now (intrinsic_level lt c s)).1

  hysteresis_reads :
      (s s' : State F32) (l : PressureLevel) (now : ℕ)
      → s'.current ≡ s.current
      → s'.at_current_since ≡ s.at_current_since
      → apply_hysteresis c s' l now ≡ apply_hysteresis c s l now
  unfolding apply_hysteresis
  hysteresis_reads s s' l now p q = rw (p, q)

  -- What one call of `recompute` does, its parts shut.
  pub recompute-parts :
      (s : State F32) (now : ℕ)
      → ((recompute lt c s now).deadman ≡ switch_after s now)
        × ((recompute lt c s now).current ≡ apply_hysteresis c s (target s now) now)
        × ((recompute lt c s now).at_current_since ≡ (
            if rank (apply_hysteresis c s (target s now) now) == rank s.current
            then s.at_current_since
            else now))
        × (s.published_deadman ≡ s.deadman
            → (recompute lt c s now).published_deadman ≡ switch_after s now)
        × (s.published_level ≡ s.current
            → (recompute lt c s now).published_level ≡ (recompute lt c s now).current)
  unfolding recompute
  recompute-parts s now =
      let since = (evaluate_deadman c s now (intrinsic_level lt c s)).0 in
      let d = switch_after s now in
      let s1 : State F32 = record s { breach_since = since } in
      let s2 = set_deadman s1 d in
      let l = apply_hysteresis c s2 (target s now) now in
      let parts = set_deadman-parts s1 d in
      let ends = set_level-parts s2 l now in
      let level = hysteresis_reads s s2 (target s now) now parts.1 parts.2 in
      (
        ends.1 ∙ parts.0,
        ends.0 ∙ level,
        ends.4 ∙ rw (level, parts.1, parts.2) refl,
        λ e. ends.2 ∙ parts.4 e,
        λ e. ends.3 (parts.3 ∙ e ∙ sym parts.1) ∙ sym ends.0,
      )

  hysteresis_bounds :
      (s : State F32) (l : PressureLevel) (now : ℕ)
      → let l' = apply_hysteresis c s l now in
        (rank l ≤ rank l')
        × ((rank s.current ≤ rank l') ⊎ (c.good_news_window ≤ now - s.at_current_since))
        × ((rank l' ≤ rank s.current) ⊎ (l' ≡ l))
  unfolding apply_hysteresis
  hysteresis_bounds s l now = ground arith

  changed_at :
      (s : State F32) (now : ℕ)
      → (recompute lt c s now).current ≢ s.current
      → (recompute lt c s now).at_current_since ≡ now
  changed_at s now changed = ground (
    arith,
    (recompute-parts s now).1,
    (recompute-parts s now).2,
    rank-injective (apply_hysteresis c s (target s now) now) s.current,
  )

  -- The governor escalates at once: after a call the level is at least what the inputs and the
  -- switch ask for, and no lower than before unless a good-news window has passed since the level
  -- was last set; it never rises above what is asked for.
  pub recompute_bounds :
      (s : State F32) (now : ℕ)
      → let s' = recompute lt c s now in
        (rank (target s now) ≤ rank s'.current)
        × ((rank s.current ≤ rank s'.current) ⊎ (c.good_news_window ≤ now - s.at_current_since))
        × ((rank s'.current ≤ rank s.current) ⊎ (s'.current ≡ target s now))
  recompute_bounds s now = rw ((recompute-parts s now).1) (hysteresis_bounds s (target s now) now)

  -- After a call that changed the level, no call within the good-news window lowers it.
  pub recompute_no_flapping :
      (s : State F32) (before now : ℕ)
      → (recompute lt c s before).current ≢ s.current
      → now - before < c.good_news_window
      → rank (recompute lt c s before).current
        ≤ rank (recompute lt c (recompute lt c s before) now).current
  recompute_no_flapping s before now changed soon =
      let s' = recompute lt c s before in
      omega (arith, changed_at s before changed, (recompute_bounds s' now).1)
