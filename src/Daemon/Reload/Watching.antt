-- ===== src/Daemon/Reload/Watching.antt =====
-- The policy configuration over the rounds of the watcher.
use athar.Prelude.{
  ℕ, String, ◌≡◌, refl, sym, ap, ◌∙◌, Bool, true, ◌&&◌, Option, none, some, List, [], ◌∷◌,
  if◌then◌else◌, Bool-cases, inl, inr, arith,
}
use athar.Detection.Policy.{PolicyMode, PolicyRule, PolicyConfig}
use athar.Daemon.Reload.{
  mode_eq, rule_eq, config_eq, Watcher, Polled, found, not_found, cannot_stat, watch, mtime_eq,
  is_applied, apply_parsed, parsed_text, poll,
}

eq_of_mode_eq : (a b : PolicyMode) → mode_eq a b ≡ true → a ≡ b
eq_of_mode_eq a b h = ground arith

eq_of_rule_eq : (a b : PolicyRule) → rule_eq a b ≡ true → a ≡ b
unfolding rule_eq
eq_of_rule_eq a b h = ground arith

eq_of_config_eq : (a b : PolicyConfig) → config_eq a b ≡ true → a ≡ b
unfolding config_eq
eq_of_config_eq a b h =
    let (first, rest) = both _ _ h in
    let (second, rest2) = both _ _ rest in
    let (third, fourth) = both _ _ rest2 in
    same (eq_of_rule_eq a.high_amount_new_beneficiary b.high_amount_new_beneficiary first)
      (eq_of_rule_eq a.high_velocity b.high_velocity second)
      (eq_of_rule_eq a.distinct_targets b.distinct_targets third)
      (eq_of_rule_eq a.credential_stuffing b.credential_stuffing fourth)
  where
    both : (x y : Bool) → (x && y) ≡ true → (x ≡ true) × (y ≡ true)
    both x y e = ground arith

    same :
        a.high_amount_new_beneficiary ≡ b.high_amount_new_beneficiary
        → a.high_velocity ≡ b.high_velocity
        → a.distinct_targets ≡ b.distinct_targets
        → a.credential_stuffing ≡ b.credential_stuffing
        → a ≡ b
    same e1 e2 e3 e4 = cc

module _ (parse : String → Option PolicyConfig) where
  unfoldable pub run : Watcher → List Polled → Watcher
  unfolding poll
  run w [] = w
  run w (p ∷ ps) = run (poll parse w p) ps

  abbrev newer : Option PolicyConfig → PolicyConfig → PolicyConfig
  newer none c = c
  newer (some n) c = n

  -- The configuration that the rounds leave in force: that of the last file that was read, which means
  -- one with another modification time than the file of the round before, and that could be parsed.
  abbrev pub in_force : PolicyConfig → Option ℕ → List Polled → PolicyConfig
  in_force c seen [] = c
  in_force c seen (found mtime text ∷ ps) =
      in_force (if mtime_eq mtime seen then c else newer (parsed_text parse text) c) mtime ps
  in_force c seen (not_found ∷ ps) = in_force c none ps
  in_force c seen (cannot_stat ∷ ps) = in_force c seen ps

  eq_of_mtime_eq : (a b : Option ℕ) → mtime_eq a b ≡ true → a ≡ b
  eq_of_mtime_eq none none h = refl
  eq_of_mtime_eq (some a) (some b) h = ground (arith, h)
  eq_of_mtime_eq none (some b) h = cc
  eq_of_mtime_eq (some a) none h = cc

  -- What was applied last is what the engine has.
  abbrev InStep : Watcher → Type 0
  InStep w = w.last_applied ≡ some w.engine

  -- What is applied stays in step, and is the newer configuration.
  record IsApplied (w : Watcher) (o : Option PolicyConfig) (u : Watcher) : Type 0 where
    in_step : InStep u
    engine : u.engine ≡ newer o w.engine
    mtime : u.last_mtime ≡ w.last_mtime

  apply_parsed-IsApplied :
      (w : Watcher) (o : Option PolicyConfig) → InStep w → IsApplied w o (apply_parsed w o)
  unfolding apply_parsed
  apply_parsed-IsApplied w none h = record { in_step = h; engine = refl; mtime = refl }
  apply_parsed-IsApplied w (some c) h = elim (Bool-cases (is_applied w.last_applied c)) [
    | inl same ↦
        rw (same, apply_parsed)
          (record {
            in_step = h;
            engine = eq_of_config_eq w.engine c (sym (ap (λ o. is_applied o c) h) ∙ same);
            mtime = refl;
          })
    | inr other ↦ rw (other, apply_parsed) (record { in_step = refl; engine = refl; mtime = refl })
  ]

  run-in_force :
      (w : Watcher) (ps : List Polled)
      → InStep w
      → (run w ps).engine ≡ in_force w.engine w.last_mtime ps
  unfolding run poll
  run-in_force w [] h = refl
  run-in_force w (not_found ∷ ps) h = run-in_force (record w { last_mtime = none }) ps h
  run-in_force w (cannot_stat ∷ ps) h = run-in_force w ps h
  run-in_force w (found mtime text ∷ ps) h = elim (Bool-cases (mtime_eq mtime w.last_mtime)) [
    | inl same ↦
        rw (same, run, poll)
          (run-in_force w ps h
            ∙ ap (λ m. in_force w.engine m ps) (sym (eq_of_mtime_eq mtime w.last_mtime same)))
    | inr other ↦
        let w' = record w { last_mtime = mtime } in
        let o = parsed_text parse text in
        let a = apply_parsed-IsApplied w' o h in
        rw (other, run, poll)
          (run-in_force (apply_parsed w' o) ps a.in_step
            ∙ ap (λ c. in_force c (apply_parsed w' o).last_mtime ps) a.engine
            ∙ ap (λ m. in_force (newer o w.engine) m ps) a.mtime)
  ]

  -- Whatever the rounds of the watcher find, the engine's configuration is that of the last file with a
  -- new modification time that could be read and parsed, and the one from the start if there is none: a
  -- file that is deleted, unreadable or malformed never changes it.
  pub run-watch :
      (c : PolicyConfig) (ps : List Polled) → (run (watch c) ps).engine ≡ in_force c none ps
  unfolding watch
  run-watch c ps = run-in_force (watch c) ps refl
