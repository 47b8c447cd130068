-- ===== src/Detection/Signals/Known.antt =====
-- The resources that the signal engine knows, over a history of events.
use athar.Prelude.{
  ℕ, ◌≡◌, refl, ap, ◌∙◌, ◌++◌, String, Bool, false, ◌||◌, not, Option, none, some, List, [], ◌∷◌,
  contains, and_then, arith, eq_iff,
}
use athar.Event.Types.{Event}
use athar.Detection.Policy.{new_beneficiary, Signal, has}
use athar.Detection.SignalConfig.{Formats, SignalEngineConfig, extract_amount}
use athar.Detection.Signals.{
  SignalEngine, new, resource_id, known_key, actor_id, subject_of, see_resource, amount_signal,
  velocity_signal, stuffing_signal, targets_signal, see_rate, see_failure, see_target, evaluate,
}

module _ {F32 F64 Json : Type 0} (fmt : Formats F32 F64 Json) where
  -- An event, and when it is evaluated.
  pub record Arrival : Type 0 where
    pub event : Event F64 Json
    pub now_ms : ℕ

  unfoldable pub run : SignalEngine F64 → List Arrival → SignalEngine F64
  unfolding evaluate
  run g [] = g
  run g (a ∷ rest) = run (evaluate fmt g a.event a.now_ms).0 rest

  -- The key of a resource that an event names.
  abbrev pub key_of : String → Option String → List String
  key_of tenant none = []
  key_of tenant (some rid) = known_key fmt tenant rid ∷ []

  abbrev pub event_keys : Event F64 Json → List String
  event_keys e = key_of e.tenant_id (resource_id fmt e)

  abbrev pub keys_of : List Arrival → List String
  keys_of [] = []
  keys_of (a ∷ rest) = event_keys a.event ++ keys_of rest

  -- The event names a resource whose key is not in the list.
  abbrev pub is_unseen : List String → List String → Bool
  is_unseen seen [] = false
  is_unseen seen (k ∷ ks) = not (contains seen k)

  has-append :
      (xs ys : List (Signal F32))
      → has new_beneficiary (xs ++ ys) ≡ (has new_beneficiary xs || has new_beneficiary ys)
  unfolding has
  has-append [] ys = refl
  has-append (x ∷ xs) ys = ground (arith, has-append xs ys)

  -- The other producers never say that a resource is new.
  has-amount_signal :
      (floor : F64) (o : Option F64) → has new_beneficiary (amount_signal fmt floor o) ≡ false
  unfolding has amount_signal
  has-amount_signal floor none = refl
  has-amount_signal floor (some amount) = ground arith

  has-see_rate :
      (g : SignalEngine F64) (subject : String) (now : ℕ)
      → has new_beneficiary (see_rate fmt g subject now).1 ≡ false
  unfolding has see_rate velocity_signal
  has-see_rate g subject now = ground arith

  has-see_failure :
      (g : SignalEngine F64) (e : Event F64 Json) (subject : String) (now : ℕ)
      → has new_beneficiary (see_failure fmt g e subject now).1 ≡ false
  unfolding has see_failure stuffing_signal
  has-see_failure g e subject now = ground arith

  has-see_target :
      (g : SignalEngine F64) (subject : String) (target : Option String) (now : ℕ)
      → has new_beneficiary (see_target fmt g subject target now).1 ≡ false
  unfolding has see_target targets_signal
  has-see_target g subject none now = refl
  has-see_target g subject (some target) now = ground arith

  has-see_resource :
      (g : SignalEngine F64) (tenant : String) (rid : Option String)
      → has new_beneficiary (see_resource fmt g tenant rid).1
        ≡ is_unseen g.known (key_of tenant rid)
  unfolding has see_resource
  has-see_resource g tenant none = refl
  has-see_resource g tenant (some rid) = ground arith

  contains-see_resource :
      (g : SignalEngine F64) (tenant : String) (rid : Option String) (k : String)
      → contains (see_resource fmt g tenant rid).0.known k
        ≡ (contains g.known k || contains (key_of tenant rid) k)
  unfolding see_resource
  contains-see_resource g tenant none k = ground arith
  contains-see_resource g tenant (some rid) k = ground (arith, eq_iff (known_key fmt tenant rid) k)

  -- The later producers leave the known resources alone.
  known-see_rate :
      (g : SignalEngine F64) (subject : String) (now : ℕ)
      → (see_rate fmt g subject now).0.known ≡ g.known
  unfolding see_rate
  known-see_rate g subject now = refl

  known-see_failure :
      (g : SignalEngine F64) (e : Event F64 Json) (subject : String) (now : ℕ)
      → (see_failure fmt g e subject now).0.known ≡ g.known
  unfolding see_failure
  known-see_failure g e subject now = ground arith

  known-see_target :
      (g : SignalEngine F64) (subject : String) (target : Option String) (now : ℕ)
      → (see_target fmt g subject target now).0.known ≡ g.known
  unfolding see_target
  known-see_target g subject none now = refl
  known-see_target g subject (some target) now = refl

  known-evaluate :
      (g : SignalEngine F64) (e : Event F64 Json) (now : ℕ)
      → (evaluate fmt g e now).0.known
        ≡ (see_resource fmt g e.tenant_id (resource_id fmt e)).0.known
  unfolding evaluate
  known-evaluate g e now =
      let subject = subject_of fmt e in
      let g1 = (see_resource fmt g e.tenant_id (resource_id fmt e)).0 in
      let g2 = (see_rate fmt g1 subject now).0 in
      let g3 = (see_failure fmt g2 e subject now).0 in
      known-see_target g3 subject (actor_id fmt e.beneficiary) now
      ∙ known-see_failure g2 e subject now
      ∙ known-see_rate g1 subject now

  has-evaluate :
      (g : SignalEngine F64) (e : Event F64 Json) (now : ℕ)
      → has new_beneficiary (evaluate fmt g e now).1 ≡ is_unseen g.known (event_keys e)
  unfolding evaluate
  has-evaluate g e now =
      let subject = subject_of fmt e in
      let first = see_resource fmt g e.tenant_id (resource_id fmt e) in
      let amount = and_then e.payload (λ d. extract_amount fmt d g.config.amount_field) in
      let s2 = amount_signal fmt g.config.high_amount_floor amount in
      let rate = see_rate fmt first.0 subject now in
      let fail = see_failure fmt rate.0 e subject now in
      let target = see_target fmt fail.0 subject (actor_id fmt e.beneficiary) now in
      ground (
        arith,
        has-append first.1 (s2 ++ rate.1 ++ fail.1 ++ target.1),
        has-append s2 (rate.1 ++ fail.1 ++ target.1),
        has-append rate.1 (fail.1 ++ target.1),
        has-append fail.1 target.1,
        has-see_resource g e.tenant_id (resource_id fmt e),
        has-amount_signal g.config.high_amount_floor amount,
        has-see_rate first.0 subject now,
        has-see_failure rate.0 e subject now,
        has-see_target fail.0 subject (actor_id fmt e.beneficiary) now,
      )

  contains-append :
      (xs ys : List String) (k : String) → contains (xs ++ ys) k ≡ (contains xs k || contains ys k)
  contains-append [] ys k = refl
  contains-append (x ∷ xs) ys k = ground (arith, contains-append xs ys k)

  contains-run :
      (g : SignalEngine F64) (seen : List Arrival) (k : String)
      → contains (run g seen).known k ≡ (contains g.known k || contains (keys_of seen) k)
  unfolding run
  contains-run g [] k = ground arith
  contains-run g (a ∷ rest) k = ground (
    arith,
    contains-run (evaluate fmt g a.event a.now_ms).0 rest k,
    ap (λ ks. contains ks k) (known-evaluate g a.event a.now_ms),
    contains-see_resource g a.event.tenant_id (resource_id fmt a.event) k,
    contains-append (event_keys a.event) (keys_of rest) k,
  )

  -- Whatever events an engine has evaluated before, the next event has the signal of a new
  -- beneficiary exactly when it names a resource whose key, the tenant and the id with a colon between
  -- them, no earlier event of the history had.
  pub has-evaluate-run :
      (c : SignalEngineConfig F64) (seen : List Arrival) (e : Event F64 Json) (now : ℕ)
      → has new_beneficiary (evaluate fmt (run (new c) seen) e now).1
        ≡ is_unseen (keys_of seen) (event_keys e)
  unfolding new
  has-evaluate-run c seen e now = has-evaluate (run (new c) seen) e now ∙ same (event_keys e)
    where
      same :
          (ks : List String) → is_unseen (run (new c) seen).known ks ≡ is_unseen (keys_of seen) ks
      same [] = refl
      same (k ∷ ks) = ap not (contains-run (new c) seen k)
