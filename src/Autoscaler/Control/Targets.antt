-- ===== src/Autoscaler/Control/Targets.antt =====
-- pkg/autoscaler/manager.go: no target gets lost.
use mathlib.Core.Path.{subst}
use waverless.Base.{
  ap, sym, ◌∙◌, ◌≡◌, refl, Bool, true, false, ◌||◌, List, [], ◌∷◌, ◌++◌, String, str_eq, Bool-cases,
  inl, inr, if◌then◌else◌, arith, eq_iff,
}
use waverless.Tasks.Names.{has_name, Distinct}
use waverless.Autoscaler.Control.{
  Manager, idle, signalled, signal, trigger_autoscaler, enqueue_target, collect_targets,
  control_loop, triggered,
}

abbrev pub enqueue_all : Manager → List String → Manager
enqueue_all m [] = m
enqueue_all m (name ∷ names) = enqueue_all (enqueue_target m name) names

or_false : (b : Bool) → b || false ≡ b
or_false true = refl
or_false false = refl

has_name-append :
    (names : List String) (last name : String)
    → has_name (names ++ (last ∷ [])) name ≡ has_name names name || str_eq last name
has_name-append [] last name = ground arith
has_name-append (n ∷ names) last name = ground (arith, has_name-append names last name)

Distinct-append :
    (names : List String) (last : String)
    → has_name names last ≡ false
    → Distinct names
    → Distinct (names ++ (last ∷ []))
Distinct-append [] last new h = (refl, tt)
Distinct-append (n ∷ names) last new h = (
  ground (arith, has_name-append names last n, h.0, new, eq_iff n last, eq_iff last n),
  Distinct-append names last (ground (arith, new)) h.1,
)

-- The pending targets with one more, if it is new.
abbrev with_target : String → List String → List String
with_target name names = if has_name names name then names else names ++ (name ∷ [])

enqueue_target-pending :
    (m : Manager) (name : String)
    → str_eq name "" ≡ false
    → (enqueue_target m name).pending_targets ≡ with_target name m.pending_targets
unfolding enqueue_target trigger_autoscaler
enqueue_target-pending m name named = elim (Bool-cases (has_name m.pending_targets name)) [
  | inl there ↦ rw (named, there) refl
  | inr new ↦ rw (named, new) refl
]

has_name-with_target :
    (names : List String) (name other : String)
    → has_name (with_target name names) other ≡ has_name names other || str_eq name other
has_name-with_target names name other = elim (Bool-cases (has_name names name)) [
  | inl there ↦ elim (Bool-cases (str_eq name other)) [
    | inl same ↦
        let path : name ≡ other = ground (arith, eq_iff name other, same) in
        let found : has_name names other ≡ true = rw⁻¹ path there in rw (there, found) refl
    | inr distinct ↦ rw (there, distinct) (sym (or_false (has_name names other)))
  ]
  | inr new ↦ rw new (has_name-append names name other)
]

Distinct-with_target :
    (names : List String) (name : String) → Distinct names → Distinct (with_target name names)
Distinct-with_target names name h = elim (Bool-cases (has_name names name)) [
  | inl there ↦ rw there h
  | inr new ↦ rw new (Distinct-append names name new h)
]

or_assoc : (a b c : Bool) → (a || b) || c ≡ a || (b || c)
or_assoc true b c = refl
or_assoc false b c = refl

enqueue_target-empty :
    (m : Manager) (name : String)
    → str_eq name "" ≡ true
    → (enqueue_target m name).pending_targets ≡ m.pending_targets
unfolding enqueue_target trigger_autoscaler
enqueue_target-empty m name empty = rw empty refl

enqueue_all-pending :
    (m : Manager) (names : List String) (other : String)
    → str_eq other "" ≡ false
    → has_name (enqueue_all m names).pending_targets other
      ≡ has_name m.pending_targets other || has_name names other
enqueue_all-pending m [] other named = sym (or_false (has_name m.pending_targets other))
enqueue_all-pending m (name ∷ names) other named =
    let rest = enqueue_all-pending (enqueue_target m name) names other named in
    elim (Bool-cases (str_eq name "")) [
      | inl empty ↦
          let nobody : str_eq name other ≡ false =
            ground (arith, eq_iff name "", eq_iff name other, empty, named) in
          rw nobody (
            rest
            ∙ ap (λ b. b || has_name names other)
                (ap (λ ns. has_name ns other) (enqueue_target-empty m name empty)))
      | inr full ↦
          rest
          ∙ ap (λ b. b || has_name names other)
              (ap (λ ns. has_name ns other) (enqueue_target-pending m name full)
                ∙ has_name-with_target m.pending_targets name other)
          ∙ or_assoc (has_name m.pending_targets other) (str_eq name other) (has_name names other)
    ]

enqueue_all-Distinct :
    (m : Manager) (names : List String)
    → Distinct m.pending_targets
    → Distinct (enqueue_all m names).pending_targets
enqueue_all-Distinct m [] h = h
enqueue_all-Distinct m (name ∷ names) h =
    enqueue_all-Distinct (enqueue_target m name) names (elim (Bool-cases (str_eq name "")) [
      | inl empty ↦ subst Distinct (sym (enqueue_target-empty m name empty)) h
      | inr full ↦
          subst Distinct (sym (enqueue_target-pending m name full))
            (Distinct-with_target m.pending_targets name h)
    ])

-- No target with a name is lost: whatever names are enqueued, an endpoint with a name is among the
-- targets that are collected then exactly if it was pending before or is among those names; nothing
-- is pending after that; and where the pending targets were distinct, as the keys of a Go map are,
-- so are the collected ones.
pub collect_targets-enqueue_all :
    (m : Manager) (names : List String) (other : String)
    → str_eq other "" ≡ false
    → Distinct m.pending_targets
    → let (targets, after) = collect_targets (enqueue_all m names) in
      Distinct targets
      × (has_name targets other ≡ has_name m.pending_targets other || has_name names other)
      × (after.pending_targets ≡ [])
unfolding collect_targets
collect_targets-enqueue_all m names other named h =
    (enqueue_all-Distinct m names h, enqueue_all-pending m names other named, refl)

-- A target that is pending when the manager is disabled waits for another one: the signal is taken
-- and the target left, and where the manager is enabled again, an event of the same endpoint gives
-- no new signal.
pub enqueue_target-waits :
    (m : Manager) (name : String)
    → str_eq name "" ≡ false
    → m.enabled ≡ false
    → m.trigger ≡ signalled
    → has_name m.pending_targets name ≡ true
    → let heard = (control_loop m triggered).1 in
      (enqueue_target (record heard { enabled = true }) name).trigger ≡ idle
unfolding enqueue_target control_loop trigger_autoscaler
enqueue_target-waits m name named off signal there = rw (named, off, signal, there) refl
