-- ===== src/Autoscaler/Executor/Idle.antt =====
-- Which worker a scale-down picks.
use waverless.Base.{
  ◌≤◌, ◌<◌, ◌≡◌, ◌≢◌, refl, ◌⊎◌, inl, inr, Option, none, some, List, [], ◌∷◌, pos, eqb_ℤ, All,
  Bool-cases, is_zero, not, ltb, ◌&&◌, ◌||◌, ◌∙◌, arith,
}
use mathlib.Core.List.{Memᴰ}
use waverless.Autoscaler.World.{Worker}
use waverless.Autoscaler.Executor.{choose, find_idle}

-- If `v` has a task time, so has `w`, and not a later one.
pub record IdlesLonger (w v : Worker) : Type 0 where
  pub known : 0 < v.last_task_time → 0 < w.last_task_time
  pub earlier : 0 < v.last_task_time → w.last_task_time ≤ v.last_task_time

-- `w` is idle and idles at least as long as each idle worker of the list.
abbrev pub IsLongest : Worker → List Worker → Type 0
IsLongest w vs = All (λ v. v.current_jobs ≡ pos 0 → IdlesLonger w v) vs

-- What the loop does from a worker that is already picked.
pub record Picks (b : Worker) (ws : List Worker) (r : Worker) : Type 0 where
  pub from : (r ≡ b) ⊎ (Memᴰ r ws × (r.current_jobs ≡ pos 0))
  pub than_first : IdlesLonger r b
  pub than_rest : IsLongest r ws

IdlesLonger-refl : (w : Worker) → IdlesLonger w w
IdlesLonger-refl w = omega arith

IdlesLonger-trans : {u v w : Worker} → IdlesLonger u v → IdlesLonger v w → IdlesLonger u w
IdlesLonger-trans p q = omega arith

-- The outcome of one round that starts from a picked worker.
record Round (b w r : Worker) : Type 0 where
  chosen : choose (some b) w ≡ some r
  which : (r ≡ b) ⊎ ((r ≡ w) × (w.current_jobs ≡ pos 0))
  than_picked : IdlesLonger r b
  than_new : w.current_jobs ≡ pos 0 → IdlesLonger r w

choose-Round : (b w : Worker) → (Round b w w) ⊎ (Round b w b)
unfolding choose
choose-Round b w = elim (Bool-cases (eqb_ℤ w.current_jobs (pos 0))) [
  | inr working ↦ inr (ground arith)
  | inl free ↦
      elim (Bool-cases (
        not (is_zero w.last_task_time)
        && (is_zero b.last_task_time || ltb w.last_task_time b.last_task_time))) [
          | inl longer ↦ inl (ground arith)
          | inr shorter ↦ inr (ground arith)
        ]
]

choose-none :
    (w : Worker)
    → ((choose none w ≡ some w) × (w.current_jobs ≡ pos 0))
      ⊎ ((choose none w ≡ none) × (w.current_jobs ≢ pos 0))
unfolding choose
choose-none w = ground arith

extend : {b w r s : Worker} {ws : List Worker} → Round b w r → Picks r ws s → Picks b (w ∷ ws) s
extend {r} {s} {ws} q p = record {
  from = elim p.from [
    | inr (m, free) ↦ inr (Memᴰ.tail m, free)
    | inl same ↦ elim q.which [
      | inl old ↦ inl (same ∙ old)
      | inr (new, free) ↦ inr (Memᴰ.head (same ∙ new), rw (same ∙ new) free)
    ]
  ];
  than_first = IdlesLonger-trans p.than_first q.than_picked;
  than_rest = (λ free. IdlesLonger-trans p.than_first (q.than_new free), p.than_rest);
}

find_idle-Picks :
    (b : Worker) (ws : List Worker) → (r : Worker) × (find_idle (some b) ws ≡ some r) × Picks b ws r
unfolding find_idle
find_idle-Picks b [] =
    (b, refl, record { from = inl refl; than_first = IdlesLonger-refl b; than_rest = tt })
find_idle-Picks b (w ∷ ws) =
    let (r, found_w, picks_w) = find_idle-Picks w ws in
    let (rb, found_b, picks_b) = find_idle-Picks b ws in
    elim (choose-Round b w) [
      | inl q ↦ (r, rw q.chosen found_w, extend q picks_w)
      | inr q ↦ (rb, rw q.chosen found_b, extend q picks_b)
    ]

-- What may be found in a list: nobody, or the worker that is idle for longest.
pub data Found (ws : List Worker) : Option Worker → Type 0 where
  nobody : All (λ v. v.current_jobs ≢ pos 0) ws → Found ws none
  picked : (r : Worker) → Memᴰ r ws → r.current_jobs ≡ pos 0 → IsLongest r ws → Found ws (some r)

-- `scaleDown` finds no worker exactly when none is idle; else it picks an idle worker of the list,
-- and every idle worker with a task time has been idle for at most as long.
pub find_idle-Found : (ws : List Worker) → Found ws (find_idle none ws)
unfolding find_idle
find_idle-Found [] = nobody tt
find_idle-Found (w ∷ ws) = elim (choose-none w) [
  | inr (skipped, working) ↦ rw (skipped, find_idle) (later working (find_idle-Found ws))
  | inl (chosen, free) ↦
      let (r, found, p) = find_idle-Picks w ws in rw chosen (rw found (start free p))
]
  where
    later : {o : Option Worker} → w.current_jobs ≢ pos 0 → Found ws o → Found (w ∷ ws) o
    later working (nobody h) = nobody (working, h)
    later working (picked r m free longest) =
        picked r (Memᴰ.tail m) free ((λ idle. absurd (working idle)), longest)

    start : {r : Worker} → w.current_jobs ≡ pos 0 → Picks w ws r → Found (w ∷ ws) (some r)
    start {r} free p = elim p.from [
      | inl same ↦ picked r (Memᴰ.head same) (rw same free) ((λ idle. p.than_first), p.than_rest)
      | inr (m, idle) ↦ picked r (Memᴰ.tail m) idle ((λ i. p.than_first), p.than_rest)
    ]
