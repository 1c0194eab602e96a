-- ===== src/Autoscaler/Engine/Passes.antt =====
-- What a pass over the endpoints decides.
use waverless.Base.{◌≡◌, true, false, List, pos, ◌≤ℤ◌, IsInt, total, pos_part, ◌≤◌, arith}
use mathlib.Core.List.{Perm}
use waverless.Base.Sort.{sort, sort-perm, IsSorted, sort-IsSorted}
use waverless.Autoscaler.Types.{EndpointConfig, Resources, ScaleDecision, DecisionEngine}
use waverless.Autoscaler.Fair.{more_urgent}
use waverless.Autoscaler.Fair.Gpu.{IsNonneg, gpu_cost, fair_allocation-gpus}
use waverless.Autoscaler.Engine.{identify_scale_up}

module _ {F : Type 0} where
  more_urgent_asym : (a b : ScaleDecision F) → more_urgent a b ≡ true → more_urgent b a ≡ false
  unfolding more_urgent
  more_urgent_asym a b h = ground arith

  -- The sort by urgency keeps the decisions and puts none behind a less urgent one.
  pub sort-urgent :
      (ds : List (ScaleDecision F))
      → Perm (sort more_urgent ds) ds × IsSorted more_urgent (sort more_urgent ds)
  sort-urgent ds = (sort-perm more_urgent ds, sort-IsSorted more_urgent more_urgent_asym ds)

module _ {F : Type 0} (e : DecisionEngine F) where
  -- From a pool that is not over-committed, and with a calculator that asks for no negative number
  -- of GPUs, the approved scale-ups of a pass take at most the GPUs of the pool.
  pub identify_scale_up-gpus :
      IsNonneg e
      → (eps : List EndpointConfig) (available : Resources F) → pos 0 ≤ℤ available.gpu_count
      → IsInt available.gpu_count
      → total (gpu_cost e) (identify_scale_up e eps available).0 ≤ pos_part available.gpu_count
  unfolding identify_scale_up
  identify_scale_up-gpus nonneg eps available h0 hi =
      omega (arith, fair_allocation-gpus e nonneg _ available h0 hi)
