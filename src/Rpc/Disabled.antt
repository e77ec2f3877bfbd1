-- ===== src/Rpc/Disabled.antt =====
-- What keeps an endpoint disabled.
use arbitrage_runtime.Base.{
  Bool, List, Option, [], arith, false, if◌then◌else◌, none, refl, some, true, ℕ, ◌∙◌, ◌∷◌, ◌≡◌,
}
use arbitrage_runtime.Base.Float.{Float}
use arbitrage_runtime.Rpc.{
  RpcEndpointState, RpcFailureKind, RpcKind, capacity_exhausted, count_failure, decay_counters,
  decay_failure_counters, prune_burst_reservations, rate_limited, record_failure, record_success,
  refreshed, remote, reserve_selection, stale, timeout, transport,
}

-- The operations on one endpoint's state but for `set_endpoint_enabled`.
pub data EndpointEvent : Type 0 where
  failed_with : RpcFailureKind → EndpointEvent
  selected_for : RpcKind → Bool → EndpointEvent
  succeeded_after : ℕ → Option ℕ → EndpointEvent

module _ (f : Float) (as_secs_f64 : ℕ → f.F) (from_secs_f64 : f.F → ℕ) where
  pub endpoint_step : ℕ × EndpointEvent → RpcEndpointState → RpcEndpointState
  endpoint_step (now, failed_with kind) state = record_failure now kind state
  endpoint_step (now, selected_for kind send_mode) state =
      reserve_selection now kind send_mode state
  endpoint_step (now, succeeded_after latency block) state =
      record_success f as_secs_f64 from_secs_f64 now latency block state

  pub endpoint_run : List (ℕ × EndpointEvent) → RpcEndpointState → RpcEndpointState
  endpoint_run [] state = state
  endpoint_run (event ∷ events) state = endpoint_run events (endpoint_step event state)

  refreshed_disabled :
      (now : ℕ) (state : RpcEndpointState) → (refreshed now state).disabled ≡ state.disabled
  unfolding decay_failure_counters decay_counters prune_burst_reservations
  refreshed_disabled now state = ground arith

  count_failure_disabled :
      (kind : RpcFailureKind) (state : RpcEndpointState)
      → state.disabled ≡ true
      → (count_failure kind state).0.disabled ≡ true
  unfolding count_failure
  count_failure_disabled timeout state h = h
  count_failure_disabled rate_limited state h = h
  count_failure_disabled capacity_exhausted state h = refl
  count_failure_disabled stale state h = h
  count_failure_disabled transport state h = h
  count_failure_disabled remote state h = h

  if_disabled :
      (b : Bool) (x y : RpcEndpointState)
      → x.disabled ≡ true
      → y.disabled ≡ true
      → (if b then x else y).disabled ≡ true
  if_disabled true x y h k = h
  if_disabled false x y h k = k

  step_disabled :
      (event : ℕ × EndpointEvent) (state : RpcEndpointState)
      → state.disabled ≡ true
      → (endpoint_step event state).disabled ≡ true
  unfolding endpoint_step record_failure reserve_selection record_success
  step_disabled (now, failed_with kind) state h =
      count_failure_disabled kind _ (refreshed_disabled now state ∙ h)
  step_disabled (now, selected_for kind send_mode) state h =
      let same = refreshed_disabled now state ∙ h in if_disabled _ _ _ same same
  step_disabled (now, succeeded_after latency none) state h = refreshed_disabled now state ∙ h
  step_disabled (now, succeeded_after latency (some block)) state h =
      refreshed_disabled now state ∙ h

  run_disabled :
      (events : List (ℕ × EndpointEvent)) (state : RpcEndpointState)
      → state.disabled ≡ true
      → (endpoint_run events state).disabled ≡ true
  unfolding endpoint_run
  run_disabled [] state h = h
  run_disabled (event ∷ events) state h =
      run_disabled events (endpoint_step event state) (step_disabled event state h)

  -- An endpoint whose provider's capacity is exhausted stays disabled, whatever failures, successes and
  -- selections follow.
  pub capacity_exhausted_disables :
      (now : ℕ) (events : List (ℕ × EndpointEvent)) (state : RpcEndpointState)
      → (endpoint_run events (record_failure now capacity_exhausted state)).disabled ≡ true
  unfolding record_failure count_failure
  capacity_exhausted_disables now events state = run_disabled events _ refl
