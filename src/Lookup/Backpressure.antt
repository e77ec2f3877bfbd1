-- ===== src/Lookup/Backpressure.antt =====
-- The shedding of lookups (`PendingLookupBackpressure` of src/mev/runtime.rs).
use Prim.Native.String.{String}
use arbitrage_runtime.Base.{
  All, Bool, List, [], ap, arith, false, if◌then◌else◌, leb, ltb, not, refl, saturating_add, true,
  u64_max, ℕ, ◌&&◌, ◌+◌, ◌/◌, ◌<◌, ◌∙◌, ◌∷◌, ◌≡◌, ◌≤◌,
}
use arbitrage_runtime.Base.Time.{from_millis, from_secs, since}
use arbitrage_runtime.Lookup.Budget.{RpcLookupPressure}

pub record PendingLookupBackpressure : Type 0 where
  pub window_started : ℕ
  pub accepted_in_window : ℕ
  pub pressure_refreshed_at : ℕ
  pub pressure : RpcLookupPressure
  pub dropped_since_event : ℕ
  pub last_event_at : ℕ

-- What the dashboard is told; of the warning's text the numbers are kept.
pub data DashboardCall : Type 0 where
  opportunity_funnel : String → DashboardCall
  reject_reason : String → String → DashboardCall
  shed_warning : ℕ → ℕ → RpcLookupPressure → ℕ → DashboardCall

abbrev pub lookup_decode_queue_capacity : ℕ
lookup_decode_queue_capacity = 8_192

unfoldable pub fresh_window : ℕ → PendingLookupBackpressure → PendingLookupBackpressure
fresh_window now s =
    if leb (from_secs 1) (since now s.window_started)
    then record s { window_started = now; accepted_in_window = 0 }
    else s

-- `fleet` is the pressure of the fleet at the moment of the call.
unfoldable pub refresh_pressure :
    ℕ → RpcLookupPressure → PendingLookupBackpressure → PendingLookupBackpressure
refresh_pressure now fleet s =
    if leb (from_millis 900) (since now s.pressure_refreshed_at)
    then record s { pressure = fleet; pressure_refreshed_at = now }
    else s

unfoldable pub soft_full : ℕ → Bool
soft_full queue_remaining = leb queue_remaining (lookup_decode_queue_capacity / 16)

unfoldable pub shed :
    ℕ → ℕ → ℕ → PendingLookupBackpressure → PendingLookupBackpressure × List DashboardCall
shed now max_per_sec queue_remaining s =
    let dropped = saturating_add u64_max s.dropped_since_event 1 in
    if leb (from_secs 5) (since now s.last_event_at)
    then (
      record s { dropped_since_event = 0; last_event_at = now },
      opportunity_funnel "tx_lookup_throttled"
          ∷ reject_reason "pending_lookup"
              (if soft_full queue_remaining then "queue_backpressure" else "rpc_budget")
          ∷ shed_warning dropped max_per_sec s.pressure queue_remaining
          ∷ [],
    )
    else (record s { dropped_since_event = dropped }, opportunity_funnel "tx_lookup_throttled" ∷ [])

pub record Enqueue : Type 0 where
  pub allowed : Bool
  pub state : PendingLookupBackpressure
  pub calls : List DashboardCall

abbrev shed_result : PendingLookupBackpressure × List DashboardCall → Enqueue
shed_result (s, calls) = record { allowed = false; state = s; calls = calls }

unfoldable pub decide : ℕ → ℕ → ℕ → PendingLookupBackpressure → Enqueue
unfolding shed soft_full
decide now max_per_sec queue_remaining s =
    if ltb s.accepted_in_window max_per_sec && not (soft_full queue_remaining)
    then record {
      allowed = true;
      state = record s { accepted_in_window = saturating_add u64_max s.accepted_in_window 1 };
      calls = [];
    }
    else shed_result (shed now max_per_sec queue_remaining s)

-- `budget` is `effective_pending_lookup_budget` under the configuration.
module _ (budget : RpcLookupPressure → ℕ) where
  unfoldable pub should_enqueue : ℕ → RpcLookupPressure → ℕ → PendingLookupBackpressure → Enqueue
  should_enqueue now fleet queue_remaining s =
      let ready = refresh_pressure now fleet (fresh_window now s) in
      decide now (budget ready.pressure) queue_remaining ready

  -- Calls at moments, each with the pressure of the fleet and the room of the queue.
  abbrev pub Calls : Type 0
  Calls = List (ℕ × RpcLookupPressure × ℕ)

  abbrev count : Bool → ℕ → ℕ
  count true n = n + 1
  count false n = n

  -- How many of the calls are allowed.
  unfoldable pub allowed_count : Calls → PendingLookupBackpressure → ℕ
  allowed_count [] s = 0
  allowed_count ((now, fleet, room) ∷ calls) s =
      let step = should_enqueue now fleet room s in
      count step.allowed (allowed_count calls step.state)

  decide_window :
      (now room b : ℕ) (s : PendingLookupBackpressure)
      → (decide now b room s).state.window_started ≡ s.window_started
  unfolding decide shed
  decide_window now room b s = ground arith

  -- A decision counts what it allows, and what it allows is within the budget.
  decide_counted :
      (now room b : ℕ) (s : PendingLookupBackpressure) (top : ℕ)
      → b ≤ top
      → top ≤ u64_max
      → s.accepted_in_window ≤ top
      → ((decide now b room s).state.accepted_in_window
          ≡ count (decide now b room s).allowed s.accepted_in_window)
        × ((decide now b room s).state.accepted_in_window ≤ top)
  unfolding decide shed saturating_add
  decide_counted now room b s top h k l = ground arith

  fresh_window_same :
      (now : ℕ) (s : PendingLookupBackpressure)
      → since now s.window_started < from_secs 1
      → fresh_window now s ≡ s
  unfolding fresh_window
  fresh_window_same now s h = ground arith

  refresh_pressure_fields :
      (now : ℕ) (fleet : RpcLookupPressure) (s : PendingLookupBackpressure)
      → ((refresh_pressure now fleet s).window_started ≡ s.window_started)
        × ((refresh_pressure now fleet s).accepted_in_window ≡ s.accepted_in_window)
  unfolding refresh_pressure
  refresh_pressure_fields now fleet s = ground arith

  -- One call inside the window.
  should_enqueue_step :
      (now : ℕ) (fleet : RpcLookupPressure) (room : ℕ) (s : PendingLookupBackpressure) (top : ℕ)
      → ((p : RpcLookupPressure) → budget p ≤ top)
      → top ≤ u64_max
      → since now s.window_started < from_secs 1
      → s.accepted_in_window ≤ top
      → ((should_enqueue now fleet room s).state.window_started ≡ s.window_started)
        × ((should_enqueue now fleet room s).state.accepted_in_window
            ≡ count (should_enqueue now fleet room s).allowed s.accepted_in_window)
        × ((should_enqueue now fleet room s).state.accepted_in_window ≤ top)
  unfolding should_enqueue
  should_enqueue_step now fleet room s top bounded fits h l =
      let ready = refresh_pressure now fleet s in
      let (same, kept) = refresh_pressure_fields now fleet s in
      let (counted, within) =
        decide_counted now room (budget ready.pressure) ready top (bounded ready.pressure) fits
          (omega arith) in
      rw (fresh_window_same now s h) (
        decide_window now room (budget ready.pressure) ready ∙ same,
        counted ∙ ap (count (decide now (budget ready.pressure) room ready).allowed) kept,
        within,
      )

  count_move : (b : Bool) (n m : ℕ) → count b n + m ≡ n + count b m
  count_move true n m = omega arith
  count_move false n m = refl

  -- While less than a second has passed since the window of a second was opened, the lookups that are
  -- allowed, with those already counted in the window, are no more than the greatest budget.
  pub allowed_count-bounded :
      (calls : Calls) (s : PendingLookupBackpressure) (top : ℕ)
      → ((p : RpcLookupPressure) → budget p ≤ top)
      → top ≤ u64_max
      → All (λ call. since call.0 s.window_started < from_secs 1) calls
      → s.accepted_in_window ≤ top
      → s.accepted_in_window + allowed_count calls s ≤ top
  unfolding allowed_count
  allowed_count-bounded [] s top bounded fits inside l = omega arith
  allowed_count-bounded ((now, fleet, room) ∷ calls) s top bounded fits (h, hs) l =
      let (same, counted, within) = should_enqueue_step now fleet room s top bounded fits h l in
      let next = (should_enqueue now fleet room s).state in
      let rest = allowed_count-bounded calls next top bounded fits (rw same hs) within in
      omega (
        arith,
        counted,
        rest,
        count_move (should_enqueue now fleet room s).allowed s.accepted_in_window
            (allowed_count calls next),
      )

  -- From any state, once a second has passed since the window was opened and more than a sixteenth of the
  -- queue is free, a lookup is allowed where every budget is positive; it opens a window at that moment
  -- and is the first one counted in it, and nothing is reported.
  pub should_enqueue_recovers :
      (now : ℕ) (fleet : RpcLookupPressure) (room : ℕ) (s : PendingLookupBackpressure)
      → ((p : RpcLookupPressure) → 0 < budget p)
      → from_secs 1 ≤ since now s.window_started
      → lookup_decode_queue_capacity / 16 < room
      → ((should_enqueue now fleet room s).allowed ≡ true)
        × ((should_enqueue now fleet room s).state.window_started ≡ now)
        × ((should_enqueue now fleet room s).state.accepted_in_window ≡ 1)
        × ((should_enqueue now fleet room s).calls ≡ [])
  unfolding should_enqueue decide shed fresh_window refresh_pressure soft_full saturating_add
  should_enqueue_recovers now fleet room s positive passed free =
      let ready = refresh_pressure now fleet (fresh_window now s) in
      let some_budget : 0 < budget ready.pressure = positive ready.pressure in ground arith
