-- ===== src/Decode/Consistent/Nested.antt =====
-- A decoder of an outer call passes on the consistency of the signals of the inner calls.
use Prim.Native.String.{String}
use arbitrage_runtime.Base.{
  Bool, List, Option, [], contains, false, if◌then◌else◌, none, some, true, ℕ, ◌∷◌,
}
use arbitrage_runtime.Base.Float.{Float}
use arbitrage_runtime.Base.Holds.{AllSome}
use arbitrage_runtime.Decode.Consistent.{Consistent}
use arbitrage_runtime.Decode.Consistent.Partial.{guess-Consistent, safe_inner-Consistent}
use arbitrage_runtime.Decode.Direct.{MonitoredTokenConfig, addresses}
use arbitrage_runtime.Decode.Signal.{SwapSignal}
use arbitrage_runtime.Decode.Swap.{
  Call, Decoded, Recurse, after_multicall, after_safe_call, batch_calls, child_selectors,
  decode_batch_execute_nested_swap, decode_call, decode_nested_swap_from_calldata,
  decode_private_searcher_fingerprint, decode_private_swap_wrapper, first_signal, found,
  if_monitored, of_option, otherwise, out_of_fuel, rejected, relabel, scan_here, split_selector,
}
use arbitrage_runtime.Decode.Token.{Decoder, Token, or_else, path_contains_monitored_token}

abbrev pub Accepts {ℓ} : {A : Type ℓ} → (A → Type 0) → Decoded A → Type 0
Accepts P out_of_fuel = Unit
Accepts P rejected = Unit
Accepts P (found a) = P a

pub otherwise-Accepts {ℓ} :
    {A : Type ℓ} (P : A → Type 0) (x y : Decoded A)
    → Accepts P x
    → Accepts P y
    → Accepts P (otherwise x y)
unfolding otherwise
otherwise-Accepts P out_of_fuel y h k = tt
otherwise-Accepts P rejected y h k = k
otherwise-Accepts P (found a) y h k = h

pub of_option-Accepts {ℓ} :
    {A : Type ℓ} (P : A → Type 0) (o : Option A) → AllSome P o → Accepts P (of_option o)
unfolding of_option
of_option-Accepts P none h = tt
of_option-Accepts P (some a) h = h

pub if-Accepts {ℓ} :
    {A : Type ℓ} (P : A → Type 0) (b : Bool) (x y : Decoded A)
    → Accepts P x
    → Accepts P y
    → Accepts P (if b then x else y)
if-Accepts P true x y h k = h
if-Accepts P false x y h k = k

pub or_else-AllSome {ℓ} :
    {A : Type ℓ} (P : A → Type 0) (x y : Option A)
    → AllSome P x
    → AllSome P y
    → AllSome P (or_else x y)
or_else-AllSome P none y h k = k
or_else-AllSome P (some a) y h k = h

module _ (f : Float) (decode : Decoder) (monitored : List (MonitoredTokenConfig f)) where
  relabel-Consistent :
      (selector : ℕ) (cap : f.F) (source : String) (o : Decoded (SwapSignal f))
      → Accepts Consistent o
      → Accepts Consistent (relabel f decode monitored selector cap source o)
  unfolding relabel
  relabel-Consistent selector cap source out_of_fuel h = h
  relabel-Consistent selector cap source rejected h = tt
  relabel-Consistent selector cap source (found s) h = h

  if_monitored-Consistent :
      (o : Decoded (SwapSignal f))
      → Accepts Consistent o
      → Accepts Consistent (if_monitored f decode monitored o)
  unfolding if_monitored
  if_monitored-Consistent out_of_fuel h = tt
  if_monitored-Consistent rejected h = tt
  if_monitored-Consistent (found s) h =
      if-Accepts Consistent (path_contains_monitored_token s.path (addresses monitored)) (found s)
        rejected h tt

  module _ (rec : Recurse f)
      (inner : (selector router value : ℕ) (args : List ℕ)
        → Accepts Consistent (rec selector router value args)) where
    call-Consistent : (o : Option Call) → Accepts Consistent (decode_call f decode monitored rec o)
    unfolding decode_call
    call-Consistent none = tt
    call-Consistent (some call) = inner call.selector call.target call.value call.args

    first_signal-Consistent :
        (read : Token → Option Call) (ts : List Token)
        → Accepts Consistent (first_signal f decode monitored rec read ts)
    unfolding first_signal
    first_signal-Consistent read [] = tt
    first_signal-Consistent read (t ∷ ts) =
        otherwise-Accepts Consistent _ _ (call-Consistent (read t))
          (first_signal-Consistent read ts)

    scan_here-Consistent :
        (router value : ℕ) (o : Option (ℕ × List ℕ))
        → Accepts Consistent (scan_here f decode monitored rec router value o)
    unfolding scan_here
    scan_here-Consistent router value none = tt
    scan_here-Consistent router value (some (selector, rest)) =
        if-Accepts Consistent (contains child_selectors selector) _ rejected
          (if_monitored-Consistent _ (inner selector router value rest)) tt

    scan-Consistent :
        (router value : ℕ) (input : List ℕ)
        → Accepts Consistent
            (decode_nested_swap_from_calldata f decode monitored rec router value input)
    unfolding decode_nested_swap_from_calldata
    scan-Consistent router value [] = tt
    scan-Consistent router value (b ∷ input) =
        otherwise-Accepts Consistent _ _
          (scan_here-Consistent router value (split_selector (b ∷ input)))
          (scan-Consistent router value input)

    pub safe-Consistent :
        (o : Option Call) → Accepts Consistent (after_safe_call f decode monitored rec o)
    unfolding after_safe_call
    safe-Consistent none = tt
    safe-Consistent (some call) =
        otherwise-Accepts Consistent _ _ (inner call.selector call.target call.value call.args) (
          of_option-Accepts Consistent _ (
            safe_inner-Consistent f decode (addresses monitored) call.selector call.target
              call.value call.args))

    pub multicall-Consistent :
        (selector router value : ℕ) (args : List ℕ) (o : Option (List Token))
        → Accepts Consistent (after_multicall f decode monitored rec selector router value args o)
    unfolding after_multicall
    multicall-Consistent selector router value args none = tt
    multicall-Consistent selector router value args (some calls) =
        otherwise-Accepts Consistent _ _
          (relabel-Consistent selector _ _ _ (first_signal-Consistent _ calls))
          (relabel-Consistent selector _ _ _ (scan-Consistent router value args))

    pub fingerprint-Consistent :
        (selector router value : ℕ) (args : List ℕ)
        → Accepts Consistent
            (decode_private_searcher_fingerprint f decode monitored rec selector router value args)
    unfolding decode_private_searcher_fingerprint
    fingerprint-Consistent selector router value args =
        otherwise-Accepts Consistent _ _
          (relabel-Consistent selector _ _ _ (scan-Consistent router value args))
          (of_option-Accepts Consistent _
            (guess-Consistent f decode (addresses monitored) selector router value args _ _))

    pub batch-Consistent :
        (selector router value : ℕ) (args : List ℕ)
        → Accepts Consistent
            (decode_batch_execute_nested_swap f decode monitored rec selector router value args)
    unfolding decode_batch_execute_nested_swap
    batch-Consistent selector router value args =
        otherwise-Accepts Consistent _ _
          (relabel-Consistent selector _ _ _ (first_signal-Consistent _ (batch_calls decode args)))
          (relabel-Consistent selector _ _ _ (scan-Consistent router value args))

    pub wrapper-Consistent :
        (selector router value : ℕ) (args : List ℕ)
        → Accepts Consistent
            (decode_private_swap_wrapper f decode monitored rec selector router value args)
    unfolding decode_private_swap_wrapper
    wrapper-Consistent selector router value args =
        relabel-Consistent selector _ _ _ (scan-Consistent router value args)
