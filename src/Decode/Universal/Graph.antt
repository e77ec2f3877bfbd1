-- ===== src/Decode/Universal/Graph.antt =====
-- The route graph of a Universal Router call (`collect_universal_router_graph` of src/mev/runtime.rs).
use arbitrage_runtime.Base.{
  Bool, List, Option, [], false, if◌then◌else◌, map, none, reverse, saturating_add, some, suc, true,
  u64_max, zero, ℕ, ◌++◌, ◌-◌, ◌==◌, ◌||◌, ◌∷◌,
}
use arbitrage_runtime.Decode.Token.{
  Decoder, Token, field, token_as_address_vec, token_as_bytes, token_as_uint,
}
use arbitrage_runtime.Decode.Universal.{
  flat_option, opcode_of, plan_of, plan_params, v2_params, v3_params,
}
use arbitrage_runtime.Decode.V3Path.{V3PathSegment, parse_v3_path_segments}
use Prim.Native.String.{String, ◌++◌ as str_append}

pub record UniversalRouterHop : Type 0 where
  pub dex : String
  pub command : String
  pub token_in : ℕ
  pub token_out : ℕ
  pub amount_in : Option ℕ
  pub amount_out : Option ℕ
  pub fee_tier : Option ℕ
  pub exact_out : Bool
  pub depth : ℕ

pub record UniversalRouterRouteGraph : Type 0 where
  pub command_count : ℕ
  pub swap_command_count : ℕ
  pub hops : List UniversalRouterHop
  pub unsupported_commands : List String

abbrev pub max_depth : ℕ
max_depth = 4

-- The sum of the counts saturates at u64.
unfoldable pub count_command : UniversalRouterRouteGraph → UniversalRouterRouteGraph
count_command graph = record graph { command_count = saturating_add u64_max graph.command_count 1 }

unfoldable pub add_hops :
    UniversalRouterRouteGraph → List UniversalRouterHop → UniversalRouterRouteGraph
add_hops graph hops = record graph {
  swap_command_count = saturating_add u64_max graph.swap_command_count 1;
  hops = graph.hops ++ hops;
}

unfoldable pub unsupported : UniversalRouterRouteGraph → String → UniversalRouterRouteGraph
unsupported graph name = record graph {
  unsupported_commands = graph.unsupported_commands ++ (name ∷ []);
}

unfoldable pub universal_router_command_name : ℕ → String
universal_router_command_name opcode =
    if opcode == 0x00
    then "v3_exact_in"
    else if opcode == 0x01
    then "v3_exact_out"
    else if opcode == 0x02
    then "permit2_transfer_from"
    else if opcode == 0x03
    then "permit2_permit_batch"
    else if opcode == 0x04
    then "sweep"
    else if opcode == 0x05
    then "transfer"
    else if opcode == 0x06
    then "pay_portion"
    else if opcode == 0x08
    then "v2_exact_in"
    else if opcode == 0x09
    then "v2_exact_out"
    else if opcode == 0x0a
    then "permit2_permit"
    else if opcode == 0x0b
    then "wrap_eth"
    else if opcode == 0x0c
    then "unwrap_weth"
    else if opcode == 0x0d
    then "permit2_transfer_from_batch"
    else if opcode == 0x0e
    then "balance_check_erc20"
    else if opcode == 0x10
    then "v4_swap"
    else if opcode == 0x21
    then "execute_sub_plan"
    else if opcode == 0x40
    then "across_v4_deposit_v3"
    else "unknown"

-- `path.windows(2).map(…)`.
unfoldable pub v2_windows : Bool → ℕ → Option ℕ → Option ℕ → List ℕ → List UniversalRouterHop
v2_windows exact_out depth amount_primary amount_secondary [] = []
v2_windows exact_out depth amount_primary amount_secondary (a ∷ []) = []
v2_windows exact_out depth amount_primary amount_secondary (a ∷ b ∷ path) =
    record {
      dex = "v2";
      command = if exact_out then "v2_exact_out" else "v2_exact_in";
      token_in = a;
      token_out = b;
      amount_in = if exact_out then amount_secondary else amount_primary;
      amount_out = if exact_out then amount_primary else amount_secondary;
      fee_tier = none;
      exact_out = exact_out;
      depth = depth;
    }
    ∷ v2_windows exact_out depth amount_primary amount_secondary (b ∷ path)

unfoldable pub v3_hop : Bool → ℕ → Option ℕ → Option ℕ → V3PathSegment → UniversalRouterHop
v3_hop exact_out depth amount_primary amount_secondary segment = record {
  dex = "v3";
  command = if exact_out then "v3_exact_out" else "v3_exact_in";
  token_in = if exact_out then segment.token_out else segment.token_in;
  token_out = if exact_out then segment.token_in else segment.token_out;
  amount_in = if exact_out then amount_secondary else amount_primary;
  amount_out = if exact_out then amount_primary else amount_secondary;
  fee_tier = some segment.fee_tier;
  exact_out = exact_out;
  depth = depth;
}

module _ (decode : Decoder) where
  unfoldable pub universal_router_v2_hops : List ℕ → Bool → ℕ → List UniversalRouterHop
  universal_router_v2_hops input exact_out depth =
      flat_option
        (λ decoded.
          flat_option
            (v2_windows exact_out depth (field decoded 1 token_as_uint)
              (field decoded 2 token_as_uint))
            (field decoded 3 token_as_address_vec))
        (decode v2_params input)

  unfoldable pub universal_router_v3_hops : List ℕ → Bool → ℕ → List UniversalRouterHop
  universal_router_v3_hops input exact_out depth =
      flat_option
        (λ decoded.
          flat_option
            (λ path.
              map
                (v3_hop exact_out depth (field decoded 1 token_as_uint)
                  (field decoded 2 token_as_uint))
                (if exact_out
                  then reverse (parse_v3_path_segments path)
                  else parse_v3_path_segments path))
            (field decoded 3 token_as_bytes))
        (decode v3_params input)

  -- A function that continues the graph with a plan.
  abbrev pub Collector : Type 0
  Collector = List ℕ × List Token → UniversalRouterRouteGraph → UniversalRouterRouteGraph

  unfoldable pub collect_sub_plan :
      Collector
      → Option (List ℕ × List Token)
      → UniversalRouterRouteGraph
      → UniversalRouterRouteGraph
  collect_sub_plan collect none graph = unsupported graph "execute_sub_plan:decode_failed"
  collect_sub_plan collect (some plan) graph = collect plan graph

  -- The arms of the match on the opcode, at a depth.
  unfoldable pub collect_command :
      Collector → ℕ → ℕ → List ℕ → UniversalRouterRouteGraph → UniversalRouterRouteGraph
  collect_command collect depth opcode input graph =
      if opcode == 0x00
      then add_hops graph (universal_router_v3_hops input false depth)
      else if opcode == 0x01
      then add_hops graph (universal_router_v3_hops input true depth)
      else if opcode == 0x08
      then add_hops graph (universal_router_v2_hops input false depth)
      else if opcode == 0x09
      then add_hops graph (universal_router_v2_hops input true depth)
      else if opcode == 0x21
      then collect_sub_plan collect (plan_of (decode plan_params input)) graph
      else if opcode == 0x10 || opcode == 0x40
      then unsupported graph (universal_router_command_name opcode)
      else graph

  unfoldable pub collect_input :
      Collector → ℕ → ℕ → Option (List ℕ) → UniversalRouterRouteGraph → UniversalRouterRouteGraph
  collect_input collect depth opcode none graph =
      unsupported graph (str_append (universal_router_command_name opcode) ":input_not_bytes")
  collect_input collect depth opcode (some input) graph =
      collect_command collect depth opcode input graph

  unfoldable pub collect_loop :
      Collector → ℕ → List ℕ → List Token → UniversalRouterRouteGraph → UniversalRouterRouteGraph
  collect_loop collect depth [] inputs graph = graph
  collect_loop collect depth (command ∷ commands) [] graph =
      unsupported (count_command graph)
        (str_append (universal_router_command_name (opcode_of command)) ":missing_input")
  collect_loop collect depth (command ∷ commands) (input ∷ inputs) graph =
      collect_loop collect depth commands inputs (
        collect_input collect depth (opcode_of command) (token_as_bytes input)
          (count_command graph))

  unfoldable pub collect_universal_router_graph : ℕ → Collector
  collect_universal_router_graph zero plan graph = unsupported graph "subplan_depth_limit"
  collect_universal_router_graph (suc left) (commands, inputs) graph =
      collect_loop (collect_universal_router_graph left) (max_depth - suc left) commands inputs
        graph
