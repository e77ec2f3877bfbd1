-- ===== src/Executor/Submit.antt =====
-- The paths that a transaction is submitted over: the RPC endpoints in the order of
-- `direct_rpc_submit_endpoints` and `direct_rpc_submit_endpoints_from_ranked_paths`, and the relays of
-- `rank_relays`, of src/mev/execution/executor.rs. The order that the adaptive policy gives to labels
-- is an argument.
use Prim.Native.String.{String}
use arbitrage_runtime.Base.{
  Bool, List, Option, [], any_of, false, if◌then◌else◌, map, max, none, some, take, true, ℕ, ◌++◌,
  ◌==◌, ◌∷◌,
}
use Prim.Native.String.{◌++◌ as str_append}
use text.Mathlib.Text.{◌==◌ as str_eq}
pub mod Endpoints
pub mod Ids

-- `RpcHandle` of src/rpc.rs, without its provider.
pub record RpcHandle : Type 0 where
  pub id : ℕ
  pub name : String

-- `format!("rpc://{}", endpoint.name)`.
abbrev pub label : RpcHandle → String
label endpoint = str_append "rpc://" endpoint.name

-- The first endpoint of a path, and the others: `position` and `remove`. A path starts with `rpc://`
-- and goes on with the endpoint's name exactly when it is the endpoint's label.
unfoldable pub take_path : String → List RpcHandle → Option (RpcHandle × List RpcHandle)
take_path path [] = none
take_path path (e ∷ es) = elim (str_eq (label e) path) [
  | true ↦ some (e, es)
  | false ↦ elim (take_path path es) [ none ↦ none | some (found, rest) ↦ some (found, e ∷ rest) ]
]

-- The endpoints of the ranked paths, then all others.
unfoldable pub order_by_paths : List String → List RpcHandle → List RpcHandle
order_by_paths [] candidates = candidates
order_by_paths (path ∷ paths) candidates = elim (take_path path candidates) [
  | none ↦ order_by_paths paths candidates
  | some (endpoint, rest) ↦ endpoint ∷ order_by_paths paths rest
]

unfoldable pub direct_rpc_submit_endpoints_from_ranked_paths :
    ℕ → List String → List RpcHandle → List RpcHandle
direct_rpc_submit_endpoints_from_ranked_paths rpc_fanout_count ranked candidates =
    take (max rpc_fanout_count 1) (order_by_paths ranked candidates)

abbrev pub has_id : ℕ → List RpcHandle → Bool
has_id i = any_of (λ existing. existing.id == i)

abbrev pub find_path : String → List RpcHandle → Option RpcHandle
find_path path [] = none
find_path path (e ∷ es) = if str_eq path (label e) then some e else find_path path es

unfoldable pub push_endpoint : List RpcHandle → RpcHandle → List RpcHandle
push_endpoint ordered endpoint =
    if has_id endpoint.id ordered then ordered else ordered ++ (endpoint ∷ [])

abbrev pub push_found : List RpcHandle → Option RpcHandle → List RpcHandle
push_found ordered none = ordered
push_found ordered (some endpoint) = push_endpoint ordered endpoint

unfoldable pub push_paths : List RpcHandle → List String → List RpcHandle → List RpcHandle
push_paths endpoints [] ordered = ordered
push_paths endpoints (path ∷ paths) ordered =
    push_paths endpoints paths (push_found ordered (find_path path endpoints))

unfoldable pub push_endpoints : List RpcHandle → List RpcHandle → List RpcHandle
push_endpoints [] ordered = ordered
push_endpoints (e ∷ es) ordered = push_endpoints es (push_endpoint ordered e)

unfoldable pub direct_rpc_submit_endpoints :
    ℕ → (List String → List String) → List RpcHandle → RpcHandle → List RpcHandle
direct_rpc_submit_endpoints rpc_fanout_count rank_relays send_candidates preferred =
    let ranked_by_health =
      if has_id preferred.id send_candidates
      then send_candidates
      else preferred ∷ send_candidates in
    let by_path = push_paths ranked_by_health (rank_relays (map label ranked_by_health)) [] in
    take (max rpc_fanout_count 1) (push_endpoints ranked_by_health by_path)

-- `rank_direct_rpc_submit_paths`; the first ranking is for the cluster.
unfoldable pub rank_direct_rpc_submit_paths :
    ℕ
    → (List String → List String)
    → (List String → List String)
    → List RpcHandle
    → RpcHandle
    → List String
rank_direct_rpc_submit_paths fanout rank_for_cluster rank_relays send_candidates preferred =
    rank_for_cluster
      (map label (direct_rpc_submit_endpoints fanout rank_relays send_candidates preferred))

-- `position`, `remove` and `insert(0, …)` of the preferred relay.
unfoldable pub without_first : String → List String → List String
without_first preferred [] = []
without_first preferred (r ∷ rs) = elim (str_eq r preferred) [
  | true ↦ rs
  | false ↦ r ∷ without_first preferred rs
]

unfoldable pub rank_relays : (List String → List String) → List String → Option String → List String
rank_relays rank_for_cluster builder_relays none = rank_for_cluster builder_relays
rank_relays rank_for_cluster builder_relays (some preferred) =
    let relays = rank_for_cluster builder_relays in
    if any_of (λ r. str_eq r preferred) relays
    then preferred ∷ without_first preferred relays
    else relays
