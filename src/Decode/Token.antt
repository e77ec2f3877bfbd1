-- ===== src/Decode/Token.antt =====
-- What an ABI decoder gives, and the helpers on it of src/mev/runtime.rs (`token_as_uint` and its
-- neighbours). The decoder is a parameter of the model; of its tokens the constructors are those that
-- the code matches on, and `other`.
use arbitrage_runtime.Base.{
  Bool, List, Option, [], any_of, contains, false, get_elem?, if◌then◌else◌, leb, length, none,
  some, true, ℕ, ◌&&◌, ◌>>=◌, ◌∷◌,
}
use arbitrage_runtime.Decode.V3Path.{parse_v3_path}
pub mod Search

mutual
  pub data ParamType : Type 0 where
    address_type : ParamType
    bytes_type : ParamType
    bool_type : ParamType
    string_type : ParamType
    uint_type : ℕ → ParamType
    array_type : ParamType → ParamType
    tuple_type : ParamTypes → ParamType

  pub data ParamTypes : Type 0 where
    no_params : ParamTypes
    param : ParamType → ParamTypes → ParamTypes

mutual
  pub data Token : Type 0 where
    address_token : ℕ → Token
    uint_token : ℕ → Token
    bytes_token : List ℕ → Token
    fixed_bytes_token : List ℕ → Token
    array_token : Tokens → Token
    fixed_array_token : Tokens → Token
    tuple_token : Tokens → Token
    other_token : Token

  pub data Tokens : Type 0 where
    no_tokens : Tokens
    more_tokens : Token → Tokens → Tokens

abbrev pub params_of : List ParamType → ParamTypes
params_of [] = no_params
params_of (p ∷ ps) = param p (params_of ps)

abbrev pub tokens_list : Tokens → List Token
tokens_list no_tokens = []
tokens_list (more_tokens t ts) = t ∷ tokens_list ts

-- `abi::decode`, where an error is dropped.
abbrev pub Decoder : Type 0
Decoder = List ParamType → List ℕ → Option (List Token)

unfoldable pub token_as_uint : Token → Option ℕ
token_as_uint (uint_token value) = some value
token_as_uint _ = none

unfoldable pub token_as_address : Token → Option ℕ
token_as_address (address_token value) = some value
token_as_address _ = none

-- The collection of the addresses into an `Option`.
unfoldable pub collect_addresses : Tokens → Option (List ℕ)
collect_addresses no_tokens = some []
collect_addresses (more_tokens t ts) = do
  first ← token_as_address t
  rest ← collect_addresses ts
  some (first ∷ rest)

unfoldable pub token_as_address_vec : Token → Option (List ℕ)
token_as_address_vec (array_token values) = collect_addresses values
token_as_address_vec _ = none

-- The tests `Token::Bytes(value) => value`, `Token::Array(values) => values` and
-- `let Token::Tuple(values) = … else`.
unfoldable pub token_as_bytes : Token → Option (List ℕ)
token_as_bytes (bytes_token value) = some value
token_as_bytes _ = none

unfoldable pub token_as_array : Token → Option (List Token)
token_as_array (array_token values) = some (tokens_list values)
token_as_array _ = none

unfoldable pub token_as_tuple : Token → Option Tokens
token_as_tuple (tuple_token values) = some values
token_as_tuple _ = none

-- `decoded.get(i).and_then(read)`.
unfoldable pub field {ℓ} : {A : Type ℓ} → List Token → ℕ → (Token → Option A) → Option A
field values i read = do t ← get_elem? values i; read t

abbrev pub or_else {ℓ} : {A : Type ℓ} → Option A → Option A → Option A
or_else none y = y
or_else (some x) y = some x

-- The monitored tokens stand for their addresses here.
unfoldable pub path_contains_monitored_token : List ℕ → List ℕ → Bool
path_contains_monitored_token path monitored = any_of (λ a. contains monitored a) path

unfoldable pub parses : List ℕ → Bool
parses value = elim (parse_v3_path value) [ none ↦ false | some path ↦ true ]

unfoldable mutual
  pub token_tree_find_v3_path_bytes : Tokens → Option (List ℕ)
  token_tree_find_v3_path_bytes no_tokens = none
  token_tree_find_v3_path_bytes (more_tokens t ts) =
      or_else (token_find_v3_path_bytes t) (token_tree_find_v3_path_bytes ts)

  pub token_find_v3_path_bytes : Token → Option (List ℕ)
  token_find_v3_path_bytes (bytes_token value) = if parses value then some value else none
  token_find_v3_path_bytes (fixed_bytes_token value) = if parses value then some value else none
  token_find_v3_path_bytes (array_token values) = token_tree_find_v3_path_bytes values
  token_find_v3_path_bytes (fixed_array_token values) = token_tree_find_v3_path_bytes values
  token_find_v3_path_bytes (tuple_token values) = token_tree_find_v3_path_bytes values
  token_find_v3_path_bytes (address_token a) = none
  token_find_v3_path_bytes (uint_token n) = none
  token_find_v3_path_bytes other_token = none

-- The test of a collected path.
unfoldable pub long_monitored : List ℕ → Option (List ℕ) → Option (List ℕ)
long_monitored monitored none = none
long_monitored monitored (some path) =
    if leb 2 (length path) && path_contains_monitored_token path monitored then some path else none

unfoldable mutual
  pub token_tree_find_address_path : List ℕ → Tokens → Option (List ℕ)
  token_tree_find_address_path monitored no_tokens = none
  token_tree_find_address_path monitored (more_tokens t ts) =
      or_else (token_find_address_path monitored t) (token_tree_find_address_path monitored ts)

  pub token_find_address_path : List ℕ → Token → Option (List ℕ)
  token_find_address_path monitored (array_token values) =
      or_else (long_monitored monitored (collect_addresses values))
        (token_tree_find_address_path monitored values)
  token_find_address_path monitored (fixed_array_token values) =
      or_else (long_monitored monitored (collect_addresses values))
        (token_tree_find_address_path monitored values)
  token_find_address_path monitored (tuple_token values) =
      token_tree_find_address_path monitored values
  token_find_address_path monitored (bytes_token value) = none
  token_find_address_path monitored (fixed_bytes_token value) = none
  token_find_address_path monitored (address_token a) = none
  token_find_address_path monitored (uint_token n) = none
  token_find_address_path monitored other_token = none
