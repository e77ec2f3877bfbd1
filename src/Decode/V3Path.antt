-- ===== src/Decode/V3Path.antt =====
-- Encoded V3 paths (`parse_v3_path` and its neighbours in src/mev/runtime.rs): twenty bytes of a token,
-- then for each hop three bytes of a fee and twenty bytes of the next token. An address is the number
-- that its bytes spell.
use arbitrage_runtime.Base.{
  List, Option, [], drop, if◌then◌else◌, length, ltb, none, not, saturating_sub, some, suc, zero, ℕ,
  ◌*◌, ◌++◌, ◌+◌, ◌/◌, ◌==◌, ◌>>=◌, ◌∷◌,
}
use arbitrage_runtime.Base.Bytes.{be_bytes, be_value, slice}
pub mod RoundTrip

pub record ParsedV3Path : Type 0 where
  pub token_in : ℕ
  pub edge_token_out : ℕ
  pub first_fee_tier : ℕ
  pub hops : ℕ

pub record V3PathSegment : Type 0 where
  pub token_in : ℕ
  pub token_out : ℕ
  pub fee_tier : ℕ

unfoldable pub parse_v3_path : List ℕ → Option ParsedV3Path
parse_v3_path path =
    if ltb (length path) 43
    then none
    else some (record {
      token_in = be_value (slice path 0 20);
      edge_token_out = be_value (slice path 23 43);
      first_fee_tier = be_value (0 ∷ slice path 20 23);
      hops = saturating_sub (length path) 20 / 23;
    })

-- The segment of hop `hop`, where its bytes are there.
unfoldable pub segment_at : List ℕ → ℕ → V3PathSegment
segment_at path hop =
    let token_in_offset = hop * 23 in
    let fee_offset = token_in_offset + 20 in
    let token_out_offset = fee_offset + 3 in
    record {
      token_in = be_value (slice path token_in_offset (token_in_offset + 20));
      token_out = be_value (slice path token_out_offset (token_out_offset + 20));
      fee_tier = be_value (0 ∷ slice path fee_offset (fee_offset + 3));
    }

-- The loop with so many rounds left.
unfoldable pub segments_loop : List ℕ → ℕ → ℕ → List V3PathSegment
segments_loop path zero hop = []
segments_loop path (suc rounds) hop =
    let rest = segments_loop path rounds (hop + 1) in
    if ltb (length path) (hop * 23 + 20 + 3 + 20) then [] else segment_at path hop ∷ rest

unfoldable pub parse_v3_path_segments : List ℕ → List V3PathSegment
parse_v3_path_segments path =
    if ltb (length path) 43 then [] else segments_loop path (saturating_sub (length path) 20 / 23) 0

unfoldable pub parse_v3_exact_out_path : List ℕ → Option ParsedV3Path
parse_v3_exact_out_path path = do
  forward ← parse_v3_path path
  if not (forward.hops == 1)
      then none
      else some (record {
        token_in = forward.edge_token_out;
        edge_token_out = forward.token_in;
        first_fee_tier = forward.first_fee_tier;
        hops = forward.hops;
      })

unfoldable pub encode_v3_path : ℕ → ℕ → ℕ → List ℕ
encode_v3_path token_in fee_tier token_out =
    be_bytes 20 token_in ++ (drop 1 (be_bytes 4 fee_tier) ++ be_bytes 20 token_out)
