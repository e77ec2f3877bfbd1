-- ===== src/Decode/Consistent.antt =====
-- What the fields of a decoded signal say of one another: for the decoders that look at no inner call.
use Prim.Native.String.{String}
use arbitrage_runtime.Base.{
  ==_iff, All, Bool, Bool-cases, List, Option, [], arith, false, get_elem?, inl, inr, length, ltb,
  none, refl, saturating_sub, some, suc, true, zero, ℕ, ◌/◌, ◌==◌, ◌∷◌, ◌≡◌, ◌≤◌,
}
use arbitrage_runtime.Base.Bytes.{be_value, slice}
use arbitrage_runtime.Base.Float.{Float}
use arbitrage_runtime.Base.Holds.{>>=-AllSome, >>=-any, AllSome}
use arbitrage_runtime.Decode.Direct.{single_signal}
use arbitrage_runtime.Decode.Partial.{first_tokens}
use arbitrage_runtime.Decode.Signal.{SwapKind, SwapSignal, v2_kind, v3_kind}
use arbitrage_runtime.Decode.Token.{
  Decoder, field, token_as_address_vec, token_as_bytes, token_as_uint,
}
use arbitrage_runtime.Decode.Universal.{
  decode_universal_router_v2_exact_in, decode_universal_router_v2_exact_out,
  decode_universal_router_v3_exact_in, decode_universal_router_v3_exact_out, to_list, v2_params,
  v2_signal, v3_params, v3_signal,
}
use arbitrage_runtime.Decode.V3Path.{
  ParsedV3Path, encode_v3_path, parse_v3_exact_out_path, parse_v3_path, parse_v3_path_segments,
  segment_at, segments_loop,
}
use text.Mathlib.Text.{◌==◌ as str_eq}
pub mod Direct
pub mod Partial
pub mod Nested
pub mod Signal

-- The path and the kind agree: a V3 signal has a path of two tokens, carries the encoding of one pool
-- from the second back to the first, and has at least one hop, exactly one for an exact output.
abbrev pub Shape : List ℕ → SwapKind → Type 0
Shape path v2_kind = Unit
Shape path (v3_kind fee_tier encoded_path hops exact_out) =
    (token_in : ℕ) × (token_out : ℕ) × (path ≡ token_in ∷ token_out ∷ [])
    × (encoded_path ≡ encode_v3_path token_out fee_tier token_in)
    × (1 ≤ hops)
    × (exact_out ≡ true → hops ≡ 1)

abbrev pub Consistent : {f : Float} → SwapSignal f → Type 0
Consistent signal = Shape signal.path signal.kind

pub parse_v3_path-hops : (path : List ℕ) → AllSome (λ p. 1 ≤ p.hops) (parse_v3_path path)
unfolding parse_v3_path
parse_v3_path-hops path = elim (Bool-cases (ltb (length path) 43)) [
  | inl e ↦ rw e tt
  | inr e ↦ let long : 1 ≤ saturating_sub (length path) 20 / 23 = ground arith in rw e long
]

pub parse_v3_exact_out_path-hops :
    (path : List ℕ) → AllSome (λ p. p.hops ≡ 1) (parse_v3_exact_out_path path)
unfolding parse_v3_exact_out_path
parse_v3_exact_out_path-hops path =
    >>=-any (λ p. p.hops ≡ 1) (parse_v3_path path) _
      λ forward. elim (Bool-cases (forward.hops == 1)) [
        | inl e ↦ rw e ((==_iff forward.hops 1).0 e)
        | inr e ↦ rw e tt
      ]

first_tokens-loop :
    (path : List ℕ) (rounds : ℕ) (p : ParsedV3Path)
    → 1 ≤ rounds
    → ltb (length path) 43 ≡ false
    → first_tokens (get_elem? (segments_loop path rounds 0) 0) p
      ≡ be_value (slice path 0 20) ∷ be_value (slice path 23 43) ∷ []
unfolding segments_loop first_tokens segment_at
first_tokens-loop path zero p h e = absurd (omega arith)
first_tokens-loop path (suc rounds) p h e = rw e refl

-- Where a path parses, the tokens of its first segment are the parsed ones.
pub first_tokens-parsed :
    (path : List ℕ)
    → AllSome
        (λ p.
          first_tokens (get_elem? (parse_v3_path_segments path) 0) p
          ≡ p.token_in ∷ p.edge_token_out ∷ [])
        (parse_v3_path path)
unfolding parse_v3_path parse_v3_path_segments
first_tokens-parsed path = elim (Bool-cases (ltb (length path) 43)) [
  | inl e ↦ rw e tt
  | inr e ↦ rw e (first_tokens-loop path (saturating_sub (length path) 20 / 23) _ (ground arith) e)
]

pub single_signal-Consistent :
    (f : Float) (selector router amount_in : ℕ) (amount_out_min : Option ℕ)
    (token_in token_out fee_tier : ℕ) (exact_out : Bool) (confidence : f.F) (source : String)
    → Consistent (
        single_signal f selector router amount_in amount_out_min token_in token_out fee_tier
          exact_out confidence source)
unfolding single_signal
single_signal-Consistent f selector router amount_in amount_out_min token_in token_out fee_tier
      exact_out confidence source =
    (token_in, token_out, refl, refl, omega arith, λ e. refl)

pub v3_signal-Consistent :
    (f : Float) (selector router amount_in : ℕ) (amount_out_min : Option ℕ) (parsed : ParsedV3Path)
    (exact_out : Bool) (source : String)
    → 1 ≤ parsed.hops
    → (exact_out ≡ true → parsed.hops ≡ 1)
    → Consistent (v3_signal f selector router amount_in amount_out_min parsed exact_out source)
unfolding v3_signal
v3_signal-Consistent f selector router amount_in amount_out_min parsed exact_out source h k =
    (parsed.token_in, parsed.edge_token_out, refl, refl, h, k)

module _ (f : Float) (decode : Decoder) (selector router : ℕ) where
  pub universal_v3_exact_in-Consistent :
      (input : List ℕ)
      → AllSome Consistent (decode_universal_router_v3_exact_in f decode selector router input)
  unfolding decode_universal_router_v3_exact_in
  universal_v3_exact_in-Consistent input = >>=-any Consistent (decode v3_params input) _ λ decoded.
      >>=-any Consistent (field decoded 1 token_as_uint) _ λ amount_in.
        >>=-any Consistent (field decoded 3 token_as_bytes) _ λ path.
          >>=-AllSome (λ p. 1 ≤ p.hops) Consistent (parse_v3_path path) _ (parse_v3_path-hops path)
            λ p h.
              v3_signal-Consistent f selector router amount_in _ p false "universal_router" h
                (λ no. cc)

  pub universal_v3_exact_out-Consistent :
      (input : List ℕ)
      → AllSome Consistent (decode_universal_router_v3_exact_out f decode selector router input)
  unfolding decode_universal_router_v3_exact_out
  universal_v3_exact_out-Consistent input = >>=-any Consistent (decode v3_params input) _ λ decoded.
      >>=-any Consistent (field decoded 1 token_as_uint) _ λ amount_out.
        >>=-any Consistent (field decoded 2 token_as_uint) _ λ amount_in_max.
          >>=-any Consistent (field decoded 3 token_as_bytes) _ λ path.
            >>=-AllSome (λ p. p.hops ≡ 1) Consistent (parse_v3_exact_out_path path) _
              (parse_v3_exact_out_path-hops path)
              λ p h.
                v3_signal-Consistent f selector router amount_in_max _ p true "universal_router"
                  (omega arith) (λ yes_out. h)

  pub universal_v2_exact_in-Consistent :
      (input : List ℕ)
      → AllSome Consistent (decode_universal_router_v2_exact_in f decode selector router input)
  unfolding decode_universal_router_v2_exact_in v2_signal
  universal_v2_exact_in-Consistent input = >>=-any Consistent (decode v2_params input) _ λ decoded.
      >>=-any Consistent (field decoded 1 token_as_uint) _
        λ amount_in. >>=-any Consistent (field decoded 3 token_as_address_vec) _ (λ path. tt)

  pub universal_v2_exact_out-Consistent :
      (input : List ℕ)
      → AllSome Consistent (decode_universal_router_v2_exact_out f decode selector router input)
  unfolding decode_universal_router_v2_exact_out v2_signal
  universal_v2_exact_out-Consistent input = >>=-any Consistent (decode v2_params input) _ λ decoded.
      >>=-any Consistent (field decoded 1 token_as_uint) _ λ amount_out.
        >>=-any Consistent (field decoded 2 token_as_uint) _
          λ amount_in_max. >>=-any Consistent (field decoded 3 token_as_address_vec) _ (λ path. tt)

  pub to_list-All : (o : Option (SwapSignal f)) → AllSome Consistent o → All Consistent (to_list o)
  to_list-All none h = tt
  to_list-All (some s) h = (h, tt)
