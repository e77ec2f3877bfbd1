-- ===== src/Decode/V3Path/RoundTrip.antt =====
-- Round trips of encoded V3 paths.
use arbitrage_runtime.Base.{
  All, List, [], arith, drop, false, length, length-append, ltb, refl, saturating_sub, some, suc,
  sym, zero, ℕ, ◌*◌, ◌++◌, ◌+◌, ◌-◌, ◌/◌, ◌<◌, ◌^◌, ◌∙◌, ◌∷◌, ◌≡◌, ◌≤◌,
}
use arbitrage_runtime.Base.Bytes.{
  be_bytes, be_value, be_value-be_bytes, drop-append, drop-drop, length-be_bytes, length-drop,
  slice, take-append,
}
use arbitrage_runtime.Decode.V3Path.{
  V3PathSegment, encode_v3_path, parse_v3_exact_out_path, parse_v3_path, parse_v3_path_segments,
  segment_at, segments_loop,
}

-- The bytes of the hops that follow a token: a fee and the next token for each.
abbrev pub hops_bytes : List (ℕ × ℕ) → List ℕ
hops_bytes [] = []
hops_bytes ((fee, token) ∷ hops) = be_bytes 3 fee ++ (be_bytes 20 token ++ hops_bytes hops)

-- The bytes of a path that starts at a token.
abbrev pub path_bytes : ℕ → List (ℕ × ℕ) → List ℕ
path_bytes token hops = be_bytes 20 token ++ hops_bytes hops

-- The segments of a path that starts at a token.
abbrev pub segments_of : ℕ → List (ℕ × ℕ) → List V3PathSegment
segments_of token [] = []
segments_of token ((fee, next) ∷ hops) =
    record { token_in = token; token_out = next; fee_tier = fee } ∷ segments_of next hops

-- A fee of 24 bits and a token of 160.
abbrev pub Fits : ℕ × ℕ → Type 0
Fits (fee, token) = (fee < 256 ^ 3) × (token < 256 ^ 20)

length-hops_bytes : (hops : List (ℕ × ℕ)) → length (hops_bytes hops) ≡ 23 * length hops
length-hops_bytes [] = omega arith
length-hops_bytes ((fee, token) ∷ hops) = omega (
  arith,
  length-append {0} (be_bytes 3 fee) (be_bytes 20 token ++ hops_bytes hops),
  length-append {0} (be_bytes 20 token) (hops_bytes hops),
  length-be_bytes 3 fee,
  length-be_bytes 20 token,
  length-hops_bytes hops,
)

length-path_bytes :
    (token : ℕ) (hops : List (ℕ × ℕ)) → length (path_bytes token hops) ≡ 20 + 23 * length hops
length-path_bytes token hops = omega (
  arith,
  length-append {0} (be_bytes 20 token) (hops_bytes hops),
  length-be_bytes 20 token,
  length-hops_bytes hops,
)

-- A later slice is a slice of what is left after a drop.
slice-drop :
    (n lo hi lo' hi' : ℕ) (bytes : List ℕ)
    → lo' ≡ n + lo
    → hi' ≡ n + hi
    → slice bytes lo' hi' ≡ slice (drop n bytes) lo hi
unfolding slice
slice-drop n lo hi lo' hi' bytes e k =
    let width : hi' - lo' ≡ hi - lo = omega arith in rw (width, e, drop-drop n lo bytes) refl

segment_at-drop :
    (path : List ℕ) (hop : ℕ) → segment_at path (suc hop) ≡ segment_at (drop 23 path) hop
unfolding segment_at
segment_at-drop path hop =
    rw
      (
        slice-drop 23 (hop * 23) (hop * 23 + 20) (suc hop * 23) (suc hop * 23 + 20) path
            (omega arith) (omega arith),
        slice-drop 23 (hop * 23 + 20) (hop * 23 + 20 + 3) (suc hop * 23 + 20)
            (suc hop * 23 + 20 + 3) path (omega arith) (omega arith),
        slice-drop 23 (hop * 23 + 20 + 3) (hop * 23 + 20 + 3 + 20) (suc hop * 23 + 20 + 3)
            (suc hop * 23 + 20 + 3 + 20) path (omega arith) (omega arith),
      )
      refl

-- The rounds from the next hop on see the path without its first token and fee.
segments_loop-drop :
    (path : List ℕ) (rounds hop : ℕ)
    → 23 ≤ length path
    → segments_loop path rounds (suc hop) ≡ segments_loop (drop 23 path) rounds hop
unfolding segments_loop
segments_loop-drop path zero hop h = refl
segments_loop-drop path (suc rounds) hop h =
    let next : suc hop + 1 ≡ suc (hop + 1) = omega arith in
    rw (next, segment_at-drop path hop, segments_loop-drop path rounds (hop + 1) h)
      (ground (arith, length-drop {0} 23 path))

head_bytes : ℕ → ℕ → List ℕ → List ℕ
head_bytes token fee rest = be_bytes 20 token ++ (be_bytes 3 fee ++ rest)

-- The three fields at the head of a path.
slice_token :
    (token fee : ℕ) (rest : List ℕ) → slice (head_bytes token fee rest) 0 20 ≡ be_bytes 20 token
unfolding slice head_bytes
slice_token token fee rest =
    take-append {0} 20 (be_bytes 20 token) (be_bytes 3 fee ++ rest) (length-be_bytes 20 token)

drop_token :
    (token fee : ℕ) (rest : List ℕ) → drop 20 (head_bytes token fee rest) ≡ be_bytes 3 fee ++ rest
unfolding head_bytes
drop_token token fee rest =
    drop-append {0} 20 (be_bytes 20 token) (be_bytes 3 fee ++ rest) (length-be_bytes 20 token)

slice_fee :
    (token fee : ℕ) (rest : List ℕ) → slice (head_bytes token fee rest) 20 23 ≡ be_bytes 3 fee
unfolding slice
slice_fee token fee rest =
    rw (drop_token token fee rest) (take-append {0} 3 (be_bytes 3 fee) rest (length-be_bytes 3 fee))

drop_head : (token fee : ℕ) (rest : List ℕ) → drop 23 (head_bytes token fee rest) ≡ rest
drop_head token fee rest =
    sym (drop-drop {0} 20 3 (head_bytes token fee rest))
    ∙ rw (drop_token token fee rest)
        (drop-append {0} 3 (be_bytes 3 fee) rest (length-be_bytes 3 fee))

slice_next :
    (token fee next : ℕ) (rest : List ℕ)
    → slice (head_bytes token fee (be_bytes 20 next ++ rest)) 23 43 ≡ be_bytes 20 next
unfolding slice
slice_next token fee next rest =
    rw (drop_head token fee (be_bytes 20 next ++ rest))
      (take-append {0} 20 (be_bytes 20 next) rest (length-be_bytes 20 next))

be_value-fee : (fee : ℕ) → fee < 256 ^ 3 → be_value (0 ∷ be_bytes 3 fee) ≡ fee
unfolding be_value
be_value-fee fee h = be_value-be_bytes 3 fee h

head_segment :
    (token fee next : ℕ) (rest : List ℕ)
    → token < 256 ^ 20
    → fee < 256 ^ 3
    → next < 256 ^ 20
    → segment_at (head_bytes token fee (be_bytes 20 next ++ rest)) 0
      ≡ record { token_in = token; token_out = next; fee_tier = fee }
unfolding segment_at
head_segment token fee next rest ht hf hn =
    rw
      (
        slice_token token fee (be_bytes 20 next ++ rest),
        slice_fee token fee (be_bytes 20 next ++ rest),
        slice_next token fee next rest,
        be_value-be_bytes 20 token ht,
        be_value-be_bytes 20 next hn,
        be_value-fee fee hf,
      )
      refl

segments_loop-path_bytes :
    (token : ℕ) (hops : List (ℕ × ℕ))
    → token < 256 ^ 20
    → All Fits hops
    → segments_loop (path_bytes token hops) (length hops) 0 ≡ segments_of token hops
unfolding segments_loop head_bytes
segments_loop-path_bytes token [] h hs = refl
segments_loop-path_bytes token ((fee, next) ∷ hops) h ((hf, hn), hs) =
    let whole = path_bytes token ((fee, next) ∷ hops) in
    let room : (ltb (length whole) (0 * 23 + 20 + 3 + 20)) ≡ false =
      ground (arith, length-path_bytes token ((fee, next) ∷ hops)) in
    let long : 23 ≤ length whole = omega (arith, length-path_bytes token ((fee, next) ∷ hops)) in
    rw
      (
        room,
        head_segment token fee next (hops_bytes hops) h hf hn,
        segments_loop-drop whole (length hops) 0 long,
        drop_head token fee (path_bytes next hops),
        segments_loop-path_bytes next hops hn hs,
      )
      refl

-- Printing a path of at least one hop, with tokens of 160 bits and fees of 24 bits, and parsing it again
-- gives the segments of the path: one for each hop, in order, with its fee, from the token before it.
pub parse_v3_path_segments-path_bytes :
    (token fee next : ℕ) (hops : List (ℕ × ℕ))
    → token < 256 ^ 20
    → All Fits ((fee, next) ∷ hops)
    → parse_v3_path_segments (path_bytes token ((fee, next) ∷ hops))
      ≡ segments_of token ((fee, next) ∷ hops)
unfolding parse_v3_path_segments
parse_v3_path_segments-path_bytes token fee next hops h hs =
    let whole = path_bytes token ((fee, next) ∷ hops) in
    let size = length-path_bytes token ((fee, next) ∷ hops) in
    let room : ltb (length whole) 43 ≡ false = ground (arith, size) in
    let rounds : saturating_sub (length whole) 20 / 23 ≡ suc (length hops) = omega (arith, size) in
    rw (room, rounds) (segments_loop-path_bytes token ((fee, next) ∷ hops) h hs)

encode-path_bytes :
    (token fee next : ℕ) → encode_v3_path token fee next ≡ path_bytes token ((fee, next) ∷ [])
unfolding encode_v3_path be_bytes
encode-path_bytes token fee next = refl

-- Of a path of at least one hop, `parse_v3_path` takes the first two tokens, the first fee and the
-- number of hops.
parse_v3_path-path_bytes :
    (token fee next : ℕ) (hops : List (ℕ × ℕ))
    → token < 256 ^ 20
    → fee < 256 ^ 3
    → next < 256 ^ 20
    → parse_v3_path (path_bytes token ((fee, next) ∷ hops))
      ≡ some (record {
        token_in = token;
        edge_token_out = next;
        first_fee_tier = fee;
        hops = suc (length hops);
      })
unfolding parse_v3_path head_bytes
parse_v3_path-path_bytes token fee next hops h hf hn =
    let whole = path_bytes token ((fee, next) ∷ hops) in
    let size = length-path_bytes token ((fee, next) ∷ hops) in
    let room : ltb (length whole) 43 ≡ false = ground (arith, size) in
    let rounds : saturating_sub (length whole) 20 / 23 ≡ suc (length hops) = omega (arith, size) in
    rw
      (
        room,
        rounds,
        slice_token token fee (path_bytes next hops),
        slice_fee token fee (path_bytes next hops),
        slice_next token fee next (hops_bytes hops),
        be_value-be_bytes 20 token h,
        be_value-be_bytes 20 next hn,
        be_value-fee fee hf,
      )
      refl

-- What the code encodes for one hop, with tokens of 160 bits and a fee of 24 bits, parses to the same
-- tokens and fee: forward as written, and by the reader of exact-output paths with the tokens exchanged.
pub parse_v3_path-encode_v3_path :
    (token fee next : ℕ)
    → token < 256 ^ 20
    → fee < 256 ^ 3
    → next < 256 ^ 20
    → (parse_v3_path (encode_v3_path token fee next)
        ≡ some (record { token_in = token; edge_token_out = next; first_fee_tier = fee; hops = 1 }))
      × (parse_v3_exact_out_path (encode_v3_path token fee next)
          ≡ some
              (record { token_in = next; edge_token_out = token; first_fee_tier = fee; hops = 1 }))
unfolding parse_v3_exact_out_path
parse_v3_path-encode_v3_path token fee next h hf hn =
    let parsed = parse_v3_path-path_bytes token fee next [] h hf hn in
    rw (encode-path_bytes token fee next, parsed) (refl, refl)
