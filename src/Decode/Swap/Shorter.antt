-- ===== src/Decode/Swap/Shorter.antt =====
-- Each inner call that `decode_swap_signal` decodes is shorter than the call around it.
use arbitrage_runtime.Base.{
  All, All-unappend, Bool-cases, List, Option, [], arith, get_elem?, if◌then◌else◌, inl, inr,
  length, none, not, some, ℕ, ◌<◌, ◌==◌, ◌>>=◌, ◌∷◌,
}
use arbitrage_runtime.Base.Holds.{>>=-AllSome, >>=-any, AllSome, get_elem?-AllSome, none_or-AllSome}
use arbitrage_runtime.Decode.Signal.{multicall_bytes}
use arbitrage_runtime.Decode.Swap.{
  Call, batch_call, batch_calls, batch_params, multicall_call, multicall_calls, or_empty, safe_call,
  safe_params, split_selector,
}
use arbitrage_runtime.Decode.Token.{
  Decoder, ParamType, Token, Tokens, array_token, array_type, bytes_token, bytes_type, field,
  more_tokens, no_tokens, token_as_address, token_as_array, token_as_bytes, token_as_tuple,
  token_as_uint, tokens_list, tuple_token, uint_type,
}
use arbitrage_runtime.Decode.Token.Search.{leaves, token_leaves}

-- The byte strings of a token are shorter than so many bytes.
abbrev pub Within : ℕ → Token → Type 0
Within n t = All (λ b. length b < n) (token_leaves t)

-- What ABI encoding gives: a byte string stands in the arguments behind its own length word.
abbrev pub Shrinks : Decoder → Type 0
Shrinks decode =
    (params : List ParamType) (args : List ℕ)
    → AllSome (All (Within (length args))) (decode params args)

token_as_bytes-Within :
    (n : ℕ) (t : Token) → Within n t → AllSome (λ b. length b < n) (token_as_bytes t)
unfolding token_as_bytes token_leaves
token_as_bytes-Within n (bytes_token value) (h, hs) = h
token_as_bytes-Within n _ h = tt

All-leaves :
    (n : ℕ) (ts : Tokens) → All (λ b. length b < n) (leaves ts) → All (Within n) (tokens_list ts)
unfolding leaves
All-leaves n no_tokens h = tt
All-leaves n (more_tokens t ts) h =
    let (first, rest) = All-unappend (λ b. length b < n) (token_leaves t) (leaves ts) h in
    (first, All-leaves n ts rest)

token_as_array-Within :
    (n : ℕ) (t : Token) → Within n t → AllSome (All (Within n)) (token_as_array t)
unfolding token_as_array token_leaves
token_as_array-Within n (array_token values) h = All-leaves n values h
token_as_array-Within n _ h = tt

token_as_tuple-Within :
    (n : ℕ) (t : Token)
    → Within n t
    → AllSome (λ ts. All (Within n) (tokens_list ts)) (token_as_tuple t)
unfolding token_as_tuple token_leaves
token_as_tuple-Within n (tuple_token values) h = All-leaves n values h
token_as_tuple-Within n _ h = tt

field-Within {ℓ} :
    {A : Type ℓ} (P : A → Type 0) (n : ℕ) (ts : List Token) (i : ℕ) (read : Token → Option A)
    → ((t : Token) → Within n t → AllSome P (read t))
    → All (Within n) ts
    → AllSome P (field ts i read)
unfolding field
field-Within P n ts i read k h =
    >>=-AllSome (Within n) P (get_elem? ts i) read (get_elem?-AllSome (Within n) ts i h) k

-- The arguments of a call are shorter than so many bytes.
abbrev pub Fits : ℕ → Call → Type 0
Fits n call = length call.args < n

pub split_selector-shorter :
    (input : List ℕ) → AllSome (λ s. length s.1 < length input) (split_selector input)
unfolding split_selector
split_selector-shorter (a ∷ b ∷ c ∷ d ∷ rest) = omega arith
split_selector-shorter [] = tt
split_selector-shorter (a ∷ []) = tt
split_selector-shorter (a ∷ b ∷ []) = tt
split_selector-shorter (a ∷ b ∷ c ∷ []) = tt

pub multicall_call-Fits :
    (n router value : ℕ) (t : Token) → Within n t → AllSome (Fits n) (multicall_call router value t)
unfolding multicall_call
multicall_call-Fits n router value t h =
    >>=-AllSome (λ b. length b < n) (Fits n) (token_as_bytes t) _ (token_as_bytes-Within n t h)
      λ b short.
        >>=-AllSome (λ s. length s.1 < length b) (Fits n) (split_selector b) _
          (split_selector-shorter b) (λ s less. omega arith)

pub batch_call-Fits : (n : ℕ) (t : Token) → Within n t → AllSome (Fits n) (batch_call t)
unfolding batch_call
batch_call-Fits n t h =
    >>=-AllSome (λ ts. All (Within n) (tokens_list ts)) (Fits n) (token_as_tuple t) _
      (token_as_tuple-Within n t h)
      λ fields all. >>=-any (Fits n) (field (tokens_list fields) 0 token_as_address) _ λ target.
        >>=-AllSome (λ b. length b < n) (Fits n) (field (tokens_list fields) 2 token_as_bytes) _
          (field-Within (λ b. length b < n) n (tokens_list fields) 2 token_as_bytes
            (token_as_bytes-Within n) all)
          λ b short.
            >>=-AllSome (λ s. length s.1 < length b) (Fits n) (split_selector b) _
              (split_selector-shorter b) (λ s less. omega arith)

or_empty-All {ℓ} :
    {A : Type ℓ} (P : A → Type 0) (o : Option (List A)) → AllSome (All P) o → All P (or_empty o)
or_empty-All P none h = tt
or_empty-All P (some xs) h = h

module _ (decode : Decoder) (shrinks : Shrinks decode) where
  pub safe_call-Fits : (args : List ℕ) → AllSome (Fits (length args)) (safe_call decode args)
  unfolding safe_call
  safe_call-Fits args =
      let n = length args in
      >>=-AllSome (All (Within n)) (Fits n) (decode safe_params args) _ (shrinks safe_params args)
        λ decoded all. >>=-any (Fits n) (field decoded 0 token_as_address) _ λ target.
          >>=-any (Fits n) (field decoded 1 token_as_uint) _ λ value.
            >>=-AllSome (λ b. length b < n) (Fits n) (field decoded 2 token_as_bytes) _
              (field-Within (λ b. length b < n) n decoded 2 token_as_bytes (token_as_bytes-Within n)
                all)
              λ inner short. >>=-any (Fits n) (field decoded 3 token_as_uint) _ λ operation.
                >>=-AllSome (λ s. length s.1 < length inner) (Fits n)
                  (if not (operation == 0) then none else split_selector inner) _
                  (none_or-AllSome (λ s. length s.1 < length inner) (not (operation == 0))
                    (split_selector inner) (split_selector-shorter inner))
                  (λ s less. omega arith)

  pub multicall_calls-Within :
      (selector : ℕ) (args : List ℕ)
      → AllSome (All (Within (length args))) (multicall_calls decode selector args)
  unfolding multicall_calls
  multicall_calls-Within selector args = elim (Bool-cases (selector == multicall_bytes)) [
    | inl e ↦ rw e (array_field (array_type bytes_type ∷ []) 0)
    | inr e ↦ rw e (array_field (uint_type 256 ∷ array_type bytes_type ∷ []) 1)
  ]
    where
      array_field :
          (params : List ParamType) (i : ℕ)
          → AllSome
              (All (Within (length args)))
              (decode params args >>= λ decoded. field decoded i token_as_array)
      array_field params i =
          >>=-AllSome (All (Within (length args))) (All (Within (length args))) (decode params args)
            _ (shrinks params args)
            λ decoded all.
              field-Within (All (Within (length args))) (length args) decoded i token_as_array
                (token_as_array-Within (length args)) all

  pub batch_calls-Within : (args : List ℕ) → All (Within (length args)) (batch_calls decode args)
  unfolding batch_calls
  batch_calls-Within args =
      let n = length args in
      or_empty-All (Within n)
        (decode batch_params args >>= λ decoded. field decoded 0 token_as_array)
        (>>=-AllSome (All (Within n)) (All (Within n)) (decode batch_params args) _
          (shrinks batch_params args)
          (λ decoded all.
            field-Within (All (Within n)) n decoded 0 token_as_array (token_as_array-Within n) all))
