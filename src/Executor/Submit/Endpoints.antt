-- ===== src/Executor/Submit/Endpoints.antt =====
-- The order of the endpoints that a transaction is submitted to
-- (`direct_rpc_submit_endpoints_from_ranked_paths` of src/mev/execution/executor.rs).
use Prim.Native.String.{String}
use arbitrage_runtime.Base.{
  All, Bool, Bool-cases, List, Option, Option-cases, [], any_of, ap, arith, false, inl, inr, map,
  max, none, refl, some, sym, take, true, ℕ, ◌++◌, ◌||◌, ◌∙◌, ◌∷◌, ◌≡◌,
}
use arbitrage_runtime.Executor.Submit.{
  RpcHandle, direct_rpc_submit_endpoints_from_ranked_paths, label, order_by_paths, take_path,
}
use mathlib.Core.List.{Perm, Sublist}
use mathlib.Core.Path.{subst}
use text.Mathlib.TextEquality.{eq_iff}
use mathlib.Core.List.Perm
use mathlib.Core.List.Sublist
use text.Mathlib.Text.{◌==◌ as str_eq}

or_swap : (a b c : Bool) → (a || (b || c)) ≡ (b || (a || c))
or_swap true true c = refl
or_swap true false c = refl
or_swap false true c = refl
or_swap false false c = refl

or_assoc : (a b c : Bool) → (a || (b || c)) ≡ ((a || b) || c)
or_assoc true b c = refl
or_assoc false b c = refl

or_false : (a b : Bool) → (a || b) ≡ false → a ≡ false
or_false true b h = h
or_false false b h = refl

abbrev pub at_path : String → RpcHandle → Bool
at_path path e = str_eq (label e) path

-- The endpoint that is taken has the path, and the others stay in order.
abbrev Taken : String → List RpcHandle → Option (RpcHandle × List RpcHandle) → Type 0
Taken path es none = any_of (at_path path) es ≡ false
Taken path es (some (e, rest)) =
    (at_path path e ≡ true)
    × Perm (e ∷ rest) es
    × Sublist rest es
    × ((q : RpcHandle → Bool) → any_of q es ≡ (q e || any_of q rest))

skip_Taken :
    (path : String) (x : RpcHandle) (xs : List RpcHandle)
    (taken : Option (RpcHandle × List RpcHandle))
    → at_path path x ≡ false
    → Taken path xs taken
    → Taken path (x ∷ xs) (elim taken [ none ↦ none | some (found, rest) ↦ some (found, x ∷ rest) ])
skip_Taken path x xs none other t = ground arith
skip_Taken path x xs (some (e, rest)) other (here, p, kept, any) = (
  here,
  Perm.trans (Perm.swap x e rest) (Perm.cons x p),
  Sublist.cons-cons x kept,
  λ q. ap (λ b. q x || b) (any q) ∙ or_swap (q x) (q e) (any_of q rest),
)

take_path-Taken : (path : String) (es : List RpcHandle) → Taken path es (take_path path es)
unfolding take_path
take_path-Taken path [] = refl
take_path-Taken path (x ∷ xs) = elim (Bool-cases (str_eq (label x) path)) [
  | inl here ↦
      rw (here, take_path) (here, Perm.refl (x ∷ xs), Sublist.cons x (Sublist.refl xs), λ q. refl)
  | inr there ↦
      rw (there, take_path)
        (skip_Taken path x xs (take_path path xs) there (take_path-Taken path xs))
]

-- An order of candidates by ranked paths: the endpoints of ranked paths in the order of the ranking, then
-- the others in their order. Together they are the candidates, and a ranked path has an endpoint in
-- the first part exactly when it has one among the candidates.
pub record IsOrder (ranked : List String) (candidates first others : List RpcHandle) : Type 0 where
  pub whole : Perm (first ++ others) candidates
  pub by_rank : Sublist (map label first) ranked
  pub served : All (λ path. any_of (at_path path) first ≡ any_of (at_path path) candidates) ranked
  pub kept : Sublist others candidates

abbrev Ordered : List String → List RpcHandle → List RpcHandle → Type 0
Ordered ranked candidates ordered =
    (first : List RpcHandle) × (others : List RpcHandle) × (ordered ≡ first ++ others)
    × IsOrder ranked candidates first others
    × ((q : RpcHandle → Bool) → any_of q candidates ≡ (any_of q first || any_of q others))

All-served :
    (e : RpcHandle) (paths : List String) (first rest es : List RpcHandle)
    → ((q : RpcHandle → Bool) → any_of q es ≡ (q e || any_of q rest))
    → All (λ path. any_of (at_path path) first ≡ any_of (at_path path) rest) paths
    → All (λ path. any_of (at_path path) (e ∷ first) ≡ any_of (at_path path) es) paths
All-served e [] first rest es any s = tt
All-served e (path ∷ paths) first rest es any (s, ss) =
    (rw (any (at_path path), s) refl, All-served e paths first rest es any ss)

order_by_paths-Ordered :
    (paths : List String) (es : List RpcHandle) → Ordered paths es (order_by_paths paths es)
unfolding order_by_paths
order_by_paths-Ordered [] es = (
  [],
  es,
  refl,
  record { whole = Perm.refl es; by_rank = Sublist.refl []; served = tt; kept = Sublist.refl es },
  λ q. refl,
)
order_by_paths-Ordered (path ∷ paths) es = elim (Option-cases (take_path path es)) [
  | inl e ↦
      let absent : any_of (at_path path) es ≡ false =
        subst (Taken path es) e (take_path-Taken path es) in
      let (first, others, same, o, any) = order_by_paths-Ordered paths es in
      let none_first : any_of (at_path path) first ≡ false =
        or_false (any_of (at_path path) first) (any_of (at_path path) others)
          (sym (any (at_path path)) ∙ absent) in
      rw (e, order_by_paths)
        (
          first,
          others,
          same,
          record {
            whole = o.whole;
            by_rank = Sublist.cons path o.by_rank;
            served = (none_first ∙ sym absent, o.served);
            kept = o.kept;
          },
          any,
        )
  | inr ((x, rest), e) ↦
      let (here, p, sub, any) = subst (Taken path es) e (take_path-Taken path es) in
      let (first, others, same, o, any_rest) = order_by_paths-Ordered paths rest in
      rw (e, order_by_paths)
        (
          x ∷ first,
          others,
          ap (λ ys. x ∷ ys) same,
          record {
            whole = Perm.trans (Perm.cons x o.whole) p;
            by_rank =
                subst (λ (l : String). Sublist (l ∷ map label first) (path ∷ paths))
                  (sym ((eq_iff (label x) path).0 here)) (Sublist.cons-cons path o.by_rank);
            served = (
              rw here (sym (any (at_path path) ∙ rw here refl)),
              All-served x paths first rest es any o.served,
            );
            kept = Sublist.trans o.kept sub;
          },
          λ q. any q ∙ rw (any_rest q) (or_assoc (q x) (any_of q first) (any_of q others)),
        )
]

-- The transaction is submitted to as many endpoints as the fan-out, and at least to one where there is
-- one, from the front of an order of the candidates by the ranked paths: first the endpoints of ranked
-- paths, as they are ranked, then all other candidates, also those whose path is frozen.
pub submit_endpoints-IsOrder :
    (fanout : ℕ) (ranked : List String) (candidates : List RpcHandle)
    → (first : List RpcHandle) × (others : List RpcHandle) × IsOrder ranked candidates first others
      × (direct_rpc_submit_endpoints_from_ranked_paths fanout ranked candidates
          ≡ take (max fanout 1) (first ++ others))
unfolding direct_rpc_submit_endpoints_from_ranked_paths
submit_endpoints-IsOrder fanout ranked candidates =
    let (first, others, same, o, any) = order_by_paths-Ordered ranked candidates in
    (first, others, o, ap (take (max fanout 1)) same)
