-- ===== src/Executor/Budget/Exposure.antt =====
-- The limits hold: no operation of the budget takes a window's exposure above its limit.
use arbitrage_runtime.Base.{
  ==_iff, All, All-append, Bool, Bool-cases, [], arith, false, if◌then◌else◌, inl, inr, not, refl,
  true, ℕ, ◌++◌, ◌==◌, ◌∷◌, ◌≡◌,
}
use arbitrage_runtime.Base.Float.{AddLaws, Float}
use arbitrage_runtime.Executor.Budget.{
  BudgetConfig, BudgetReservation, CapitalBudget, ClusterKey, check_and_reserve, cluster_eq, every,
  in_cluster, in_pair, is_allowed, prune, reject_reason_of, release, window_sum,
}
use arbitrage_runtime.Executor.Budget.Kept.{
  Kept, Kept-All, keep, nil, prune-Kept, retain-Kept, skip,
}
use mathlib.Core.Path.{subst}

cluster_eq→≡ : (a b : ClusterKey) → cluster_eq a b ≡ true → a ≡ b
unfolding cluster_eq
cluster_eq→≡ a b h = ground arith

module _ (f : Float) (laws : AddLaws f) where
  open f use {F, lit, add, le, lt}
  open laws use {le_refl, le_trans, le-add, add_mono, zero_le, not_lt}

  abbrev pub IsNonneg : F → Type 0
  IsNonneg x = le (lit 0 0) x ≡ true

  abbrev pub HasCapital : BudgetReservation f → Type 0
  HasCapital r = IsNonneg r.capital_eth

  IsNonneg-add : (x y : F) → IsNonneg x → IsNonneg y → IsNonneg (add x y)
  IsNonneg-add x y hx hy = le_trans _ _ _ hx (le-add x y hx hy)

  -- One round of the sum, on both sides of an inequality.
  round_mono :
      (b : Bool) (x y z : F)
      → IsNonneg x
      → le x y ≡ true
      → IsNonneg z
      → le (if b then add x z else x) (if b then add y z else y) ≡ true
  round_mono true x y z hx h hz = add_mono x y z hx h hz
  round_mono false x y z hx h hz = h

  round_up : (b : Bool) (x z : F) → IsNonneg x → IsNonneg z → le x (if b then add x z else x) ≡ true
  round_up true x z hx hz = le-add x z hx hz
  round_up false x z hx hz = le_refl x hx

  round-IsNonneg :
      (b : Bool) (x z : F) → IsNonneg x → IsNonneg z → IsNonneg (if b then add x z else x)
  round-IsNonneg true x z hx hz = IsNonneg-add x z hx hz
  round-IsNonneg false x z hx hz = hx

  window_sum_mono :
      (counts : BudgetReservation f → Bool) {xs ys : CapitalBudget f}
      → Kept xs ys
      → (x y : F) → IsNonneg x
      → le x y ≡ true
      → All HasCapital ys
      → le (window_sum f counts x xs) (window_sum f counts y ys) ≡ true
  unfolding window_sum
  window_sum_mono counts nil x y hx h c = h
  window_sum_mono counts (keep r k) x y hx h (c, cs) =
      window_sum_mono counts k _ _ (round-IsNonneg (counts r) x r.capital_eth hx c)
        (round_mono (counts r) x y r.capital_eth hx h c) cs
  window_sum_mono counts (skip r k) x y hx h (c, cs) =
      window_sum_mono counts k x _ hx
        (le_trans _ _ _ h (round_up (counts r) y r.capital_eth (le_trans _ _ _ hx h) c)) cs

  window_sum-append :
      (counts : BudgetReservation f → Bool) (x : F) (rs : CapitalBudget f) (r : BudgetReservation f)
      → window_sum f counts x (rs ++ (r ∷ [])) ≡ (
          if counts r
          then add (window_sum f counts x rs) r.capital_eth
          else window_sum f counts x rs)
  unfolding window_sum
  window_sum-append counts x [] r = refl
  window_sum-append counts x (s ∷ rs) r =
      window_sum-append counts (if counts s then add x s.capital_eth else x) rs r

  -- The sums that the limits speak of.
  abbrev pub total_sum : CapitalBudget f → F
  total_sum = window_sum f (every f) (lit 0 0)

  abbrev pub cluster_sum : ClusterKey → CapitalBudget f → F
  cluster_sum c = window_sum f (in_cluster f c) (lit 0 0)

  abbrev pub pair_sum : ℕ → CapitalBudget f → F
  pair_sum p = window_sum f (in_pair f p) (lit 0 0)

  -- No window's exposure is above its limit, and no reservation is negative.
  pub record IsWithin (config : BudgetConfig f) (rs : CapitalBudget f) : Type 0 where
    pub capitals : All HasCapital rs
    pub total : lt config.max_window_exposure_eth (total_sum rs) ≡ false
    pub clusters :
        (c : ClusterKey) → lt config.max_cluster_window_exposure_eth (cluster_sum c rs) ≡ false
    pub pairs : (p : ℕ) → lt config.max_pair_window_exposure_eth (pair_sum p rs) ≡ false

  Kept-IsWithin :
      (config : BudgetConfig f) {xs ys : CapitalBudget f}
      → Kept xs ys
      → IsWithin config ys
      → IsWithin config xs
  Kept-IsWithin config k w = record {
    capitals = Kept-All HasCapital k w.capitals;
    total = not_lt _ _ _ (window_sum_mono (every f) k _ _ zero_le zero_le w.capitals) w.total;
    clusters = λ c.
        not_lt _ _ _ (window_sum_mono (in_cluster f c) k _ _ zero_le zero_le w.capitals)
          (w.clusters c);
    pairs = λ p.
        not_lt _ _ _ (window_sum_mono (in_pair f p) k _ _ zero_le zero_le w.capitals) (w.pairs p);
  }

  pub release-IsWithin :
      (config : BudgetConfig f) (victim_tx : ℕ) (rs : CapitalBudget f)
      → IsWithin config rs
      → IsWithin config (release f victim_tx rs)
  unfolding release
  release-IsWithin config victim_tx rs w =
      Kept-IsWithin config (retain-Kept (λ r. not (r.victim_tx == victim_tx)) rs) w

  reject_reason_allowed :
      (config : BudgetConfig f) (t c p : F)
      → is_allowed f (reject_reason_of f config t c p) ≡ true
      → (lt config.max_window_exposure_eth t ≡ false)
        × (lt config.max_cluster_window_exposure_eth c ≡ false)
        × (lt config.max_pair_window_exposure_eth p ≡ false)
  unfolding reject_reason_of
  reject_reason_allowed config t c p h = ground arith

  -- The budget after a reservation that was allowed.
  reserved-IsWithin :
      (config : BudgetConfig f) (kept : CapitalBudget f) (r : BudgetReservation f)
      → IsWithin config kept
      → HasCapital r
      → is_allowed f (
          reject_reason_of f config
            (add (total_sum kept) r.capital_eth)
            (add (cluster_sum r.cluster kept) r.capital_eth)
            (add (pair_sum r.pair kept) r.capital_eth))
        ≡ true
      → IsWithin config (kept ++ (r ∷ []))
  reserved-IsWithin config kept r w hc h =
      let (t, c, p) = reject_reason_allowed config _ _ _ h in
      record {
        capitals = All-append HasCapital kept (r ∷ []) w.capitals (hc, tt);
        total = rw (window_sum-append (every f) (lit 0 0) kept r) t;
        clusters = λ k. elim (Bool-cases (cluster_eq r.cluster k)) [
          | inl e ↦
              rw (window_sum-append (in_cluster f k) (lit 0 0) kept r, e)
                (subst
                  (λ x.
                    lt config.max_cluster_window_exposure_eth
                      (add (cluster_sum x kept) r.capital_eth)
                    ≡ false)
                  (cluster_eq→≡ r.cluster k e) c)
          | inr e ↦ rw (window_sum-append (in_cluster f k) (lit 0 0) kept r, e) (w.clusters k)
        ];
        pairs = λ k. elim (Bool-cases (r.pair == k)) [
          | inl e ↦
              rw (window_sum-append (in_pair f k) (lit 0 0) kept r, e)
                (subst
                  (λ x.
                    lt config.max_pair_window_exposure_eth (add (pair_sum x kept) r.capital_eth)
                    ≡ false)
                  ((==_iff r.pair k).0 e) p)
          | inr e ↦ rw (window_sum-append (in_pair f k) (lit 0 0) kept r, e) (w.pairs k)
        ];
      }

  prune-IsWithin :
      (config : BudgetConfig f) (now w : ℕ) (rs : CapitalBudget f)
      → IsWithin config rs
      → IsWithin config (prune f now w rs)
  prune-IsWithin config now w rs h = Kept-IsWithin config (prune-Kept f now w rs) h

  -- After a request, allowed or not, no window's exposure is above its limit.
  pub check_and_reserve-IsWithin :
      (now : ℕ) (config : BudgetConfig f) (capital : F) (cluster : ClusterKey) (pair victim_tx : ℕ)
      → (rs : CapitalBudget f) → IsNonneg capital
      → IsWithin config rs
      → IsWithin config (check_and_reserve f now config capital cluster pair victim_tx rs).1
  unfolding check_and_reserve
  check_and_reserve-IsWithin now config capital cluster pair victim_tx rs hc w =
      let kept = prune f now config.capital_window_secs rs in
      let within = prune-IsWithin config now config.capital_window_secs rs w in
      let r : BudgetReservation f = record {
        reserved_at = now;
        cluster = cluster;
        pair = pair;
        victim_tx = victim_tx;
        capital_eth = capital;
      } in
      let reason =
        reject_reason_of f config (add (total_sum kept) capital)
          (add (cluster_sum cluster kept) capital) (add (pair_sum pair kept) capital) in
      elim (Bool-cases (is_allowed f reason)) [
        | inl e ↦ rw e (reserved-IsWithin config kept r within hc e)
        | inr e ↦ rw e within
      ]
