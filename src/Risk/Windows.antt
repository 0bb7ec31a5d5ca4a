-- ===== src/Risk/Windows.antt =====
-- crates/risk/src/state.rs and engine.rs: the rolling window of submitted orders.
use predigy.Prelude.{
  ltb, if◌then◌else◌, Bool-cases, length, ℕ, suc, ◌+◌, ◌-◌, ◌≤◌, ◌<◌, ◌≡◌, refl, ◌⊎◌, inl, inr,
  true, List, [], ◌∷◌, ◌++◌, arith,
}
use predigy.Core.{Intent}
use predigy.Risk.{
  AccountState, prune, orders_in_window, record_order_sent, is_approved, RiskEngine, check_rate,
  check,
}
use predigy.Prelude.Word.{u32_max}

-- How many of the times are at or after the cutoff.
abbrev pub count_since : ℕ → List ℕ → ℕ
count_since cutoff [] = 0
count_since cutoff (t ∷ l) =
    if ltb t cutoff then count_since cutoff l else suc (count_since cutoff l)

abbrev pub IsSince : ℕ → List ℕ → Type 0
IsSince b [] = Unit
IsSince b (t ∷ l) = (b ≤ t) × IsSince t l

pub count_since-le-length : (c : ℕ) (l : List ℕ) → count_since c l ≤ length l
count_since-le-length c [] = omega arith
count_since-le-length c (t ∷ l) = ground (arith, count_since-le-length c l)

count_since_all : (c b : ℕ) (l : List ℕ) → c ≤ b → IsSince b l → count_since c l ≡ length l
count_since_all c b [] h s = refl
count_since_all c b (t ∷ l) h s = ground (arith, count_since_all c t l)

-- Pruning loses no time that a later cutoff counts.
pub count_since-prune : (c d : ℕ) (l : List ℕ) → c ≤ d → count_since d (prune c l) ≡ count_since d l
unfolding prune
count_since-prune c d [] h = refl
count_since-prune c d (t ∷ l) h = ground (arith, count_since-prune c d l)

-- In order of time, what is left is what the cutoff counts.
pub length-prune : (c b : ℕ) (l : List ℕ) → IsSince b l → length (prune c l) ≡ count_since c l
unfolding prune
length-prune c b [] s = refl
length-prune c b (t ∷ l) s = ground (arith, length-prune c t l, count_since_all c t l)

pub count_since-append : (c t : ℕ) (l : List ℕ) → count_since c (l ++ t ∷ []) ≤ count_since c l + 1
count_since-append c t [] = ground arith
count_since-append c t (x ∷ l) = ground (arith, count_since-append c t l)

count_since-append_eq :
    (c t : ℕ) (l : List ℕ)
    → count_since c (l ++ t ∷ []) ≡ count_since c l + (if ltb t c then 0 else 1)
count_since-append_eq c t [] = ground arith
count_since-append_eq c t (x ∷ l) = ground (arith, count_since-append_eq c t l)

-- A strategy's orders, each checked at its time; what is approved is recorded, in the state and in
-- the full history, as the order manager does for an order that the executor takes.
pub record Sent : Type 0 where
  pub state : AccountState
  pub history : List ℕ

unfoldable pub send_checked : RiskEngine → Sent → ℕ × Intent → Sent
send_checked e r (now, i) =
    let (decision, s) = check e i r.state now in
    if is_approved decision
    then record { state = record_order_sent s now; history = r.history ++ now ∷ [] }
    else record { state = s; history = r.history }

unfoldable pub send_all : RiskEngine → Sent → List (ℕ × Intent) → Sent
unfolding send_checked
send_all e r [] = r
send_all e r (o ∷ os) = send_all e (send_checked e r o) os

module _ (e : RiskEngine) (i : Intent) (s : AccountState) (now : ℕ) where
  -- The window is left alone or pruned, and pruned short of the limit where the check approves.
  check_recent :
      e.limits.rate.window ≤ now
      → 0 < e.limits.rate.max_orders_per_window
      → ((check e i s now).1.recent_orders ≡ s.recent_orders)
        ⊎ ((check e i s now).1.recent_orders ≡ prune (now - e.limits.rate.window) s.recent_orders)
  unfolding check check_rate orders_in_window
  check_recent late on = ground arith

  check_approved :
      e.limits.rate.window ≤ now
      → 0 < e.limits.rate.max_orders_per_window
      → e.limits.rate.max_orders_per_window ≤ u32_max
      → is_approved (check e i s now).0 ≡ true
      → ((check e i s now).1.recent_orders ≡ prune (now - e.limits.rate.window) s.recent_orders)
        × (length (prune (now - e.limits.rate.window) s.recent_orders)
            < e.limits.rate.max_orders_per_window)
  unfolding check check_rate orders_in_window
  check_approved late on fits ok = ground arith

module _ (e : RiskEngine) where
  -- The state remembers every order that some window ending at or after `now` still holds, and no
  -- such window holds more than the limit.
  pub record IsRated (now : ℕ) (r : Sent) : Type 0 where
    pub remembered :
        (c : ℕ)
        → now - e.limits.rate.window ≤ c
        → count_since c r.state.recent_orders ≡ count_since c r.history
    pub limited :
        (t : ℕ)
        → now ≤ t
        → count_since (t - e.limits.rate.window) r.history ≤ e.limits.rate.max_orders_per_window

  -- The times of the orders do not go back.
  abbrev pub IsTimed : ℕ → List (ℕ × Intent) → Type 0
  IsTimed last [] = Unit
  IsTimed last (o ∷ os) = (last ≤ o.0) × IsTimed o.0 os

  abbrev pub last_time : ℕ → List (ℕ × Intent) → ℕ
  last_time last [] = last
  last_time last (o ∷ os) = last_time o.0 os

module _ (e : RiskEngine) (on : 0 < e.limits.rate.max_orders_per_window)
    (fits : e.limits.rate.max_orders_per_window ≤ u32_max) (r : Sent) (last now : ℕ) (i : Intent)
    (late : e.limits.rate.window ≤ now) (order : last ≤ now) (v : IsRated e last r) where
  refused-IsRated :
      IsRated e now (record { state = (check e i r.state now).1; history = r.history })
  refused-IsRated = record {
    remembered = λ c h. elim (check_recent e i r.state now late on) [
      | inl same ↦ rw same (v.remembered c (omega arith))
      | inr cut ↦
          rw (cut, count_since-prune (now - e.limits.rate.window) c r.state.recent_orders h)
            (v.remembered c (omega arith))
    ];
    limited = λ t h. v.limited t (omega arith);
  }

  approved-IsRated :
      is_approved (check e i r.state now).0 ≡ true
      → IsRated e now (record {
        state = record_order_sent (check e i r.state now).1 now;
        history = r.history ++ now ∷ [];
      })
  unfolding record_order_sent
  approved-IsRated ok =
      let w = e.limits.rate.window in
      let recent = r.state.recent_orders in
      let (cut, room) = check_approved e i r.state now late on fits ok in
      record {
        remembered = λ c h.
            rw
              (
                cut,
                count_since-append_eq c now (prune (now - w) recent),
                count_since-append_eq c now r.history,
                count_since-prune (now - w) c recent h,
              )
              (omega (arith, v.remembered c (omega arith)));
        limited = λ t h. omega (
          arith,
          count_since-append (t - w) now r.history,
          v.remembered (t - w) (omega arith),
          count_since-prune (now - w) (t - w) recent (omega arith),
          count_since-le-length (t - w) (prune (now - w) recent),
        );
      }

  send_checked-IsRated : IsRated e now (send_checked e r (now, i))
  unfolding send_checked
  send_checked-IsRated = elim (Bool-cases (is_approved (check e i r.state now).0)) [
    | inl ok ↦ rw ok (approved-IsRated ok)
    | inr refused ↦ rw refused refused-IsRated
  ]

send_all-IsRated :
    (e : RiskEngine) (r : Sent) (last : ℕ) (os : List (ℕ × Intent))
    → 0 < e.limits.rate.max_orders_per_window
    → e.limits.rate.max_orders_per_window ≤ u32_max
    → e.limits.rate.window ≤ last
    → IsTimed e last os
    → IsRated e last r
    → IsRated e (last_time e last os) (send_all e r os)
unfolding send_all
send_all-IsRated e r last [] on fits late h v = v
send_all-IsRated e r last ((now, i) ∷ os) on fits late h v =
    send_all-IsRated e (send_checked e r (now, i)) now os on fits (omega arith) h.1
      (send_checked-IsRated e on fits r last now i (omega arith) h.0 v)

-- From an account without recent orders, whatever a strategy asks for and however fast, if the
-- clock does not run back and has passed one window length: at no time does the rolling window
-- hold more recorded orders than the limit, although the state forgets the older ones.
pub rate_limit_holds :
    (e : RiskEngine) (s : AccountState) (start t : ℕ) (os : List (ℕ × Intent))
    → 0 < e.limits.rate.max_orders_per_window
    → e.limits.rate.max_orders_per_window ≤ u32_max
    → e.limits.rate.window ≤ start
    → s.recent_orders ≡ []
    → IsTimed e start os
    → last_time e start os ≤ t
    → count_since
        (t - e.limits.rate.window)
        (send_all e (record { state = s; history = [] }) os).history
      ≤ e.limits.rate.max_orders_per_window
rate_limit_holds e s start t os on fits late fresh timed after =
    (send_all-IsRated e (record { state = s; history = [] }) start os on fits late timed
        (record { remembered = λ c h. rw fresh; limited = λ t h. omega arith })).limited
      t after
