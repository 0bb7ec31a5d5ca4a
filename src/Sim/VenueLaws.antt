-- ===== src/Sim/VenueLaws.antt =====
-- crates/sim/src/executor.rs: the reports of one call, and the orders that it leaves live.
use mathlib.Core.List.{append_assoc}
use predigy.Prelude.{
  Bool-cases, Option-cases, All, ℕ, ◌-◌, ◌≡◌, refl, sym, ap, subst, ◌∙◌, ◌⊎◌, inl, inr, Bool, true,
  false, none, some, List, [], ◌∷◌, ◌++◌, arith,
}
use predigy.Oms.{ExecutorError, ExecutionReportKind, ExecutionReport, is_terminal_kind}
use predigy.Sim.{
  Match, match_ioc, SimExecutor, sim_venue_id, report_of, send_last, send_partial, report_match,
  acknowledge, show_tif, is_ioc, match_on, sim_submit,
}
use predigy.Core.{position_key, OrderId, Order, Fill}
use predigy.Prelude.Result.{Result, ok, err}
use predigy.Prelude.Map.{text_key, Map, lookup, insert, remove, lookup-insert, lookup-remove}
use predigy.Prelude.Text.{Text, text, text_eq, text_eq_iff}
use predigy.Book.{OrderBook}
use predigy.Prelude.Word.{add64}

-- The last report is a terminal one.
abbrev pub is_settled : List ExecutionReport → Bool
is_settled [] = false
is_settled (r ∷ []) = is_terminal_kind r.kind
is_settled (r ∷ q ∷ l) = is_settled (q ∷ l)

-- The reports of a call: all about the order, the last one terminal, and no order is left live that
-- was not.
pub record Settles (cid : OrderId) (s s' : SimExecutor) : Type 0 where
  pub reports : List ExecutionReport
  pub sent : s'.sent ≡ s.sent ++ reports
  pub own : All (λ r. r.cid ≡ cid) reports
  pub settled : is_settled reports ≡ true
  pub live : (a : OrderId) → lookup a s'.live ≡ lookup a s.live

-- By the answer: an error promises nothing.
abbrev pub SettlesIfOk :
    OrderId → SimExecutor → Result (Unit {0}) ExecutorError × SimExecutor → Type 0
SettlesIfOk cid s (err _, s') = Unit
SettlesIfOk cid s (ok _, s') = Settles cid s s'

-- What `send_report` leaves when the report is taken.
abbrev after_send : OrderId → ExecutionReportKind → SimExecutor → SimExecutor
after_send cid kind s = record s {
  accepts = s.accepts - 1;
  sent = s.sent ++ report_of cid kind s ∷ [];
}

send_last_cases :
    (cid : OrderId) (kind : ExecutionReportKind) (s : SimExecutor)
    → (send_last cid kind s ≡ (err ExecutorError.session_closed, s))
      ⊎ (send_last cid kind s ≡ (ok tt, after_send cid kind s))
unfolding send_last
send_last_cases cid kind s = ground arith

send_last-SettlesIfOk :
    (cid : OrderId) (kind : ExecutionReportKind) (s : SimExecutor)
    → is_terminal_kind kind ≡ true
    → SettlesIfOk cid s (send_last cid kind s)
send_last-SettlesIfOk cid kind s terminal = elim (send_last_cases cid kind s) [
  | inl closed ↦ rw closed tt
  | inr taken ↦ rw taken (record {
    reports = report_of cid kind s ∷ [];
    sent = refl;
    own = (refl, tt);
    settled = terminal;
    live = λ a. refl;
  })
]

abbrev rest_cancelled : ExecutionReportKind
rest_cancelled = ExecutionReportKind.cancelled (text "ioc remainder after partial")

send_partial_cases :
    (cid : OrderId) (f : Fill) (q : ℕ) (s : SimExecutor)
    → let s1 = record s { live = insert cid tt s.live } in
      let s2 = after_send cid (ExecutionReportKind.partially_filled f q) s1 in
      let s3 = after_send cid rest_cancelled s2 in
      ((send_partial cid f q s).0 ≡ err ExecutorError.session_closed)
      ⊎ (send_partial cid f q s ≡ (ok tt, record s3 { live = remove cid s3.live }))
unfolding send_partial
send_partial_cases cid f q s = ground arith

closed-SettlesIfOk :
    (cid : OrderId) (s : SimExecutor) (r : Result (Unit {0}) ExecutorError × SimExecutor)
    → r.0 ≡ err ExecutorError.session_closed
    → SettlesIfOk cid s r
closed-SettlesIfOk cid s (err _, s') h = tt
closed-SettlesIfOk cid s (ok _, s') h = cc

brief_live :
    (cid a : OrderId) (m : Map OrderId (Unit {0}))
    → lookup cid m ≡ none
    → lookup a (remove cid (insert cid tt m)) ≡ lookup a m
brief_live cid a m absent = ground (
  arith,
  lookup-remove cid a (insert cid tt m),
  lookup-insert cid a tt m,
  λ (h : text_eq cid a ≡ true). ap (λ (t : OrderId). lookup t m) ((text_eq_iff cid a).0 h),
)

send_partial-SettlesIfOk :
    (cid : OrderId) (f : Fill) (q : ℕ) (s : SimExecutor)
    → lookup cid s.live ≡ none
    → SettlesIfOk cid s (send_partial cid f q s)
send_partial-SettlesIfOk cid f q s absent = elim (send_partial_cases cid f q s) [
  | inl closed ↦ closed-SettlesIfOk cid s (send_partial cid f q s) closed
  | inr taken ↦ rw taken (record {
    reports =
        report_of cid (ExecutionReportKind.partially_filled f q) s
        ∷ report_of cid rest_cancelled s
        ∷ [];
    sent =
        append_assoc s.sent (report_of cid (ExecutionReportKind.partially_filled f q) s ∷ [])
          (report_of cid rest_cancelled s ∷ []);
    own = (refl, (refl, tt));
    settled = refl;
    live = λ a. brief_live cid a s.live absent;
  })
]

report_match-SettlesIfOk :
    (cid : OrderId) (m : Match) (s : SimExecutor)
    → lookup cid s.live ≡ none
    → SettlesIfOk cid s (report_match cid m s)
unfolding report_match
report_match-SettlesIfOk cid (Match.unsupported _) s absent = tt
report_match-SettlesIfOk cid Match.no_liquidity s absent = send_last-SettlesIfOk cid _ s refl
report_match-SettlesIfOk cid (Match.filled f q true) s absent = send_last-SettlesIfOk cid _ s refl
report_match-SettlesIfOk cid (Match.filled f q false) s absent =
    send_partial-SettlesIfOk cid f q s absent

settled_later :
    (r : ExecutionReport) (l : List ExecutionReport)
    → is_settled l ≡ true
    → is_settled (r ∷ l) ≡ true
settled_later r [] h = cc
settled_later r (q ∷ l) h = h

-- A report before the others.
preceded :
    (cid : OrderId) (kind : ExecutionReportKind) (s : SimExecutor)
    (r : Result (Unit {0}) ExecutorError × SimExecutor)
    → SettlesIfOk cid (after_send cid kind s) r
    → SettlesIfOk cid s r
preceded cid kind s (err _, s') v = tt
preceded cid kind s (ok _, s') v = record {
  reports = report_of cid kind s ∷ v.reports;
  sent = v.sent ∙ append_assoc s.sent (report_of cid kind s ∷ []) v.reports;
  own = (refl, v.own);
  settled = settled_later (report_of cid kind s) v.reports v.settled;
  live = v.live;
}

acknowledge_cases :
    (cid : OrderId) (venue_id : Text) (m : Match) (s : SimExecutor)
    → (acknowledge cid venue_id m s ≡ (err ExecutorError.session_closed, s))
      ⊎ (acknowledge cid venue_id m s
          ≡ report_match cid m (after_send cid (ExecutionReportKind.acked venue_id) s))
unfolding acknowledge
acknowledge_cases cid venue_id m s = ground arith

acknowledge-SettlesIfOk :
    (cid : OrderId) (venue_id : Text) (m : Match) (s : SimExecutor)
    → lookup cid s.live ≡ none
    → SettlesIfOk cid s (acknowledge cid venue_id m s)
acknowledge-SettlesIfOk cid venue_id m s absent = elim (acknowledge_cases cid venue_id m s) [
  | inl closed ↦ rw closed tt
  | inr taken ↦ rw taken (
      preceded cid (ExecutionReportKind.acked venue_id) s _ (
        report_match-SettlesIfOk cid m (after_send cid (ExecutionReportKind.acked venue_id) s)
          absent))
]

-- The submit came to an acknowledgement on a book of the order's market, or was refused before.
sim_submit_cases :
    (o : Order) (s s' : SimExecutor) (answer : Result (Unit {0}) ExecutorError)
    → sim_submit o s ≡ some (answer, s')
    → ((e : ExecutorError) × (answer ≡ err e))
      ⊎ ((book : OrderBook) × (m : Match) × ((answer, s')
            ≡ acknowledge o.client_id (sim_venue_id s.next_venue_id) m (record s {
              next_venue_id = add64 s.next_venue_id 1;
              books = insert o.market book s.books;
            })))
unfolding sim_submit match_on
sim_submit_cases o s s' answer h = elim (Bool-cases (is_ioc o.tif)) [
  | inr other ↦ inl (
    ExecutorError.rejected_by_venue (text "sim only supports IOC; got " ++ show_tif o.tif),
    ground arith,
  )
  | inl ioc ↦ elim (Option-cases (lookup o.market s.books)) [
    | inl no_book ↦
        inl
          (ExecutorError.rejected_by_venue (text "sim has no book for " ++ o.market), ground arith)
    | inr (book, found) ↦ elim (Option-cases (match_ioc book o s.now_ms)) [
      | inl panic ↦ ground arith
      | inr ((book', m), matched) ↦ inr (book', m, ground arith)
    ]
  ]
]

-- An immediate order that the simulator accepts is settled within the call: whatever the match was,
-- the reports that the call sends are all about the order, the last one is terminal, and no order is
-- left live that was not before.
pub sim_submit-Settles :
    (o : Order) (s s' : SimExecutor)
    → lookup o.client_id s.live ≡ none
    → sim_submit o s ≡ some (ok tt, s')
    → Settles o.client_id s s'
sim_submit-Settles o s s' absent accepted = elim (sim_submit_cases o s s' (ok tt) accepted) [
  | inl (e, refused) ↦ cc
  | inr (book, m, done) ↦
      let s1 = record s {
        next_venue_id = add64 s.next_venue_id 1;
        books = insert o.market book s.books;
      } in
      let v : SettlesIfOk o.client_id s1 (ok tt, s') =
        subst (λ r. SettlesIfOk o.client_id s1 r) (sym done)
          (acknowledge-SettlesIfOk o.client_id (sim_venue_id s.next_venue_id) m s1 absent) in
      record { reports = v.reports; sent = v.sent; own = v.own; settled = v.settled; live = v.live }
]
