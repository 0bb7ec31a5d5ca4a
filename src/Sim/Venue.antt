-- ===== src/Sim/Venue.antt =====
-- crates/sim/src/executor.rs: the simulator in the place of a venue. The mutexes and the channel are
-- fields of one state; `now_ms` is the clock of the call.
use predigy.Prelude.{
  ◌==◌, if◌then◌else◌, ℕ, ◌-◌, Bool, true, false, Option, none, some, List, [], ◌∷◌, ◌++◌,
}
use predigy.Oms.{show_padded, ExecutorError, ExecutionReportKind, ExecutionReport}
use predigy.Core.{position_key, OrderId, TimeInForce, Order, Fill}
use predigy.Book.{OrderBook}
use predigy.Sim.Matching.{Match, match_ioc}
use predigy.Sim.Books.{BookStore}
use predigy.Prelude.Result.{Result, ok, err}
use predigy.Prelude.Map.{text_key, Map, lookup, insert, remove}
use predigy.Prelude.Word.{add64}
use predigy.Prelude.Int.{ℤ}
use predigy.Prelude.Text.{Text, text}

-- The sending half of the reports: the receiver takes `accepts` more and then is gone.
pub record SimExecutor : Type 0 where
  pub books : BookStore
  pub accepts : ℕ
  pub sent : List ExecutionReport
  pub next_venue_id : ℕ
  pub live : Map OrderId (Unit {0})
  pub now_ms : ℤ

unfoldable pub spawn : BookStore → (accepts : ℕ) → ℤ → SimExecutor
spawn books accepts now_ms = record {
  books = books;
  accepts = accepts;
  sent = [];
  next_venue_id = 0;
  live = [];
  now_ms = now_ms;
}

-- `format!("sim-{id:08}")`.
unfoldable pub sim_venue_id : ℕ → Text
sim_venue_id id = text "sim-" ++ show_padded id

abbrev pub report_of : OrderId → ExecutionReportKind → SimExecutor → ExecutionReport
report_of cid kind s = record { cid = cid; ts_ms = s.now_ms; kind = kind }

-- Whether the report was taken.
unfoldable pub send_report : OrderId → ExecutionReportKind → SimExecutor → Bool × SimExecutor
send_report cid kind s =
    if s.accepts == 0
    then (false, s)
    else (true, record s { accepts = s.accepts - 1; sent = s.sent ++ report_of cid kind s ∷ [] })

-- A report that ends the call.
unfoldable pub send_last :
    OrderId → ExecutionReportKind → SimExecutor → Result (Unit {0}) ExecutorError × SimExecutor
unfolding send_report
send_last cid kind s =
    let (taken, s') = send_report cid kind s in
    (if taken then ok tt else err ExecutorError.session_closed, s')

-- The partial fill, and the cancel of the rest; the order is live in between.
unfoldable pub send_partial :
    OrderId → Fill → ℕ → SimExecutor → Result (Unit {0}) ExecutorError × SimExecutor
unfolding send_report
send_partial cid fill cumulative_qty s =
    let s1 = record s { live = insert cid tt s.live } in
    let (taken, s2) =
      send_report cid (ExecutionReportKind.partially_filled fill cumulative_qty) s1 in
    let (taken', s3) =
      send_report cid (ExecutionReportKind.cancelled (text "ioc remainder after partial")) s2 in
    if taken
    then if taken'
      then (ok tt, record s3 { live = remove cid s3.live })
      else (err ExecutorError.session_closed, s3)
    else (err ExecutorError.session_closed, s2)

-- By the match, after the acknowledgement.
unfoldable pub report_match :
    OrderId → Match → SimExecutor → Result (Unit {0}) ExecutorError × SimExecutor
unfolding send_last send_partial
report_match cid (Match.unsupported reason) s = (err (ExecutorError.rejected_by_venue reason), s)
report_match cid Match.no_liquidity s =
    send_last cid (ExecutionReportKind.cancelled (text "ioc no liquidity at limit")) s
report_match cid (Match.filled fill cumulative_qty true) s =
    send_last cid (ExecutionReportKind.filled fill cumulative_qty) s
report_match cid (Match.filled fill cumulative_qty false) s = send_partial cid fill cumulative_qty s

unfoldable pub acknowledge :
    OrderId → Text → Match → SimExecutor → Result (Unit {0}) ExecutorError × SimExecutor
unfolding send_report report_match
acknowledge cid venue_id m s =
    let (taken, s') = send_report cid (ExecutionReportKind.acked venue_id) s in
    if taken then report_match cid m s' else (err ExecutorError.session_closed, s')

-- `{tif:?}`.
abbrev pub show_tif : TimeInForce → Text
show_tif TimeInForce.gtc = text "Gtc"
show_tif TimeInForce.ioc = text "Ioc"
show_tif TimeInForce.fok = text "Fok"
show_tif TimeInForce.post_only = text "PostOnly"

abbrev pub is_ioc : TimeInForce → Bool
is_ioc TimeInForce.ioc = true
is_ioc _ = false

-- The match on the order's book; `none` is the panic of the fee computation.
unfoldable pub match_on :
    Order
    → Text
    → SimExecutor
    → Option OrderBook
    → Option (Result (Unit {0}) ExecutorError × SimExecutor)
unfolding acknowledge
match_on order venue_id s none =
    some (err (ExecutorError.rejected_by_venue (text "sim has no book for " ++ order.market)), s)
match_on order venue_id s (some book) = elim (match_ioc book order s.now_ms) [
  | none ↦ none
  | some (book', m) ↦ some (
      acknowledge order.client_id venue_id m
        (record s { books = insert order.market book' s.books }))
]

unfoldable pub sim_submit :
    Order → SimExecutor → Option (Result (Unit {0}) ExecutorError × SimExecutor)
unfolding match_on
sim_submit order s =
    let s' = record s { next_venue_id = add64 s.next_venue_id 1 } in
    if is_ioc order.tif
    then match_on order (sim_venue_id s.next_venue_id) s' (lookup order.market s.books)
    else some (
      err (
          ExecutorError.rejected_by_venue
            (text "sim only supports IOC; got " ++ show_tif order.tif)),
      s',
    )

unfoldable pub sim_cancel : OrderId → SimExecutor → Result (Unit {0}) ExecutorError × SimExecutor
unfolding send_last
sim_cancel cid s = elim (lookup cid s.live) [
  | none ↦ (err (ExecutorError.unknown_order cid), s)
  | some _ ↦
      send_last cid (ExecutionReportKind.cancelled (text "user cancel"))
        (record s { live = remove cid s.live })
]
