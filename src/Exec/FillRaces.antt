-- ===== src/Exec/FillRaces.antt =====
-- crates/kalshi-exec/src/executor.rs: a fill that two sources deliver, and an order that is tracked
-- late.
use mathlib.Core.List.{append_assoc}
use predigy.Prelude.{leb, ℕ, ◌≡◌, refl, true, false, none, some, List, [], ◌∷◌, ◌++◌, arith}
use predigy.Prelude.Text.{Text, text_eq_iff}
use predigy.Prelude.Int.{ℤ}
use predigy.Core.{position_key, OrderType, Order, Fill}
use predigy.Exec.{
  MapError, order_to_create_request, FillRecord, fill_to_domain, Tracked, TrackedOrders, on_submit,
  tracked_entry, lookup_terms, raised, note_fill, RestState, emit_report, report, submit_rest,
  fill_kind, book_fill, is_seen, mark_seen, ws_fill, Poller, unseen, insert_fill, sort_fills,
  poll_begin, poll_fill, poll_next,
}
use predigy.Prelude.Map.{text_key, lookup, insert, lookup-insert_self}
use predigy.Prelude.Result.{ok}
use predigy.Oms.{ExecutionReportKind}

is_seen-mark_seen : (id : Text) (l : List Text) → is_seen id (mark_seen id l) ≡ true
unfolding is_seen mark_seen
is_seen-mark_seen id l = ground (arith, text_eq_iff id id)

-- A fill leaves the set of the seen ones and the channel's state alone.
book_fill_seen :
    (now : ℤ) (r : FillRecord) (s : RestState)
    → ((book_fill now r s).1.seen_fills ≡ s.seen_fills)
      × ((book_fill now r s).1.report_open ≡ s.report_open)
unfolding book_fill emit_report
book_fill_seen now r s = ground arith

abbrev IsTaken : FillRecord → RestState → Type 0
IsTaken r s = (is_seen r.fill_id s.seen_fills ≡ true) × (s.report_open ≡ true)

poll_fill_takes :
    (now : ℤ) (r : FillRecord) (s : RestState)
    → s.report_open ≡ true
    → IsTaken r (poll_fill now r s).1
unfolding poll_fill
poll_fill_takes now r s o =
    let (i, q) =
      book_fill_seen now r (record s { seen_fills = mark_seen r.fill_id s.seen_fills }) in
    (rw i (is_seen-mark_seen r.fill_id s.seen_fills), rw q o)

ws_fill_takes :
    (now : ℤ) (r : FillRecord) (s : RestState)
    → s.report_open ≡ true
    → IsTaken r (ws_fill now r s).1
unfolding ws_fill poll_fill
ws_fill_takes now r s o = rw o (ground (arith, poll_fill_takes now r s o))

-- A queued fill is dropped once its id is seen.
poll_begin_seen :
    (r : FillRecord) (page : List FillRecord) (s : RestState) (p : Poller)
    → is_seen r.fill_id s.seen_fills ≡ true
    → poll_begin (r ∷ page) s p ≡ poll_begin page s p
unfolding poll_begin unseen
poll_begin_seen r page s p h = rw h refl

ws_fill_seen :
    (now : ℤ) (r : FillRecord) (s : RestState)
    → is_seen r.fill_id s.seen_fills ≡ true
    → s.report_open ≡ true
    → ws_fill now r s ≡ (true, s)
unfolding ws_fill
ws_fill_seen now r s h o = rw (o, h) refl

-- A fill that the listener or the poller has taken is not taken again: the listener passes over it,
-- and a page of the poller that starts later does not queue it. The receiver of the reports is
-- there.
pub fill_taken_once :
    (now now' : ℤ) (r : FillRecord) (page : List FillRecord) (s : RestState) (p : Poller)
    → s.report_open ≡ true
    → (ws_fill now' r (ws_fill now r s).1 ≡ (true, (ws_fill now r s).1))
      × (ws_fill now' r (poll_fill now r s).1 ≡ (true, (poll_fill now r s).1))
      × (poll_begin (r ∷ page) (ws_fill now r s).1 p ≡ poll_begin page (ws_fill now r s).1 p)
      × (poll_begin (r ∷ page) (poll_fill now r s).1 p ≡ poll_begin page (poll_fill now r s).1 p)
fill_taken_once now now' r page s p o =
    let (wi, wo) = ws_fill_takes now r s o in
    let (pi, po) = poll_fill_takes now r s o in
    (
      ws_fill_seen now' r _ wi wo,
      ws_fill_seen now' r _ pi po,
      poll_begin_seen r page _ p wi,
      poll_begin_seen r page _ p pi,
    )

submit_rest_acked :
    (show_error : MapError → Text) (now : ℤ) (order : Order) (venue_id : Text) (s : RestState)
    → order.order_type ≡ OrderType.limit
    → s.report_open ≡ true
    → (submit_rest show_error (λ req. ok venue_id) now order s).1 ≡ record s {
      orders = on_submit order.client_id venue_id order.qty order.side order.action s.orders;
      sent = s.sent ++ report order.client_id now (ExecutionReportKind.acked venue_id) ∷ [];
    }
unfolding order_to_create_request emit_report submit_rest
submit_rest_acked show_error now order venue_id s l o = rw (l, o, submit_rest) refl

lookup_terms-on_submit :
    (venue_id : Text) (order : Order) (t : TrackedOrders)
    → lookup_terms venue_id (on_submit order.client_id venue_id order.qty order.side order.action t)
      ≡ some (order.side, order.action)
unfolding on_submit lookup_terms tracked_entry
lookup_terms-on_submit venue_id order t =
    rw
      (
        lookup-insert_self venue_id order.client_id t.venue_to_cid,
        lookup-insert_self order.client_id _ t.by_cid,
        lookup_terms,
        tracked_entry,
      )
      refl

-- A fill of an unknown order is not reported.
ws_fill_unknown :
    (now : ℤ) (r : FillRecord) (s : RestState)
    → lookup_terms r.order_id s.orders ≡ none
    → (ws_fill now r s).1.sent ≡ s.sent
unfolding ws_fill book_fill
ws_fill_unknown now r s u = rw (u, book_fill) (ground arith)

-- An order whose fill reaches the listener before the venue's answer to the submission reaches the
-- executor is tracked without the fill: the fill is not reported, then or when either source
-- delivers it again. The order is a limit order, its venue id is not tracked before, and the
-- receiver of the reports is there.
pub ws_fill-submit_rest :
    (show_error : MapError → Text) (now now' : ℤ) (order : Order) (r : FillRecord)
    (page : List FillRecord) (s : RestState) (p : Poller)
    → order.order_type ≡ OrderType.limit
    → lookup_terms r.order_id s.orders ≡ none
    → s.report_open ≡ true
    → let early = (ws_fill now r s).1 in
      let late = (submit_rest show_error (λ req. ok r.order_id) now' order early).1 in
      (late.sent
        ≡ s.sent ++ report order.client_id now' (ExecutionReportKind.acked r.order_id) ∷ [])
      × (lookup_terms r.order_id late.orders ≡ some (order.side, order.action))
      × (ws_fill now' r late ≡ (true, late))
      × (poll_begin (r ∷ page) late p ≡ poll_begin page late p)
ws_fill-submit_rest show_error now now' order r page s p l u o =
    let (wi, wo) = ws_fill_takes now r s o in
    let early = (ws_fill now r s).1 in
    rw (submit_rest_acked show_error now' order r.order_id early l wo) (
      rw (ws_fill_unknown now r s u) refl,
      lookup_terms-on_submit r.order_id order early.orders,
      ws_fill_seen now' r _ wi wo,
      poll_begin_seen r page _ p wi,
    )

-- The entry of a venue id.
record IsTracked (r : FillRecord) (cid : Text) (e : Tracked) (s : RestState) : Type 0 where
  pub venue : lookup r.order_id s.orders.venue_to_cid ≡ some cid
  pub entry : lookup cid s.orders.by_cid ≡ some e
  pub report_open : s.report_open ≡ true

lookup_terms-IsTracked :
    (r : FillRecord) (cid : Text) (e : Tracked) (s : RestState)
    → IsTracked r cid e s
    → lookup_terms r.order_id s.orders ≡ some (e.side, e.action)
unfolding lookup_terms tracked_entry
lookup_terms-IsTracked r cid e s h = rw (h.venue, h.entry, lookup_terms, tracked_entry) refl

note_fill-IsTracked :
    (r : FillRecord) (cid : Text) (e : Tracked) (s : RestState)
    → IsTracked r cid e s
    → (qty : ℕ)
    → note_fill r.order_id qty s.orders ≡ (
      some (raised e qty),
      record s.orders { by_cid = insert cid (raised e qty) s.orders.by_cid },
    )
unfolding note_fill
note_fill-IsTracked r cid e s h qty = rw (h.venue, h.entry, note_fill) refl

-- A fill of a tracked order is reported, and an order that stays open keeps its entry.
book_fill-IsTracked :
    (now : ℤ) (r : FillRecord) (cid : Text) (e : Tracked) (fill : Fill) (s : RestState)
    → IsTracked r cid e s
    → fill_to_domain r e.side e.action ≡ ok fill
    → ((book_fill now r s).1.sent
        ≡ s.sent ++ report e.cid now (fill_kind (raised e fill.qty) fill) ∷ [])
      × (leb e.target (raised e fill.qty).cumulative ≡ false
          → IsTracked r cid (raised e fill.qty) (book_fill now r s).1)
unfolding emit_report book_fill
book_fill-IsTracked now r cid e fill s h f =
    rw
      (
        lookup_terms-IsTracked r cid e s h,
        f,
        note_fill-IsTracked r cid e s h fill.qty,
        h.report_open,
        book_fill,
      )
      (
        refl,
        λ k.
            rw (k, note_fill-IsTracked r cid e s h fill.qty)
              (record {
                venue = h.venue;
                entry = lookup-insert_self cid (raised e fill.qty) s.orders.by_cid;
                report_open = refl;
              }),
      )

-- What the listener and the poller do with a fill that is not seen.
ws_fill_fresh :
    (now : ℤ) (r : FillRecord) (s : RestState)
    → is_seen r.fill_id s.seen_fills ≡ false
    → s.report_open ≡ true
    → ws_fill now r s ≡ poll_fill now r s
unfolding ws_fill poll_fill
ws_fill_fresh now r s i o = rw (o, i) refl

poll_begin_fresh :
    (r : FillRecord) (s : RestState) (p : Poller)
    → is_seen r.fill_id s.seen_fills ≡ false
    → (poll_begin (r ∷ []) s p).newest_fills ≡ r ∷ []
unfolding poll_begin unseen sort_fills insert_fill
poll_begin_fresh r s p i = rw i refl

poll_fill-IsTracked :
    (now : ℤ) (r : FillRecord) (cid : Text) (e : Tracked) (fill : Fill) (s : RestState)
    → IsTracked r cid e s
    → fill_to_domain r e.side e.action ≡ ok fill
    → ((poll_fill now r s).1.sent
        ≡ s.sent ++ report e.cid now (fill_kind (raised e fill.qty) fill) ∷ [])
      × (leb e.target (raised e fill.qty).cumulative ≡ false
          → IsTracked r cid (raised e fill.qty) (poll_fill now r s).1)
unfolding poll_fill
poll_fill-IsTracked now r cid e fill s h f =
    book_fill-IsTracked now r cid e fill
      (record s { seen_fills = mark_seen r.fill_id s.seen_fills })
      (record { venue = h.venue; entry = h.entry; report_open = h.report_open }) f

-- A fill that the listener reports while it waits in the poller's queue is reported again, and
-- counted again: two reports carry it, and the second has twice its quantity. The fill reads, the
-- order is tracked and stays open after it, and the receiver of the reports is there.
pub ws_fill-poll_next :
    (now now' : ℤ) (r : FillRecord) (s : RestState) (p : Poller) (cid : Text) (e : Tracked)
    (fill : Fill)
    → is_seen r.fill_id s.seen_fills ≡ false
    → s.report_open ≡ true
    → lookup r.order_id s.orders.venue_to_cid ≡ some cid
    → lookup cid s.orders.by_cid ≡ some e
    → fill_to_domain r e.side e.action ≡ ok fill
    → leb e.target (raised e fill.qty).cumulative ≡ false
    → (poll_next now' (ws_fill now r s).1 (poll_begin (r ∷ []) s p)).1.sent
      ≡ s.sent
        ++ report e.cid now
            (ExecutionReportKind.partially_filled fill (raised e fill.qty).cumulative)
          ∷ report e.cid now' (fill_kind (raised (raised e fill.qty) fill.qty) fill)
          ∷ []
unfolding poll_next fill_kind
ws_fill-poll_next now now' r s p cid e fill i o c t f k =
    let (first, stays) =
      poll_fill-IsTracked now r cid e fill s (record { venue = c; entry = t; report_open = o }) f in
    let second = (poll_fill-IsTracked now' r cid (raised e fill.qty) fill _ (stays k) f).0 in
    rw (ws_fill_fresh now r s i o, poll_begin_fresh r s p i, second, first, k)
      (append_assoc s.sent _ _)
