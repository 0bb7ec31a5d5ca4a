-- ===== src/Fix/Examples.antt =====
-- Theorems about crates/kalshi-fix applied at concrete messages and runs.
use predigy.Prelude.{length, ℕ, ◌+◌, ◌≡◌, refl, ◌≢◌, true, none, some, List, [], ◌∷◌, ◌++◌, arith}
use predigy.Prelude.Text.{text, text_eq}
use predigy.Prelude.Result.{Result, ok, err}
use predigy.Core.{Side, Action, position_key, OrderType, TimeInForce, Order}
use predigy.Oms.{show_u64}
use predigy.Fix.{
  take, drop, utf8, msg_seq_num, soh, Stop, fails, FieldList, get, require, encode_field,
  encode_body, length_field, checksum_of, show_wide, trailer_of, encode, decode_message, checksum,
  out_of_fuel, Session, new_session, next_out_seq, expected_seq, validate_inbound, build_logon,
  tif_code, build_new_order_single, FixConfig, FixTask, new_fix_task, track_order, receive, Phase,
  FixEvent, Connection, send_logon, submit_command, logon_loop, receive_logon, start_run, run_step,
  run_events,
}
use predigy.Fix.RoundTrip.{IsMessage, decode_message-encode}
use predigy.Fix.Damage.{garbled, decode_message-garbled}
use predigy.Fix.Partial.{decode_message_partial}
use predigy.Fix.Streams.{encode_all, concat, handle_all, receive-handle_all}
use predigy.Fix.SequenceLaws.{Numbered}
use predigy.Fix.RunLaws.{run_written-Numbered}
use predigy.Fix.StepLaws.{run_step-Ends}
use predigy.Fix.Refusals.{submit_all, gap_error, submit_command-post_only}
use predigy.Prelude.Map.{text_key}

abbrev ack : FieldList
ack = (35, text "A") ∷ (49, text "V") ∷ (56, text "P") ∷ (34, text "1") ∷ []

abbrev fill : FieldList
fill =
    (35, text "8")
    ∷ (49, text "V")
    ∷ (56, text "P")
    ∷ (34, text "2")
    ∷ (11, text "a")
    ∷ (37, text "o")
    ∷ (39, text "2")
    ∷ (14, text "5")
    ∷ (31, text "0.42")
    ∷ []

ack-IsMessage : IsMessage ack
unfolding encode_body encode_field show_u64 utf8 text
ack-IsMessage = ground arith

fill-IsMessage : IsMessage fill
unfolding encode_body encode_field show_u64 utf8 text
fill-IsMessage = ground arith

decode_message-encode_example :
    decode_message (encode ack ++ encode fill) ≡ ok (some (ack, length (encode ack)))
decode_message-encode_example = decode_message-encode ack (encode fill) ack-IsMessage

decode_message_partial_example : decode_message (take 20 (encode fill)) ≡ ok none
unfolding encode encode_body encode_field length_field trailer_of show_wide show_u64 utf8
    checksum_of text take drop
decode_message_partial_example =
    decode_message_partial fill (take 20 (encode fill)) (drop 20 (encode fill)) fill-IsMessage.1
      refl (omega arith)

decode_message-garbled_example :
    (computed claimed : ℕ) × (decode_message
        (garbled (text "35=") (soh ∷ drop 5 (encode_body ack)) b'A' b'D' [])
      ≡ fails (checksum computed claimed))
    × (computed ≢ claimed)
unfolding encode_body encode_field show_u64 utf8 text drop
decode_message-garbled_example =
    decode_message-garbled ack (text "35=") (soh ∷ drop 5 (encode_body ack)) [] b'A' b'D' refl
      ack-IsMessage.1 (omega arith) (omega arith) (omega arith)

abbrev clock : ℕ → ℕ
clock n = 1700000000000 + n

abbrev config : FixConfig
config = record {
  config_sender = text "P";
  config_target = text "V";
  config_heartbeat = 30;
  auth_tags = [];
  reset_seq_num = true;
}

abbrev sell : Order
sell = record {
  client_id = text "a";
  market = text "M";
  side = Side.yes_side;
  action = Action.sell;
  price = 42;
  qty = 5;
  order_type = OrderType.limit;
  tif = TimeInForce.ioc;
}

abbrev tracking : FixTask
unfolding track_order new_fix_task
tracking = track_order sell (new_fix_task config)

receive-handle_all_example :
    receive clock
      (take 30 (encode_all (ack ∷ fill ∷ [])) ∷ drop 30 (encode_all (ack ∷ fill ∷ [])) ∷ [])
      []
      tracking
    ≡ handle_all clock (ack ∷ fill ∷ []) tracking
unfolding encode encode_body encode_field length_field trailer_of show_wide show_u64 utf8
    checksum_of text take drop concat encode_all
receive-handle_all_example =
    receive-handle_all clock
      (take 30 (encode_all (ack ∷ fill ∷ [])) ∷ drop 30 (encode_all (ack ∷ fill ∷ [])) ∷ [])
      (ack ∷ fill ∷ []) tracking (ack-IsMessage, (fill-IsMessage, tt)) refl

run_step-Ends_example :
    run_step clock
      (FixEvent.received (encode fill))
      (record { phase = Phase.working; inbound = []; task = tracking })
    ≢ err out_of_fuel
run_step-Ends_example =
    run_step-Ends clock (FixEvent.received (encode fill))
      (record { phase = Phase.working; inbound = []; task = tracking })

abbrev connection_of : Result Connection Stop → Connection
connection_of (ok c) = c
connection_of (err e) = record { phase = Phase.stopped; inbound = []; task = tracking }

abbrev started : Connection
started = connection_of (start_run clock config none)

-- The logon is acknowledged, and the order is sent.
abbrev events : List FixEvent
events =
    FixEvent.submit_called sell
    ∷ FixEvent.received (encode ack)
    ∷ FixEvent.submit_arrives sell none
    ∷ []

abbrev ended : Connection
ended = connection_of (run_events clock events started)

run_written-Numbered_example : Numbered 1 ended.task.session.out_seq ended.task.written
unfolding start_run send_logon new_fix_task new_session next_out_seq build_logon run_events run_step
    receive_logon logon_loop decode_message validate_inbound expected_seq require get track_order
    submit_command build_new_order_single tif_code encode encode_body encode_field length_field
    trailer_of show_wide show_u64 utf8 checksum_of text text_eq drop
run_written-Numbered_example = run_written-Numbered clock config none events started ended refl refl

abbrev post_only : Order
post_only = record sell { tif = TimeInForce.post_only }

-- The other end, which expects the number of the session.
abbrev counterpart : Session
counterpart = record {
  sender_comp_id = tracking.session.target_comp_id;
  target_comp_id = tracking.session.sender_comp_id;
  out_seq = 1;
  in_seq = tracking.session.out_seq;
  heartbeat_secs = 30;
}

submit_command-post_only_example :
    (after : FixTask) × (m : FieldList) × (submit_all clock
        ((post_only, none) ∷ (sell, none) ∷ [])
        tracking
      ≡ ok after)
    × (after.written ≡ tracking.written ++ m ∷ [])
    × (get msg_seq_num m ≡ some (show_u64 (tracking.session.out_seq + 1)))
    × ((validate_inbound m counterpart).0 ≡ err gap_error)
unfolding track_order new_fix_task new_session
submit_command-post_only_example =
    submit_command-post_only clock ((post_only, none) ∷ []) sell tracking counterpart (refl, tt)
      (λ h. cc h) (omega arith) refl refl refl
