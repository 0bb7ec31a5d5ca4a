-- ===== src/Fix/Tags.antt =====
-- crates/kalshi-fix/src/tags.rs: the tag numbers and the codes that the messages use.
use predigy.Prelude.{ℕ, [], ◌∷◌}
use predigy.Prelude.Text.{Text}

abbrev pub msg_type : ℕ
msg_type = 35

abbrev pub msg_seq_num : ℕ
msg_seq_num = 34

abbrev pub sender_comp_id_tag : ℕ
sender_comp_id_tag = 49

abbrev pub target_comp_id_tag : ℕ
target_comp_id_tag = 56

abbrev pub sending_time : ℕ
sending_time = 52

abbrev pub encrypt_method : ℕ
encrypt_method = 98

abbrev pub heart_bt_int : ℕ
heart_bt_int = 108

abbrev pub test_req_id : ℕ
test_req_id = 112

abbrev pub reset_seq_num_flag : ℕ
reset_seq_num_flag = 141

abbrev pub cl_ord_id : ℕ
cl_ord_id = 11

abbrev pub orig_cl_ord_id : ℕ
orig_cl_ord_id = 41

abbrev pub symbol_tag : ℕ
symbol_tag = 55

abbrev pub side_tag : ℕ
side_tag = 54

abbrev pub transact_time : ℕ
transact_time = 60

abbrev pub order_qty : ℕ
order_qty = 38

abbrev pub ord_type : ℕ
ord_type = 40

abbrev pub price_tag : ℕ
price_tag = 44

abbrev pub time_in_force : ℕ
time_in_force = 59

abbrev pub order_id_tag : ℕ
order_id_tag = 37

abbrev pub ord_status : ℕ
ord_status = 39

abbrev pub cum_qty : ℕ
cum_qty = 14

abbrev pub last_qty : ℕ
last_qty = 32

abbrev pub last_px : ℕ
last_px = 31

abbrev pub leaves_qty : ℕ
leaves_qty = 151

abbrev pub text_tag : ℕ
text_tag = 58

abbrev pub side_buy : Text
side_buy = b'1' ∷ []

abbrev pub side_sell : Text
side_sell = b'2' ∷ []

abbrev pub ord_type_limit : Text
ord_type_limit = b'2' ∷ []

abbrev pub tif_gtc : Text
tif_gtc = b'1' ∷ []

abbrev pub tif_ioc : Text
tif_ioc = b'3' ∷ []

abbrev pub tif_fok : Text
tif_fok = b'4' ∷ []

abbrev pub msg_type_heartbeat : Text
msg_type_heartbeat = b'0' ∷ []

abbrev pub msg_type_execution_report : Text
msg_type_execution_report = b'8' ∷ []

abbrev pub msg_type_logon : Text
msg_type_logon = b'A' ∷ []

abbrev pub msg_type_new_order_single : Text
msg_type_new_order_single = b'D' ∷ []

abbrev pub msg_type_order_cancel_request : Text
msg_type_order_cancel_request = b'F' ∷ []

abbrev pub ord_status_new : Text
ord_status_new = b'0' ∷ []

abbrev pub ord_status_partially_filled : Text
ord_status_partially_filled = b'1' ∷ []

abbrev pub ord_status_filled : Text
ord_status_filled = b'2' ∷ []

abbrev pub ord_status_canceled : Text
ord_status_canceled = b'4' ∷ []

abbrev pub ord_status_rejected : Text
ord_status_rejected = b'8' ∷ []
