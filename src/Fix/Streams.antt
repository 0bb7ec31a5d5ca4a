-- ===== src/Fix/Streams.antt =====
-- crates/kalshi-fix/src/executor.rs: the reads of the main loop against the messages that were sent.
use mathlib.Core.List.{append_assoc, append-nil}
use predigy.Prelude.{
  length, length-append, All, ℕ, zero, suc, ◌<◌, ◌≡◌, refl, sym, ap, ◌∙◌, ◌≢◌, ◌⊎◌, inl, inr, Bool,
  true, false, none, some, List, [], ◌∷◌, ◌++◌, arith,
}
use predigy.Prelude.Result.{Result, ok, err}
use predigy.Fix.{
  Bytes, drop, Stop, FieldList, encode, decode_message, FixTask, handle_message, dispatch_loop,
  dispatch_inbound, receive,
}
use predigy.Fix.RoundTrip.{IsMessage, encode_lem, length-encode, decode_message-encode}
use predigy.Fix.Partial.{append-cuts, decode_message_short, decode_message_partial}
use predigy.Fix.SliceLaws.{drop-append}

-- The messages one after the other.
unfoldable pub encode_all : List FieldList → Bytes
encode_all [] = []
encode_all (m ∷ ms) = encode m ++ encode_all ms

unfoldable pub concat : List Bytes → Bytes
concat [] = []
concat (c ∷ cs) = c ++ concat cs

pub handled :
    (r : Result (Bool × FixTask) Stop)
    → ((b : Bool) × (task : FixTask) × (r ≡ ok (b, task))) ⊎ ((s : Stop) × (r ≡ err s))
handled (ok (b, task)) = inl (b, task, refl)
handled (err s) = inr (s, refl)

read :
    (r : Result (Bool × Bytes × FixTask) Stop)
    → ((b : Bool) × (left : Bytes) × (task : FixTask) × (r ≡ ok (b, left, task)))
      ⊎ ((s : Stop) × (r ≡ err s))
read (ok (b, left, task)) = inl (b, left, task, refl)
read (err s) = inr (s, refl)

module _ (clock : ℕ → ℕ) where
  -- What a session does with messages that arrive whole.
  unfoldable pub handle_all : List FieldList → FixTask → Result (Bool × FixTask) Stop
  handle_all [] task = ok (false, task)
  handle_all (m ∷ ms) task = elim (handle_message clock m task) [
    | ok (shuts_down, task') ↦ elim shuts_down [
      | true ↦ ok (true, task')
      | false ↦ handle_all ms task'
    ]
    | err e ↦ err e
  ]

  -- The bytes left over are not a whole message.
  abbrev Incomplete : Bytes → List FieldList → Type 0
  Incomplete left [] = Unit
  Incomplete left (m ∷ ms) = (x : ℕ) × (t : Bytes) × (encode m ≡ left ++ x ∷ t)

  -- What the loop makes of the bytes of messages: it stops as the messages stop, or it goes on with
  -- the messages that are not complete.
  data Drained (ms : List FieldList) (future : Bytes) (task : FixTask)
      (r : Result (Bool × Bytes × FixTask) Stop) : Type 0 where
    failing : (e : Stop) → r ≡ err e → handle_all ms task ≡ err e → Drained ms future task r
    stopping :
        (left : Bytes) (after : FixTask)
        → r ≡ ok (true, left, after)
        → handle_all ms task ≡ ok (true, after)
        → Drained ms future task r
    waiting :
        (left : Bytes) (after : FixTask) (later : List FieldList)
        → r ≡ ok (false, left, after)
        → handle_all ms task ≡ handle_all later after
        → left ++ future ≡ encode_all later
        → Incomplete left later
        → All IsMessage later
        → Drained ms future task r

  loop_waits :
      (fuel : ℕ) (buf : Bytes) (task : FixTask)
      → decode_message buf ≡ ok none
      → dispatch_loop clock (suc fuel) buf task ≡ ok (false, buf, task)
  unfolding dispatch_loop
  loop_waits fuel buf task e = rw (e, dispatch_loop)

  -- What follows a message, once it is handled.
  abbrev after_message :
      ℕ → Bytes → Result (Bool × FixTask) Stop → Result (Bool × Bytes × FixTask) Stop
  after_message fuel rest (ok (true, task)) = ok (true, rest, task)
  after_message fuel rest (ok (false, task)) = dispatch_loop clock fuel rest task
  after_message fuel rest (err e) = err e

  loop_takes :
      (fuel n : ℕ) (m : FieldList) (buf rest : Bytes) (task : FixTask)
      → decode_message buf ≡ ok (some (m, n))
      → drop n buf ≡ rest
      → dispatch_loop clock (suc fuel) buf task
        ≡ after_message fuel rest (handle_message clock m task)
  unfolding dispatch_loop
  loop_takes fuel n m buf rest task e d = elim (handled (handle_message clock m task)) [
    | inl (true, task', h) ↦ rw (e, h, d, dispatch_loop)
    | inl (false, task', h) ↦ rw (e, h, d, dispatch_loop)
    | inr (s, h) ↦ rw (e, h, dispatch_loop)
  ]

  abbrev after_all : List FieldList → Result (Bool × FixTask) Stop → Result (Bool × FixTask) Stop
  after_all ms (ok (true, task)) = ok (true, task)
  after_all ms (ok (false, task)) = handle_all ms task
  after_all ms (err e) = err e

  handle_all_next :
      (m : FieldList) (ms : List FieldList) (task : FixTask)
      → handle_all (m ∷ ms) task ≡ after_all ms (handle_message clock m task)
  unfolding handle_all
  handle_all_next m ms task = elim (handled (handle_message clock m task)) [
    | inl (true, task', h) ↦ rw (h, handle_all)
    | inl (false, task', h) ↦ rw (h, handle_all)
    | inr (s, h) ↦ rw (h, handle_all)
  ]

  -- A message is handled, and what is known of the rest of the bytes carries over.
  drain_message :
      (fuel : ℕ) (m : FieldList) (ms : List FieldList) (rest future : Bytes) (task : FixTask)
      → IsMessage m
      → ((task' : FixTask) → Drained ms future task' (dispatch_loop clock fuel rest task'))
      → Drained (m ∷ ms) future task (dispatch_loop clock (suc fuel) (encode m ++ rest) task)
  drain_message fuel m ms rest future task w ih =
      rw
        (loop_takes fuel (length (encode m)) m (encode m ++ rest) rest task
          (decode_message-encode m rest w) (drop-append (encode m) rest))
        (go (handle_message clock m task) refl)
    where
      all :
          {r : Result (Bool × FixTask) Stop}
          → handle_message clock m task ≡ r
          → handle_all (m ∷ ms) task ≡ after_all ms r
      all h = handle_all_next m ms task ∙ ap (after_all ms) h

      carry :
          (task' : FixTask)
          → handle_message clock m task ≡ ok (false, task')
          → {r : Result (Bool × Bytes × FixTask) Stop} → Drained ms future task' r
          → Drained (m ∷ ms) future task r
      carry task' h (failing e a b) = failing e a (all h ∙ b)
      carry task' h (stopping left after a b) = stopping left after a (all h ∙ b)
      carry task' h (waiting left after later a b c d f) =
          waiting left after later a (all h ∙ b) c d f

      go :
          (r : Result (Bool × FixTask) Stop)
          → handle_message clock m task ≡ r
          → Drained (m ∷ ms) future task (after_message fuel rest r)
      go (err e) h = failing e refl (all h)
      go (ok (true, task')) h = stopping rest task' refl (all h)
      go (ok (false, task')) h = carry task' h (ih task')

  dispatch_loop-Drained :
      (fuel : ℕ) (ms : List FieldList) (buf future : Bytes) (task : FixTask)
      → length buf < fuel
      → All IsMessage ms
      → buf ++ future ≡ encode_all ms
      → Drained ms future task (dispatch_loop clock fuel buf task)
  unfolding encode_all
  dispatch_loop-Drained zero ms buf future task h w e = absurd (omega arith)
  dispatch_loop-Drained (suc fuel) [] [] future task h w e =
      waiting [] task [] (loop_waits fuel [] task (decode_message_short [] (omega arith))) refl e tt
        tt
  dispatch_loop-Drained (suc fuel) [] (x ∷ buf) future task h w e = cc e
  dispatch_loop-Drained (suc fuel) (m ∷ ms) buf future task h w e =
      elim (append-cuts buf future (encode m) (encode_all ms) e) [
        | inl ([], same, k) ↦
            let whole : buf ≡ encode m ++ [] =
              sym (append-nil buf) ∙ sym same ∙ sym (append-nil (encode m)) in
            rw whole (
              drain_message fuel m ms [] future task w.0 λ task'.
                dispatch_loop-Drained fuel ms [] future task'
                  (omega (arith, ap length whole, length-append (encode m) [], length-encode m)) w.1
                  (sym k))
        | inl (x ∷ t, same, k) ↦
            waiting buf task (m ∷ ms)
              (loop_waits fuel buf task
                (decode_message_partial m buf (x ∷ t) w.0.1 same (omega arith)))
              refl e (x, t, same) w
        | inr (x, t, same, k) ↦ rw same (
            drain_message fuel m ms (x ∷ t) future task w.0 λ task'.
              dispatch_loop-Drained fuel ms (x ∷ t) future task'
                (omega (arith, ap length same, length-append (encode m) (x ∷ t), length-encode m))
                w.1 k)
      ]

  -- What follows a read, once its bytes are dispatched.
  abbrev after_read :
      List Bytes → Result (Bool × Bytes × FixTask) Stop → Result (Bool × FixTask) Stop
  after_read cs (ok (true, left, task)) = ok (true, task)
  after_read cs (ok (false, left, task)) = receive clock cs left task
  after_read cs (err e) = err e

  receive_next :
      (c : Bytes) (cs : List Bytes) (left : Bytes) (task : FixTask)
      → receive clock (c ∷ cs) left task
        ≡ after_read cs (dispatch_loop clock (suc (length (left ++ c))) (left ++ c) task)
  unfolding receive dispatch_inbound
  receive_next c cs left task =
      elim (read (dispatch_loop clock (suc (length (left ++ c))) (left ++ c) task)) [
        | inl (true, rest, task', h) ↦ rw (h, receive, dispatch_inbound)
        | inl (false, rest, task', h) ↦ rw (h, receive, dispatch_inbound)
        | inr (s, h) ↦ rw (h, receive, dispatch_inbound)
      ]

  too_short :
      (m : FieldList) (ms : List FieldList) (left t : Bytes) (x : ℕ)
      → encode m ≡ left ++ x ∷ t
      → left ++ [] ≢ encode m ++ encode_all ms
  too_short m ms left t x i e = omega (
    arith,
    ap length i,
    ap length e,
    length-append left (x ∷ t),
    length-append left [],
    length-append (encode m) (encode_all ms),
  )

  read-Drained :
      (cs : List Bytes) (ms : List FieldList) (task : FixTask)
      {r : Result (Bool × Bytes × FixTask) Stop}
      → Drained ms (concat cs) task r
      → ((later : List FieldList) (rest : Bytes) (after : FixTask)
          → All IsMessage later
          → Incomplete rest later
          → rest ++ concat cs ≡ encode_all later
          → receive clock cs rest after ≡ handle_all later after)
      → after_read cs r ≡ handle_all ms task
  read-Drained cs ms task (failing s a b) ih = rw (a, b)
  read-Drained cs ms task (stopping rest after a b) ih = rw (a, b)
  read-Drained cs ms task (waiting rest after later a b k d f) ih =
      rw (a, b) (ih later rest after f d k)

  receive_from :
      (chunks : List Bytes) (ms : List FieldList) (left : Bytes) (task : FixTask)
      → All IsMessage ms
      → Incomplete left ms
      → left ++ concat chunks ≡ encode_all ms
      → receive clock chunks left task ≡ handle_all ms task
  unfolding concat encode_all
  receive_from [] [] left task w i e = unfold receive handle_all in refl
  receive_from [] (m ∷ ms) left task w (x, t, i) e = absurd (too_short m ms left t x i e)
  receive_from (c ∷ cs) ms left task w i e =
      receive_next c cs left task
      ∙ read-Drained cs ms task
          (dispatch_loop-Drained (suc (length (left ++ c))) ms (left ++ c) (concat cs) task
            (omega arith) w (append_assoc left c (concat cs) ∙ e))
          λ later rest after f d k. receive_from cs later rest after f d k

  some_byte : (m : FieldList) → (x : ℕ) × (t : Bytes) × (encode m ≡ x ∷ t)
  some_byte m = (b'8', _, encode_lem m)

  start : (ms : List FieldList) → Incomplete [] ms
  start [] = tt
  start (m ∷ ms) = some_byte m

  -- However the bytes of the messages are cut into reads, the task ends as if it were handed the
  -- messages one by one: the same reports, replies and session, and shut down or not.
  pub receive-handle_all :
      (chunks : List Bytes) (ms : List FieldList) (task : FixTask)
      → All IsMessage ms
      → concat chunks ≡ encode_all ms
      → receive clock chunks [] task ≡ handle_all ms task
  receive-handle_all chunks ms task w e = receive_from chunks ms [] task w (start ms) e
