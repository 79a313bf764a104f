-- ===== src/Publisher/Receiver.antt =====
-- mini-publisher/receiver.py: its `Handler`, on the two lists that it keeps. The outcome that
-- `_pick_outcome` draws, the time, and what `int()` and `json.loads` make of the body are arguments.
pub mod Audit
use qwen_3_8_evals.Prelude.{
  ℕ, String, Bool, true, false, not, ◌&&◌, ◌||◌, Option, none, some, List, [], ◌∷◌, ◌++◌,
  if◌then◌else◌, str_eq, count,
}
use qwen_3_8_evals.Json.{Json, Fields, get, string_if, fields_of}

pub data Outcome : Type 0 where
  accept reject hang_no_accept accept_then_hang : Outcome

-- `outcome in ("accept", "accept_then_hang")`
abbrev pub is_accepting : Outcome → Bool
is_accepting accept = true
is_accepting reject = false
is_accepting hang_no_accept = false
is_accepting accept_then_hang = true

pub record Accepted : Type 0 where
  pub message_id : String
  pub payload : String
  pub mode : Outcome
  pub ts : ℕ

pub record Event : Type 0 where
  pub message_id : String
  pub outcome : Outcome
  pub ts : ℕ

-- `_accepted` and `_events`
pub record Receiver : Type 0 where
  pub accepted : List Accepted
  pub events : List Event

abbrev pub cleared : Receiver
cleared = record { accepted = []; events = [] }

pub data Reply : Type 0 where
  ok_reply : Reply
  audit_reply : String → ℕ → Reply
  dump_reply : List Accepted → List Event → Reply
  receipt : Reply
  -- a status with an error text
  refused : ℕ → String → Reply
  -- no response: the socket is dropped
  dropped : Reply
  -- an exception that the handler does not catch
  raised : Reply

abbrev pub accepted_of : String → Accepted → Bool
accepted_of mid a = str_eq a.message_id mid

-- `do_GET`, for the path and the first message_id of the query.
unfoldable pub do_get : String → Option String → Receiver → Reply
do_get path mid r =
    if str_eq path "/health"
    then ok_reply
    else if str_eq path "/audit"
    then elim mid [
      | none ↦ refused 400 "message_id required"
      | some m ↦ audit_reply m (count (accepted_of m) r.accepted)
    ]
    else if str_eq path "/dump"
    then dump_reply r.accepted r.events
    else refused 404 "not found"

-- What the body of a delivery is: not JSON, JSON without the two texts, or a message.
pub data Delivery : Type 0 where
  no_object : Delivery
  bad_body : Delivery
  message : String → String → Delivery

abbrev pub both : Option String → Option String → Delivery
both (some mid) (some payload) = message mid payload
both (some mid) none = bad_body
both none payload = bad_body

-- `data["message_id"]` of a value that is no object raises a TypeError, which is not caught.
abbrev pub read_fields : Option Fields → Delivery
read_fields none = no_object
read_fields (some fs) =
    both (string_if (λ m. not (str_eq m "")) (get "message_id" fs))
      (string_if (λ _. true) (get "payload" fs))

unfoldable pub read_message : Option Json → Delivery
read_message none = bad_body
read_message (some doc) = read_fields (fields_of doc)

-- The two appends under the lock.
unfoldable pub record_delivery : String → String → Outcome → ℕ → Receiver → Receiver
record_delivery mid payload outcome now r =
    let event : Event = record { message_id = mid; outcome = outcome; ts = now } in
    let kept : Accepted = record {
      message_id = mid;
      payload = payload;
      mode = outcome;
      ts = now;
    } in
    record {
      accepted = if is_accepting outcome then r.accepted ++ kept ∷ [] else r.accepted;
      events = r.events ++ event ∷ [];
    }

abbrev pub reply_of : Outcome → Reply
reply_of accept = receipt
reply_of reject = refused 500 "transient upstream failure"
reply_of hang_no_accept = dropped
reply_of accept_then_hang = dropped

unfoldable pub deliver : Delivery → Outcome → ℕ → Receiver → Reply × Receiver
unfolding record_delivery
deliver no_object outcome now r = (raised, r)
deliver bad_body outcome now r = (refused 400 "body must be JSON {message_id, payload}", r)
deliver (message mid payload) outcome now r =
    (reply_of outcome, record_delivery mid payload outcome now r)

unfoldable pub do_post : String → Option Json → Outcome → ℕ → Receiver → Reply × Receiver
unfolding deliver
do_post path doc outcome now r =
    if str_eq path "/reset"
    then (ok_reply, cleared)
    else if str_eq path "/deliver"
    then deliver (read_message doc) outcome now r
    else (refused 404 "not found", r)
