-- ===== src/Inbox/Provider.antt =====
-- mini-inbox/provider.py: the truth, the queue of deliveries and the rate-limited endpoint. What
-- `_rng` draws, the clock and the consumer's answers are arguments. `generator` and `dispatcher` run
-- beside each other, so each piece of them that holds the lock is a step of its own, and what they
-- keep in local variables between two pieces is part of the state.
pub mod Rate
pub mod Delivery
use qwen_3_8_evals.Prelude.{
  ℕ, ◌+◌, String, Bool, true, false, not, ◌&&◌, ◌||◌, Option, none, some, List, [], ◌∷◌, ◌++◌,
  if◌then◌else◌, str_eq, leb, ltb, ◌==◌, length, any, select,
}

pub record Account : Type 0 where
  pub plan : String
  pub status : String

abbrev pub Truth : Type 0
Truth = List (String × Account)

pub record Stats : Type 0 where
  pub events_emitted : ℕ
  pub deliveries_ok : ℕ
  pub delivery_failures : ℕ
  pub subscription_requests : ℕ
  pub rate_429s : ℕ
  pub done : Bool

-- An event; its id is `ev-n`, and `state` its "data".
pub record Payload : Type 0 where
  pub event_id : ℕ
  pub account_id : String
  pub state : Account
  pub created_at : ℕ

pub record Item : Type 0 where
  pub due : ℕ
  pub seq : ℕ
  pub payload : Payload

-- `dispatcher` between its locked pieces: it has no payload, or delivers one, or is about to queue it
-- again. An exception that is no OSError, such as an http.client.HTTPException, ends the thread with the
-- payload that it had popped.
pub data Dispatcher : Type 0 where
  waiting : Dispatcher
  sending ended : Payload → Dispatcher

pub record Provider : Type 0 where
  pub truth : Truth
  pub stats : Stats
  pub touched : List String
  pub queue : List Item
  pub queue_seq : ℕ
  pub rate_window : List ℕ
  -- in `generator`: the calls of `enqueue` that the event still gets, as time due and payload
  pub outbox : List (ℕ × Payload)
  pub dispatcher : Dispatcher

unfoldable pub account_of : String → Truth → Option Account
account_of id [] = none
account_of id ((k, a) ∷ rest) = if str_eq k id then some a else account_of id rest

-- `_truth[acct][...] = ...`
unfoldable pub set_account : String → Account → Truth → Truth
set_account id a [] = []
set_account id a ((k, b) ∷ rest) =
    if str_eq k id then (k, a) ∷ rest else (k, b) ∷ set_account id a rest

pub data Change : Type 0 where
  set_plan set_status : String → Change

abbrev pub changed : Change → Account → Account
changed (set_plan plan) a = record a { plan = plan }
changed (set_status status) a = record a { status = status }

abbrev pub add_touched : String → List String → List String
add_touched id ids = if any (str_eq id) ids then ids else id ∷ ids

-- `enqueue`; `due` is `time.time() + delay`.
unfoldable pub enqueue : ℕ → Payload → Provider → Provider
enqueue due payload p = record p {
  queue_seq = p.queue_seq + 1;
  queue = record { due = due; seq = p.queue_seq + 1; payload = payload } ∷ p.queue;
}

abbrev pub copies : ℕ → Option ℕ → Payload → List (ℕ × Payload)
copies due none payload = (due, payload) ∷ []
copies due (some again) payload = (due, payload) ∷ (again, payload) ∷ []

-- The locked part of a round of `generator`, for an account of the truth: `again` is the time of the
-- duplicate or the straggler, if the event gets one.
abbrev pub emit_account : Option Account → String → Change → ℕ → ℕ → Option ℕ → Provider → Provider
emit_account none id change now due again p = p
emit_account (some a) id change now due again p =
    let n = p.stats.events_emitted in
    let payload : Payload = record {
      event_id = n;
      account_id = id;
      state = changed change a;
      created_at = now;
    } in
    record p {
      truth = set_account id (changed change a) p.truth;
      stats = record p.stats { events_emitted = n + 1 };
      touched = add_touched id p.touched;
      outbox = copies due again payload;
    }

abbrev pub is_idle : List (ℕ × Payload) → Bool
is_idle [] = true
is_idle (_ ∷ _) = false

module _ (events : ℕ) where
  -- `for n in range(EVENTS)`: a round starts when the one before has made its calls.
  unfoldable pub emit : String → Change → ℕ → ℕ → Option ℕ → Provider → Provider
  emit id change now due again p =
      if is_idle p.outbox && ltb p.stats.events_emitted events
      then emit_account (account_of id p.truth) id change now due again p
      else p

-- The next call of `enqueue` in `generator`.
unfoldable pub post : Provider → Provider
unfolding enqueue
post p = elim p.outbox [
  | [] ↦ p
  | (due, payload) ∷ rest ↦ enqueue due payload (record p { outbox = rest })
]

-- The order of the heap.
abbrev pub before : Item → Item → Bool
before a b = ltb a.due b.due || (a.due == b.due && leb a.seq b.seq)

abbrev pub least_of : Item → List Item → Option (Item × List Item) → Option (Item × List Item)
least_of x xs none = some (x, [])
least_of x xs (some (y, rest)) = if before x y then some (x, xs) else some (y, x ∷ rest)

-- The least item, and the others.
unfoldable pub heappop : List Item → Option (Item × List Item)
heappop [] = none
heappop (x ∷ xs) = least_of x xs (heappop xs)

abbrev pub is_empty : List Item → Bool
is_empty [] = true
is_empty (_ ∷ _) = false

abbrev pub take_popped : Option (Item × List Item) → ℕ → Provider → Provider
take_popped none now p = p
take_popped (some (item, rest)) now p =
    if leb item.due now then record p { queue = rest; dispatcher = sending item.payload } else p

-- The first locked part of a round of `dispatcher`.
unfoldable pub take_item : ℕ → Provider → Provider
take_item now p = elim p.dispatcher [
  | waiting ↦ take_popped (heappop p.queue) now p
  | sending _ ↦ p
  | ended _ ↦ p
]

abbrev mark_done : Bool → Provider → Provider
mark_done all_sent p = if all_sent then record p { stats = record p.stats { done = true } } else p

-- The second, in a round that took nothing.
unfoldable pub check_done : ℕ → Provider → Provider
check_done events p = elim p.dispatcher [
  | waiting ↦ mark_done (leb events p.stats.events_emitted && is_empty p.queue) p
  | sending _ ↦ p
  | ended _ ↦ p
]

-- How a POST to the consumer ends: with 200, with another status or an OSError, or with another exception.
pub data Attempt : Type 0 where
  succeeded failed raised : Attempt

unfoldable pub finish_attempt : Attempt → Payload → ℕ → Provider → Provider
unfolding enqueue
finish_attempt succeeded payload retry p = record p {
  stats = record p.stats { deliveries_ok = p.stats.deliveries_ok + 1 };
  dispatcher = waiting;
}
finish_attempt failed payload retry p = enqueue retry payload (record p {
  stats = record p.stats { delivery_failures = p.stats.delivery_failures + 1 };
  dispatcher = waiting;
})
finish_attempt raised payload retry p = record p { dispatcher = ended payload }

-- The end of the round.
unfoldable pub finish_delivery : Attempt → ℕ → Provider → Provider
unfolding finish_attempt
finish_delivery attempt retry p = elim p.dispatcher [
  | waiting ↦ p
  | sending payload ↦ finish_attempt attempt payload retry p
  | ended _ ↦ p
]

pub data Reply : Type 0 where
  too_many : Reply
  unknown : Reply
  subscription : String → Account → Reply

-- `now - t < 60`, for a clock with `minute` units to 60 seconds
abbrev pub is_recent : ℕ → ℕ → ℕ → Bool
is_recent minute now t = ltb now (t + minute)

abbrev pub found_account : String → Option Account → Reply
found_account id none = unknown
found_account id (some a) = subscription id a

abbrev pub lookup_account : Option String → Truth → Reply
lookup_account none truth = unknown
lookup_account (some id) truth = found_account id (account_of id truth)

-- The branch on a window that is full, and what is left of it.
abbrev pub admit : Bool → List ℕ → Option String → ℕ → Provider → Reply × Provider
admit true window id now p = (
  too_many,
  record p {
    stats = record p.stats {
      subscription_requests = p.stats.subscription_requests + 1;
      rate_429s = p.stats.rate_429s + 1;
    };
    rate_window = window;
  },
)
admit false window id now p = (
  lookup_account id p.truth,
  record p {
    stats = record p.stats { subscription_requests = p.stats.subscription_requests + 1 };
    rate_window = window ++ now ∷ [];
  },
)

module _ (rate_limit minute : ℕ) where
  -- GET /subscription
  unfoldable pub get_subscription : Option String → ℕ → Provider → Reply × Provider
  get_subscription id now p =
      let window = select (is_recent minute now) p.rate_window in
      admit (leb rate_limit (length window)) window id now p
