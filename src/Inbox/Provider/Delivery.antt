-- ===== src/Inbox/Provider/Delivery.antt =====
-- What happens to the events of mini-inbox/provider.py, for any interleaving of its two threads.
use qwen_3_8_evals.Prelude.{
  ℕ, ◌<◌, String, ◌≡◌, Bool, true, false, ◌||◌, Option, none, some, List, [], ◌∷◌, ◌==◌, any,
}
use qwen_3_8_evals.Inbox.Provider.{
  Payload, Item, Dispatcher, waiting, sending, ended, Provider, Change, Attempt, succeeded, failed,
  raised, emit, post, take_item, check_done, finish_delivery,
}

-- One step of `generator` or of `dispatcher`.
pub data Step : Type 0 where
  emitting : String → Change → ℕ → ℕ → Option ℕ → Step
  posting : Step
  taking : ℕ → Step
  checking : Step
  delivering : Attempt → ℕ → Step

pub record Log : Type 0 where
  pub provider : Provider
  -- the ids of the events that the consumer answered with 200
  pub delivered : List ℕ

abbrev pub has_id : ℕ → Payload → Bool
has_id n x = x.event_id == n

abbrev pub in_outbox : ℕ → List (ℕ × Payload) → Bool
in_outbox n xs = any (λ x. has_id n x.1) xs

abbrev pub in_queue : ℕ → List Item → Bool
in_queue n xs = any (λ i. has_id n i.payload) xs

abbrev pub is_sent : ℕ → Dispatcher → Bool
is_sent n waiting = false
is_sent n (sending x) = has_id n x
is_sent n (ended x) = false

-- Popped by the dispatcher when an exception other than OSError ended it.
abbrev pub is_lost : ℕ → Dispatcher → Bool
is_lost n waiting = false
is_lost n (sending x) = false
is_lost n (ended x) = has_id n x

-- Somewhere on its way: not yet queued, queued, or being delivered.
abbrev pub on_its_way : ℕ → Provider → Bool
on_its_way n p = in_outbox n p.outbox || (in_queue n p.queue || is_sent n p.dispatcher)

abbrev pub delivered_now : Attempt → Dispatcher → List ℕ → List ℕ
delivered_now attempt waiting ids = ids
delivered_now succeeded (sending x) ids = x.event_id ∷ ids
delivered_now failed (sending x) ids = ids
delivered_now raised (sending x) ids = ids
delivered_now attempt (ended x) ids = ids

module _ (events : ℕ) where
  unfoldable pub step : Step → Log → Log
  step (emitting id change now due again) l = record l {
    provider = emit events id change now due again l.provider;
  }
  step posting l = record l { provider = post l.provider }
  step (taking now) l = record l { provider = take_item now l.provider }
  step checking l = record l { provider = check_done events l.provider }
  step (delivering attempt retry) l = record {
    provider = finish_delivery attempt retry l.provider;
    delivered = delivered_now attempt l.provider.dispatcher l.delivered;
  }

  unfoldable pub run : List Step → Log → Log
  run [] l = l
  run (s ∷ rest) l = run rest (step s l)

abbrev pub is_kept : ℕ → Log → Bool
is_kept n l =
    on_its_way n l.provider || (any (λ d. d == n) l.delivered || is_lost n l.provider.dispatcher)

-- Every event that was emitted is on its way, delivered, or the one that ended the dispatcher.
abbrev pub KeepsAll : Log → Type 0
KeepsAll l = (n : ℕ) → n < l.provider.stats.events_emitted → is_kept n l ≡ true

abbrev popped : ℕ → Option (Item × List Item) → Bool
popped n none = false
popped n (some (i, rest)) = has_id n i.payload || in_queue n rest
