-- ===== src/Publisher/Receiver/Audit.antt =====
-- What /audit of mini-publisher/receiver.py says, after any sequence of requests.
use mathlib.Core.List.{append-nil}
use qwen_3_8_evals.Prelude.{
  ℕ, String, ◌≡◌, refl, sym, ap, ◌∙◌, Bool, ◌&&◌, Option, some, List, [], ◌∷◌, ◌++◌, map, arith,
  str_eq, count, select,
}
use qwen_3_8_evals.Json.{Json}
use qwen_3_8_evals.Publisher.Receiver.{
  Outcome, accept, reject, hang_no_accept, accept_then_hang, is_accepting, Accepted, Event,
  Receiver, cleared, audit_reply, accepted_of, do_get, Delivery, no_object, bad_body, message,
  read_message, record_delivery, deliver, do_post,
}

-- The requests that may change the lists.
pub record Post : Type 0 where
  pub path : String
  pub doc : Option Json
  pub outcome : Outcome
  pub now : ℕ

unfoldable pub serve : List Post → Receiver → Receiver
serve [] r = r
serve (p ∷ rest) r = serve rest (do_post p.path p.doc p.outcome p.now r).1

-- An event of that message that was accepted.
abbrev pub accepts : String → Event → Bool
accepts mid e = str_eq e.message_id mid && is_accepting e.outcome

-- Every accepted delivery is an event, with its message, time and outcome, in the same order.
abbrev pub event_of : Accepted → Event
event_of a = record { message_id = a.message_id; outcome = a.mode; ts = a.ts }

abbrev pub IsConsistent : Receiver → Type 0
IsConsistent r = map event_of r.accepted ≡ select (λ e. is_accepting e.outcome) r.events

select-append :
    (p : Event → Bool) (xs ys : List Event) → select p (xs ++ ys) ≡ select p xs ++ select p ys
unfolding select
select-append p [] ys = refl
select-append p (x ∷ xs) ys = ground (arith, select-append p xs ys)

map_event-append :
    (xs ys : List Accepted) → map event_of (xs ++ ys) ≡ map event_of xs ++ map event_of ys
map_event-append [] ys = refl
map_event-append (x ∷ xs) ys = ap (λ t. event_of x ∷ t) (map_event-append xs ys)

record_delivery-IsConsistent :
    (mid payload : String) (o : Outcome) (now : ℕ) (r : Receiver)
    → IsConsistent r
    → IsConsistent (record_delivery mid payload o now r)
unfolding record_delivery select
record_delivery-IsConsistent mid payload accept now r h =
    let kept : Accepted = record { message_id = mid; payload = payload; mode = accept; ts = now } in
    map_event-append r.accepted (kept ∷ [])
    ∙ ap (λ t. t ++ event_of kept ∷ []) h
    ∙ sym (select-append (λ e. is_accepting e.outcome) r.events (event_of kept ∷ []))
record_delivery-IsConsistent mid payload accept_then_hang now r h =
    let kept : Accepted = record {
      message_id = mid;
      payload = payload;
      mode = accept_then_hang;
      ts = now;
    } in
    map_event-append r.accepted (kept ∷ [])
    ∙ ap (λ t. t ++ event_of kept ∷ []) h
    ∙ sym (select-append (λ e. is_accepting e.outcome) r.events (event_of kept ∷ []))
record_delivery-IsConsistent mid payload reject now r h =
    let event : Event = record { message_id = mid; outcome = reject; ts = now } in
    h ∙ sym (append-nil _) ∙ sym (select-append (λ e. is_accepting e.outcome) r.events (event ∷ []))
record_delivery-IsConsistent mid payload hang_no_accept now r h =
    let event : Event = record { message_id = mid; outcome = hang_no_accept; ts = now } in
    h ∙ sym (append-nil _) ∙ sym (select-append (λ e. is_accepting e.outcome) r.events (event ∷ []))

deliver-IsConsistent :
    (b : Delivery) (o : Outcome) (now : ℕ) (r : Receiver)
    → IsConsistent r
    → IsConsistent (deliver b o now r).1
unfolding deliver
deliver-IsConsistent no_object o now r h = h
deliver-IsConsistent bad_body o now r h = h
deliver-IsConsistent (message mid payload) o now r h =
    record_delivery-IsConsistent mid payload o now r h

do_post-IsConsistent :
    (p : Post) (r : Receiver)
    → IsConsistent r
    → IsConsistent (do_post p.path p.doc p.outcome p.now r).1
unfolding do_post select
do_post-IsConsistent p r h =
    ground (arith, h, deliver-IsConsistent (read_message p.doc) p.outcome p.now r h)

serve-IsConsistent : (ps : List Post) (r : Receiver) → IsConsistent r → IsConsistent (serve ps r)
unfolding serve
serve-IsConsistent [] r h = h
serve-IsConsistent (p ∷ ps) r h = serve-IsConsistent ps _ (do_post-IsConsistent p r h)

count-accepted :
    (mid : String) (xs : List Accepted)
    → count (accepted_of mid) xs ≡ count (λ e. str_eq e.message_id mid) (map event_of xs)
unfolding count
count-accepted mid [] = refl
count-accepted mid (x ∷ xs) = ground (arith, count-accepted mid xs)

count-select :
    (mid : String) (es : List Event)
    → count (λ e. str_eq e.message_id mid) (select (λ e. is_accepting e.outcome) es)
      ≡ count (accepts mid) es
unfolding count select
count-select mid [] = refl
count-select mid (e ∷ es) = ground (arith, count-select mid es)

-- After any sequence of POST requests to a cleared receiver, whatever the paths, bodies and
-- outcomes, /audit answers for a message with the number of its events that were accepted.
pub audit_exact :
    (ps : List Post) (mid : String)
    → let r = serve ps cleared in
      do_get "/audit" (some mid) r ≡ audit_reply mid (count (accepts mid) r.events)
unfolding do_get
audit_exact ps mid =
    let r = serve ps cleared in
    ap (audit_reply mid) (
      count-accepted mid r.accepted
      ∙ ap (count (λ e. str_eq e.message_id mid))
          (serve-IsConsistent ps cleared (unfold select in refl))
      ∙ count-select mid r.events)
