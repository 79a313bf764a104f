-- ===== src/Recur/Evaluate/Window.antt =====
-- The instants that `evaluate` of mini-recur/make_goldens.py gives.
use qwen_3_8_evals.Prelude.{
  ℕ, zero, suc, String, ◌≡◌, ◌⊎◌, inl, inr, ◌&&◌, ◌==◌, Bool-cases, any, str_eq, eq_iff, refl, Bool,
  true, false, List, [], ◌∷◌, map, arith, if◌then◌else◌, Option, none, some, sort, insert_sorted,
  All, All-append,
}
use qwen_3_8_evals.Recur.Evaluate.{
  Scenario, Edit, EditKind, set_time, set_timezone, edited_zone, edited_times, Epoch, Zones, Times,
  OccurrenceStatus, scheduled, skipped_dst, Candidate, candidate_before, is_in, Seen, add_candidate,
  add_all, unseen, first_writers, Occurrence, occurrence, resolve, candidate, of_times, of_dates,
  of_epochs, epochs_from, times_of, candidates_of, evaluate,
}

-- An edit moves the scenario to a time zone.
abbrev pub moves_to : String → EditKind → Bool
moves_to zone (set_time _ _) = false
moves_to zone (set_timezone z) = str_eq z zone

-- The time zones of a scenario: its own, and those of its edits.
abbrev pub IsZone : Scenario → String → Type 0
IsZone s zone = (s.timezone ≡ zone) ⊎ (any (λ e. moves_to zone e.kind) s.edits ≡ true)

-- At an instant the clocks of a zone show a local date and time.
abbrev pub Shows : Zones → String → ℕ → ℕ → ℕ → Type 0
Shows zones zone u d time = (zones.local_date zone u ≡ d) × (zones.local_time zone u ≡ time)

-- The instant of a local time that exists; of one that the clocks skip, zoneinfo gives another.
abbrev pub Resolves : Zones → String → ℕ → ℕ → ℕ → OccurrenceStatus → Type 0
Resolves zones zone u d time scheduled = (zones.to_utc zone d time ≡ u) × Shows zones zone u d time
Resolves zones zone u d time skipped_dst =
    (zones.to_utc zone d time ≡ u) × ¬ Shows zones zone u d time

-- A candidate that fires in the window, at the instant of its local time in a zone of the scenario.
abbrev Fires : Zones → Scenario → Candidate → Type 0
Fires zones s c =
    (is_in s.win_start s.win_end c.firing ≡ true)
    × ((zone : String) × IsZone s zone × Resolves zones zone c.firing c.date c.time c.status)

-- A scheduled occurrence is at an instant of the window at which the clocks of a zone of the scenario show
-- its local time; a skipped one has no instant, and its local time does not exist in such a zone.
abbrev pub IsTimely : Zones → Scenario → Occurrence → OccurrenceStatus → Option ℕ → Type 0
IsTimely zones s o scheduled (some u) =
    (is_in s.win_start s.win_end u ≡ true)
    × ((zone : String) × IsZone s zone × Shows zones zone u o.local_date o.local_time)
IsTimely zones s o scheduled none = ⊥
IsTimely zones s o skipped_dst (some u) = ⊥
IsTimely zones s o skipped_dst none =
    (zone : String) × IsZone s zone
    × ¬ Shows zones zone (zones.to_utc zone o.local_date o.local_time) o.local_date o.local_time

resolve-Resolves :
    (zones : Zones) (zone : String) (d time : ℕ)
    → let (status, u) = resolve zones zone d time in Resolves zones zone u d time status
unfolding resolve
resolve-Resolves zones zone d time =
    let u = zones.to_utc zone d time in
    elim (Bool-cases (zones.local_date zone u == d && zones.local_time zone u == time)) [
      | inl shown ↦ rw shown (refl, ground (arith, shown))
      | inr other ↦ rw other (refl, (λ k. ground (arith, other, k.0, k.1)))
    ]

module _ (zones : Zones) (s : Scenario) where
  candidate-Fires :
      (ep : Epoch) (d : ℕ) (id : String) (time : ℕ)
      → IsZone s ep.timezone
      → All (Fires zones s) (candidate zones s ep d id time)
  unfolding candidate
  candidate-Fires ep d id time z =
      let found = resolve-Resolves zones ep.timezone d time in
      keep _ _ (λ k. (ground (arith, k), (ep.timezone, z, found)))
    where
      keep :
          (c : Candidate) (b : Bool)
          → (b ≡ true → Fires zones s c)
          → All (Fires zones s) (if b then c ∷ [] else [])
      keep c true h = (h refl, tt)
      keep c false h = tt

  of_times-Fires :
      (ep : Epoch) (d : ℕ) (ts : Times)
      → IsZone s ep.timezone
      → All (Fires zones s) (of_times zones s ep d ts)
  unfolding of_times
  of_times-Fires ep d [] z = tt
  of_times-Fires ep d ((id, time) ∷ ts) z =
      All-append (Fires zones s) (candidate zones s ep d id time) _ (candidate-Fires ep d id time z)
        (of_times-Fires ep d ts z)

  of_dates-Fires :
      (ep : Epoch) (d left : ℕ)
      → IsZone s ep.timezone
      → All (Fires zones s) (of_dates zones s ep d left)
  unfolding of_dates
  of_dates-Fires ep d zero z = tt
  of_dates-Fires ep d (suc left) z =
      All-append (Fires zones s) (of_times zones s ep d ep.times) _ (of_times-Fires ep d ep.times z)
        (of_dates-Fires ep (suc d) left z)

  of_epochs-Fires :
      (eps : List Epoch)
      → All (λ ep. IsZone s ep.timezone) eps
      → All (Fires zones s) (of_epochs zones s eps)
  unfolding of_epochs
  of_epochs-Fires [] z = tt
  of_epochs-Fires (ep ∷ eps) z =
      All-append (Fires zones s) _ _ (of_dates-Fires ep _ _ z.0) (of_epochs-Fires eps z.1)

  -- The zone of each epoch is the one before it, or that of an edit.
  epochs-IsZone :
      (start : ℕ) (zone : String) (times : Times) (edits : List Edit)
      → IsZone s zone
      → ((z : String)
          → any (λ e. moves_to z e.kind) edits ≡ true
          → any (λ e. moves_to z e.kind) s.edits ≡ true)
      → All (λ ep. IsZone s ep.timezone) (epochs_from start zone times edits)
  unfolding epochs_from any
  epochs-IsZone start zone times [] z among = (z, tt)
  epochs-IsZone start zone times (e ∷ edits) z among = (
    z,
    epochs-IsZone e.at_instant (edited_zone e.kind zone) (edited_times e.kind times) edits
        (next e.kind (λ y k. among y (ground (arith, k)))) (λ y k. among y (ground (arith, k))),
  )
    where
      next :
          (k : EditKind)
          → ((y : String) → moves_to y k ≡ true → any (λ x. moves_to y x.kind) s.edits ≡ true)
          → IsZone s (edited_zone k zone)
      next (set_time _ _) f = z
      next (set_timezone y) f = inr (f y (ground (arith, eq_iff y y)))

module _ (P : Candidate → Type 0) where
  All-insert :
      (c : Candidate) (cs : List Candidate)
      → P c
      → All P cs
      → All P (insert_sorted candidate_before c cs)
  unfolding insert_sorted
  All-insert c [] p h = (p, tt)
  All-insert c (x ∷ cs) p h = ground (arith, p, h.0, h.1, All-insert c cs p h.1)

  All-sort : (cs : List Candidate) → All P cs → All P (sort candidate_before cs)
  unfolding sort
  All-sort [] h = tt
  All-sort (c ∷ cs) h = All-insert c (sort candidate_before cs) h.0 (All-sort cs h.1)

  All-add : (c : Candidate) (seen : Seen) → P c → All P seen.out → All P (add_candidate c seen).out
  unfolding add_candidate
  All-add c seen p h = ground (arith, p, h)

  All-add_all :
      (cs : List Candidate) (seen : Seen) → All P cs → All P seen.out → All P (add_all cs seen).out
  unfolding add_all
  All-add_all [] seen p h = h
  All-add_all (c ∷ cs) seen p h = All-add_all cs (add_candidate c seen) p.1 (All-add c seen p.0 h)

occurrence-IsTimely :
    (zones : Zones) (s : Scenario) (c : Candidate)
    → Fires zones s c
    → IsTimely zones s (occurrence c) c.status (occurrence c).instant
occurrence-IsTimely zones s c h = by_status c.status h
  where
    by_status :
        (st : OccurrenceStatus)
        → Fires zones s (record c { status = st })
        → IsTimely zones s
            (occurrence (record c { status = st }))
            st
            (occurrence (record c { status = st })).instant
    by_status scheduled f = (f.0, (f.1.0, f.1.1, f.1.2.1))
    by_status skipped_dst f = (f.1.0, f.1.1, rw f.1.2.0 f.1.2.1)

map-IsTimely :
    (zones : Zones) (s : Scenario) (cs : List Candidate)
    → All (Fires zones s) cs
    → All (λ o. IsTimely zones s o o.status o.instant) (map occurrence cs)
map-IsTimely zones s [] h = tt
map-IsTimely zones s (c ∷ cs) h = (occurrence-IsTimely zones s c h.0, map-IsTimely zones s cs h.1)

-- Every scheduled occurrence that a scenario gives is at an instant inside the window at which the clocks
-- of a time zone of the scenario show its local date and time; every skipped one has no instant, and the
-- clocks of such a zone do not show its local time at the instant that zoneinfo gives for it.
pub evaluate_window :
    (zones : Zones) (s : Scenario)
    → All (λ o. IsTimely zones s o o.status o.instant) (evaluate zones s)
unfolding evaluate first_writers candidates_of
evaluate_window zones s =
    let cs = candidates_of zones s in
    let times = times_of s.rules [] in
    let found =
      of_epochs-Fires zones s (epochs_from 0 s.timezone times s.edits)
        (epochs-IsZone zones s 0 s.timezone times s.edits (inl refl) (λ z k. k)) in
    let seen = add_all (sort candidate_before cs) unseen in
    map-IsTimely zones s (sort candidate_before seen.out) (
      All-sort (Fires zones s) seen.out (
        All-add_all (Fires zones s) (sort candidate_before cs) unseen
          (All-sort (Fires zones s) cs found) tt))
