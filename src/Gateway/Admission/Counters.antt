-- ===== src/Gateway/Admission/Counters.antt =====
-- The counters that `/metrics` reports, against the requests.
use nexus_scout.Base.{refl, ℕ, ◌+◌, ◌≤◌, ◌≡◌, arith}
use nexus_scout.Gateway.Admission.InFlight.{count, count-append}
use nexus_scout.Gateway.Admission.{
  Shared, Phase, arriving, numbered, entered, acquiring, running, shedding, rejecting, leaving,
  answered, Event, proceed, cancel, admit, Server, Step, arrive, serve, Reach, start, later, shed,
  record_status, drop_guard,
}
use nexus_scout.Gateway.Limits.{HttpLimits}

-- 1 for a request that has been counted.
abbrev pub counted : Phase → ℕ
counted arriving = 0
counted _ = 1

-- 1 for a request that has been counted and whose outcome has not.
abbrev pub pending : Phase → ℕ
pending numbered = 1
pending entered = 1
pending acquiring = 1
pending running = 1
pending shedding = 1
pending rejecting = 1
pending _ = 0

-- 1 for a request that has been counted as shed and not yet among the 4xx.
abbrev pub between : Phase → ℕ
between rejecting = 1
between _ = 0

-- The counters of outcomes are within the counter of requests, and the shed are among the 4xx, but for
-- those that stand between the two counters.
pub record IsTallied (s : Server) : Type 0 where
  pub requests_counted : s.shared.total ≡ count counted s.requests
  pub outcomes : s.shared.rejected + s.shared.failed + count pending s.requests ≤ s.shared.total
  pub shed_within : s.shared.shed_count ≤ s.shared.rejected + count between s.requests

-- What one request's step does to the counters, with the others' shares beside it.
abbrev Tallies : Shared → ℕ → ℕ → ℕ → Phase → Type 0
Tallies s others open_others shed_others p =
    (s.total ≡ counted p + others)
    × (s.rejected + s.failed + (pending p + open_others) ≤ s.total)
    × (s.shed_count ≤ s.rejected + (between p + shed_others))

admit-Tallies :
    (limits : HttpLimits) (event : Event) (s : Shared) (p : Phase)
    (others open_others shed_others : ℕ)
    → Tallies s others open_others shed_others p
    → Tallies (admit limits event s p).0 others open_others shed_others (admit limits event s p).1
unfolding admit shed record_status drop_guard
admit-Tallies limits (proceed now status) s arriving others open_others shed_others h = ground arith
admit-Tallies limits (proceed now status) s numbered others open_others shed_others h = ground arith
admit-Tallies limits (proceed now status) s entered others open_others shed_others h = ground arith
admit-Tallies limits (proceed now status) s acquiring others open_others shed_others h =
    ground arith
admit-Tallies limits (proceed now status) s running others open_others shed_others h = ground arith
admit-Tallies limits (proceed now status) s shedding others open_others shed_others h = ground arith
admit-Tallies limits (proceed now status) s rejecting others open_others shed_others h =
    ground arith
admit-Tallies limits (proceed now status) s leaving others open_others shed_others h = ground arith
admit-Tallies limits (proceed now status) s answered others open_others shed_others h = h
admit-Tallies limits cancel s arriving others open_others shed_others h = h
admit-Tallies limits cancel s numbered others open_others shed_others h = h
admit-Tallies limits cancel s entered others open_others shed_others h = h
admit-Tallies limits cancel s acquiring others open_others shed_others h = h
admit-Tallies limits cancel s running others open_others shed_others h = ground arith
admit-Tallies limits cancel s shedding others open_others shed_others h = h
admit-Tallies limits cancel s rejecting others open_others shed_others h = h
admit-Tallies limits cancel s leaving others open_others shed_others h = h
admit-Tallies limits cancel s answered others open_others shed_others h = h

Step-IsTallied : {limits : HttpLimits} {s t : Server} → Step limits s t → IsTallied s → IsTallied t
unfolding count
Step-IsTallied (arrive s) inv = record {
  requests_counted = omega (arith, inv.requests_counted);
  outcomes = omega (arith, inv.outcomes);
  shed_within = omega (arith, inv.shed_within);
}
Step-IsTallied {limits} (serve s before p behind event) inv =
    let (total, outcomes, within) =
      admit-Tallies limits event s p (count counted before + count counted behind)
        (count pending before + count pending behind) (count between before + count between behind)
        (
          omega (arith, inv.requests_counted, count-append counted before p behind),
          omega (arith, inv.outcomes, count-append pending before p behind),
          omega (arith, inv.shed_within, count-append between before p behind),
        ) in
    let after = (admit limits event s p).1 in
    record {
      requests_counted = omega (arith, total, count-append counted before after behind);
      outcomes = omega (arith, outcomes, count-append pending before after behind);
      shed_within = omega (arith, within, count-append between before after behind);
    }

-- Whatever order the requests make their steps in, and whenever they are cancelled: the counter of
-- requests is the number of those that have come in; the 4xx and the 5xx, with the requests whose
-- outcome is open, are no more than that; and the shed are among the 4xx, but for the requests that
-- stand between the two counters.
pub Reach-IsTallied :
    (limits : HttpLimits) (now : ℕ) (s : Server) → Reach limits now s → IsTallied s
unfolding count
Reach-IsTallied limits now s start = record {
  requests_counted = refl;
  outcomes = omega arith;
  shed_within = omega arith;
}
Reach-IsTallied limits now t (later {s} r step) =
    Step-IsTallied step (Reach-IsTallied limits now s r)
