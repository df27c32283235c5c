-- ===== src/Gateway/Admission/InFlight.antt =====
-- The gauge of requests in flight, and the cap on those that run.
use nexus_scout.Base.{refl, ℕ, ◌+◌, ◌≤◌, ◌≡◌, List, [], ◌∷◌, ◌++◌, arith}
use nexus_scout.Gateway.Admission.{
  Shared, Phase, arriving, numbered, entered, acquiring, running, shedding, rejecting, leaving,
  answered, Event, proceed, cancel, admit, Server, Step, arrive, serve, Reach, start, later, shed,
  record_status, drop_guard,
}
use nexus_scout.Gateway.Limits.{HttpLimits}

-- 1 for a request that holds its guard.
abbrev pub held : Phase → ℕ
held arriving = 0
held numbered = 0
held answered = 0
held _ = 1

-- 1 for a request that has passed the load of the gauge and is not shed.
abbrev pub admitted : Phase → ℕ
admitted acquiring = 1
admitted running = 1
admitted _ = 0

unfoldable pub count : (Phase → ℕ) → List Phase → ℕ
count w [] = 0
count w (p ∷ ps) = w p + count w ps

pub count-append :
    (w : Phase → ℕ) (before : List Phase) (p : Phase) (behind : List Phase)
    → count w (before ++ (p ∷ behind)) ≡ w p + (count w before + count w behind)
unfolding count
count-append w [] p behind = omega arith
count-append w (q ∷ before) p behind = omega (arith, count-append w before p behind)

admitted-held : (ps : List Phase) → count admitted ps ≤ count held ps
unfolding count
admitted-held [] = omega arith
admitted-held (arriving ∷ ps) = omega (arith, admitted-held ps)
admitted-held (numbered ∷ ps) = omega (arith, admitted-held ps)
admitted-held (entered ∷ ps) = omega (arith, admitted-held ps)
admitted-held (acquiring ∷ ps) = omega (arith, admitted-held ps)
admitted-held (running ∷ ps) = omega (arith, admitted-held ps)
admitted-held (shedding ∷ ps) = omega (arith, admitted-held ps)
admitted-held (rejecting ∷ ps) = omega (arith, admitted-held ps)
admitted-held (leaving ∷ ps) = omega (arith, admitted-held ps)
admitted-held (answered ∷ ps) = omega (arith, admitted-held ps)

-- The gauge is the number of guards, and the cap holds.
pub record IsCapped (limits : HttpLimits) (s : Server) : Type 0 where
  pub gauge : s.shared.in_flight ≡ count held s.requests
  pub cap : count admitted s.requests ≤ limits.max_concurrency

-- A step of one request keeps the invariant, whatever the others are.
admit-IsCapped :
    (limits : HttpLimits) (event : Event) (s : Shared) (p : Phase) (guards others : ℕ)
    → others ≤ guards
    → s.in_flight ≡ held p + guards
    → admitted p + others ≤ limits.max_concurrency
    → ((admit limits event s p).0.in_flight ≡ held (admit limits event s p).1 + guards)
      × (admitted (admit limits event s p).1 + others ≤ limits.max_concurrency)
unfolding admit shed record_status drop_guard
admit-IsCapped limits (proceed now status) s arriving guards others h g c = ground arith
admit-IsCapped limits (proceed now status) s numbered guards others h g c = ground arith
admit-IsCapped limits (proceed now status) s entered guards others h g c = ground arith
admit-IsCapped limits (proceed now status) s acquiring guards others h g c = ground arith
admit-IsCapped limits (proceed now status) s running guards others h g c = ground arith
admit-IsCapped limits (proceed now status) s shedding guards others h g c = ground arith
admit-IsCapped limits (proceed now status) s rejecting guards others h g c = ground arith
admit-IsCapped limits (proceed now status) s leaving guards others h g c = ground arith
admit-IsCapped limits (proceed now status) s answered guards others h g c = ground arith
admit-IsCapped limits cancel s arriving guards others h g c = (g, c)
admit-IsCapped limits cancel s numbered guards others h g c = (g, c)
admit-IsCapped limits cancel s entered guards others h g c = (g, c)
admit-IsCapped limits cancel s acquiring guards others h g c = (g, c)
admit-IsCapped limits cancel s running guards others h g c = ground arith
admit-IsCapped limits cancel s shedding guards others h g c = (g, c)
admit-IsCapped limits cancel s rejecting guards others h g c = (g, c)
admit-IsCapped limits cancel s leaving guards others h g c = (g, c)
admit-IsCapped limits cancel s answered guards others h g c = (g, c)

Step-IsCapped :
    {limits : HttpLimits} {s t : Server} → Step limits s t → IsCapped limits s → IsCapped limits t
unfolding count
Step-IsCapped (arrive s) inv = record {
  gauge = omega (arith, inv.gauge);
  cap = omega (arith, inv.cap);
}
Step-IsCapped {limits} (serve s before p behind event) inv =
    let kept =
      admit-IsCapped limits event s p (count held before + count held behind)
        (count admitted before + count admitted behind)
        (omega (arith, admitted-held before, admitted-held behind))
        (omega (arith, inv.gauge, count-append held before p behind))
        (omega (arith, inv.cap, count-append admitted before p behind)) in
    let after = (admit limits event s p).1 in
    record {
      gauge = omega (arith, kept.0, count-append held before after behind);
      cap = omega (arith, kept.1, count-append admitted before after behind);
    }

-- Whatever order the requests make their steps in, whenever they are cancelled, and whatever the
-- bucket and the handlers do: the gauge is the number of requests that hold a guard, and those that
-- are past its load and not shed are never more than the cap on concurrency.
pub Reach-IsCapped :
    (limits : HttpLimits) (now : ℕ) (s : Server) → Reach limits now s → IsCapped limits s
unfolding count
Reach-IsCapped limits now s start = record { gauge = refl; cap = omega arith }
Reach-IsCapped limits now t (later {s} r step) = Step-IsCapped step (Reach-IsCapped limits now s r)
