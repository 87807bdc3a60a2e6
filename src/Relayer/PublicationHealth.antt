-- ===== src/Relayer/PublicationHealth.antt =====
-- relayer/src/rooms-publication-health.ts: what the relayer remembers of a failed publication.
-- The number `stamp` of an incident stands for the identity of its object: every failure makes a new
-- one. The database calls, which mirror the state, are left out; `observe` is split at its wait for
-- the database, where a failure may come in between.
use pongit.Common.{
  ℕ, ◌+◌, ◌≤◌, ◌<◌, ◌≡◌, ◌⊎◌, ◌↔◌, refl, Bool, true, false, not, ◌||◌, ◌&&◌, arith, leb, ltb, ◌==◌,
  if◌then◌else◌, Option, none, some, Text, subst, ap,
}

pub record PublicationIncident : Type 0 where
  pub stamp : ℕ
  pub epoch : ℕ
  pub batch : ℕ
  pub reason : Text
  pub relay_status : Option ℕ
  pub failed_at : ℕ

pub record Health : Type 0 where
  pub incident : Option PublicationIncident
  pub retry_at : ℕ
  pub failures : ℕ

-- What `publicationFailureDetails` reads from the error.
pub record FailureDetails : Type 0 where
  pub batch : Option ℕ
  pub reason : Text
  pub relay_status : Option ℕ

-- The state at the start, from the incident that the database holds.
unfoldable pub restore : Option PublicationIncident → ℕ → Health
restore none now = record { incident = none; retry_at = 0; failures = 0 }
restore (some i) now = record { incident = some i; retry_at = now; failures = i.stamp + 1 }

unfoldable pub claim_retry : Health → ℕ → Health × Bool
claim_retry h now = claim h.incident
  where
    claim : Option PublicationIncident → Health × Bool
    claim none = (h, false)
    claim (some i) =
        if ltb now h.retry_at then (h, false) else (record h { retry_at = now + 30000 }, true)

-- `a ?? b`
abbrev pub or_else : Option ℕ → ℕ → ℕ
or_else none b = b
or_else (some a) b = a

abbrev pub or_status : Option ℕ → Option ℕ → Option ℕ
or_status none b = b
or_status (some a) b = some a

-- A status that is missing or 0 is false.
abbrev pub has_status : Option ℕ → Bool
has_status none = false
has_status (some s) = not (s == 0)

-- The incident after a failure, in an epoch with no incident.
abbrev pub first_incident : FailureDetails → ℕ → ℕ → ℕ → ℕ → PublicationIncident
first_incident d stamp epoch batch now = record {
  stamp = stamp;
  epoch = epoch;
  batch = or_else d.batch (batch + 1);
  reason = d.reason;
  relay_status = d.relay_status;
  failed_at = now;
}

abbrev pub next_incident :
    Option PublicationIncident → FailureDetails → ℕ → ℕ → ℕ → ℕ → PublicationIncident
next_incident none d stamp epoch batch now = first_incident d stamp epoch batch now
next_incident (some i) d stamp epoch batch now =
    if i.epoch == epoch
    then record {
      stamp = stamp;
      epoch = epoch;
      batch = or_else d.batch i.batch;
      reason = if has_status d.relay_status then d.reason else i.reason;
      relay_status = or_status d.relay_status i.relay_status;
      failed_at = i.failed_at;
    }
    else first_incident d stamp epoch batch now

unfoldable pub fail : Health → FailureDetails → ℕ → ℕ → ℕ → Health
fail h d epoch batch now = record {
  incident = some (next_incident h.incident d h.failures epoch batch now);
  retry_at = now + 30000;
  failures = h.failures + 1;
}

pub record Observed : Type 0 where
  pub node_epoch : ℕ
  pub committed_batches : ℕ
  pub hub_epoch : ℕ
  pub batch_index : ℕ

unfoldable pub is_recovered : PublicationIncident → Observed → Bool
is_recovered i o =
    ltb i.epoch o.hub_epoch && o.committed_batches == o.batch_index
    || o.hub_epoch == i.epoch && leb i.batch o.committed_batches && leb i.batch o.batch_index

abbrev recovered_incident : Observed → Option PublicationIncident → Option PublicationIncident
recovered_incident o none = none
recovered_incident o (some i) =
    if o.node_epoch == o.hub_epoch && is_recovered i o then some i else none

-- `observe` up to its wait: the incident to delete.
unfoldable pub observe_start : Health → Observed → Option PublicationIncident
observe_start h o = recovered_incident o h.incident

abbrev is_same : PublicationIncident → Option PublicationIncident → Bool
is_same prior none = false
is_same prior (some i) = i.stamp == prior.stamp

-- `observe` from `if(incident!==prior)`.
unfoldable pub observe_end : Health → PublicationIncident → Health × Bool
observe_end h prior =
    if is_same prior h.incident
    then (record h { incident = none; retry_at = 0 }, true)
    else (h, false)

-- After a failure a retry is granted exactly from 30 seconds on, and within 30 seconds of one that
-- was granted no other is.
pub retry_spaced :
    (h : Health) (d : FailureDetails) (epoch batch now at later : ℕ)
    → later < at + 30000
    → let failed = fail h d epoch batch now in
      let first = claim_retry failed at in
      ((first.1 ≡ true) ↔ (now + 30000 ≤ at))
      × (first.1 ≡ true → (claim_retry first.0 later).1 ≡ false)
unfolding fail claim_retry
retry_spaced h d epoch batch now at later lt = ground arith

-- The stamp of an incident is that of a failure that has been.
abbrev pub IsStamped : ℕ → Option PublicationIncident → Type 0
IsStamped failures none = Unit
IsStamped failures (some i) = i.stamp < failures

recovered-needs :
    (o : Observed) (m : Option PublicationIncident) (prior : PublicationIncident)
    → recovered_incident o m ≡ some prior
    → (m ≡ some prior)
      × (o.node_epoch ≡ o.hub_epoch)
      × (((prior.epoch < o.hub_epoch) × (o.committed_batches ≡ o.batch_index))
          ⊎ ((prior.epoch ≡ o.hub_epoch)
              × (prior.batch ≤ o.committed_batches)
              × (prior.batch ≤ o.batch_index)))
unfolding is_recovered
recovered-needs o none prior e = cc
recovered-needs o (some i) prior e = ground arith

-- An incident is taken for recovered only where the node and the hub agree on the epoch, and either
-- a later epoch has all its batches on both sides, or both have the failed batch.
observe_start_needs :
    (h : Health) (o : Observed) (prior : PublicationIncident)
    → observe_start h o ≡ some prior
    → (h.incident ≡ some prior)
      × (o.node_epoch ≡ o.hub_epoch)
      × (((prior.epoch < o.hub_epoch) × (o.committed_batches ≡ o.batch_index))
          ⊎ ((prior.epoch ≡ o.hub_epoch)
              × (prior.batch ≤ o.committed_batches)
              × (prior.batch ≤ o.batch_index)))
unfolding observe_start
observe_start_needs h o prior e = recovered-needs o h.incident prior e

next-stamp :
    (m : Option PublicationIncident) (d : FailureDetails) (stamp epoch batch now : ℕ)
    → (next_incident m d stamp epoch batch now).stamp ≡ stamp
next-stamp none d stamp epoch batch now = refl
next-stamp (some i) d stamp epoch batch now = ground arith

-- A failure keeps the stamps in order.
pub fail-IsStamped :
    (h : Health) (d : FailureDetails) (epoch batch now : ℕ)
    → let failed = fail h d epoch batch now in IsStamped failed.failures failed.incident
unfolding fail
fail-IsStamped h d epoch batch now =
    omega (arith, next-stamp h.incident d h.failures epoch batch now)

-- A recovery that was observed clears the incident, unless a failure came in while the database
-- was asked: then the new incident stays. The stamp of the incident is below the count of
-- failures, as every failure leaves it.
pub observe_clears :
    (h : Health) (o : Observed) (prior : PublicationIncident) (d : FailureDetails)
    (epoch batch now : ℕ)
    → IsStamped h.failures h.incident
    → observe_start h o ≡ some prior
    → (observe_end h prior ≡ (record h { incident = none; retry_at = 0 }, true))
      × (observe_end (fail h d epoch batch now) prior ≡ (fail h d epoch batch now, false))
unfolding observe_end fail
observe_clears h o prior d epoch batch now st e =
    let now_there = (observe_start_needs h o prior e).0 in
    let stamped : prior.stamp < h.failures = subst (IsStamped h.failures) now_there st in
    (
      ground (arith, now_there),
      ground (arith, stamped, next-stamp h.incident d h.failures epoch batch now),
    )

repeated :
    (i : PublicationIncident) (e : FailureDetails) (stamp epoch batch now : ℕ)
    → e.batch ≡ none
    → e.relay_status ≡ none
    → i.epoch ≡ epoch
    → next_incident (some i) e stamp epoch batch now ≡ record i { stamp = stamp }
repeated i e stamp epoch batch now nb ns same = ground (arith, nb, ns)

next-epoch :
    (m : Option PublicationIncident) (d : FailureDetails) (stamp epoch batch now : ℕ)
    → (next_incident m d stamp epoch batch now).epoch ≡ epoch
next-epoch none d stamp epoch batch now = refl
next-epoch (some i) d stamp epoch batch now = ground arith

-- A second failure in the epoch of an incident, without details of its own, keeps the batch, the
-- reason, the status and the time of the first one.
fail_twice :
    (h : Health) (d e : FailureDetails) (epoch batch batch' now later : ℕ)
    → e.batch ≡ none
    → e.relay_status ≡ none
    → (fail (fail h d epoch batch now) e epoch batch' later).incident
      ≡ some (record (next_incident h.incident d h.failures epoch batch now) {
        stamp = h.failures + 1;
      })
unfolding fail
fail_twice h d e epoch batch batch' now later nb ns = ap some (
    repeated (next_incident h.incident d h.failures epoch batch now) e (h.failures + 1) epoch batch'
      later nb ns (next-epoch h.incident d h.failures epoch batch now))
