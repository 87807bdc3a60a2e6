-- ===== src/Scenarios/Relayer.antt =====
-- The relayer's services at concrete inputs.
use pongit.Common.{ℕ, List, to_lower_case, ok}
use pongit.Relayer.Scheduler.{Scheduler, run, Releases, history_served}
use pongit.Relayer.Decimal.{show, show-injective, show-HasNoColon, HasNoColon}
use pongit.Relayer.MaintenanceCall.Identity.{
  IsEncoding, HasAddresses, Collision, normal, normal_function, request_id-task,
}
use pongit.Relayer.MaintenanceCall.{
  open_round, Function, call_matchmake, call_propose, call_tick, call_expire_proposal,
  call_expire_room, call_finalize_result, call_close, call_open_round, call_begin, call_finish,
  call_freeze, call_claim, call_retry, Targets, Call, preimage_of, maintenance_call,
}
use pongit.Common.{subst, sym, ap, ◌∙◌, ◌⊎◌, err, invalid_input, Text, to_lower_case, Result, arith}
use pongit.Common.{◌≤◌, ◌≡◌, ◌↔◌, ◌⊎◌, refl, true, false, arith, none, some, [], ◌∷◌}
use pongit.Relayer.AuthorityExecutor.{
  missing, uncertain, failed, Port, read_journal, reconcile, ask_sponsor, simulate, enqueue, sent,
  work, count, known_state, enqueue_iff, InFlight, request, start, step_request, occurrences,
  one_run,
}
use pongit.Relayer.PublicationHealth.{
  PublicationIncident, Health, FailureDetails, Observed, restore, claim_retry, fail, is_recovered,
  observe_start, observe_end, retry_spaced, observe_clears,
}

abbrev incident : PublicationIncident
incident = record {
  stamp = 0;
  epoch = 3;
  batch = 2;
  reason = [];
  relay_status = some 413;
  failed_at = 1000;
}

abbrev failing : Health
failing = record { incident = some incident; retry_at = 31000; failures = 1 }

abbrev details : FailureDetails
details = record { batch = none; reason = 7 ∷ []; relay_status = none }

abbrev published : Observed
published = record { node_epoch = 3; committed_batches = 2; hub_epoch = 3; batch_index = 2 }

found : observe_start failing published ≡ some incident
unfolding observe_start is_recovered
found = refl

restored : (claim_retry (restore (some incident) 500) 500).1 ≡ true
unfolding restore claim_retry
restored = refl

retry_spaced_example :
    ((claim_retry (fail failing details 3 1 2000) 32000).1 ≡ true ↔ (32000 ≤ 32000))
    × ((claim_retry (fail failing details 3 1 2000) 32000).1 ≡ true
        → (claim_retry (claim_retry (fail failing details 3 1 2000) 32000).0 40000).1 ≡ false)
retry_spaced_example = retry_spaced failing details 3 1 2000 32000 40000 (omega arith)

observe_clears_example :
    (observe_end failing incident ≡ (record { incident = none; retry_at = 0; failures = 1 }, true))
    × (observe_end (fail failing details 3 1 2000) incident
        ≡ (fail failing details 3 1 2000, false))
observe_clears_example =
    observe_clears failing published incident details 3 1 2000 (omega arith) found

-- The receipt of an earlier transaction was lost, and there is none in fact.
abbrev lost : Port
lost = record {
  journal = uncertain;
  reconciled = missing;
  sponsor_available = true;
  simulates = true;
  enqueues = true;
}

lost_sent : work lost ≡ (read_journal ∷ reconcile ∷ ask_sponsor ∷ simulate ∷ enqueue ∷ [], sent)
unfolding work
lost_sent = refl

enqueue_iff_example :
    (count enqueue (work lost).0 ≤ 1)
    × ((count enqueue (work lost).0 ≡ 1) ↔ (
        ((known_state lost ≡ missing) ⊎ (known_state lost ≡ failed))
        × (true ≡ true)
        × (true ≡ true)))
    × ((work lost).1 ≡ sent → count enqueue (work lost).0 ≡ 1)
enqueue_iff_example = enqueue_iff lost

abbrev asked_twice : InFlight
asked_twice = (request (request [] 7).0 7).0

one_run_example : occurrences 7 asked_twice ≤ 1
one_run_example = one_run asked_twice (step_request (request [] 7).0 7 (step_request [] 7 start)) 7

-- A live run of two, a waiting call 9 of the history, and more live calls than are served.
abbrev busy : Scheduler
busy = record { live = 1 ∷ 2 ∷ []; history = 9 ∷ []; next = 100; timer = some 100; live_run = 2 }

abbrev crowd : List (List ℕ)
crowd = (3 ∷ []) ∷ (4 ∷ []) ∷ (5 ∷ []) ∷ (6 ∷ []) ∷ (7 ∷ []) ∷ []

history_served_example : Releases 9 (run 50 crowd busy)
history_served_example = history_served 50 9 [] crowd busy refl (omega arith)

abbrev targets : Targets
targets = record {
  chain_id = 10143;
  generation = 1;
  game = 1 ∷ [];
  finance = 2 ∷ [];
  market = 3 ∷ [];
}

targets-HasAddresses : HasAddresses targets
unfolding to_lower_case
targets-HasAddresses = omega arith

-- An encoding of betting rounds alone.
abbrev encode : Function → Result Text
encode (call_open_round id) = ok (show id)
encode _ = err invalid_input

encode-round :
    (f : Function) (data_ : Text)
    → encode f ≡ ok data_
    → (id : ℕ) × (f ≡ call_open_round id) × (show id ≡ data_)
encode-round (call_open_round id) data_ e = (id, refl, cc)
encode-round (call_matchmake mode budget) data_ e = absurd (cc)
encode-round (call_propose id) data_ e = absurd (cc)
encode-round (call_tick id) data_ e = absurd (cc)
encode-round (call_expire_proposal id) data_ e = absurd (cc)
encode-round (call_expire_room id) data_ e = absurd (cc)
encode-round (call_finalize_result id) data_ e = absurd (cc)
encode-round (call_close epoch) data_ e = absurd (cc)
encode-round call_begin data_ e = absurd (cc)
encode-round call_finish data_ e = absurd (cc)
encode-round (call_freeze id rally) data_ e = absurd (cc)
encode-round (call_claim id beneficiary) data_ e = absurd (cc)
encode-round (call_retry id) data_ e = absurd (cc)

encode-IsEncoding : IsEncoding encode
encode-IsEncoding = record {
  hex = λ f data_ e.
      let (id, is_round, text) = encode-round f data_ e in
      subst HasNoColon text (show-HasNoColon id);
  faithful = λ f g data_ e k.
      let (id, is_f, text) = encode-round f data_ e in
      let (other, is_g, text_too) = encode-round g data_ k in
      let same = show-injective id other (text ∙ sym text_too) in
      ap normal_function (is_f ∙ (ap call_open_round same ∙ sym is_g));
}

abbrev call_in : ℕ → Call Text
call_in rally = record {
  to_ = 2 ∷ [];
  data_ = show 4;
  value = 0;
  request_id = preimage_of targets (open_round 4 rally) (show 4);
}

-- With the text itself for its hash.
called : maintenance_call encode (λ x. x) targets (open_round 4 2) ≡ ok (call_in 2)
unfolding maintenance_call
called = refl

-- `10143:` …
chain_text : show 10143 ≡ b'1' ∷ b'0' ∷ b'1' ∷ b'4' ∷ b'3' ∷ []
unfolding show
chain_text = refl

request_id-task_example :
    (normal (open_round 4 2) ≡ normal (open_round 4 2)) ⊎ Collision {K = Text} (λ x. x)
request_id-task_example =
    request_id-task encode (λ x. x) encode-IsEncoding targets targets-HasAddresses (open_round 4 2)
      (open_round 4 2) (call_in 2) (call_in 2) called called refl
