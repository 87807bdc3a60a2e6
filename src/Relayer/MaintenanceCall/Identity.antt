-- ===== src/Relayer/MaintenanceCall/Identity.antt =====
-- For which task the identifier of a maintenance request stands.
use pongit.Common.{
  ℕ, ◌<◌, ◌≡◌, ◌≢◌, refl, sym, ap, ap₂, ◌∙◌, subst, ◌⊎◌, inl, inr, Bool, true, false, arith,
  Bool-cases, ◌+◌, Result, ok, err, ◌>>=◌, ◌>>◌, All, Option, none, some, Text, text_eq, text_eq-≡,
  text_eq_refl, to_lower_case,
}
use pongit.Relayer.Decimal.{
  show, show-injective, show-All, show-HasNoColon, HasNoColon, split_at_colon,
}
use pongit.Relayer.MaintenanceCall.{
  Maintenance, matchmake, propose, tick, expire_proposal, expire_room, finalize_result,
  close_completed_session, begin_recovery, finish_recovery, freeze_checkpoint, open_round, claim,
  retry_payout, Function, call_matchmake, call_propose, call_tick, call_expire_proposal,
  call_expire_room, call_finalize_result, call_close, call_open_round, call_begin, call_finish,
  call_freeze, call_claim, call_retry, Cycle, once, numbered, Targets, target_of, function_of,
  cycle_of, cycle_text, Call, check_task, preimage_of, call_of, maintenance_call,
}

-- A function whose hex arguments are written without capitals.
abbrev pub normal_function : Function → Function
normal_function (call_claim id beneficiary) = call_claim id (to_lower_case beneficiary)
normal_function (call_retry id) = call_retry (to_lower_case id)
normal_function f = f

-- A task whose hex values are written without capitals.
abbrev pub normal : Maintenance → Maintenance
normal (claim id beneficiary) = claim id (to_lower_case beneficiary)
normal (retry_payout id attempt) = retry_payout (to_lower_case id) attempt
normal task = task

-- What is relied on of the encoding: data is a hex text, without a colon, and two calls with the same data
-- are the same function with the same arguments, up to the capitals of hex values.
pub record IsEncoding (encode : Function → Result Text) : Type 0 where
  pub hex : (f : Function) (data_ : Text) → encode f ≡ ok data_ → HasNoColon data_
  pub faithful :
      (f g : Function) (data_ : Text)
      → encode f ≡ ok data_
      → encode g ≡ ok data_
      → normal_function f ≡ normal_function g

-- The three contracts have addresses.
abbrev pub HasAddresses : Targets → Type 0
HasAddresses t =
    HasNoColon (to_lower_case t.game)
    × HasNoColon (to_lower_case t.finance)
    × HasNoColon (to_lower_case t.market)

-- Two texts with one hash.
abbrev pub Collision {ℓ} : {K : Type ℓ} → (Text → K) → Type ℓ
Collision hash = (x : Text) × (y : Text) × (x ≢ y) × (hash x ≡ hash y)

-- The task that a function in a cycle is for.
abbrev recover : Function → Cycle → Option Maintenance
recover (call_matchmake mode budget) (numbered n) = some (matchmake mode n)
recover (call_propose id) (numbered n) = some (propose id n)
recover (call_tick id) (numbered n) = some (tick id n)
recover (call_expire_proposal id) c = some (expire_proposal id)
recover (call_expire_room id) c = some (expire_room id)
recover (call_finalize_result id) c = some (finalize_result id)
recover (call_close epoch) c = some (close_completed_session epoch)
recover call_begin c = some begin_recovery
recover call_finish c = some finish_recovery
recover (call_freeze id rally) c = some (freeze_checkpoint id rally)
recover (call_open_round id) (numbered n) = some (open_round id n)
recover (call_claim id beneficiary) c = some (claim id beneficiary)
recover (call_retry id) (numbered n) = some (retry_payout id n)
recover _ _ = none

recover-function_of :
    (task : Maintenance)
    → recover (normal_function (function_of task)) (cycle_of task) ≡ some (normal task)
recover-function_of (matchmake mode revision) = refl
recover-function_of (propose id revision) = refl
recover-function_of (tick id revision) = refl
recover-function_of (expire_proposal id) = refl
recover-function_of (expire_room id) = refl
recover-function_of (finalize_result id) = refl
recover-function_of (close_completed_session epoch) = refl
recover-function_of begin_recovery = refl
recover-function_of finish_recovery = refl
recover-function_of (freeze_checkpoint id rally) = refl
recover-function_of (open_round id rally) = refl
recover-function_of (claim id beneficiary) = refl
recover-function_of (retry_payout id attempt) = refl

some-task : (m n : Maintenance) → ◌≡◌ {A = Option Maintenance} (some m) (some n) → m ≡ n
some-task m n h = cc

target-HasNoColon :
    (t : Targets) (task : Maintenance)
    → HasAddresses t
    → HasNoColon (to_lower_case (target_of t task))
target-HasNoColon t (freeze_checkpoint id rally) (game, finance, market) = finance
target-HasNoColon t (open_round id rally) (game, finance, market) = finance
target-HasNoColon t (finalize_result id) (game, finance, market) = finance
target-HasNoColon t (claim id beneficiary) (game, finance, market) = market
target-HasNoColon t (retry_payout id attempt) (game, finance, market) = market
target-HasNoColon t (matchmake mode revision) (game, finance, market) = game
target-HasNoColon t (propose id revision) (game, finance, market) = game
target-HasNoColon t (tick id revision) (game, finance, market) = game
target-HasNoColon t (expire_proposal id) (game, finance, market) = game
target-HasNoColon t (expire_room id) (game, finance, market) = game
target-HasNoColon t (close_completed_session epoch) (game, finance, market) = game
target-HasNoColon t begin_recovery (game, finance, market) = game
target-HasNoColon t finish_recovery (game, finance, market) = game

-- No number is written as "once".
number-once : (n : ℕ) → show n ≢ cycle_text once
number-once n e =
    let all_digits = show-All (λ c. c < 58) (λ d h. below d h) n in
    above (subst (All (λ c. c < 58)) e all_digits)
  where
    below : (d : ℕ) → d < 10 → b'0' + d < 58
    below d h = omega arith

    above : All (λ c. c < 58) (cycle_text once) → ⊥
    above h = omega arith

cycle_text-injective : (c d : Cycle) → cycle_text c ≡ cycle_text d → c ≡ d
cycle_text-injective once once e = refl
cycle_text-injective once (numbered n) e = absurd (number-once n (sym e))
cycle_text-injective (numbered m) once e = absurd (number-once m e)
cycle_text-injective (numbered m) (numbered n) e = ap numbered (show-injective m n e)

-- The data and the cycle can be read from the text.
preimage-parts :
    (t : Targets) (first second : Maintenance) (x y : Text)
    → HasAddresses t
    → HasNoColon x
    → HasNoColon y
    → preimage_of t first x ≡ preimage_of t second y
    → (x ≡ y) × (cycle_of first ≡ cycle_of second)
preimage-parts t first second x y addresses h k e =
    let chain = show-HasNoColon t.chain_id in
    let generation = show-HasNoColon t.generation in
    let (_, after_chain) = split_at_colon (show t.chain_id) _ _ _ chain chain e in
    let (_, after_target) =
      split_at_colon (to_lower_case (target_of t first)) _ _ _ (target-HasNoColon t first addresses)
        (target-HasNoColon t second addresses) after_chain in
    let (_, after_generation) =
      split_at_colon (show t.generation) _ _ _ generation generation after_target in
    let (same, cycles) = split_at_colon x y _ _ h k after_generation in
    (same, cycle_text-injective (cycle_of first) (cycle_of second) cycles)

-- What is returned is the call for the encoded data.
returned-call :
    {K : Type 0} (encode : Function → Result Text) (keccak256 : Text → K) (t : Targets)
    (task : Maintenance) (call : Call K)
    → maintenance_call encode keccak256 t task ≡ ok call
    → (x : Text) × (encode (function_of task) ≡ ok x) × (call_of encode keccak256 t task x ≡ call)
unfolding maintenance_call
returned-call {K} encode keccak256 t task call h =
    checked (check_task task) (encode (function_of task)) h
  where
    ok-injective : (x y : Call K) → ◌≡◌ {A = Result (Call K)} (ok x) (ok y) → x ≡ y
    ok-injective x y e = cc

    checked :
        (m : Result (Unit {0})) (n : Result Text)
        → (m >> (n >>= λ x. ok (call_of encode keccak256 t task x))) ≡ ok call
        → (x : Text) × (n ≡ ok x) × (call_of encode keccak256 t task x ≡ call)
    checked (err f) n e = absurd (cc)
    checked (ok u) (err f) e = absurd (cc)
    checked (ok u) (ok x) e = (x, refl, ok-injective _ _ e)

-- The identifier of a request stands for one task: two calls for the same targets with one identifier are
-- for the same task, with the same revision, rally or attempt and up to the capitals of hex values, unless
-- two different texts have one hash. A repeated task of a later cycle is therefore never taken for sent.
pub request_id-task :
    {K : Type 0} (encode : Function → Result Text) (keccak256 : Text → K)
    → IsEncoding encode
    → (t : Targets) → HasAddresses t
    → (first second : Maintenance) (a b : Call K) → maintenance_call encode keccak256 t first ≡ ok a
    → maintenance_call encode keccak256 t second ≡ ok b
    → a.request_id ≡ b.request_id
    → (normal first ≡ normal second) ⊎ Collision keccak256
request_id-task encode keccak256 encoding t addresses first second a b e f same =
    let (x, encoded, is_a) = returned-call encode keccak256 t first a e in
    let (y, encoded_too, is_b) = returned-call encode keccak256 t second b f in
    let hashed = ap (λ c. c.request_id) is_a ∙ (same ∙ sym (ap (λ c. c.request_id) is_b)) in
    elim (Bool-cases (text_eq (preimage_of t first x) (preimage_of t second y))) [
      | inl one ↦
          let (data_, cycles) =
            preimage-parts t first second x y addresses (encoding.hex (function_of first) x encoded)
              (encoding.hex (function_of second) y encoded_too) (text_eq-≡ _ _ one) in
          let functions =
            encoding.faithful (function_of first) (function_of second) x encoded
              (encoded_too ∙ ap ok (sym data_)) in
          inl (
            some-task (normal first) (normal second) (
              sym (recover-function_of first)
              ∙ (ap₂ recover functions cycles ∙ recover-function_of second)))
      | inr two ↦ inr (preimage_of t first x, preimage_of t second y, different _ _ two, hashed)
    ]
  where
    apart : {b : Bool} → b ≡ false → b ≡ true → ⊥
    apart h k = cc

    different : (x y : Text) → text_eq x y ≡ false → x ≢ y
    different x y h e = absurd (apart (subst (λ z. text_eq x z ≡ false) (sym e) h) (text_eq_refl x))
