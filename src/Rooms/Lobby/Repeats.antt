-- ===== src/Rooms/Lobby/Repeats.antt =====
-- A transaction of the lobby is done once.
use pongit.Common.{
  ℕ, ◌≡◌, refl, sym, subst, ap₂, ◌∙◌, inl, inr, Bool, true, false, not, ◌&&◌, Bool-cases, Result,
  ok, err, Ensures, Ensures-bind, Ensures-ok, Ensures-throw, Ensures-if, operation_reused,
  occupied_twice, List, [], ◌∷◌, Option, none, some, Text, text_eq, text_eq-≡, text_eq_refl,
}
use pongit.Rooms.Lobby.{State, Response, done}
use pongit.Rooms.Lobby.Routes.{Reply}
use pongit.Rooms.Lobby.Transact.{
  Operation, Presence, Store, Asked, find_operation, occupancy_rows, has_double, overlay_presence,
  save, log_operation, perform, old_or_perform, transact,
}

-- A call of `transact`.
pub record Attempt : Type 0 where
  pub now : ℕ
  pub rows : List Presence
  pub change : State → Reply
  pub operation : Option Asked

-- A throw rolls back.
abbrev pub committed : Store → Result (Store × Response) → Store
committed store (ok (next, response)) = next
committed store (err e) = store

abbrev pub attempt : (State → Text) → (Text → Text) → Attempt → Store → Store
attempt json hash t store =
    committed store (transact json hash t.now t.rows t.change t.operation store)

abbrev pub run_attempts : (State → Text) → (Text → Text) → List Attempt → Store → Store
run_attempts json hash [] store = store
run_attempts json hash (t ∷ ts) store = run_attempts json hash ts (attempt json hash t store)

both-true : (a b : Bool) → (a && b) ≡ true → (a ≡ true) × (b ≡ true)
both-true true b h = (refl, h)
both-true false b h = absurd (cc)

some-none : (x : Operation) → ◌≡◌ {A = Option Operation} (some x) none → ⊥
some-none x h = cc

module _ (json : State → Text) (hash : Text → Text) (asked : Asked) where
  -- The store has the operation, with its request and its response.
  abbrev pub IsLogged : Store × Response → Type 0
  IsLogged result =
      (x : Operation) × (find_operation asked.player asked.id result.0.operations ≡ some x)
      × (x.request_hash ≡ hash asked.request)
      × (x.response ≡ result.1)

  log-IsLogged :
      (response : Response) (store : Store)
      → IsLogged (log_operation json hash (some asked) response store, response)
  log-IsLogged response store = (
    record {
      player = asked.player;
      id = asked.id;
      request_hash = hash asked.request;
      response = response;
    },
    found,
    refl,
    refl,
  )
    where
      found :
          find_operation asked.player asked.id
            (log_operation json hash (some asked) response store).operations
          ≡ some (record {
            player = asked.player;
            id = asked.id;
            request_hash = hash asked.request;
            response = response;
          })
      found = rw (text_eq_refl asked.player) (rw (text_eq_refl asked.id) refl)

  perform-IsLogged :
      (now : ℕ) (rows : List Presence) (change : State → Reply) (store : Store)
      → Ensures IsLogged (perform json hash now rows change (some asked) store)
  perform-IsLogged now rows change store =
      Ensures-bind IsLogged (change (overlay_presence now rows store.document)) _ λ reply _.
        Ensures-bind IsLogged
          (save json hash (overlay_presence now rows store.document) reply.0 store) _
          λ saved _. log-IsLogged reply.1 saved

  same-hash : (a b : Text) → not (text_eq a b) ≡ false → a ≡ b
  same-hash a b h = elim (Bool-cases (text_eq a b)) [
    | inl e ↦ text_eq-≡ a b e
    | inr e ↦ absurd (unlike (text_eq a b) e h)
  ]
    where
      unlike : (b : Bool) → b ≡ false → not b ≡ false → ⊥
      unlike true e h = cc
      unlike false e h = cc

  old_or_perform-IsLogged :
      (now : ℕ) (rows : List Presence) (change : State → Reply) (store : Store)
      (old : Option Operation)
      → find_operation asked.player asked.id store.operations ≡ old
      → Ensures IsLogged (old_or_perform json hash now rows change asked store old)
  old_or_perform-IsLogged now rows change store none e = perform-IsLogged now rows change store
  old_or_perform-IsLogged now rows change store (some x) e =
      Ensures-throw IsLogged (not (text_eq x.request_hash (hash asked.request))) operation_reused
        (ok (store, x.response)) λ same. (x, e, same-hash _ _ same, refl)

  again :
      (result : Store × Response) (x : Operation)
      → find_operation asked.player asked.id result.0.operations ≡ some x
      → x.request_hash ≡ hash asked.request
      → x.response ≡ result.1
      → (later : ℕ) (present : List Presence) (other : State → Reply)
      → old_or_perform json hash later present other asked result.0
          (find_operation asked.player asked.id result.0.operations)
        ≡ ok result
  again (store, response) x found hashed answer later present other =
      rw found (rw hashed (rw (text_eq_refl (hash asked.request)) (rw answer refl)))

  -- The operation stays in the store.
  abbrev Stays : Operation → Store × Response → Type 0
  Stays x result = find_operation asked.player asked.id result.0.operations ≡ some x

  save-operations :
      (previous state : State) (store : Store)
      → Ensures (λ saved. saved.operations ≡ store.operations) (save json hash previous state store)
  save-operations previous state store =
      Ensures-if (λ saved. saved.operations ≡ store.operations)
        (text_eq (json state) (json previous)) _ _ (λ _. refl)
        λ _.
          Ensures-throw (λ saved. saved.operations ≡ store.operations)
            (has_double (occupancy_rows state)) occupied_twice _ λ _. refl

  -- A row with another key does not hide the operation.
  abbrev Elsewhere : Option Asked → List Operation → Type 0
  Elsewhere none operations = Unit
  Elsewhere (some other) operations = find_operation other.player other.id operations ≡ none

  log-Stays :
      (x : Operation) (operation : Option Asked) (response : Response) (store : Store)
      → Stays x (store, response)
      → Elsewhere operation store.operations
      → Stays x (log_operation json hash operation response store, response)
  log-Stays x none response store h new = h
  log-Stays x (some other) response store h new =
      elim (Bool-cases (text_eq other.player asked.player && text_eq other.id asked.id)) [
        | inl e ↦
            let (one, two) = both-true _ _ e in
            absurd (
              some-none x (
                sym h
                ∙ (ap₂ (λ player id. find_operation player id store.operations)
                      (sym (text_eq-≡ other.player asked.player one))
                      (sym (text_eq-≡ other.id asked.id two))
                    ∙ new)))
        | inr e ↦ rw e h
      ]

  perform-Stays :
      (x : Operation) (now : ℕ) (rows : List Presence) (change : State → Reply)
      (operation : Option Asked) (store : Store)
      → Stays x (store, done)
      → Elsewhere operation store.operations
      → Ensures (Stays x) (perform json hash now rows change operation store)
  perform-Stays x now rows change operation store h new =
      Ensures-bind (Stays x) (change (overlay_presence now rows store.document)) _ λ reply _.
        Ensures-bind (Stays x)
          (save json hash (overlay_presence now rows store.document) reply.0 store) _
          λ saved e.
            let same =
              Ensures-ok (λ saved. saved.operations ≡ store.operations)
                (save json hash (overlay_presence now rows store.document) reply.0 store)
                (save-operations (overlay_presence now rows store.document) reply.0 store) e in
            log-Stays x operation reply.1 saved
              (subst (λ ops. find_operation asked.player asked.id ops ≡ some x) (sym same) h)
              (subst (Elsewhere operation) (sym same) new)

  transact-Stays :
      (x : Operation) (now : ℕ) (rows : List Presence) (change : State → Reply)
      (operation : Option Asked) (store : Store)
      → Stays x (store, done)
      → Ensures (Stays x) (transact json hash now rows change operation store)
  unfolding transact
  transact-Stays x now rows change none store h = perform-Stays x now rows change none store h tt
  transact-Stays x now rows change (some other) store h =
      go (find_operation other.player other.id store.operations) refl
    where
      go :
          (old : Option Operation)
          → find_operation other.player other.id store.operations ≡ old
          → Ensures (Stays x) (old_or_perform json hash now rows change other store old)
      go none e = perform-Stays x now rows change (some other) store h e
      go (some old) e =
          Ensures-throw (Stays x) (not (text_eq old.request_hash (hash other.request)))
            operation_reused (ok (store, old.response)) λ _. h

  attempts-Stay :
      (x : Operation) (attempts : List Attempt) (store : Store)
      → Stays x (store, done)
      → Stays x (run_attempts json hash attempts store, done)
  attempts-Stay x [] store h = h
  attempts-Stay x (t ∷ ts) store h = attempts-Stay x ts (attempt json hash t store) (
      kept (transact json hash t.now t.rows t.change t.operation store)
        (transact-Stays x t.now t.rows t.change t.operation store h))
    where
      kept :
          (r : Result (Store × Response)) → Ensures (Stays x) r → Stays x (committed store r, done)
      kept (ok result) k = k
      kept (err e) k = h

  transact-IsLogged :
      (now : ℕ) (rows : List Presence) (change : State → Reply) (store : Store)
      → Ensures IsLogged (transact json hash now rows change (some asked) store)
  unfolding transact
  transact-IsLogged now rows change store = old_or_perform-IsLogged now rows change store _ refl

  repeated :
      (r : Store × Response) (x : Operation)
      → find_operation asked.player asked.id r.0.operations ≡ some x
      → x.request_hash ≡ hash asked.request
      → x.response ≡ r.1
      → (later : ℕ) (present : List Presence) (other : State → Reply)
      → transact json hash later present other (some asked) r.0 ≡ ok r
  unfolding transact
  repeated r x found hashed answer later present other =
      again r x found hashed answer later present other

  -- Once a transaction with an operation has returned, it is done: after any further transactions, with
  -- whatever operations and changes, whether they return or throw, a transaction with the same operation
  -- returns the same response, whatever change it asks for and whenever it comes, and leaves the store as
  -- it then is.
  pub transact_once :
      (now : ℕ) (rows : List Presence) (change : State → Reply) (store : Store)
      (result : Store × Response)
      → transact json hash now rows change (some asked) store ≡ ok result
      → (attempts : List Attempt) (later : ℕ) (present : List Presence) (other : State → Reply)
      → let reached = run_attempts json hash attempts result.0 in
        transact json hash later present other (some asked) reached ≡ ok (reached, result.1)
  transact_once now rows change store result h attempts later present other =
      let (x, found, hashed, answer) =
        Ensures-ok IsLogged (transact json hash now rows change (some asked) store)
          (transact-IsLogged now rows change store) h in
      repeated (run_attempts json hash attempts result.0, result.1) x
        (attempts-Stay x attempts result.0 found) hashed answer later present other
