-- ===== src/Daemon/Ledger/History.antt =====
-- What one operation of the ledger, and any row of them, does to the entry of one request.
use symnav.Prelude.{
  ◌≡◌, refl, sym, subst, ◌∙◌, ℕ, ◌⊎◌, inl, inr, Bool, true, false, Option, none, some, arith, Text,
  text_eq, text_eq_iff, Result, ok, err, Bool-cases, Option-cases,
}
use symnav.Prelude.Map
use symnav.Daemon.Failures.{DaemonExecutionFailureCode, DaemonStateWriteFailure, code_of}
use symnav.Daemon.Request.{DaemonCommandName, DaemonExecutorRequest, Platform}
use symnav.Daemon.Ledger.{
  AcceptedRequestState, AcceptedRequestEntry, AcceptedRequestLedger, LedgerError, Published,
  Subscription, is_nonterminal, is_completed, entry_for, write, mark_running, complete, fail,
  invalidate_completion, acknowledge, terminate_delivery, subscribe, unsubscribe, accept, new_entry,
}

-- The calls that change a ledger. Times are arguments: the clock is read by the caller or by `accept`.
pub data Operation : Type 0 where
  accept_request : ℕ → Text → DaemonCommandName → DaemonExecutorRequest → Operation
  start : Text → ℕ → Operation
  finish : Text → Text → ℕ → Operation
  abort : Text → Text → ℕ → Option DaemonStateWriteFailure → Operation
  invalidate : Text → Text → ℕ → Operation
  confirm : Text → Operation
  cut_delivery : Text → Operation
  listen : Text → ℕ → Operation
  unlisten : Subscription → Operation

abbrev pub published_or :
    AcceptedRequestLedger → Result LedgerError Published → AcceptedRequestLedger
published_or l (ok p) = p.ledger
published_or l (err e) = l

abbrev pub first_or {ℓ} :
    {B : Type ℓ}
    → AcceptedRequestLedger
    → Result LedgerError (AcceptedRequestLedger × B)
    → AcceptedRequestLedger
first_or l (ok (l', b)) = l'
first_or l (err e) = l

abbrev pub ledger_or :
    AcceptedRequestLedger → Result LedgerError AcceptedRequestLedger → AcceptedRequestLedger
ledger_or l (ok l') = l'
ledger_or l (err e) = l

abbrev pub subscribed_or :
    AcceptedRequestLedger → Result LedgerError (Published × Subscription) → AcceptedRequestLedger
subscribed_or l (ok (p, c)) = p.ledger
subscribed_or l (err e) = l

-- The ledger after a call: a call that throws leaves it as it was.
unfoldable pub run : Platform → Operation → AcceptedRequestLedger → AcceptedRequestLedger
run platform (accept_request now id name request) l =
    first_or l (accept platform now id name request l)
run platform (start id at) l = published_or l (mark_running id at l)
run platform (finish id result at) l = published_or l (complete id result at l)
run platform (abort id code at w) l = published_or l (fail id code at w l)
run platform (invalidate id code at) l = published_or l (invalidate_completion id code at l)
run platform (confirm id) l = ledger_or l (acknowledge id l)
run platform (cut_delivery id) l = first_or l (terminate_delivery id l)
run platform (listen id s) l = subscribed_or l (subscribe id s l)
run platform (unlisten c) l = unsubscribe c l

-- The transitions of the state of a request.
pub data Legal : AcceptedRequestState → AcceptedRequestState → Type 0 where
  starts :
      {s t : AcceptedRequestState} (at : ℕ)
      → s ≡ AcceptedRequestState.queued
      → t ≡ AcceptedRequestState.running at
      → Legal s t
  completes :
      {s t : AcceptedRequestState} (at : ℕ) (result : Text)
      → is_nonterminal s ≡ true
      → t ≡ AcceptedRequestState.completed at result
      → Legal s t
  fails :
      {s t : AcceptedRequestState} (at : ℕ) (c : DaemonExecutionFailureCode)
      (w : Option DaemonStateWriteFailure)
      → is_nonterminal s ≡ true
      → t ≡ AcceptedRequestState.failed at c w
      → Legal s t
  invalidates :
      {s t : AcceptedRequestState} (at : ℕ) (c : DaemonExecutionFailureCode)
      → is_completed s ≡ true
      → t ≡ AcceptedRequestState.failed at c none
      → Legal s t

-- What may happen to an entry: nothing, its arrival, a legal change of its state alone, or the end
-- of its delivery alone.
pub data Moves (id : Text)
    : Option AcceptedRequestEntry → Option AcceptedRequestEntry → Type 0 where
  stays : {o p : Option AcceptedRequestEntry} → p ≡ o → Moves id o p
  arrives :
      {o p : Option AcceptedRequestEntry} (e : AcceptedRequestEntry)
      → e.request_id ≡ id
      → o ≡ none
      → p ≡ some e
      → e.state ≡ AcceptedRequestState.queued
      → e.delivery_terminated ≡ false
      → Moves id o p
  changes :
      {o p : Option AcceptedRequestEntry} (e : AcceptedRequestEntry) (s : AcceptedRequestState)
      → o ≡ some e
      → p ≡ some (record e { state = s })
      → Legal e.state s
      → Moves id o p
  is_cut :
      {o p : Option AcceptedRequestEntry} (e : AcceptedRequestEntry)
      → o ≡ some e
      → p ≡ some (record e { delivery_terminated = true })
      → Moves id o p

abbrev pub IsKeyed : AcceptedRequestLedger → Type 0
IsKeyed l = (k : Text) (e : AcceptedRequestEntry) → entry_for k l ≡ some e → e.request_id ≡ k

write-Moves :
    (l : AcceptedRequestLedger) (e : AcceptedRequestEntry) (id j : Text)
    → e.request_id ≡ id
    → Moves id (entry_for id l) (some e)
    → Moves j (entry_for j l) (entry_for j (write e l))
unfolding entry_for write
write-Moves l e id j own m = rw Map.get-set (elim (Bool-cases (text_eq e.request_id j)) [
  | inl p ↦ rw p (
      subst (λ k. Moves k (Map.get k l.entries) (some e))
        (sym own ∙ (text_eq_iff e.request_id j).0 p) m)
  | inr q ↦ rw q (stays refl)
])

start-cases :
    (id : Text) (at : ℕ) (l : AcceptedRequestLedger)
    → (published_or l (mark_running id at l) ≡ l)
      ⊎ ((e : AcceptedRequestEntry) × (entry_for id l ≡ some e)
          × (e.state ≡ AcceptedRequestState.queued)
          × (published_or l (mark_running id at l)
              ≡ write (record e { state = AcceptedRequestState.running at }) l))
unfolding mark_running
start-cases id at l = ground arith

finish-cases :
    (id result : Text) (at : ℕ) (l : AcceptedRequestLedger)
    → (published_or l (complete id result at l) ≡ l)
      ⊎ ((e : AcceptedRequestEntry) × (entry_for id l ≡ some e)
          × (is_nonterminal e.state ≡ true)
          × (published_or l (complete id result at l)
              ≡ write (record e { state = AcceptedRequestState.completed at result }) l))
unfolding complete
finish-cases id result at l = ground arith

-- An entry that was given a failure: `was` holds of the state that it had.
abbrev IsFailedBy :
    (AcceptedRequestState → Bool)
    → Text
    → ℕ
    → Option DaemonStateWriteFailure
    → AcceptedRequestLedger
    → AcceptedRequestLedger
    → DaemonExecutionFailureCode
    → Type 0
IsFailedBy was id at w l after c =
    (e : AcceptedRequestEntry) × (entry_for id l ≡ some e)
    × (was e.state ≡ true)
    × (after ≡ write (record e { state = AcceptedRequestState.failed at c w }) l)

abort-cases :
    (id code : Text) (at : ℕ) (w : Option DaemonStateWriteFailure) (l : AcceptedRequestLedger)
    → (published_or l (fail id code at w l) ≡ l)
      ⊎ ((c : DaemonExecutionFailureCode) × IsFailedBy is_nonterminal id at w l
            (published_or l (fail id code at w l))
            c)
unfolding fail
abort-cases id code at w l = elim (Option-cases (code_of code)) [
  | inl none_found ↦ inl (ground arith)
  | inr (c, found) ↦ elim (given c found) [ inl p ↦ inl p | inr q ↦ inr (c, q) ]
]
  where
    given :
        (c : DaemonExecutionFailureCode)
        → code_of code ≡ some c
        → (published_or l (fail id code at w l) ≡ l)
          ⊎ IsFailedBy is_nonterminal id at w l (published_or l (fail id code at w l)) c
    given c found = ground arith

invalidate-cases :
    (id code : Text) (at : ℕ) (l : AcceptedRequestLedger)
    → (published_or l (invalidate_completion id code at l) ≡ l)
      ⊎ ((c : DaemonExecutionFailureCode) × IsFailedBy is_completed id at none l
            (published_or l (invalidate_completion id code at l))
            c)
unfolding invalidate_completion
invalidate-cases id code at l = elim (Option-cases (code_of code)) [
  | inl none_found ↦ inl (ground arith)
  | inr (c, found) ↦ elim (given c found) [ inl p ↦ inl p | inr q ↦ inr (c, q) ]
]
  where
    given :
        (c : DaemonExecutionFailureCode)
        → code_of code ≡ some c
        → (published_or l (invalidate_completion id code at l) ≡ l)
          ⊎ IsFailedBy is_completed id at none l
              (published_or l (invalidate_completion id code at l))
              c
    given c found = ground arith

-- `terminate_delivery` writes under the identifier that it was called with.
cut-cases :
    (id : Text) (l : AcceptedRequestLedger)
    → IsKeyed l
    → (first_or l (terminate_delivery id l) ≡ l)
      ⊎ ((e : AcceptedRequestEntry) × (entry_for id l ≡ some e)
          × (first_or l (terminate_delivery id l)
              ≡ write (record e { delivery_terminated = true }) l))
unfolding terminate_delivery write
cut-cases id l keyed = elim (Option-cases (entry_for id l)) [
  | inl absent ↦ inl (ground arith)
  | inr (e, found) ↦ given e found (keyed id e found)
]
  where
    given :
        (e : AcceptedRequestEntry)
        → entry_for id l ≡ some e
        → e.request_id ≡ id
        → (first_or l (terminate_delivery id l) ≡ l)
          ⊎ ((e : AcceptedRequestEntry) × (entry_for id l ≡ some e)
              × (first_or l (terminate_delivery id l)
                  ≡ write (record e { delivery_terminated = true }) l))
    given e found own = ground arith

accept-cases :
    (platform : Platform) (now : ℕ) (id : Text) (name : DaemonCommandName)
    (request : DaemonExecutorRequest) (l : AcceptedRequestLedger)
    → (first_or l (accept platform now id name request l) ≡ l)
      ⊎ ((entry_for id l ≡ none)
          × (first_or l (accept platform now id name request l)
              ≡ write (new_entry platform now id name request l) l))
unfolding accept
accept-cases platform now id name request l = ground arith

entries-acknowledge :
    (id j : Text) (l : AcceptedRequestLedger)
    → entry_for j (ledger_or l (acknowledge id l)) ≡ entry_for j l
unfolding acknowledge entry_for
entries-acknowledge id j l = ground arith

entries-subscribe :
    (id j : Text) (s : ℕ) (l : AcceptedRequestLedger)
    → entry_for j (subscribed_or l (subscribe id s l)) ≡ entry_for j l
unfolding subscribe entry_for
entries-subscribe id j s l = ground arith

entries-unsubscribe :
    (c : Subscription) (j : Text) (l : AcceptedRequestLedger)
    → entry_for j (unsubscribe c l) ≡ entry_for j l
unfolding unsubscribe entry_for
entries-unsubscribe c j l = ground arith

-- The write of a new state under the entry's own identifier is a legal change.
change-Moves :
    (id j : Text) (l after : AcceptedRequestLedger) (e : AcceptedRequestEntry)
    (s : AcceptedRequestState)
    → IsKeyed l
    → entry_for id l ≡ some e
    → after ≡ write (record e { state = s }) l
    → Legal e.state s
    → Moves j (entry_for j l) (entry_for j after)
change-Moves id j l after e s keyed found path legal =
    rw path (
      write-Moves l (record e { state = s }) id j (keyed id e found) (changes e s found refl legal))

-- On a ledger whose entries stand under their identifiers, every call, whether it returns or throws,
-- leaves the entry of each request as it is or changes it by one legal move: the request arrives
-- queued, its state takes a legal transition, or its delivery is cut.
pub run-Moves :
    (platform : Platform) (op : Operation) (l : AcceptedRequestLedger) (j : Text)
    → IsKeyed l
    → Moves j (entry_for j l) (entry_for j (run platform op l))
unfolding run new_entry
run-Moves platform (accept_request now id name request) l j keyed =
    elim (accept-cases platform now id name request l) [
      | inl p ↦ rw p (stays refl)
      | inr (absent, p) ↦
          let e = new_entry platform now id name request l in
          rw p (write-Moves l e id j refl (arrives e refl absent refl refl refl))
    ]
run-Moves platform (start id at) l j keyed = elim (start-cases id at l) [
  | inl p ↦ rw p (stays refl)
  | inr (e, found, q, p) ↦ change-Moves id j l _ e _ keyed found p (starts at q refl)
]
run-Moves platform (finish id result at) l j keyed = elim (finish-cases id result at l) [
  | inl p ↦ rw p (stays refl)
  | inr (e, found, q, p) ↦ change-Moves id j l _ e _ keyed found p (completes at result q refl)
]
run-Moves platform (abort id code at w) l j keyed = elim (abort-cases id code at w l) [
  | inl p ↦ rw p (stays refl)
  | inr (c, (e, found, q, p)) ↦ change-Moves id j l _ e _ keyed found p (fails at c w q refl)
]
run-Moves platform (invalidate id code at) l j keyed = elim (invalidate-cases id code at l) [
  | inl p ↦ rw p (stays refl)
  | inr (c, (e, found, q, p)) ↦ change-Moves id j l _ e _ keyed found p (invalidates at c q refl)
]
run-Moves platform (confirm id) l j keyed = stays (entries-acknowledge id j l)
run-Moves platform (cut_delivery id) l j keyed = elim (cut-cases id l keyed) [
  | inl p ↦ rw p (stays refl)
  | inr (e, found, p) ↦ rw p (
      write-Moves l (record e { delivery_terminated = true }) id j (keyed id e found)
        (is_cut e found refl))
]
run-Moves platform (listen id s) l j keyed = stays (entries-subscribe id j s l)
run-Moves platform (unlisten c) l j keyed = stays (entries-unsubscribe c j l)
