-- ===== src/Daemon/Ledger/Invariant.antt =====
-- What holds of a ledger between two calls, and what a row of calls leaves of an entry.
use symnav.Prelude.{
  ◌≡◌, ◌∙◌, ◌⊎◌, inl, inr, ℕ, ◌≤◌, ◌++◌, ◌||◌, Bool, true, false, not, Option, none, some, List, [],
  ◌∷◌, arith, Text, text_eq, text_eq_iff,
}
use symnav.Daemon.Request.{Platform}
use symnav.Daemon.Ledger.{
  AcceptedRequestState, AcceptedRequestEntry, AcceptedRequestLedger, is_nonterminal, has, entry_for,
  mark_running, complete, fail, invalidate_completion, acknowledge, terminate_delivery, subscribe,
  unsubscribe, accept,
}
use symnav.Daemon.Ledger.History.{
  Operation, accept_request, start, finish, abort, invalidate, confirm, cut_delivery, listen,
  unlisten, run, Legal, starts, completes, fails, invalidates, Moves, stays, arrives, changes,
  is_cut, IsKeyed, run-Moves,
}

Moves-request_id :
    {j : Text} {o p : Option AcceptedRequestEntry} (e' : AcceptedRequestEntry)
    → Moves j o p
    → ((e : AcceptedRequestEntry) → o ≡ some e → e.request_id ≡ j)
    → p ≡ some e'
    → e'.request_id ≡ j
Moves-request_id e' (stays q) keyed h = ground (arith, keyed e')
Moves-request_id e' (arrives e own absent q s d) keyed h = ground arith
Moves-request_id e' (changes e s found q legal) keyed h = ground (arith, keyed e)
Moves-request_id e' (is_cut e found q) keyed h = ground (arith, keyed e)

pub run-IsKeyed :
    (platform : Platform) (op : Operation) (l : AcceptedRequestLedger)
    → IsKeyed l
    → IsKeyed (run platform op l)
run-IsKeyed platform op l keyed k e h =
    Moves-request_id e (run-Moves platform op l k keyed) (keyed k) h

-- How far a request has come.
abbrev pub rank : AcceptedRequestState → ℕ
rank AcceptedRequestState.queued = 0
rank (AcceptedRequestState.running t) = 1
rank (AcceptedRequestState.completed t r) = 2
rank (AcceptedRequestState.failed t c w) = 3

-- What stays of an entry from one time to a later one.
pub record Evolves (e e' : AcceptedRequestEntry) : Type 0 where
  pub request_id : e'.request_id ≡ e.request_id
  pub request_fingerprint : e'.request_fingerprint ≡ e.request_fingerprint
  pub command_name : e'.command_name ≡ e.command_name
  pub request : e'.request ≡ e.request
  pub accepted_at : e'.accepted_at ≡ e.accepted_at
  pub queue_position : e'.queue_position ≡ e.queue_position
  pub delivery : e.delivery_terminated ≡ true → e'.delivery_terminated ≡ true
  pub forward : rank e.state ≤ rank e'.state
  pub failure_stays : rank e.state ≡ 3 → e'.state ≡ e.state

Evolves-refl : (e : AcceptedRequestEntry) → Evolves e e
Evolves-refl e = ground arith

Evolves-trans : {a b c : AcceptedRequestEntry} → Evolves a b → Evolves b c → Evolves a c
Evolves-trans h k = ground arith

-- A legal transition goes forward, and none leaves a failure.
Legal-rank : {s t : AcceptedRequestState} → Legal s t → (rank s ≤ rank t) × (rank s ≡ 3 → t ≡ s)
Legal-rank (starts at q r) = ground arith
Legal-rank (completes at result q r) = ground arith
Legal-rank (fails at c w q r) = ground arith
Legal-rank (invalidates at c q r) = ground arith

Moves-Evolves :
    {j : Text} {o p : Option AcceptedRequestEntry} (e : AcceptedRequestEntry)
    → Moves j o p
    → o ≡ some e
    → (e' : AcceptedRequestEntry) × (p ≡ some e') × Evolves e e'
Moves-Evolves e (stays q) h = (e, q ∙ h, Evolves-refl e)
Moves-Evolves e (arrives e₁ own absent q s d) h = cc
Moves-Evolves e (changes e₁ s found q legal) h =
    (record e { state = s }, ground arith, ground (arith, Legal-rank legal))
Moves-Evolves e (is_cut e₁ found q) h =
    (record e { delivery_terminated = true }, ground arith, ground arith)

-- A row of calls, each of which may throw.
pub run_all : Platform → List Operation → AcceptedRequestLedger → AcceptedRequestLedger
run_all platform [] l = l
run_all platform (op ∷ ops) l = run_all platform ops (run platform op l)

-- Whatever is called on a keyed ledger, a request that was accepted stays in it with its payload,
-- fingerprint, time and position; its state never goes back; a failure is never changed; and a
-- delivery that was terminated stays so.
pub run_all-Evolves :
    (platform : Platform) (ops : List Operation) (l : AcceptedRequestLedger) (j : Text)
    (e : AcceptedRequestEntry)
    → IsKeyed l
    → entry_for j l ≡ some e
    → (e' : AcceptedRequestEntry) × (entry_for j (run_all platform ops l) ≡ some e') × Evolves e e'
unfolding run_all
run_all-Evolves platform [] l j e keyed found = (e, found, Evolves-refl e)
run_all-Evolves platform (op ∷ ops) l j e keyed found =
    let (e₁, found₁, ev₁) = Moves-Evolves e (run-Moves platform op l j keyed) found in
    let (e₂, found₂, ev₂) =
      run_all-Evolves platform ops (run platform op l) j e₁ (run-IsKeyed platform op l keyed)
        found₁ in
    (e₂, found₂, Evolves-trans ev₁ ev₂)

abbrev settled : Option AcceptedRequestEntry → Bool
settled none = false
settled (some e) = not (is_nonterminal e.state)

-- Entries stand under their own identifier, and what was acknowledged has ended.
pub record IsValid (l : AcceptedRequestLedger) : Type 0 where
  pub keyed : IsKeyed l
  pub acknowledged_ended : (k : Text) → has k l.acknowledged ≡ true → settled (entry_for k l) ≡ true

Moves-settled :
    {j : Text} {o p : Option AcceptedRequestEntry}
    → Moves j o p
    → settled o ≡ true
    → settled p ≡ true
Moves-settled (stays q) h = ground arith
Moves-settled (arrives e own absent q s d) h = ground arith
Moves-settled (changes e s found q (starts at r t)) h = ground arith
Moves-settled (changes e s found q (completes at result r t)) h = ground arith
Moves-settled (changes e s found q (fails at c w r t)) h = ground arith
Moves-settled (changes e s found q (invalidates at c r t)) h = ground arith
Moves-settled (is_cut e found q) h = ground arith

has-append : (k j : Text) (set : List Text) → has k (set ++ j ∷ []) ≡ (has k set || text_eq k j)
has-append k j [] = ground arith
has-append k j (x ∷ set) = ground (arith, has-append k j set)

-- Only `acknowledge` adds to what is acknowledged, and only a request that has ended.
acknowledged-run :
    (platform : Platform) (op : Operation) (l : AcceptedRequestLedger) (k : Text)
    → has k (run platform op l).acknowledged ≡ true
    → (has k l.acknowledged ≡ true) ⊎ (settled (entry_for k l) ≡ true)
unfolding run entry_for
acknowledged-run platform (accept_request now id name request) l k h = unfold accept in ground arith
acknowledged-run platform (start id at) l k h = unfold mark_running in ground arith
acknowledged-run platform (finish id result at) l k h = unfold complete in ground arith
acknowledged-run platform (abort id code at w) l k h = unfold fail in ground arith
acknowledged-run platform (invalidate id code at) l k h =
    unfold invalidate_completion in ground arith
acknowledged-run platform (confirm id) l k h =
    unfold acknowledge in ground (arith, has-append k id l.acknowledged, text_eq_iff k id)
acknowledged-run platform (cut_delivery id) l k h = unfold terminate_delivery in ground arith
acknowledged-run platform (listen id s) l k h = unfold subscribe in ground arith
acknowledged-run platform (unlisten c) l k h = unfold unsubscribe in ground arith

-- Every call, whether it returns or throws, keeps a ledger valid: its entries stand under their own
-- identifiers, and every request that was acknowledged has ended.
pub run-IsValid :
    (platform : Platform) (op : Operation) (l : AcceptedRequestLedger)
    → IsValid l
    → IsValid (run platform op l)
run-IsValid platform op l v = record {
  keyed = run-IsKeyed platform op l v.keyed;
  acknowledged_ended = λ k h.
      Moves-settled (run-Moves platform op l k v.keyed) (elim (acknowledged-run platform op l k h) [
        | inl old ↦ v.acknowledged_ended k old
        | inr new ↦ new
      ]);
}
