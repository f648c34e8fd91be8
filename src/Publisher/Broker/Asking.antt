-- ===== src/Publisher/Broker/Asking.antt =====
-- The requests to the broker under any condition on calls (tools/md-publisher/src/broker.ts).
use utm_curs_i_orar.Prelude.{Option, none, some}
use utm_curs_i_orar.Publisher.Calls.{
  Call, json, ◌>>=◌, Outcome, returned, raised, JsonRequest, JsonResponse,
}
use utm_curs_i_orar.Publisher.Calls.Rules.{
  History, Ensures, at_done, at_fail, at_ask, Anything, at_then,
}
use utm_curs_i_orar.Publisher.Broker.{lift}
use utm_curs_i_orar.Publisher.Broker.Client.{answered, exchange}

module _ {P : History → Call → Type 0} where
  pub at_lift : {A : Type 0} {h : History} (o : Outcome A) → Ensures P Anything h (lift o)
  at_lift (returned a) = at_done tt
  at_lift (raised e) = at_fail tt

  pub at_answered : {h : History} (a : Option JsonResponse) → Ensures P Anything h (answered a)
  unfolding answered
  at_answered none = at_fail tt
  at_answered (some r) = at_done tt

  pub at_exchange :
      {h : History} (r : JsonRequest) → P h (json r) → Ensures P Anything h (exchange r)
  unfolding exchange ◌>>=◌
  at_exchange r q = at_ask q (λ a. at_answered a)

  -- A request whose answer is read.
  pub at_request :
      {A : Type 0} {h : History} (r : JsonRequest) (read : JsonResponse → Outcome A)
      → P h (json r)
      → Ensures P Anything h (exchange r >>= λ a. lift (read a))
  at_request r read q = at_then (λ a. lift (read a)) (at_exchange r q) (λ h' a. at_lift (read a))
