-- ===== src/Lnd/Payments.antt =====
-- internal/lnd/payments.go: sending and tracking a payment over the node's streams. The node's client is
-- a parameter: whether there is a connection, and what each call opens.
use brollyzapper.Base.{
  ◌≡◌, Bool, true, false, ◌||◌, ◌⊎◌, inl, inr, Option, none, some, List, [], ◌∷◌, String,
  if◌then◌else◌, if-both,
}
use brollyzapper.Base.Int.{ℤ}

pub data Status : Type 0 where
  unknown in_flight succeeded failed initiated : Status

pub record PaymentResult : Type 0 where
  pub status : Status
  pub fee_msat : ℤ
  pub preimage : String

abbrev pub is_succeeded : PaymentResult → Bool
is_succeeded r = elim r.status [ succeeded ↦ true | _ ↦ false ]

abbrev pub is_failed : PaymentResult → Bool
is_failed r = elim r.status [ failed ↦ true | _ ↦ false ]

abbrev pub terminal : PaymentResult → Bool
terminal r = is_succeeded r || is_failed r

-- The codes of gRPC that the client tells apart.
pub data Code : Type 0 where
  canceled deadline_exceeded unavailable internal resource_exhausted permission_denied : Code
  code_not_found other_code : Code

pub data RpcError : Type 0 where
  context_ended : RpcError
  coded : Code → RpcError

-- An error of this package. `stream_ended` and `payment_not_found` carry no code of their own.
pub data LndError : Type 0 where
  not_sent : RpcError → LndError
  payment_not_found stream_ended : LndError
  rpc : RpcError → LndError

pub data Outcome : Type 0 where
  answered : PaymentResult → Outcome
  errored : LndError → Outcome

-- What `Recv` gives until the stream ends: at its end, or with an error.
pub record Stream : Type 0 where
  pub updates : List PaymentResult
  pub ends : Option RpcError

pub data Opened : Type 0 where
  opened : Stream → Opened
  unopened : RpcError → Opened

-- `outlasts` is whether the deadline of the caller's context passes while the payment of a hash is tracked.
pub record Router : Type 0 where
  pub connection : Option RpcError
  pub send_stream : String → ℤ → Opened
  pub track_stream : String → Opened
  pub outlasts : String → Bool

abbrev pub not_found : RpcError → LndError
not_found (coded code_not_found) = payment_not_found
not_found e = rpc e

abbrev pub end_of_stream : Option RpcError → LndError
end_of_stream none = stream_ended
end_of_stream (some e) = not_found e

abbrev pub consume_updates : Option RpcError → List PaymentResult → Outcome
consume_updates ends [] = errored (end_of_stream ends)
consume_updates ends (r ∷ rs) =
    let rest = consume_updates ends rs in if terminal r then answered r else rest

unfoldable pub consume : Stream → Outcome
consume s = consume_updates s.ends s.updates

abbrev pub sent_over : Opened → Outcome
sent_over (unopened e) = errored (not_sent e)
sent_over (opened s) = consume s

unfoldable pub send_payment : Router → String → ℤ → Outcome
unfolding consume
send_payment c bolt11 fee_limit = elim c.connection [
  | some e ↦ errored (not_sent e)
  | none ↦ sent_over (c.send_stream bolt11 fee_limit)
]

abbrev pub tracked_over : Opened → Outcome
tracked_over (unopened e) = errored (rpc e)
tracked_over (opened s) = consume s

unfoldable pub track_payment : Router → String → Outcome
unfolding consume
track_payment c hash = elim c.connection [
  | some e ↦ errored (rpc e)
  | none ↦ tracked_over (c.track_stream hash)
]

-- Whether the node has the payment: `inr` is the error.
abbrev pub first_update : Stream → Bool ⊎ LndError
first_update s = elim s.updates [ _ ∷ _ ↦ inl true | [] ↦ inr (end_received s.ends) ]
  where
    end_received : Option RpcError → LndError
    end_received none = stream_ended
    end_received (some e) = not_found e

abbrev pub has_over : Opened → Bool ⊎ LndError
has_over (unopened e) = inr (rpc e)
has_over (opened s) = first_update s

unfoldable pub has_payment : Router → String → Bool ⊎ LndError
has_payment c hash = elim c.connection [
  | some e ↦ inr (rpc e)
  | none ↦ has_over (c.track_stream hash)
]

abbrev pub is_transport_code : Code → Bool
is_transport_code code_not_found = false
is_transport_code other_code = false
is_transport_code _ = true

-- `IsTransportOrCallerFailure`
abbrev pub is_transport_rpc : RpcError → Bool
is_transport_rpc context_ended = true
is_transport_rpc (coded c) = is_transport_code c

unfoldable pub is_transport_or_caller_failure : LndError → Bool
is_transport_or_caller_failure (not_sent e) = is_transport_rpc e
is_transport_or_caller_failure (rpc e) = is_transport_rpc e
is_transport_or_caller_failure _ = false

abbrev pub is_not_sent : LndError → Bool
is_not_sent (not_sent _) = true
is_not_sent _ = false

abbrev pub IsTerminal : Outcome → Type 0
IsTerminal (answered r) = terminal r ≡ true
IsTerminal (errored e) = Unit

consume-IsTerminal :
    (ends : Option RpcError) (rs : List PaymentResult) → IsTerminal (consume_updates ends rs)
consume-IsTerminal ends [] = tt
consume-IsTerminal ends (r ∷ rs) =
    if-both IsTerminal (terminal r) (λ h. h) (λ _. consume-IsTerminal ends rs)

-- Whatever the node streams, an answer about a payment that is sent or tracked is a terminal one.
pub payments-IsTerminal :
    (c : Router) (bolt11 hash : String) (fee_limit : ℤ)
    → IsTerminal (send_payment c bolt11 fee_limit) × IsTerminal (track_payment c hash)
unfolding send_payment track_payment consume
payments-IsTerminal c bolt11 hash fee_limit =
    (sent c.connection (c.send_stream bolt11 fee_limit), tracked c.connection (c.track_stream hash))
  where
    sent :
        (o : Option RpcError) (s : Opened)
        → IsTerminal (elim o [ some e ↦ errored (not_sent e) | none ↦ sent_over s ])
    sent (some e) s = tt
    sent none (unopened e) = tt
    sent none (opened s) = consume-IsTerminal s.ends s.updates

    tracked :
        (o : Option RpcError) (s : Opened)
        → IsTerminal (elim o [ some e ↦ errored (rpc e) | none ↦ tracked_over s ])
    tracked (some e) s = tt
    tracked none (unopened e) = tt
    tracked none (opened s) = consume-IsTerminal s.ends s.updates
