-- ===== src/Client/Router.antt =====
-- client/router.go: the router over streams and its dispatcher. What the stream factory, the encoder
-- and the streams answer is an argument; what the code calls on them is its result.
pub mod Laws
use mulsigo.Prelude.{
  ℕ, Bool, true, false, Option, none, some, List, [], ◌∷◌, ◌++◌, Bytes, map, Map, lookup, Result,
  ok, err, ltb, if◌then◌else◌, list_eq, nat_eq,
}

pub data Error : Type 0 where
  closed : Error
  other : ℕ → Error

-- `streams` maps the identifier of a peer to a stream, here a handle.
pub record Router : Type 0 where
  pub streams : Map Bytes ℕ
  pub done : Bool

unfoldable pub new_router : Router
new_router = record { streams = []; done = false }

-- Opening a stream to a peer, starting `processStream` on it, sending on it, closing it.
pub data Call : Type 0 where
  opens : Bytes → Call
  processes : Bytes → ℕ → Call
  sends : ℕ → Bytes → Call
  closes : ℕ → Call

-- The rest of `Send`, once there is a stream.
unfoldable pub send_on : ℕ → Result Error Bytes → Option Error → Option Error × List Call
send_on s (err e) sent = (some e, [])
send_on s (ok buf) sent = (sent, sends s buf ∷ [])

unfoldable pub open_and_send :
    Bytes → Result Error ℕ → Result Error Bytes → Option Error → Option Error × List Call
open_and_send remote (err e) encoded sent = (some e, opens remote ∷ [])
open_and_send remote (ok s) encoded sent =
    let (e, calls) = send_on s encoded sent in (e, opens remote ∷ processes remote s ∷ calls)

-- `Send` to the peer of that identifier: `opened` is what `newStream` answers, `encoded` the
-- encoding of the message, `sent` the error of `stream.send`.
unfoldable pub send :
    Router
    → Bytes
    → Result Error ℕ
    → Result Error Bytes
    → Option Error
    → Router × Option Error × List Call
unfolding open_and_send send_on
send r remote opened encoded sent =
    if r.done then (r, some closed, []) else elim (lookup remote r.streams) [
      | none ↦ let (e, calls) = open_and_send remote opened encoded sent in (r, e, calls)
      | some s ↦ let (e, calls) = send_on s encoded sent in (r, e, calls)
    ]

unfoldable pub close_calls : Map Bytes ℕ → List Call
close_calls [] = []
close_calls ((id, s) ∷ m) = closes s ∷ close_calls m

unfoldable pub close : Router → Router × List Call
unfolding close_calls
close r = (record r { done = true }, close_calls r.streams)

-- What `receive` and the decoding give `processStream`; it returns at the first failure. The result
-- are the messages that it dispatches.
unfoldable pub process_stream : List (Result Error Bytes) → List Bytes
process_stream [] = []
process_stream (err e ∷ rs) = []
process_stream (ok m ∷ rs) = m ∷ process_stream rs

-- How `Broadcast` ends, or that it waits for one more result.
pub data Outcome : Type 0 where
  returned : Option Error → Outcome
  waiting : Outcome

-- The loop of `Broadcast` over the results of its goroutines: `n` is not changed in its body.
unfoldable pub collect : ℕ → ℕ → List (Option Error) → Outcome
collect n ids [] = if ltb n ids then waiting else returned none
collect n ids (r ∷ rs) =
    let rest = collect n ids rs in
    if ltb n ids then elim r [ some e ↦ returned (some e) | none ↦ rest ] else returned none

-- The sequential dispatcher: its processors, and the calls of `Process` that a message makes.
unfoldable pub register_processor : List ℕ → ℕ → List ℕ
register_processor procs p = procs ++ p ∷ []

unfoldable pub dispatch : List ℕ → Bytes → Bytes → List (ℕ × Bytes × Bytes)
dispatch [] id m = []
dispatch (p ∷ procs) id m = (p, id, m) ∷ dispatch procs id m
