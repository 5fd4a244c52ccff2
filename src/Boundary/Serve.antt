-- ===== src/Boundary/Serve.antt =====
-- gateway/app/request_boundary.py: `RequestBoundary`, as the events of all requests in the order in which the
-- event loop serves them.
use magistrate.Prelude.{
  ℕ, ◌+◌, ◌-◌, String, Bool, true, false, ◌||◌, Option, none, some, List, [], ◌∷◌, ◌==◌,
  if◌then◌else◌, ltb, leb, nat_eq,
}
use magistrate.Boundary.Request.{Header, body_limit, values, length_error, secured_headers}

-- A request that has been let in. `received` is what was counted, `delivered` what of it the
-- application was given.
pub record Flight : Type 0 where
  pub correlation : String
  pub path : String
  pub received : ℕ
  pub delivered : ℕ
  pub failure : Option ℕ
  pub status : ℕ
  pub started : Bool

pub record Server : Type 0 where
  pub max_inflight : ℕ
  pub inflight : ℕ
  pub flights : List Flight

-- What `receive` gives: a part of the body, another message, or nothing in time.
pub data Message : Type 0 where
  body : (bytes : ℕ) → Message
  other : Message
  timed_out : Message

-- How the application ends.
pub data End : Type 0 where
  returned raised : End

pub data Event : Type 0 where
  arrives : (correlation path : String) → List Header → Event
  receives : (correlation : String) → Message → Event
  starts : (correlation : String) → (status : ℕ) → List Header → Event
  ends : (correlation : String) → End → Event

-- What is answered: a rejection with its code, the entry to the application, a message or an exception
-- for it, the headers of its answer, the end with the outcome that is recorded, or nothing.
pub data Reply : Type 0 where
  rejected : (code : ℕ) → Reply
  entered : Reply
  given : Message → Reply
  excepted : (code : ℕ) → Reply
  headed : List Header → Reply
  finished : (code : Option ℕ) → (outcome : String) → Reply
  unheard : Reply

abbrev pub is_flight : (correlation : String) → Flight → Bool
is_flight correlation f = f.correlation == correlation

unfoldable pub flight_of : (correlation : String) → List Flight → Option Flight
flight_of c [] = none
flight_of c (f ∷ fs) = if is_flight c f then some f else flight_of c fs

unfoldable pub put_flight : Flight → List Flight → List Flight
put_flight g [] = []
put_flight g (f ∷ fs) = if is_flight g.correlation f then g ∷ fs else f ∷ put_flight g fs

unfoldable pub drop_flight : (correlation : String) → List Flight → List Flight
drop_flight c [] = []
drop_flight c (f ∷ fs) = if is_flight c f then fs else f ∷ drop_flight c fs

abbrev pub new_flight : (correlation path : String) → Flight
new_flight correlation path = record {
  correlation = correlation;
  path = path;
  received = 0;
  delivered = 0;
  failure = none;
  status = 500;
  started = false;
}

-- There is no await between the test of the capacity and the increment.
unfoldable pub arrive : (correlation path : String) → List Header → Server → Reply × Server
arrive correlation path headers s =
    elim (length_error (body_limit path) (values "content-length" headers)) [
      | some code ↦ (rejected code, s)
      | none ↦ if leb s.max_inflight s.inflight then (rejected 503, s) else (
        entered,
        record s { inflight = s.inflight + 1; flights = new_flight correlation path ∷ s.flights },
      )
    ]

abbrev pub counted : (bytes : ℕ) → Flight → Flight
counted bytes f = record f { received = f.received + bytes }

-- `bounded_receive`
unfoldable pub bounded_receive : Message → Flight → Reply × Flight
bounded_receive (body bytes) f =
    if ltb (body_limit f.path) (f.received + bytes)
    then (excepted 413, record f { received = f.received + bytes; failure = some 413 })
    else (
      given (body bytes),
      record f { received = f.received + bytes; delivered = f.delivered + bytes },
    )
bounded_receive other f = (given other, f)
bounded_receive timed_out f = (excepted 408, record f { failure = some 408 })

abbrev pub is_rejection : (status : ℕ) → Bool
is_rejection status =
    nat_eq status 400
    || nat_eq status 401
    || nat_eq status 403
    || nat_eq status 408
    || nat_eq status 413
    || nat_eq status 429

abbrev pub outcome_of : (status : ℕ) → String
outcome_of status =
    if is_rejection status then "rejected" else if leb 500 status then "error" else "ok"

abbrev pub code_of : Flight → ℕ
code_of f = elim f.failure [ none ↦ 500 | some code ↦ code ]

-- The answer that an exception gets, unless the application has started its own.
abbrev pub finish : End → Flight → Reply
finish returned f = finished none (outcome_of f.status)
finish raised f =
    if f.started
    then finished none (outcome_of f.status)
    else finished (some (code_of f)) (outcome_of (code_of f))

unfoldable pub serve : Event → Server → Reply × Server
serve (arrives correlation path headers) s = arrive correlation path headers s
serve (receives correlation message) s = elim (flight_of correlation s.flights) [
  | none ↦ (unheard, s)
  | some f ↦
      let (reply, g) = bounded_receive message f in
      (reply, record s { flights = put_flight g s.flights })
]
serve (starts correlation status headers) s = elim (flight_of correlation s.flights) [
  | none ↦ (unheard, s)
  | some f ↦ (
    headed (secured_headers f.path correlation headers),
    record s { flights = put_flight (record f { status = status; started = true }) s.flights },
  )
]
serve (ends correlation end) s = elim (flight_of correlation s.flights) [
  | none ↦ (unheard, s)
  | some f ↦ (
    finish end f,
    record s { inflight = s.inflight - 1; flights = drop_flight correlation s.flights },
  )
]

unfoldable pub serve_all : List Event → Server → Server
serve_all [] s = s
serve_all (e ∷ events) s = serve_all events (serve e s).1

-- The server at its start.
abbrev pub fresh : (max_inflight : ℕ) → Server
fresh max_inflight = record { max_inflight = max_inflight; inflight = 0; flights = [] }
