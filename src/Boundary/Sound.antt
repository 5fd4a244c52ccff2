-- ===== src/Boundary/Sound.antt =====
-- gateway/app/request_boundary.py: however requests interleave, capacity is neither exceeded nor lost, and
-- no application is given more than the limit.
use mathlib.Core.Path.{subst}
use magistrate.Prelude.{
  suc, ◌+◌, ◌≤◌, String, ◌≡◌, refl, sym, ◌∙◌, true, some, List, [], ◌∷◌, ltb, leb, arith,
  Bool-cases, Option-cases, inl, inr,
}
use magistrate.Prelude.Order.{size}
use magistrate.Boundary.Request.{Header, body_limit, values, length_error}
use magistrate.Boundary.Serve.{
  Flight, Server, Message, body, other, timed_out, Event, arrives, receives, starts, ends,
  is_flight, flight_of, put_flight, drop_flight, arrive, bounded_receive, serve, serve_all,
}

-- What the application was given was counted, and is within the limit of the path.
pub record IsWithin (f : Flight) : Type 0 where
  pub counted : f.delivered ≤ f.received
  pub limited : f.delivered ≤ body_limit f.path

abbrev pub AllWithin : List Flight → Type 0
AllWithin [] = Unit
AllWithin (f ∷ fs) = IsWithin f × AllWithin fs

-- The count is the number of requests that are being served, which the capacity bounds.
pub record IsSound (s : Server) : Type 0 where
  pub counts : s.inflight ≡ size s.flights
  pub bounded : s.inflight ≤ s.max_inflight
  pub within : AllWithin s.flights

flight_of-IsWithin :
    (c : String) (fs : List Flight) {f : Flight}
    → flight_of c fs ≡ some f
    → AllWithin fs
    → IsWithin f
unfolding flight_of
flight_of-IsWithin c [] h w = absurd (cc)
flight_of-IsWithin c (g ∷ fs) {f} h (v, w) = elim (Bool-cases (is_flight c g)) [
  | inl mine ↦ let same : some g ≡ some f = rw (mine, flight_of) at h in subst IsWithin (cc) v
  | inr else_one ↦ flight_of-IsWithin c fs (rw (else_one, flight_of) at h) w
]

put_flight-size : (g : Flight) (fs : List Flight) → size (put_flight g fs) ≡ size fs
unfolding put_flight size
put_flight-size g [] = refl
put_flight-size g (f ∷ fs) = ground (arith, put_flight-size g fs)

put_flight-AllWithin :
    (g : Flight) (fs : List Flight) → IsWithin g → AllWithin fs → AllWithin (put_flight g fs)
unfolding put_flight
put_flight-AllWithin g [] v w = w
put_flight-AllWithin g (f ∷ fs) v (u, w) = elim (Bool-cases (is_flight g.correlation f)) [
  | inl mine ↦ rw (mine, put_flight) (v, w)
  | inr else_one ↦ rw (else_one, put_flight) (u, put_flight-AllWithin g fs v w)
]

drop_flight-size :
    (c : String) (fs : List Flight) {f : Flight}
    → flight_of c fs ≡ some f
    → size fs ≡ suc (size (drop_flight c fs))
unfolding flight_of drop_flight size
drop_flight-size c [] h = absurd (cc)
drop_flight-size c (g ∷ fs) {f} h = ground (arith, drop_flight-size c fs {f = f})

drop_flight-AllWithin :
    (c : String) (fs : List Flight) → AllWithin fs → AllWithin (drop_flight c fs)
unfolding drop_flight
drop_flight-AllWithin c [] w = w
drop_flight-AllWithin c (f ∷ fs) (u, w) = elim (Bool-cases (is_flight c f)) [
  | inl mine ↦ rw (mine, drop_flight) w
  | inr else_one ↦ rw (else_one, drop_flight) (u, drop_flight-AllWithin c fs w)
]

bounded_receive-IsWithin :
    (m : Message) (f : Flight) → IsWithin f → IsWithin ((bounded_receive m f).1)
unfolding bounded_receive
bounded_receive-IsWithin (body bytes) f v =
    elim (Bool-cases (ltb (body_limit f.path) (f.received + bytes))) [
      | inl over ↦
          rw (over, bounded_receive)
            (record { counted = omega (arith, v.counted); limited = v.limited })
      | inr fine ↦
          rw (fine, bounded_receive)
            (record {
              counted = omega (arith, v.counted);
              limited = ground (arith, v.counted, fine);
            })
    ]
bounded_receive-IsWithin other f v = v
bounded_receive-IsWithin timed_out f v = record { counted = v.counted; limited = v.limited }

-- A flight is replaced.
put_flight-IsSound :
    (g : Flight) (s : Server)
    → IsWithin g
    → IsSound s
    → IsSound (record s { flights = put_flight g s.flights })
put_flight-IsSound g s v w = record {
  counts = w.counts ∙ sym (put_flight-size g s.flights);
  bounded = w.bounded;
  within = put_flight-AllWithin g s.flights v w.within;
}

arrive-IsSound :
    (correlation path : String) (headers : List Header) (s : Server)
    → IsSound s
    → IsSound ((arrive correlation path headers s).1)
unfolding arrive size
arrive-IsSound correlation path headers s w =
    elim (Option-cases (length_error (body_limit path) (values "content-length" headers))) [
      | inr (code, refused) ↦ rw (refused, arrive) w
      | inl fine ↦ elim (Bool-cases (leb s.max_inflight s.inflight)) [
        | inl full ↦ rw (fine, full, arrive) w
        | inr room ↦
            rw (fine, room, arrive)
              (record {
                counts = ground (arith, w.counts);
                bounded = ground (arith, room);
                within = (record { counted = omega arith; limited = omega arith }, w.within);
              })
      ]
    ]

serve-IsSound : (e : Event) (s : Server) → IsSound s → IsSound ((serve e s).1)
unfolding serve
serve-IsSound (arrives correlation path headers) s w = arrive-IsSound correlation path headers s w
serve-IsSound (receives correlation m) s w = elim (Option-cases (flight_of correlation s.flights)) [
  | inl gone ↦ rw (gone, serve) w
  | inr (f, found) ↦
      rw (found, serve)
        (put_flight-IsSound ((bounded_receive m f).1) s
          (bounded_receive-IsWithin m f (flight_of-IsWithin correlation s.flights found w.within))
          w)
]
serve-IsSound (starts correlation status headers) s w =
    elim (Option-cases (flight_of correlation s.flights)) [
      | inl gone ↦ rw (gone, serve) w
      | inr (f, found) ↦
          let v = flight_of-IsWithin correlation s.flights found w.within in
          rw (found, serve)
            (put_flight-IsSound (record f { status = status; started = true }) s
              (record { counted = v.counted; limited = v.limited }) w)
    ]
serve-IsSound (ends correlation end) s w = elim (Option-cases (flight_of correlation s.flights)) [
  | inl gone ↦ rw (gone, serve) w
  | inr (f, found) ↦
      let less = drop_flight-size correlation s.flights found in
      rw (found, serve)
        (record {
          counts = ground (arith, less, w.counts);
          bounded = ground (arith, w.bounded);
          within = drop_flight-AllWithin correlation s.flights w.within;
        })
]

-- However the events of requests interleave, the count of requests in flight stays the number of those
-- that are being served and within the capacity, and no application is given more bytes of a body than
-- the limit of its path.
pub serve_all-IsSound :
    (events : List Event) (s : Server) → IsSound s → IsSound (serve_all events s)
unfolding serve_all
serve_all-IsSound [] s w = w
serve_all-IsSound (e ∷ events) s w = serve_all-IsSound events (serve e s).1 (serve-IsSound e s w)
