-- ===== src/Boundary/Tests.antt =====
-- gateway/app/request_boundary.py: three requests at a gateway with room for one, and the headers of an
-- answer.
use magistrate.Prelude.{◌≡◌, refl, some, List, [], ◌∷◌, arith}
use magistrate.Prelude.Chars.{length, all_chars, starts_with, is_ignoring_case, value_of_digits}
use magistrate.Prelude.Order.{size}
use magistrate.Boundary.Request.{body_limit, values, length_error, without, secured_headers}
use magistrate.Boundary.Serve.{
  Server, body, Event, arrives, receives, ends, raised, rejected, excepted, finished, flight_of,
  put_flight, drop_flight, arrive, bounded_receive, serve, serve_all, fresh,
}
use magistrate.Boundary.Headers.{Secured, secured_headers-Secured}
use magistrate.Boundary.Sound.{IsSound, serve_all-IsSound}

program : Unit {0}
unfolding length all_chars starts_with is_ignoring_case value_of_digits size body_limit values
    length_error without secured_headers flight_of put_flight drop_flight arrive bounded_receive
    serve serve_all
program = tt

abbrev one : Server
one = fresh 1

abbrev busy : Server
busy = serve_all (arrives "a" "/api/v1/chat" [] ∷ receives "a" (body 900_000) ∷ []) one

overloaded : (serve (arrives "b" "/" []) busy).0 ≡ rejected 503
unfolding program
overloaded = refl

-- The declared length, which lies below the limit, is not what counts.
too_large : (serve (receives "a" (body 100_001)) busy).0 ≡ excepted 413
unfolding program
too_large = refl

declared : (serve (arrives "b" "/" (("Content-Length", "1000001") ∷ [])) one).0 ≡ rejected 413
unfolding program
declared = refl

unclear :
    (serve (arrives "b" "/" (("content-length", "1") ∷ ("Content-Length", "1") ∷ [])) one).0
    ≡ rejected 400
unfolding program
unclear = refl

abbrev events : List Event
events =
    receives "a" (body 100_001)
    ∷ receives "a" (body 1)
    ∷ ends "a" raised
    ∷ arrives "c" "/api/v1/uploads" []
    ∷ []

answers :
    (serve (ends "a" raised) (serve_all (receives "a" (body 100_001) ∷ []) busy)).0
    ≡ finished (some 413) "rejected"
unfolding program
answers = refl

-- The application's own request id and caching do not get through.
heads :
    secured_headers "/uploads/x" "id"
      (("X-Request-Id", "forged") ∷ ("Cache-Control", "public") ∷ ("etag", "e") ∷ [])
    ≡ ("etag", "e")
      ∷ ("x-request-id", "id")
      ∷ ("x-content-type-options", "nosniff")
      ∷ ("referrer-policy", "no-referrer")
      ∷ ("cache-control", "no-store")
      ∷ ("content-security-policy", "default-src 'none'; sandbox")
      ∷ []
unfolding program
heads = refl

busy-IsSound : IsSound busy
unfolding program
busy-IsSound = record {
  counts = refl;
  bounded = omega arith;
  within = (record { counted = omega arith; limited = omega arith }, tt);
}

serve_all-IsSound_example : IsSound (serve_all events busy)
unfolding program
serve_all-IsSound_example = serve_all-IsSound events busy busy-IsSound

secured_headers-Secured_example :
    Secured "/api/v1/chat" "id" (("X-Request-ID", "forged") ∷ ("cache-control", "public") ∷ []) (
      secured_headers "/api/v1/chat" "id"
        (("X-Request-ID", "forged") ∷ ("cache-control", "public") ∷ []))
secured_headers-Secured_example =
    secured_headers-Secured "/api/v1/chat" "id"
      (("X-Request-ID", "forged") ∷ ("cache-control", "public") ∷ [])
