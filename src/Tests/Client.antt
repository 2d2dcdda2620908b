-- ===== src/Tests/Client.antt =====
-- Runs of the HTTP client's retries.
use vuln4shift_backend.Prelude.{
  nat_beq, if◌then◌else◌, ℕ, zero, suc, ◌≡◌, refl, Option, none, some, true, [], Str, codes,
}
use vuln4shift_backend.Client.{HttpClient, Reply, ClientError, request, retry_request}
use vuln4shift_backend.Client.Retries.{Ended, retry_request-Ended, retry_request-unreported, Quiet}

-- A server that fails once with 503 and then answers; the state counts the requests.
abbrev flaky : HttpClient ℕ
flaky = record {
  new_request = λ method url. true;
  do_ = λ method url body n.
      (suc n, elim n [ zero ↦ some (503, some []) | suc _ ↦ some (200, some []) ]);
}

-- A server that always answers with 404 and a body.
abbrev lost : HttpClient ℕ
lost = record {
  new_request = λ method url. true;
  do_ = λ method url body n. (suc n, some (404, some (codes "{}")));
}

abbrev encode_nothing : ℕ → Option Str
encode_nothing q = some []

abbrev decode_all : Str → ℕ → ℕ × Option ClientError
decode_all body r = (r, none)

abbrev start : Reply ℕ
start = record { status_code = 0; error = none; response = 7 }

retry_request-Ended_example :
    Ended flaky encode_nothing decode_all
      (codes "GET")
      (codes "u")
      none
      3
      start
      0
      (retry_request flaky encode_nothing decode_all 3 (codes "GET") (codes "u") none 7 0)
retry_request-Ended_example =
    retry_request-Ended flaky encode_nothing decode_all (codes "GET") (codes "u") none 3 7 0

-- The second request succeeds, and there is no third.
flaky_run :
    (retry_request flaky encode_nothing decode_all 3 (codes "GET") (codes "u") none 7 0).0 ≡ 2
unfolding retry_request request
flaky_run = refl

retry_request-unreported_example :
    Quiet
      (if nat_beq 3 0 then 0 else 404)
      (retry_request lost encode_nothing decode_all 3 (codes "GET") (codes "u") (some 5) 7 0).1
retry_request-unreported_example =
    retry_request-unreported lost encode_nothing decode_all (codes "GET") (codes "u") []
      (codes "{}") 404 refl (λ v. refl) (λ x. refl) (some 5) refl 3 7 0
