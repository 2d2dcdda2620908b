-- ===== src/Client.antt =====
-- The HTTP client of the synchronisations (base/api/client.go). The transport, the URL parser, the
-- JSON encoder and decoder are parameters. The decoder fills the value that it is given, also when
-- it fails.
pub mod Retries
use vuln4shift_backend.Prelude.{
  ℕ, zero, suc, ◌<◌, Bool, true, false, ◌&&◌, List, [], ◌∷◌, Option, none, some, ltb, leb,
  if◌then◌else◌, Str, Result, ok, err,
}

pub data ClientError : Type 0 where
  bad_encoding bad_request transport_failed bad_body bad_json : ClientError

-- What a request gives: the status code, the error and the value behind `responsePtr`.
pub record Reply (R : Type 0) : Type 0 where
  pub status_code : ℕ
  pub error : Option ClientError
  pub response : R

-- `HTTPClient`, with the state `W` of the world: `Do` gives the status code and the body, which may
-- fail to be read.
pub record HttpClient (W : Type 0) : Type 0 where
  pub new_request : Str → Str → Bool
  pub do_ : Str → Str → Str → W → W × Option (ℕ × Option Str)

abbrev pub is_ok : {A : Type 0} → Option A → Bool
is_ok none = Bool.true
is_ok (some e) = Bool.false

-- `IsSuccessCode`
unfoldable pub is_success_code : ℕ → Bool
is_success_code code = leb 200 code && ltb code 300

module _ {W Q R : Type 0} (http : HttpClient W) (encode : Q → Option Str)
    (decode : Str → R → R × Option ClientError) where
  unfoldable pub read_body : ℕ × Option Str → R → Reply R
  read_body (status, none) r = record { status_code = status; error = some bad_body; response = r }
  read_body (status, some body) r =
      let (r', e) = decode body r in record { status_code = status; error = e; response = r' }

  reply_of : Option (ℕ × Option Str) → R → Reply R
  unfolding read_body
  reply_of none r = record { status_code = 0; error = some transport_failed; response = r }
  reply_of (some answer) r = read_body answer r

  send_body : Str → Str → Str → R → W → W × Reply R
  unfolding reply_of
  send_body method url body r w =
      let (w', answer) = http.do_ method url body w in
      if http.new_request method url
      then (w', reply_of answer r)
      else (w, record { status_code = 0; error = some bad_request; response = r })

  -- `Request`
  unfoldable pub request : Str → Str → Option Q → R → W → W × Reply R
  unfolding send_body
  request method url none r w = send_body method url [] r w
  request method url (some q) r w = elim (encode q) [
    | none ↦ (w, record { status_code = 0; error = some bad_encoding; response = r })
    | some body ↦ send_body method url body r w
  ]

  -- The test on which the loop ends.
  abbrev pub succeeded : Reply R → Bool
  succeeded reply = leb 200 reply.status_code && leb reply.status_code 299 && is_ok reply.error

  -- The loop of `RetryRequest`, with the tries left and the last reply.
  unfoldable pub retry : ℕ → Str → Str → Option Q → Reply R → W → W × Reply R
  retry zero method url q reply w = (w, reply)
  retry (suc n) method url q reply w =
      let (w', reply') = request method url q reply.response w in
      let rest = retry n method url q reply' w' in if succeeded reply' then (w', reply') else rest

  -- `RetryRequest`, with the configured number of retries.
  unfoldable pub retry_request : ℕ → Str → Str → Option Q → R → W → W × Reply R
  unfolding retry
  retry_request retries method url q r w =
      retry retries method url q (record { status_code = 0; error = none; response = r }) w
