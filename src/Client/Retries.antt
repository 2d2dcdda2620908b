-- ===== src/Client/Retries.antt =====
-- When a retried request ends, and with what.
use vuln4shift_backend.Prelude.{
  ℕ, zero, suc, ◌<◌, ◌≡◌, refl, ◌⊎◌, inl, inr, Bool, true, false, Option, none, some, arith,
  if◌then◌else◌, Bool-cases, nat_beq, Str, [],
}
use vuln4shift_backend.Client.{
  ClientError, Reply, HttpClient, read_body, reply_of, send_body, request, succeeded, retry,
  retry_request,
}

module _ {W Q R : Type 0} (http : HttpClient W) (encode : Q → Option Str)
    (decode : Str → R → R × Option ClientError) (method url : Str) (q : Option Q) where
  abbrev step : Reply R → W → W × Reply R
  step reply w = request http encode decode method url q reply.response w

  abbrev good : Reply R → Bool
  good = succeeded http encode decode

  -- `Failures n reply w reply' w'`: after the reply `reply` in the state `w`, `n` requests in a row
  -- that do not succeed lead to the reply `reply'` in `w'`.
  pub data Failures : ℕ → Reply R → W → Reply R → W → Type 0 where
    none_yet : {reply : Reply R} {w : W} → Failures 0 reply w reply w
    failure :
        {n : ℕ} {reply reply' : Reply R} {w w' : W}
        → good (step reply w).1 ≡ false
        → Failures n (step reply w).1 (step reply w).0 reply' w'
        → Failures (suc n) reply w reply' w'

  -- How the loop ends: with the first success, after fewer failures than it has tries, or after
  -- that many failures, with the last of them.
  pub Ended : ℕ → Reply R → W → W × Reply R → Type 0
  Ended tries reply w end =
      ((n : ℕ) × (before : Reply R) × (v : W) × (n < tries)
        × Failures n reply w before v
        × (end ≡ step before v)
        × (good end.1 ≡ true))
      ⊎ Failures tries reply w end.1 end.0

  Ended-step :
      (n : ℕ) (reply : Reply R) (w : W) (end : W × Reply R) (b : Bool)
      → good (step reply w).1 ≡ b
      → Ended n (step reply w).1 (step reply w).0 end
      → Ended (suc n) reply w (if b then step reply w else end)
  unfolding Ended
  Ended-step n reply w end true e h = inl (0, reply, w, omega arith, none_yet, refl, e)
  Ended-step n reply w end false e (inl (k, before, v, lt, fs, same, g)) =
      inl (suc k, before, v, omega arith, failure e fs, same, g)
  Ended-step n reply w end false e (inr fs) = inr (failure e fs)

  retry-Ended :
      (tries : ℕ) (reply : Reply R) (w : W)
      → Ended tries reply w (retry http encode decode tries method url q reply w)
  unfolding retry Ended
  retry-Ended zero reply w = inr none_yet
  retry-Ended (suc n) reply w =
      Ended-step n reply w _ (good (step reply w).1) refl
        (retry-Ended n (step reply w).1 (step reply w).0)

  -- RetryRequest ends with its first success, reached after fewer failures in a row than it has
  -- tries, or after exactly that many failures, with the last one's reply.
  pub retry_request-Ended :
      (retries : ℕ) (r : R) (w : W)
      → Ended retries
          (record { status_code = 0; error = none; response = r })
          w
          (retry_request http encode decode retries method url q r w)
  unfolding retry_request
  retry_request-Ended retries r w = retry-Ended retries _ w

-- A reply with a status code and no error.
abbrev pub Quiet : {R : Type 0} → ℕ → Reply R → Type 0
Quiet code reply = (reply.error ≡ none) × (reply.status_code ≡ code)

-- The body that is sent, if the request can be encoded.
abbrev pub body_of : {Q : Type 0} → (Q → Option Str) → Option Q → Option Str
body_of encode none = some []
body_of encode (some q) = encode q

module _ {W Q R : Type 0} (http : HttpClient W) (encode : Q → Option Str)
    (decode : Str → R → R × Option ClientError) (method url body answer : Str) (code : ℕ)
    (sent : http.new_request method url ≡ true)
    (answered : (v : W) → (http.do_ method url body v).1 ≡ some (code, some answer))
    (decoded : (x : R) → (decode answer x).1 ≡ none) where
  request-Quiet :
      (q : Option Q) (x : R) (w : W)
      → body_of encode q ≡ some body
      → Quiet code (request http encode decode method url q x w).1
  unfolding request send_body reply_of read_body
  request-Quiet none x w e = ground (arith, sent, answered w, decoded x, e)
  request-Quiet (some q) x w e = ground (arith, sent, answered w, decoded x, e)

  module _ (q : Option Q) (encoded : body_of encode q ≡ some body) where
    retry-Quiet :
        (n : ℕ) (reply : Reply R) (w : W)
        → Quiet code reply
        → Quiet code (retry http encode decode n method url q reply w).1
    unfolding retry
    retry-Quiet zero reply w h = h
    retry-Quiet (suc n) reply w h =
        let (w', reply') = request http encode decode method url q reply.response w in
        let quiet = request-Quiet q reply.response w encoded in
        elim (Bool-cases (succeeded http encode decode reply')) [
          | inl e ↦ ground (arith, quiet)
          | inr e ↦ ground (arith, retry-Quiet n reply' w' quiet)
        ]

    -- If the request can be encoded and made, and the server always answers it with the same status
    -- code and a body that decodes, then RetryRequest returns no error, whatever the code is: with
    -- that code if there is at least one try, and otherwise with 0.
    pub retry_request-unreported :
        (retries : ℕ) (r : R) (w : W)
        → Quiet
            (if nat_beq retries 0 then 0 else code)
            (retry_request http encode decode retries method url q r w).1
    unfolding retry_request retry
    retry_request-unreported zero r w = (refl, refl)
    retry_request-unreported (suc retries) r w =
        let (w', reply') = request http encode decode method url q r w in
        let quiet = request-Quiet q r w encoded in
        elim (Bool-cases (succeeded http encode decode reply')) [
          | inl e ↦ ground (arith, quiet)
          | inr e ↦ ground (arith, retry-Quiet retries reply' w' quiet)
        ]
