-- ===== src/Auth/Signed.antt =====
-- Which requests are let in.
use ansuman_nsfw_detection_s.Base.{
  ◌≡◌, ◌≢◌, refl, String, true, false, ◌||◌, Option, none, some, str_eq, eq_iff, inl, inr,
  Bool-cases,
}
use ansuman_nsfw_detection_s.Base.Int.{ℤ, pos, ◌-ℤ◌, nat_abs, ltb_ℤ}
use ansuman_nsfw_detection_s.Base.Text.{int_of}
use ansuman_nsfw_detection_s.Settings.{Settings, internal_request_secret}
use ansuman_nsfw_detection_s.Errors.{AppError, app, Outcome, ok, raised}
use ansuman_nsfw_detection_s.Auth.{
  checked_signature, checked_timestamp, checked_secret, checked_headers, Digests, Headers,
  SignedRequestContext, timestamp_header, signature_header, verify_signature, authenticate,
}

not_blank : (s : String) → s ≢ "" → str_eq s "" ≡ false
not_blank s ne = elim (Bool-cases (str_eq s "")) [
  | inl eq ↦ absurd (ne ((eq_iff s "").0 eq))
  | inr other ↦ other
]

-- What lets a request in: both headers, a secret, a timestamp that is a number and not too far from the
-- clock, and the signature of this very request.
pub record Admitted {Bytes : Type 0} (digests : Digests Bytes) (settings : Settings) (now : ℤ)
    (method path : String) (headers : Headers) (body : Bytes) (context : SignedRequestContext)
    : Type 0 where
  pub timestamp_raw : String
  pub signature : String
  pub secret : String
  pub has_timestamp : headers timestamp_header ≡ some timestamp_raw
  pub has_signature : headers signature_header ≡ some signature
  pub has_secret : internal_request_secret settings ≡ some secret
  pub is_number : int_of timestamp_raw ≡ some context.timestamp
  pub is_fresh :
      ltb_ℤ settings.internal_request_max_skew_sec (pos (nat_abs (now -ℤ context.timestamp)))
      ≡ false
  pub is_signed : verify_signature digests secret timestamp_raw method path body signature ≡ true

module _ {Bytes : Type 0} (digests : Digests Bytes) (settings : Settings) (now : ℤ)
    (method path : String) (headers : Headers) (body : Bytes) where
  -- A refusal has the status 401, and whoever is let in was to be.
  abbrev pub Right : Outcome SignedRequestContext → Type 0
  Right (ok context) = Admitted digests settings now method path headers body context
  Right (raised x) = (e : AppError) × (x ≡ app e) × (e.status_code ≡ 401)

  checked_signature-Right :
      (timestamp_raw signature secret : String) (timestamp : ℤ)
      → headers timestamp_header ≡ some timestamp_raw
      → headers signature_header ≡ some signature
      → internal_request_secret settings ≡ some secret
      → int_of timestamp_raw ≡ some timestamp
      → Right (
          checked_signature digests settings now secret timestamp_raw signature timestamp method
            path body)
  checked_signature-Right timestamp_raw signature secret timestamp ht hs hk hn =
      let stale = ltb_ℤ settings.internal_request_max_skew_sec (pos (nat_abs (now -ℤ timestamp))) in
      elim (Bool-cases stale) [
        | inl old ↦ rw (old) (_, refl, refl)
        | inr fresh ↦
            elim (Bool-cases
              (verify_signature digests secret timestamp_raw method path body signature)) [
                | inl good ↦
                    rw (fresh, good)
                      (record {
                        timestamp_raw = timestamp_raw;
                        signature = signature;
                        secret = secret;
                        has_timestamp = ht;
                        has_signature = hs;
                        has_secret = hk;
                        is_number = hn;
                        is_fresh = fresh;
                        is_signed = good;
                      })
                | inr bad ↦ rw (fresh, bad) (_, refl, refl)
              ]
      ]

  checked_timestamp-Right :
      (t g k : String) (n : Option ℤ)
      → headers timestamp_header ≡ some t
      → headers signature_header ≡ some g
      → internal_request_secret settings ≡ some k
      → int_of t ≡ n
      → Right (checked_timestamp digests settings now k t g n method path body)
  checked_timestamp-Right t g k none ht hs hk hn = (_, refl, refl)
  checked_timestamp-Right t g k (some n) ht hs hk hn = checked_signature-Right t g k n ht hs hk hn

  checked_secret-Right :
      (t g : String) (k : Option String)
      → headers timestamp_header ≡ some t
      → headers signature_header ≡ some g
      → internal_request_secret settings ≡ k
      → Right (checked_secret digests settings now k t g method path body)
  checked_secret-Right t g none ht hs hk = (_, refl, refl)
  checked_secret-Right t g (some k) ht hs hk =
      checked_timestamp-Right t g k (int_of t) ht hs hk refl

  checked_headers-Right :
      (t g : Option String)
      → headers timestamp_header ≡ t
      → headers signature_header ≡ g
      → Right (checked_headers digests settings now t g method path body)
  checked_headers-Right none g ht hs = (_, refl, refl)
  checked_headers-Right (some t) none ht hs = (_, refl, refl)
  checked_headers-Right (some t) (some g) ht hs = elim (Bool-cases (str_eq t "" || str_eq g "")) [
    | inl blank ↦ rw (blank) (_, refl, refl)
    | inr there ↦
        rw (there) (checked_secret-Right t g (internal_request_secret settings) ht hs refl)
  ]

  -- Whatever the request, if it is let in then both headers are there, a secret is set, the timestamp is a
  -- number no further from the clock than the setting allows, and the signature passes for this very
  -- request; if it is refused, the status is 401.
  pub authenticate_sound : Right (authenticate digests settings now method path headers body)
  unfolding authenticate
  authenticate_sound =
      checked_headers-Right (headers timestamp_header) (headers signature_header) refl refl

  -- A request with both headers, not empty, of which the timestamp is a number no further from the clock
  -- than the setting allows and the signature passes under the secret that is set, is let in.
  pub authenticate_complete :
      (context : SignedRequestContext)
      (a : Admitted digests settings now method path headers body context)
      → a.timestamp_raw ≢ ""
      → a.signature ≢ ""
      → authenticate digests settings now method path headers body ≡ ok context
  unfolding authenticate
  authenticate_complete context a nt ns =
      rw
        (
          a.has_timestamp,
          a.has_signature,
          not_blank a.timestamp_raw nt,
          not_blank a.signature ns,
          a.has_secret,
          a.is_number,
          a.is_fresh,
          a.is_signed,
        )
        refl
