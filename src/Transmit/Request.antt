-- ===== src/Transmit/Request.antt =====
-- internal/transmit/transmit.go: `Client.do` and the four calls of the server's contract.
-- The transport, gzip and JSON are parameters; deadlines and pacing belong to the transport.
pub mod Calls
use swinv.Prelude.{
  ℕ, ◌+◌, Bool, true, false, not, ◌&&◌, ◌||◌, List, [], ◌∷◌, ◌++◌, Option, none, some, Bytes, codes,
  bytes_eq, ltb, ◌==◌, if◌then◌else◌, is_empty, length, Result, ok, err, Eff, pure, fail, ◌>>=◌,
  ◌>>◌,
}
use swinv.Prelude.Space.{trim_space}
use swinv.Transmit.Spool.{label}
use swinv.Transmit.Retry.{Error, message, permanent, wrapped, Response, classify, Clock, retry}

pub record Request : Type 0 where
  pub method : Bytes
  pub url : Bytes
  pub payload : Option Bytes
  pub encoding : Bytes
  pub token : Bytes
  pub idempotency_key : Bytes

pub record OpenResponse : Type 0 where
  pub scan_id : Bytes
  pub resume_from : ℕ

pub record StatusResponse : Type 0 where
  pub scan_id : Bytes
  pub resume_from : ℕ
  pub received : ℕ

pub record CloseVerdict : Type 0 where
  pub scan_id : Bytes
  pub declared : ℕ
  pub stored : ℕ
  pub reconciled : Bool
  pub message : Bytes

-- The options that `do` reads, and `base`.
pub record Client : Type 0 where
  pub base : Bytes
  pub token : Bytes
  pub compress : Bytes
  pub attempts : ℕ

pub record Api (W : Type 0) : Type 0 where
  pub clock : Clock W
  pub invalid_url : Bytes → Option Error
  pub http : Request → Eff W Error Response
  pub gzip : Bytes → Result Error Bytes
  pub itoa : ℕ → Bytes
  pub decode_open : Bytes → Result Error OpenResponse
  pub decode_status : Bytes → Result Error StatusResponse
  pub decode_close : Bytes → Result Error CloseVerdict

-- `len(bytes.TrimSpace(b)) == 0`.
is_blank : Bytes → Bool
is_blank b = is_empty (trim_space b)

module _ {W : Type 0} (api : Api W) (client : Client) where
  -- The payload and its encoding.
  unfoldable pub compressed : Option Bytes → Bool → Result Error (Option Bytes × Bytes)
  compressed none gzip_body = ok (none, [])
  compressed (some body) gzip_body =
      if gzip_body && not (is_empty body) && not (bytes_eq client.compress (codes "never"))
      then elim (api.gzip body) [
        | err e ↦ err e
        | ok small ↦
            if ltb (length small) (length body) || bytes_eq client.compress (codes "always")
            then ok (some small, codes "gzip")
            else ok (some body, [])
      ]
      else ok (some body, [])

  -- What is decoded into: the zero value stays when the reply is blank.
  read_reply : {A : Type 0} → A → (Bytes → Result Error A) → Response → Result Error A
  unfolding is_blank classify
  read_reply zero_value decode resp = elim (classify resp) [
    | some e ↦ err e
    | none ↦ elim resp.read_error [
      | some e ↦ err (wrapped (codes "reading the response") e)
      | none ↦ if is_blank resp.reply then ok zero_value else elim (decode resp.reply) [
        | err e ↦ err (permanent (wrapped (codes "the server's reply is not JSON") e))
        | ok a ↦ ok a
      ]
    ]
  ]

  -- One attempt.
  unfoldable pub send_once :
      {A : Type 0} → Request → A → (Bytes → Result Error A) → ℕ → Eff W Error A
  unfolding read_reply
  send_once request zero_value decode attempt w = elim (api.invalid_url request.url) [
    | some e ↦ (err (permanent (wrapped (codes "building request") e)), w)
    | none ↦
        let (r, w') = api.http request w in
        elim r [
          | err e ↦ (err (wrapped (codes "attempt") e), w')
          | ok resp ↦ (read_reply zero_value decode resp, w')
        ]
  ]

  unfoldable pub do_request :
      {A : Type 0}
      → Bytes
      → Bytes
      → Bytes
      → Option Bytes
      → Bool
      → A
      → (Bytes → Result Error A)
      → Eff W Error A
  do_request method url scan_id body gzip_body zero_value decode w =
      elim (compressed body gzip_body) [
        | err e ↦ (err e, w)
        | ok (payload, encoding) ↦
            retry api.clock client.attempts
              (send_once
                (record {
                  method = method;
                  url = url;
                  payload = payload;
                  encoding = encoding;
                  token = client.token;
                  idempotency_key = scan_id;
                })
                zero_value decode)
              w
      ]

  abbrev pub post : Bytes
  post = codes "POST"

  abbrev pub scan_url : Bytes → Bytes
  scan_url scan_id = client.base ++ (codes "/scan/" ++ scan_id)

  abbrev pub batch_url : Bytes → ℕ → Bytes
  batch_url scan_id index = scan_url scan_id ++ (codes "/batch/" ++ api.itoa index)

  -- `openScan`.
  unfoldable pub open_scan : Bytes → Eff W Error OpenResponse
  open_scan manifest = label (codes "opening the scan") (
      do_request post (client.base ++ codes "/scan") [] (some manifest) false
        (record { scan_id = []; resume_from = 0 }) api.decode_open)

  -- `status`.
  unfoldable pub status : Bytes → Eff W Error StatusResponse
  status scan_id = label (codes "asking where to resume") (
      do_request (codes "GET") (scan_url scan_id ++ codes "/status") scan_id none false
        (record { scan_id = []; resume_from = 0; received = 0 }) api.decode_status)

  -- `postBatch`: nothing is decoded.
  unfoldable pub post_batch : Bytes → ℕ → Bytes → Eff W Error Unit
  post_batch scan_id index body =
      label (codes "batch" ++ api.itoa index)
        (do_request post (batch_url scan_id index) scan_id (some body) true tt (λ _. ok tt))

  named : Bytes → CloseVerdict → CloseVerdict
  named scan_id out = if is_empty out.scan_id then record out { scan_id = scan_id } else out

  -- `closeScan`.
  unfoldable pub close_scan : Bytes → Eff W Error CloseVerdict
  unfolding named
  close_scan scan_id = do
    out ← label (codes "closing the scan") (
        do_request post (scan_url scan_id ++ codes "/close") scan_id (some (codes "{}")) false
          (record { scan_id = []; declared = 0; stored = 0; reconciled = false; message = [] })
          api.decode_close)
    pure (named scan_id out)
