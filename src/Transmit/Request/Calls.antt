-- ===== src/Transmit/Request/Calls.antt =====
-- A call keeps what its requests and pauses keep, and a call that succeeds was answered.
use swinv.Prelude.{
  ℕ, ◌≡◌, ◌⊎◌, inl, inr, refl, Bool, true, false, not, ◌&&◌, ◌||◌, is_empty, bytes_eq, ltb, length,
  sym, Bytes, Option, some, none, Option-cases, Bool-cases, Result, ok, Result-cases, Eff, Keeps,
  ◌∙◌, codes, ◌++◌, [],
}
use swinv.Transmit.Retry.{Error, Response, classify}
use swinv.Transmit.Retry.Outcomes.{retry-keeps, retry-ok}
use swinv.Transmit.Spool.{label}
use swinv.Transmit.Request.{
  Request, Client, Api, compressed, send_once, read_reply, do_request, is_blank, OpenResponse,
  StatusResponse, post, batch_url, scan_url, open_scan, status, post_batch,
}

-- `P` survives whatever the transport and the timer do.
pub record KeptByNetwork {W : Type 0} (api : Api W) (P : W → Type 0) : Type 0 where
  pub http : (request : Request) (w : W) → P w → P (api.http request w).1
  pub sleep : (d : ℕ) (w : W) → P w → P (api.clock.sleep d w).1

pub label-ok :
    {S A : Type 0} (text : Bytes) (m : Eff S Error A) (s : S) {a : A} {s' : S}
    → label text m s ≡ (ok a, s')
    → m s ≡ (ok a, s')
label-ok text m s h = elim (Result-cases (m s).0) [
  | inl (a, e) ↦ (λ i. (e i, (m s).1)) ∙ rw (e, label) at h
  | inr (x, e) ↦ absurd (cc (rw (e, label) at h))
]

ok_eq : {A : Type 0} {x y : A} → ◌≡◌ {A = Result Error A} (ok x) (ok y) → x ≡ y
ok_eq g = cc g

module _ {W : Type 0} (api : Api W) (client : Client) where
  send_once-keeps :
      {A : Type 0} (P : W → Type 0)
      → KeptByNetwork api P
      → (request : Request) (z : A) (decode : Bytes → Result Error A) (attempt : ℕ) (w : W) → P w
      → P (send_once api client request z decode attempt w).1
  unfolding send_once
  send_once-keeps P k request z decode attempt w h =
      elim (Option-cases (api.invalid_url request.url)) [
        | inr (e, x) ↦ rw (x, send_once) h
        | inl x ↦ elim (Result-cases (api.http request w).0) [
          | inl (resp, y) ↦ rw (x, y, send_once) (k.http request w h)
          | inr (e, y) ↦ rw (x, y, send_once) (k.http request w h)
        ]
      ]

  pub do_request-Keeps :
      {A : Type 0} (P : W → Type 0)
      → KeptByNetwork api P
      → (method url scan_id : Bytes) (body : Option Bytes) (gz : Bool) (z : A)
        (decode : Bytes → Result Error A)
      → Keeps P (do_request api client method url scan_id body gz z decode)
  unfolding do_request
  do_request-Keeps P k method url scan_id body gz z decode = record {
    at = λ w h. elim (Result-cases (compressed api client body gz)) [
      | inr (e, x) ↦ rw (x, do_request) h
      | inl ((payload, encoding), x) ↦
          rw (x, do_request)
            (retry-keeps api.clock client.attempts _ P
              (λ n v q. send_once-keeps P k _ z decode n v q) k.sleep w h)
    ];
  }

  -- The request of an attempt that succeeded, and its answer; what it carried is what `compressed` made
  -- of the body.
  pub record Answer {A : Type 0} (method url : Bytes) (body : Option Bytes) (gz : Bool) (z : A)
      (decode : Bytes → Result Error A) (a : A) (w' : W) : Type 0 where
    pub request : Request
    pub asked : W
    pub response : Response
    pub of_method : request.method ≡ method
    pub of_url : request.url ≡ url
    pub carried : compressed api client body gz ≡ ok (request.payload, request.encoding)
    pub answered : api.http request asked ≡ (ok response, w')
    pub accepted : classify response ≡ none
    pub value : (a ≡ z) ⊎ (decode response.reply ≡ ok a)

  read_reply-ok :
      {A : Type 0} (z : A) (decode : Bytes → Result Error A) (resp : Response) {a : A}
      → read_reply api client z decode resp ≡ ok a
      → (classify resp ≡ none) × ((a ≡ z) ⊎ (decode resp.reply ≡ ok a))
  unfolding read_reply
  read_reply-ok z decode resp {a} h = elim (Option-cases (classify resp)) [
    | inr (e, x) ↦ absurd (cc (rw (x, read_reply) at h))
    | inl x ↦ elim (Option-cases resp.read_error) [
      | inr (e, y) ↦ absurd (cc (rw (x, y, read_reply) at h))
      | inl y ↦ elim (Bool-cases (is_blank resp.reply)) [
        | inl b ↦ (x, inl (cc (rw (x, y, b, read_reply) at h)))
        | inr b ↦ elim (Result-cases (decode resp.reply)) [
          | inl (v, e) ↦ (x, inr (e ∙ rw (x, y, b, e, read_reply) at h))
          | inr (v, e) ↦ absurd (cc (rw (x, y, b, e, read_reply) at h))
        ]
      ]
    ]
  ]

  send_once-ok :
      {A : Type 0} (request : Request) (body : Option Bytes) (gz : Bool) (z : A)
      (decode : Bytes → Result Error A) (attempt : ℕ) (w : W) {a : A} {w' : W}
      → compressed api client body gz ≡ ok (request.payload, request.encoding)
      → send_once api client request z decode attempt w ≡ (ok a, w')
      → Answer request.method request.url body gz z decode a w'
  unfolding send_once
  send_once-ok request body gz z decode attempt w {a} {w'} c h =
      elim (Option-cases (api.invalid_url request.url)) [
        | inr (e, x) ↦ absurd (cc (rw (x, send_once) at h))
        | inl x ↦ elim (Result-cases (api.http request w).0) [
          | inr (e, y) ↦ absurd (cc (rw (x, y, send_once) at h))
          | inl (resp, y) ↦
              let e = rw (x, y, send_once) at h in
              let read = read_reply-ok z decode resp (λ i. (e i).0) in
              record {
                request = request;
                asked = w;
                response = resp;
                of_method = refl;
                of_url = refl;
                carried = c;
                answered = λ i. (y i, (e i).1);
                accepted = read.0;
                value = read.1;
              }
        ]
      ]

  pub do_request-ok :
      {A : Type 0} (method url scan_id : Bytes) (body : Option Bytes) (gz : Bool) (z : A)
      → (decode : Bytes → Result Error A) (w : W) {a : A} {w' : W}
      → do_request api client method url scan_id body gz z decode w ≡ (ok a, w')
      → Answer method url body gz z decode a w'
  unfolding do_request
  do_request-ok method url scan_id body gz z decode w {a} {w'} h =
      elim (Result-cases (compressed api client body gz)) [
        | inr (e, x) ↦ absurd (cc (rw (x, do_request) at h))
        | inl ((payload, encoding), x) ↦
            let (n, v, e, lo, hi) =
              retry-ok api.clock client.attempts _ w a w' (rw (x, do_request) at h) in
            send_once-ok _ body gz z decode n v x e
      ]

  pub post_batch-ok :
      (id : Bytes) (i : ℕ) (text : Bytes) (w : W) {w' : W}
      → post_batch api client id i text w ≡ (ok tt, w')
      → Answer (post api client) (batch_url api client id i) (some text) true tt (λ _. ok tt) tt w'
  unfolding post_batch
  post_batch-ok id i text w h =
      do_request-ok (post api client) (batch_url api client id i) id (some text) true tt
        (λ _. ok tt) w
        (label-ok (codes "batch" ++ api.itoa i)
          (do_request api client (post api client) (batch_url api client id i) id (some text) true
            tt (λ _. ok tt))
          w h)

  pub open_scan-ok :
      (line : Bytes) (w : W) (a : OpenResponse) (w' : W)
      → open_scan api client line w ≡ (ok a, w')
      → Answer
          (post api client)
          (client.base ++ codes "/scan")
          (some line)
          false
          (record { scan_id = []; resume_from = 0 })
          api.decode_open
          a
          w'
  unfolding open_scan
  open_scan-ok line w a w' h =
      do_request-ok (post api client) (client.base ++ codes "/scan") [] (some line) false _
        api.decode_open w
        (label-ok (codes "opening the scan")
          (do_request api client (post api client) (client.base ++ codes "/scan") [] (some line)
            false (record { scan_id = []; resume_from = 0 }) api.decode_open)
          w h)

  pub status-ok :
      (id : Bytes) (w : W) (a : StatusResponse) (w' : W)
      → status api client id w ≡ (ok a, w')
      → Answer
          (codes "GET")
          (scan_url api client id ++ codes "/status")
          none
          false
          (record { scan_id = []; resume_from = 0; received = 0 })
          api.decode_status
          a
          w'
  unfolding status
  status-ok id w a w' h =
      do_request-ok (codes "GET") (scan_url api client id ++ codes "/status") id none false _
        api.decode_status w
        (label-ok (codes "asking where to resume")
          (do_request api client (codes "GET") (scan_url api client id ++ codes "/status") id none
            false (record { scan_id = []; resume_from = 0; received = 0 }) api.decode_status)
          w h)

  -- The request carries a text: as it is, or in the form that gzip gives it.
  abbrev pub Carries : Request → Bytes → Type 0
  Carries request text =
      ((request.payload ≡ some text) × (request.encoding ≡ []))
      ⊎ ((small : Bytes) × (api.gzip text ≡ ok small)
          × (request.payload ≡ some small)
          × (request.encoding ≡ codes "gzip"))

  pub compressed-Carries :
      (request : Request) (text : Bytes)
      → compressed api client (some text) true ≡ ok (request.payload, request.encoding)
      → Carries request text
  unfolding compressed
  compressed-Carries request text h =
      elim (Bool-cases (not (is_empty text) && not (bytes_eq client.compress (codes "never")))) [
        | inr plain ↦ inl (as_pair (rw (plain, compressed) at h))
        | inl try' ↦ elim (Result-cases (api.gzip text)) [
          | inr (e, x) ↦ absurd (cc (rw (try', x, compressed) at h))
          | inl (small, x) ↦
              elim (Bool-cases
                (ltb (length small) (length text) || bytes_eq client.compress (codes "always"))) [
                  | inl kept ↦
                      let (p, e) = as_pair (rw (try', x, kept, compressed) at h) in
                      inr (small, x, p, e)
                  | inr dropped ↦ inl (as_pair (rw (try', x, dropped, compressed) at h))
                ]
        ]
      ]
    where
      as_pair :
          {p q : Option Bytes} {e f : Bytes}
          → ◌≡◌ {A = Result Error (Option Bytes × Bytes)} (ok (p, e)) (ok (q, f))
          → (q ≡ p) × (f ≡ e)
      as_pair g = let same = sym (ok_eq g) in (λ k. (same k).0, λ k. (same k).1)
