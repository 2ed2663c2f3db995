-- ===== src/Transmit/Send/Uploads.antt =====
-- An upload of two batches against a server that keeps every request.
use swinv.Prelude.{
  ℕ, zero, suc, ◌-◌, length, length-append, drop-length-append, ok-injective, ◌≡◌, ◌≢◌, ◌∙◌, ap,
  sym, refl, inl, inr, Bool, true, false, ◌||◌, ◌&&◌, List, [], ◌∷◌, ◌++◌, Option, none, some,
  Bytes, codes, bytes_eq, bytes_eq_refl, append_assoc, Result, ok, err, arith, has_suffix,
  has_suffix-append, get_elem?,
}
use mathlib.Core.Path.{subst}
use swinv.Transmit.Batches.{each_batch, each_line, take_line, add_line, flush}
use swinv.Transmit.Batches.Plan.{cut, record_lines}
use swinv.Transmit.Payload.{read_lines, trim_newline}
use swinv.Transmit.Retry.{Error, message, Response, classify, retry}
use swinv.Transmit.Spool.{Spool, Disk, Session, manifest, ack}
use swinv.Transmit.Request.{
  Request, Client, Api, CloseVerdict, batch_url, open_scan, post_batch, close_scan, do_request,
  send_once, compressed,
}
use swinv.Transmit.Request.Calls.{Carries}
use swinv.Transmit.Send.{adopt, resume_point, send_batch, send_batches, send}
use swinv.Transmit.Send.Custody.{Custody}
use swinv.Transmit.Send.Payload.{Files}
use swinv.Transmit.Send.Complete.{send-Uploaded}
use swinv.Transmit.Send.Resumed.{Uploaded, texts_of}

abbrev Log : Type 0
Log = List Request

abbrev unary : ℕ → Bytes
unary zero = []
unary (suc n) = b'1' ∷ unary n

abbrev content : Bytes
content = codes "{manifest}\n{one}\n{two}\n{three}\n"

abbrev disk : Disk Log
disk = record {
  join = λ a b. a ++ (b'/' ∷ b);
  make_dir = λ p m w. (ok tt, w);
  atomic_write_file = λ p m c w. (ok tt, w);
  rename = λ a b w. (ok tt, w);
  remove = λ p w. (ok tt, w);
  is_not_exist = λ e. true;
  open_file = λ p w. (ok (record { content = content; failure = none }), w);
  now = λ w. 0;
  encode = λ s. s.scan_id;
  record_type = λ line. ok (codes "heartbeat");
}

abbrev accepted : Response
accepted = record { status_code = 200; retry_after_header = []; reply = []; read_error = none }

abbrev api : Api Log
api = record {
  clock = record {
    random = λ w n. 0;
    context_error = λ w. none;
    sleep = λ d w. (true, w);
    done_error = λ w. message [];
  };
  invalid_url = λ u. none;
  http = λ request w. (ok accepted, request ∷ w);
  gzip = λ b. err (message b);
  itoa = unary;
  decode_open = λ b. err (message b);
  decode_status = λ b. err (message b);
  decode_close = λ b. err (message b);
}

abbrev client : Client
client = record {
  base = codes "https://host/ingest";
  token = codes "t";
  compress = codes "never";
  attempts = 5;
}

abbrev has_payload : Option Bytes → Bytes → Bool
has_payload none text = false
has_payload (some p) text = bytes_eq p text

stored : Bytes → Bytes → Log → Bool
stored url text [] = false
stored url text (r ∷ w) = (bytes_eq r.url url && has_payload r.payload text) || stored url text w

-- The log has a request for the batch that carries the text as it is.
abbrev Stored : Log → Bytes → ℕ → Bytes → Type 0
Stored w id i text = stored (batch_url api client id i) text w ≡ true

stored-cons :
    (url text : Bytes) (r : Request) (w : Log)
    → stored url text w ≡ true
    → stored url text (r ∷ w) ≡ true
unfolding stored
stored-cons url text r w h = ground arith

stored_here :
    (url text : Bytes) (r : Request) (w w' : Log) (resp : Response)
    → r.url ≡ url
    → r.payload ≡ some text
    → ◌≡◌ {A = Result Error Response × Log} (ok accepted, r ∷ w) (ok resp, w')
    → stored url text w' ≡ true
unfolding stored
stored_here url text r w w' resp e p h =
    subst (λ (v : Log). stored url text v ≡ true) (λ k. (h k).1)
      (rw (e, p, bytes_eq_refl url, bytes_eq_refl text) refl)

carried :
    (url text : Bytes) (r : Request) (w w' : Log) (resp : Response)
    → r.url ≡ url
    → Carries api client r text
    → ◌≡◌ {A = Result Error Response × Log} (ok accepted, r ∷ w) (ok resp, w')
    → stored url text w' ≡ true
carried url text r w w' resp e (inl (p, plain)) h = stored_here url text r w w' resp e p h
carried url text r w w' resp e (inr (small, zipped, rest, coded)) h = absurd (cc zipped)

abbrev spool : Spool
spool = record {
  dir = codes "out";
  name = codes "scan-1";
  perm = 0o600;
  dir_perm = 0o700;
  state = record {
    scan_id = codes "scan-1";
    endpoint = codes "https://host/ingest";
    hostname = codes "host";
    created = 0;
    batch_lines = 2;
    batch_bytes = 1000;
    acked = 0;
    declared = 3;
  };
}

abbrev session : Session Log
session = record { spool = spool; world = [] }

abbrev verdict : CloseVerdict
verdict = record {
  scan_id = codes "scan-1";
  declared = 0;
  stored = 0;
  reconciled = false;
  message = [];
}

-- A fresh scan: the server has nothing of it and asks to resume nowhere.
custody : Custody disk api client Stored (λ id. Unit) (codes "scan-1") (texts_of spool content)
custody = record {
  by_disk = λ id i text. record {
    write = λ p m c. record { at = λ w h. h };
    rename = λ a b. record { at = λ w h. h };
    remove = λ p. record { at = λ w h. h };
    open_file = λ p. record { at = λ w h. h };
  };
  by_network = λ id i text. record {
    http = λ request w h. stored-cons (batch_url api client id i) text request w h;
    sleep = λ d w h. h;
  };
  posted = λ id i text request w r w' m u c e a.
      carried (batch_url api client id i) text request w w' r u c e;
  ours = tt;
  opened = λ request w r w' a u e c d. absurd (cc d);
  asked = λ id o request w r w' a u e c d. absurd (cc d);
}

-- Two texts that end in different bytes, of one length.
other_end : (x y t q : Bytes) → length t ≡ length q → bytes_eq t q ≡ false → (x ++ t) ≢ (y ++ q)
unfolding has_suffix
other_end x y t q same differs e =
    let at : length (x ++ t) - length q ≡ length x = omega (arith, length-append x t, same) in
    let not_there : has_suffix (x ++ t) q ≡ false =
      rw (at, drop-length-append x t, differs) (ground arith) in
    cc (not_there, has_suffix-append y q, ap (λ z. has_suffix z q) e)

ends_apart :
    (dir a b : Bytes)
    → (dir ++ (b'/' ∷ (a ++ codes ".state.json"))) ≢ (dir ++ (b'/' ∷ (b ++ codes ".ndjson")))
ends_apart dir a b e =
    other_end (dir ++ (b'/' ∷ (a ++ codes ".sta"))) (dir ++ (b'/' ∷ b)) (codes "te.json")
      (codes ".ndjson") refl (unfold bytes_eq in refl)
      (append_assoc dir (b'/' ∷ (a ++ codes ".sta")) (codes "te.json")
        ∙ ap (λ z. dir ++ (b'/' ∷ z)) (append_assoc a (codes ".sta") (codes "te.json"))
        ∙ e
        ∙ sym (append_assoc dir (b'/' ∷ b) (codes ".ndjson")))

files : Files disk api (λ w path c. c ≡ content)
files = record {
  apart = ends_apart;
  write = λ p o c t m d. record { at = λ w h. h };
  remove = λ p o c d. record { at = λ w h. h };
  rename = λ a b c w w' h e. h;
  open_file = λ p o c. record { at = λ w h. h };
  reads = λ p c w w' file h e. sym (λ k. ((ok-injective e).0 k).content) ∙ sym h;
  by_network = λ p c. record { http = λ r w h. h; sleep = λ d w h. h };
}

abbrev finished : Session Log
finished = (send disk api client session).1

uploads : send disk api client session ≡ (ok verdict, finished)
unfolding send adopt resume_point send_batches send_batch manifest ack open_scan post_batch
    close_scan swinv.Prelude.Space.trim_space do_request send_once compressed retry classify
    each_batch each_line take_line add_line flush
uploads = refl

texts_run : texts_of spool content ≡ codes "{one}\n{two}\n" ∷ codes "{three}\n" ∷ []
unfolding cut record_lines read_lines trim_newline
texts_run = refl

send-Uploaded_example : Uploaded Stored (texts_of spool content) finished
send-Uploaded_example =
    send-Uploaded disk api client Stored (λ id. Unit) (λ w path c. c ≡ content) content session
      verdict finished custody files refl uploads
