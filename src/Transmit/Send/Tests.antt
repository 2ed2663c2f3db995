-- ===== src/Transmit/Send/Tests.antt =====
-- An upload against a server that keeps a log of the addresses it was asked for.
use swinv.Prelude.{
  ℕ, zero, suc, ◌+◌, ◌<◌, ◌≡◌, ◌⊎◌, inl, inr, refl, Bool, true, false, ◌||◌, List, [], ◌∷◌, ◌++◌,
  Bytes, codes, bytes_eq, bytes_eq_refl, none, some, Result, ok, err, Eff, Keeps, arith, ap,
}
use mathlib.Core.Path.{subst}
use swinv.Transmit.Batches.{each_batch, each_line, take_line, add_line, flush}
use swinv.Transmit.Retry.{Error, message, Response, classify, retry}
use swinv.Transmit.Spool.{Spool, Disk, Session, manifest, ack}
use swinv.Transmit.Request.{
  Client, Api, batch_url, open_scan, post_batch, close_scan, do_request, send_once, compressed,
}
use swinv.Transmit.Send.{adopt, resume_point, send_batch, send_batches, send}
use swinv.Transmit.Send.Contract.{Contract}
use swinv.Transmit.Send.Ledger.{Ledger, send_batches-Ledger}

abbrev Log : Type 0
Log = List Bytes

abbrev unary : ℕ → Bytes
unary zero = []
unary (suc n) = b'1' ∷ unary n

abbrev disk : Disk Log
disk = record {
  join = λ a b. a ++ b'/' ∷ b;
  make_dir = λ p m w. (ok tt, w);
  atomic_write_file = λ p m c w. (ok tt, w);
  rename = λ a b w. (ok tt, w);
  remove = λ p w. (ok tt, w);
  is_not_exist = λ e. true;
  open_file = λ p w.
      (ok (record { content = codes "{manifest}\n{one}\n{two}\n{three}\n"; failure = none }), w);
  now = λ w. 0;
  encode = λ s. s.scan_id;
  record_type = λ line. ok (codes "heartbeat");
}

abbrev accepted : Response
accepted = record { status_code = 200; retry_after_header = []; reply = []; read_error = none }

abbrev api : Api Log
api = record {
  clock = record {
    random = λ w n. 0;
    context_error = λ w. none;
    sleep = λ d w. (true, w);
    done_error = λ w. message [];
  };
  invalid_url = λ u. none;
  http = λ request w. (ok accepted, request.url ∷ w);
  gzip = λ b. ok (b'z' ∷ []);
  itoa = unary;
  decode_open = λ b. err (message b);
  decode_status = λ b. err (message b);
  decode_close = λ b. err (message b);
}

abbrev client : Client
client = record {
  base = codes "https://host/ingest";
  token = codes "t";
  compress = codes "auto";
  attempts = 5;
}

contains : Bytes → Log → Bool
contains u [] = false
contains u (x ∷ w) = bytes_eq u x || contains u w

abbrev Logged : Log → Bytes → ℕ → Type 0
Logged w id i = contains (batch_url api client id i) w ≡ true

contains-cons : (u x : Bytes) (w : Log) → contains u w ≡ true → contains u (x ∷ w) ≡ true
unfolding contains
contains-cons u x w h = ground arith

contains_here : (u x : Bytes) (w : Log) → x ≡ u → contains u (x ∷ w) ≡ true
unfolding contains
contains_here u x w h = ground (arith, h, bytes_eq_refl u)

logged-posted :
    (u x : Bytes) (w w' : Log) (r : Response)
    → x ≡ u
    → ◌≡◌ {A = Result Error Response × Log} (ok accepted, x ∷ w) (ok r, w')
    → contains u w' ≡ true
logged-posted u x w w' r e h =
    subst (λ (v : Log). contains u v ≡ true) (λ k. (h k).1) (contains_here u x w e)

contract : Contract disk api client Logged
contract = record {
  by_disk = λ id i. record {
    write = λ p m c. record { at = λ w h. h };
    rename = λ a b. record { at = λ w h. h };
    remove = λ p. record { at = λ w h. h };
    open_file = λ p. record { at = λ w h. h };
  };
  by_network = λ id i. record {
    http = λ request w h. contains-cons (batch_url api client id i) request.url w h;
    sleep = λ d w h. h;
  };
  posted = λ id i request w r w' m u e c.
      logged-posted (batch_url api client id i) request.url w w' r u e;
}

abbrev spool : Spool
spool = record {
  dir = codes "out";
  name = codes "scan-1";
  perm = 0o600;
  dir_perm = 0o700;
  state = record {
    scan_id = codes "scan-1";
    endpoint = codes "https://host/ingest";
    hostname = codes "host";
    created = 0;
    batch_lines = 2;
    batch_bytes = 1000;
    acked = 0;
    declared = 3;
  };
}

abbrev session : Session Log
session = record { spool = spool; world = [] }

-- Both batches are acknowledged.
both_acked : (send disk api client session).1.spool.state.acked ≡ 2
unfolding send adopt resume_point send_batches send_batch manifest ack open_scan post_batch
    close_scan swinv.Prelude.Space.trim_space do_request send_once compressed retry classify
    each_batch each_line take_line add_line flush
both_acked = refl

send_batches-Ledger_example :
    Ledger Logged 0 (codes "scan-1") (send_batches disk api client (codes "scan-1") 0 session).1
send_batches-Ledger_example =
    send_batches-Ledger disk api client Logged contract (codes "scan-1") 0 0 session
      (λ j p. absurd (omega arith)) (λ file w e. cc e) (λ j p. absurd (omega arith))
