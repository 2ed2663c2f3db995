-- ===== src/Inventory/Heartbeat/Full.antt =====
-- When the component list may be left out.
use swinv.Prelude.{
  ℕ, ◌≡◌, ◌⊎◌, inl, inr, refl, sym, ap, ◌∙◌, true, false, Bool-cases, List, [], ◌∷◌, Option,
  Option-cases, none, some, Bytes, bytes_eq, bytes_eq_iff, is_empty, if◌then◌else◌, ok,
}
use swinv.Prelude.Table.{Table, find, set, find-set, find-set_other}
use swinv.Inventory.Heartbeat.{
  HeartbeatHost, Config, Report, StateFile, overdue, Reason, against, full_reason, host_of,
  with_digest, warn, inventory_digest, read_state, decided, apply_heartbeat,
}

-- A full component list that was sent: by which host, with which digest, and when.
pub record Sent : Type 0 where
  pub host : Bytes
  pub digest : Bytes
  pub at : ℕ

abbrev pub In : Sent → List Sent → Type 0
In s [] = ⊥
In s (x ∷ xs) = (s ≡ x) ⊎ In s xs

-- A written state is read back; a failed write leaves the old one.
pub record StateLaws {W : Type 0} (file : StateFile W) : Type 0 where
  pub written :
      (t : Table HeartbeatHost) (w : W)
      → (file.write t w).0 ≡ none
      → file.read (file.write t w).1 ≡ ok (some t)
  pub failed :
      (t : Table HeartbeatHost) (w : W) (e : Bytes)
      → (file.write t w).0 ≡ some e
      → file.read (file.write t w).1 ≡ file.read w

some-injective : {A : Type 0} {x y : A} → some x ≡ some y → x ≡ y
some-injective e = cc e

against-none :
    (cfg : Config) (digest : Bytes) (now : ℕ) (previous : Option HeartbeatHost)
    → against cfg digest now previous ≡ none
    → (p : HeartbeatHost) × (previous ≡ some p)
      × (p.digest ≡ digest)
      × (overdue cfg.full_interval now p.full_at ≡ false)
against-none cfg digest now none h = absurd (cc h)
against-none cfg digest now (some p) h = elim (Bool-cases (bytes_eq p.digest digest)) [
  | inr other ↦ absurd (cc (rw other at h))
  | inl same ↦ elim (Bool-cases (overdue cfg.full_interval now p.full_at)) [
    | inl late ↦ absurd (cc (rw (same, late) at h))
    | inr recent ↦ (p, refl, (bytes_eq_iff p.digest digest).0 same, recent)
  ]
]

full_reason-none :
    (cfg : Config) (digest : Bytes) (now : ℕ) (previous : Option HeartbeatHost)
    → full_reason cfg digest now previous ≡ none
    → (cfg.force_full ≡ false)
      × ((p : HeartbeatHost) × (previous ≡ some p)
          × (p.digest ≡ digest)
          × (overdue cfg.full_interval now p.full_at ≡ false))
unfolding full_reason
full_reason-none cfg digest now previous h = elim (Bool-cases cfg.force_full) [
  | inl force ↦ absurd (cc (rw force at h))
  | inr free ↦ (free, against-none cfg digest now previous (rw free at h))
]

find-nil : (h : Bytes) (p : HeartbeatHost) → find h [] ≡ some p → ⊥
unfolding find
find-nil h p e = cc e

module _ {W : Type 0} (file : StateFile W) where
  -- The digest, the host and the reason of a run.
  abbrev pub digest_of : Report → Bytes
  digest_of report = inventory_digest file report.components

  abbrev pub reason_of : Config → Report → W → Option Reason
  reason_of cfg report w =
      full_reason cfg (digest_of report) report.started_at
        (find (host_of report) (read_state file w))

  abbrev sent_of : Report → Sent
  sent_of report = record {
    host = host_of report;
    digest = digest_of report;
    at = report.started_at;
  }

  abbrev log_of : Option Reason → Report → List Sent → List Sent
  log_of none report sent = sent
  log_of (some reason) report sent = sent_of report ∷ sent

  -- What has been sent in full after one more run.
  abbrev pub logged : Config → Report → W → List Sent → List Sent
  logged cfg report w sent =
      if cfg.heartbeat then log_of (reason_of cfg report w) report sent else sent

  -- The runs since nothing was recorded, with anything between them that leaves the state file alone.
  pub data Runs : List Sent → W → Type 0 where
    start : (w : W) → read_state file w ≡ [] → Runs [] w
    between : (sent : List Sent) (w v : W) → Runs sent w → file.read v ≡ file.read w → Runs sent v
    run :
        (sent : List Sent) (w : W) (cfg : Config) (report : Report)
        → Runs sent w
        → Runs (logged cfg report w sent) (apply_heartbeat file cfg report w).1

  -- Every host in the state file has sent what is recorded of it.
  abbrev Backed : List Sent → Table HeartbeatHost → Type 0
  Backed sent t =
      (host : Bytes) (p : HeartbeatHost)
      → find host t ≡ some p
      → In (record { host = host; digest = p.digest; at = p.full_at }) sent

  Backed-set :
      (sent : List Sent) (t : Table HeartbeatHost) (host digest : Bytes) (at : ℕ)
      → Backed sent t
      → Backed
          (record { host = host; digest = digest; at = at } ∷ sent)
          (set host (record { digest = digest; full_at = at }) t)
  Backed-set sent t host digest at backed h p found =
      let entry : HeartbeatHost = record { digest = digest; full_at = at } in
      elim (Bool-cases (bytes_eq h host)) [
        | inl same ↦
            let e : h ≡ host = (bytes_eq_iff h host).0 same in
            let it : p ≡ entry =
              some-injective
                (sym found ∙ (ap (λ x. find x (set host entry t)) e ∙ find-set host entry t)) in
            inl (rw (e, it) refl)
        | inr apart ↦ inr (backed h p (sym (find-set_other h host entry t apart) ∙ found))
      ]

  apply_heartbeat-off :
      (cfg : Config) (report : Report) (w : W)
      → cfg.heartbeat ≡ false
      → (apply_heartbeat file cfg report w).1 ≡ w
  unfolding apply_heartbeat
  apply_heartbeat-off cfg report w off = elim (Bool-cases (is_empty cfg.transmit)) [
    | inl nowhere ↦ rw (off, nowhere) refl
    | inr somewhere ↦ rw (off, somewhere) refl
  ]

  apply_heartbeat-on :
      (cfg : Config) (report : Report) (w : W)
      → cfg.heartbeat ≡ true
      → apply_heartbeat file cfg report w
        ≡ decided file
            (reason_of cfg report w)
            (host_of report)
            (digest_of report)
            (with_digest (digest_of report) report)
            w
  unfolding apply_heartbeat
  apply_heartbeat-on cfg report w on = rw on refl

  module _ (laws : StateLaws file) where
    decided-Backed :
        (reason : Option Reason) (report : Report) (w : W) (sent : List Sent)
        → Backed sent (read_state file w)
        → Backed (log_of reason report sent) (
            read_state file
              (decided file reason
                (host_of report)
                (digest_of report)
                (with_digest (digest_of report) report)
                w).1)
    decided-Backed none report w sent backed = backed
    decided-Backed (some reason) report w sent backed =
        let entry : HeartbeatHost = record {
          digest = digest_of report;
          full_at = report.started_at;
        } in
        let t = set (host_of report) entry (read_state file w) in
        elim (Option-cases (file.write t w).0) [
          | inl fine ↦ rw (laws.written t w fine) (
              Backed-set sent (read_state file w) (host_of report) (digest_of report)
                report.started_at backed)
          | inr (e, lost) ↦ rw (laws.failed t w e lost) λ h p found. inr (backed h p found)
        ]

    Runs-Backed : (sent : List Sent) (w : W) → Runs sent w → Backed sent (read_state file w)
    unfolding full_reason
    Runs-Backed sent w (start w' empty) = λ h p found. absurd (find-nil h p (rw empty at found))
    Runs-Backed sent w (between sent' w' v runs same) = rw same (Runs-Backed sent' w' runs)
    Runs-Backed sent w (run sent' w' cfg report runs) = elim (Bool-cases cfg.heartbeat) [
      | inl on ↦
          rw (apply_heartbeat-on cfg report w' on, on)
            (decided-Backed (reason_of cfg report w') report w' sent' (Runs-Backed sent' w' runs))
      | inr off ↦ rw (apply_heartbeat-off cfg report w' off, off) (Runs-Backed sent' w' runs)
    ]

module _ {W : Type 0} (file : StateFile W) where
  decided-unchanged :
      (reason : Option Reason) (host digest : Bytes) (r : Report) (w : W)
      → r.inventory_unchanged ≡ false
      → (decided file reason host digest r w).0.inventory_unchanged ≡ true
      → reason ≡ none
  decided-unchanged none host digest r w fresh h = refl
  decided-unchanged (some reason) host digest r w fresh h = absurd (warned _ h)
    where
      warned : (e : Option Bytes) → (warn e r).inventory_unchanged ≡ true → ⊥
      warned none h' = cc (sym fresh ∙ h')
      warned (some e) h' = cc (sym fresh ∙ h')

  apply_heartbeat-unchanged :
      (cfg : Config) (report : Report) (w : W)
      → report.inventory_unchanged ≡ false
      → (apply_heartbeat file cfg report w).0.inventory_unchanged ≡ true
      → (cfg.heartbeat ≡ true) × (reason_of file cfg report w ≡ none)
  unfolding apply_heartbeat
  apply_heartbeat-unchanged cfg report w fresh h = elim (Bool-cases cfg.heartbeat) [
    | inl on ↦ (
      on,
      decided-unchanged (reason_of file cfg report w) (host_of report) (digest_of file report)
          (with_digest (digest_of file report) report) w fresh (rw on at h),
    )
    | inr off ↦ elim (Bool-cases (is_empty cfg.transmit)) [
      | inl nowhere ↦ absurd (cc (sym fresh ∙ rw (off, nowhere) at h))
      | inr somewhere ↦ absurd (cc (sym fresh ∙ rw (off, somewhere) at h))
    ]
  ]

-- Over any sequence of runs that began with nothing recorded, on a state file that keeps its laws, a
-- run that leaves its component list out was not forced to send it, and its host has sent a full
-- list with the very same digest, so recently that the interval, where one is set,
-- has not run out.
pub apply_heartbeat-sent :
    {W : Type 0} (file : StateFile W)
    → StateLaws file
    → (sent : List Sent) (w : W) → Runs file sent w
    → (cfg : Config) (report : Report) → report.inventory_unchanged ≡ false
    → (apply_heartbeat file cfg report w).0.inventory_unchanged ≡ true
    → (cfg.force_full ≡ false)
      × ((at : ℕ) × In
            (record { host = host_of report; digest = digest_of file report; at = at })
            sent
          × (overdue cfg.full_interval report.started_at at ≡ false))
apply_heartbeat-sent file laws sent w runs cfg report fresh h =
    let (on, kept) = apply_heartbeat-unchanged file cfg report w fresh h in
    let (free, (p, found, same, recent)) =
      full_reason-none cfg (digest_of file report) report.started_at
        (find (host_of report) (read_state file w)) kept in
    (
      free,
      (p.full_at, rw same at (Runs-Backed file laws sent w runs (host_of report) p found), recent),
    )
