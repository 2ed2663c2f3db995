-- ===== src/Transmit/Send/Ledger.antt =====
-- The recorded progress never runs ahead of the server, however an upload ends.
use swinv.Prelude.{
  ℕ, ◌+◌, ◌<◌, ◌≡◌, ◌⊎◌, inl, inr, sym, none, ok, Bool-cases, Result-cases, List, [], ◌∷◌, Bytes,
  length, ltb, leb, arith,
}
use mathlib.Core.Path.{subst}
use native.Mathlib.Decide.{dec_lt}
use swinv.Transmit.Payload.{File}
use swinv.Transmit.Batches.{each_batch}
use swinv.Transmit.Batches.Plan.{body, cut, record_lines, deliver, each_batch-deliver}
use swinv.Transmit.Retry.{Error}
use swinv.Transmit.Spool.{Disk, Session, label, ack, payload_path, store_as}
use swinv.Transmit.Request.{Client, Api, post_batch}
use swinv.Transmit.Send.{limits_of, send_batch, send_batches}
use swinv.Transmit.Send.Keeps.{ack-Keeps, post_batch-Keeps}
use swinv.Transmit.Send.Contract.{Contract, Holds, sent-Holds, post_batch-Taken}

acked-ack :
    {W : Type 0} (disk : Disk W) (i j : ℕ) (s : Session W)
    → j < (ack disk i s).1.spool.state.acked
    → (j < s.spool.state.acked) ⊎ (j < i + 1)
unfolding ack store_as
acked-ack disk i j s h = elim (Bool-cases (leb (i + 1) s.spool.state.acked)) [
  | inl old ↦ inl (rw (old, ack) at h)
  | inr new ↦ inr (rw (new, ack) at h)
]

-- Every batch that is recorded as acknowledged was so before, or the server holds it.
abbrev pub Ledger : {W : Type 0} → (W → Bytes → ℕ → Type 0) → ℕ → Bytes → Session W → Type 0
Ledger Taken before id s = (j : ℕ) → j < s.spool.state.acked → (j < before) ⊎ Taken s.world id j

module _ {W : Type 0} (disk : Disk W) (api : Api W) (client : Client)
    (Taken : W → Bytes → ℕ → Type 0) (contract : Contract disk api client Taken) (id : Bytes)
    (start before : ℕ) where
  open contract use {by_disk, by_network}

  acked-Ledger :
      (i : ℕ) (s : Session W)
      → Holds Taken id (i + 1) s.world
      → Ledger Taken before id s
      → Ledger Taken before id (ack disk i s).1
  acked-Ledger i s holds ledger = λ j p.
      let keep = (ack-Keeps disk (λ w. Taken w id j) (by_disk id j) i).at s in
      elim (acked-ack disk i j s p) [
        | inl old ↦ elim (ledger j old) [ inl q ↦ inl q | inr x ↦ inr (keep x) ]
        | inr new ↦ inr (keep (holds j new))
      ]

  sent-Ledger :
      (i : ℕ) (text : Bytes) (n : ℕ) (s : Session W)
      → Holds Taken id i s.world
      → Ledger Taken before id s
      → Ledger Taken before id (send_batch disk api client id start i text n s).1
  unfolding send_batch
  sent-Ledger i text n s holds ledger = elim (Bool-cases (ltb i start)) [
    | inl held ↦ rw (held, send_batch) ledger
    | inr new ↦
        let sending = post_batch api client id i text in
        let keep = λ (j : ℕ) (x : Taken s.world id j).
          (post_batch-Keeps api client (λ w. Taken w id j) (by_network id j) id i text).at s.world
            x in
        let moved : Session W = record s { world = (sending s.world).1 } in
        let ledger' : Ledger Taken before id moved =
          λ j p. elim (ledger j p) [ inl q ↦ inl q | inr x ↦ inr (keep j x) ] in
        elim (Result-cases (sending s.world).0) [
          | inr (x, e) ↦ rw (new, send_batch, e) ledger'
          | inl (u, e) ↦
              rw (new, send_batch, e)
                (acked-Ledger i moved
                  (λ j p. elim (dec_lt j i) [
                    | yes earlier ↦ keep j (holds j earlier)
                    | no here ↦
                        let at : i ≡ j = omega arith in
                        subst (λ (m : ℕ). Taken moved.world id m) at
                          (post_batch-Taken disk api client Taken contract id i text s.world
                            moved.world (λ k. (e k, moved.world)))
                  ])
                  ledger')
        ]
  ]

  delivered-Ledger :
      (bs : List (List Bytes)) (i : ℕ) (s : Session W)
      → Holds Taken id start s.world
      → Holds Taken id i s.world
      → Ledger Taken before id s
      → Ledger Taken before id (deliver (send_batch disk api client id start) i bs s).1
  unfolding deliver
  delivered-Ledger [] i s hs hi ledger = ledger
  delivered-Ledger (b ∷ bs) i s hs hi ledger =
      let one = send_batch disk api client id start i (body b) (length b) s in
      let ledger' = sent-Ledger i (body b) (length b) s hi ledger in
      elim (Result-cases one.0) [
        | inr (x, e) ↦ rw (e, deliver) ledger'
        | inl (u, e) ↦
            let held =
              sent-Holds disk api client Taken contract id start i (body b) (length b) s one.1 hs hi
                (λ k. (e k, one.1)) in
            rw (e, deliver) (delivered-Ledger bs (i + 1) one.1 held.0 held.1 ledger')
      ]

  -- With the contract kept and every batch before `start` held by the server: however the upload of a
  -- readable payload ends, no batch is recorded as acknowledged that the
  -- server does not hold, unless it was so recorded before. `start` is where the server asked to resume.
  pub send_batches-Ledger :
      (s : Session W)
      → Holds Taken id start s.world
      → ((file : File Error) (w : W)
          → disk.open_file (payload_path disk s.spool) s.world ≡ (ok file, w)
          → file.failure ≡ none)
      → Ledger Taken before id s
      → Ledger Taken before id (send_batches disk api client id start s).1
  unfolding send_batches
  send_batches-Ledger s hs readable ledger =
      let opening = disk.open_file (payload_path disk s.spool) s.world in
      let keep = λ (j : ℕ) (x : Taken s.world id j).
        ((by_disk id j).open_file (payload_path disk s.spool)).at s.world x in
      let moved : Session W = record s { world = opening.1 } in
      let ledger' : Ledger Taken before id moved =
        λ j p. elim (ledger j p) [ inl q ↦ inl q | inr x ↦ inr (keep j x) ] in
      elim (Result-cases opening.0) [
        | inr (x, e) ↦ rw (e, send_batches, label) ledger'
        | inl (file, e) ↦
            let fine = readable file opening.1 (λ k. (e k, opening.1)) in
            rw (e, send_batches, label)
              (subst
                (λ (f : File Error).
                  Ledger Taken before id
                    (each_batch (limits_of s.spool) (send_batch disk api client id start) f
                      moved).1)
                (λ k. record { content = file.content; failure = sym fine k })
                (rw
                  (each_batch-deliver (limits_of s.spool) (send_batch disk api client id start)
                    file.content moved)
                  (delivered-Ledger (cut (limits_of s.spool) [] (record_lines file.content)) 0 moved
                    (λ j p. keep j (hs j p)) (λ j p. absurd (omega arith)) ledger')))
      ]
