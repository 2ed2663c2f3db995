-- ===== src/Transmit/Send/Named.antt =====
-- The walk leaves the spool under the id that it went by.
use swinv.Prelude.{
  ℕ, ◌+◌, ◌≡◌, inl, inr, sym, ◌∙◌, ok, Bool-cases, List, [], ◌∷◌, Bytes, length, ltb, leb, Keeps,
  Keeps-after, bind-ok,
}
use mathlib.Core.Path.{subst}
use swinv.Transmit.Batches.Plan.{body, deliver}
use swinv.Transmit.Spool.{Disk, Session, on_world, ack, store_as}
use swinv.Transmit.Request.{Client, Api, post_batch}
use swinv.Transmit.Send.{send_batch}

module _ {W : Type 0} (disk : Disk W) (api : Api W) (client : Client) (id : Bytes) where
  abbrev GoesBy : Session W → Type 0
  GoesBy s = s.spool.state.scan_id ≡ id

  ack-GoesBy : (index : ℕ) → Keeps GoesBy (ack disk index)
  unfolding ack store_as
  ack-GoesBy index = record {
    at = λ s h. elim (Bool-cases (leb (index + 1) s.spool.state.acked)) [
      | inl old ↦ rw (old, ack) h
      | inr new ↦ rw (new, ack) h
    ];
  }

  sent-GoesBy :
      (start i : ℕ) (text : Bytes) (n : ℕ) (s s' : Session W)
      → GoesBy s
      → send_batch disk api client id start i text n s ≡ (ok tt, s')
      → GoesBy s'
  unfolding send_batch
  sent-GoesBy start i text n s s' g h = elim (Bool-cases (ltb i start)) [
    | inl held ↦ let e = rw (held, send_batch) at h in subst GoesBy (λ k. (e k).1) g
    | inr new ↦
        let (u, t, sent, saved) =
          bind-ok (on_world (post_batch api client id i text)) (λ _. ack disk i) s
            (rw (new, send_batch) at h) in
        Keeps-after GoesBy (ack disk i) (ack-GoesBy i) t (ok tt) s' saved
          ((λ k. (sym sent k).1.spool.state.scan_id) ∙ g)
  ]

  pub delivered-GoesBy :
      (start : ℕ) (bs : List (List Bytes)) (i : ℕ) (s s' : Session W)
      → GoesBy s
      → deliver (send_batch disk api client id start) i bs s ≡ (ok tt, s')
      → GoesBy s'
  unfolding deliver
  delivered-GoesBy start [] i s s' g h = subst GoesBy (λ k. (h k).1) g
  delivered-GoesBy start (b ∷ bs) i s s' g h =
      let (u, t, sent, rest) =
        bind-ok (send_batch disk api client id start i (body b) (length b))
          (λ _. deliver (send_batch disk api client id start) (i + 1) bs) s h in
      delivered-GoesBy start bs (i + 1) t s' (sent-GoesBy start i (body b) (length b) s t g sent)
        rest
