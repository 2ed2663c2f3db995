-- ===== src/Transmit/Send/Contract.antt =====
-- What the server promises of the batches that it is sent, by their indices.
use swinv.Prelude.{
  ℕ, ◌+◌, ◌<◌, ◌≡◌, inl, inr, Bool-cases, ltb, ltb→lt, arith, Bytes, none, ok, bind-ok, Keeps-after,
}
use mathlib.Core.Path.{subst}
use native.Mathlib.Decide.{dec_lt}
use swinv.Transmit.Retry.{Response, classify}
use swinv.Transmit.Spool.{Disk, Session, on_world, ack}
use swinv.Transmit.Request.{Request, Client, Api, post, batch_url, post_batch}
use swinv.Transmit.Request.Calls.{KeptByNetwork, post_batch-ok}
use swinv.Transmit.Send.{send_batch}
use swinv.Transmit.Send.Keeps.{KeptByDisk, Keeps-on_world, ack-Keeps, post_batch-Keeps}

-- `Taken w id i`: the server holds batch `i` of scan `id`. What it holds it keeps, and it takes a
-- batch before it answers 2xx.
pub record Contract {W : Type 0} (disk : Disk W) (api : Api W) (client : Client)
    (Taken : W → Bytes → ℕ → Type 0) : Type 0 where
  pub by_disk : (id : Bytes) (i : ℕ) → KeptByDisk disk (λ w. Taken w id i)
  pub by_network : (id : Bytes) (i : ℕ) → KeptByNetwork api (λ w. Taken w id i)
  pub posted :
      (id : Bytes) (i : ℕ) (request : Request) (w : W) (response : Response) (w' : W)
      → request.method ≡ post api client
      → request.url ≡ batch_url api client id i
      → api.http request w ≡ (ok response, w')
      → classify response ≡ none
      → Taken w' id i

-- The server holds every batch before this one.
abbrev pub Holds : {W : Type 0} → (W → Bytes → ℕ → Type 0) → Bytes → ℕ → W → Type 0
Holds Taken id n w = (j : ℕ) → j < n → Taken w id j

module _ {W : Type 0} (disk : Disk W) (api : Api W) (client : Client)
    (Taken : W → Bytes → ℕ → Type 0) (contract : Contract disk api client Taken) where
  open contract use {by_disk, by_network, posted}

  pub post_batch-Taken :
      (id : Bytes) (i : ℕ) (text : Bytes) (w w' : W)
      → post_batch api client id i text w ≡ (ok tt, w')
      → Taken w' id i
  post_batch-Taken id i text w w' h =
      let a = post_batch-ok api client id i text w h in
      posted id i a.request a.asked a.response w' a.of_method a.of_url a.answered a.accepted

  module _ (id : Bytes) (start : ℕ) where
    pub sent-Holds :
        (i : ℕ) (text : Bytes) (n : ℕ) (s s' : Session W)
        → Holds Taken id start s.world
        → Holds Taken id i s.world
        → send_batch disk api client id start i text n s ≡ (ok tt, s')
        → Holds Taken id start s'.world × Holds Taken id (i + 1) s'.world
    unfolding send_batch
    sent-Holds i text n s s' hs hi h = elim (Bool-cases (ltb i start)) [
      | inl held ↦
          let e = rw (held, send_batch) at h in
          let same : s ≡ s' = λ k. (e k).1 in
          subst (λ (t : Session W). Holds Taken id start t.world × Holds Taken id (i + 1) t.world)
            same (hs, λ j p. hs j (omega (arith, ltb→lt i start held)))
      | inr new ↦
          let P = λ (j : ℕ) (x : Session W). Taken x.world id j in
          let sending = on_world (post_batch api client id i text) in
          let (u, t, sent, saved) =
            bind-ok sending (λ _. ack disk i) s (rw (new, send_batch) at h) in
          let stored = λ (j : ℕ) (x : Taken t.world id j).
            Keeps-after (P j) (ack disk i) (ack-Keeps disk (λ w. Taken w id j) (by_disk id j) i) t
              (ok tt) s' saved x in
          let keep = λ (j : ℕ) (x : Taken s.world id j). stored j (
            Keeps-after (P j) sending
              (Keeps-on_world (λ w. Taken w id j) _
                (post_batch-Keeps api client (λ w. Taken w id j) (by_network id j) id i text))
              s (ok u) t sent x) in
          (
            λ j p. keep j (hs j p),
            λ j p. elim (dec_lt j i) [
              | yes before ↦ keep j (hi j before)
              | no here ↦
                  let at : i ≡ j = omega arith in
                  subst (λ (m : ℕ). Taken s'.world id m) at
                    (stored i (
                      post_batch-Taken id i text s.world t.world
                        (λ k. ((sent k).0, (sent k).1.world))))
            ],
          )
    ]
