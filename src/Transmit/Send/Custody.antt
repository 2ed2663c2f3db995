-- ===== src/Transmit/Send/Custody.antt =====
-- What the server promises of the texts that it is sent, and the batches of one walk.
use swinv.Prelude.{
  ℕ, suc, ◌+◌, ◌-◌, ◌<◌, ◌≡◌, inl, inr, sym, ap, ◌∙◌, Bool-cases, ltb, ltb→lt, arith, List, [], ◌∷◌,
  ◌++◌, Bytes, codes, is_empty, if◌then◌else◌, get_elem?, length, map, none, some, some-injective,
  ok, bind-ok, Keeps-after,
}
use mathlib.Core.Path.{subst}
use native.Mathlib.Decide.{dec_lt}
use swinv.Transmit.Batches.Plan.{body, deliver}
use swinv.Transmit.Retry.{Response, classify}
use swinv.Transmit.Spool.{Disk, Session, on_world, ack}
use swinv.Transmit.Request.{
  Request, Client, Api, OpenResponse, StatusResponse, post, batch_url, scan_url, post_batch,
}
use swinv.Transmit.Request.Calls.{KeptByNetwork, Carries, compressed-Carries, post_batch-ok}
use swinv.Transmit.Send.{send_batch}
use swinv.Transmit.Send.Keeps.{KeptByDisk, Keeps-on_world, ack-Keeps, post_batch-Keeps}

-- The id that a client with the id `own` goes by when the server names `minted`.
abbrev pub goes_by : Bytes → Bytes → Bytes
goes_by own minted = if is_empty minted then own else minted

-- `Stored w id i text`: the server holds `text` as batch `i` of scan `id`, and keeps it. It takes what
-- a request carries before it answers 2xx. `Ours` are the ids of the scan with the batches `texts`, to
-- which the id that it opens it under belongs; it asks to resume that scan at an index only if it
-- holds the batches before it.
pub record Custody {W : Type 0} (disk : Disk W) (api : Api W) (client : Client)
    (Stored : W → Bytes → ℕ → Bytes → Type 0) (Ours : Bytes → Type 0) (own : Bytes)
    (texts : List Bytes) : Type 0 where
  pub by_disk : (id : Bytes) (i : ℕ) (text : Bytes) → KeptByDisk disk (λ w. Stored w id i text)
  pub by_network : (id : Bytes) (i : ℕ) (text : Bytes) → KeptByNetwork api (λ w. Stored w id i text)
  pub posted :
      (id : Bytes) (i : ℕ) (text : Bytes) (request : Request) (w : W) (response : Response) (w' : W)
      → request.method ≡ post api client
      → request.url ≡ batch_url api client id i
      → Carries api client request text
      → api.http request w ≡ (ok response, w')
      → classify response ≡ none
      → Stored w' id i text
  pub ours : Ours own
  pub opened :
      (request : Request) (w : W) (response : Response) (w' : W) (answer : OpenResponse)
      → request.url ≡ client.base ++ codes "/scan"
      → api.http request w ≡ (ok response, w')
      → classify response ≡ none
      → api.decode_open response.reply ≡ ok answer
      → Ours (goes_by own answer.scan_id)
        × ((i : ℕ) (text : Bytes)
            → i < answer.resume_from
            → get_elem? texts i ≡ some text
            → Stored w' (goes_by own answer.scan_id) i text)
  pub asked :
      (id : Bytes)
      → Ours id
      → (request : Request) (w : W) (response : Response) (w' : W) (answer : StatusResponse)
      → request.url ≡ scan_url api client id ++ codes "/status"
      → api.http request w ≡ (ok response, w')
      → classify response ≡ none
      → api.decode_status response.reply ≡ ok answer
      → (i : ℕ) (text : Bytes) → i < answer.resume_from
      → get_elem? texts i ≡ some text
      → Stored w' id i text

-- The server holds every text before this index.
abbrev pub HoldsTexts :
    {W : Type 0} → (W → Bytes → ℕ → Bytes → Type 0) → List Bytes → Bytes → ℕ → W → Type 0
HoldsTexts Stored texts id n w =
    (j : ℕ) (text : Bytes) → j < n → get_elem? texts j ≡ some text → Stored w id j text

module _ {W : Type 0} (disk : Disk W) (api : Api W) (client : Client)
    (Stored : W → Bytes → ℕ → Bytes → Type 0) (Ours : Bytes → Type 0) (own : Bytes)
    (texts : List Bytes) (custody : Custody disk api client Stored Ours own texts) where
  open custody use {by_disk, by_network, posted}

  post_batch-Stored :
      (id : Bytes) (i : ℕ) (text : Bytes) (w w' : W)
      → post_batch api client id i text w ≡ (ok tt, w')
      → Stored w' id i text
  post_batch-Stored id i text w w' h =
      let a = post_batch-ok api client id i text w h in
      posted id i text a.request a.asked a.response w' a.of_method a.of_url
        (compressed-Carries api client a.request text a.carried) a.answered a.accepted

  module _ (id : Bytes) (start : ℕ) where
    sent-HoldsTexts :
        (i : ℕ) (text : Bytes) (n : ℕ) (s s' : Session W)
        → get_elem? texts i ≡ some text
        → HoldsTexts Stored texts id start s.world
        → HoldsTexts Stored texts id i s.world
        → send_batch disk api client id start i text n s ≡ (ok tt, s')
        → HoldsTexts Stored texts id start s'.world × HoldsTexts Stored texts id (i + 1) s'.world
    unfolding send_batch
    sent-HoldsTexts i text n s s' here hs hi h = elim (Bool-cases (ltb i start)) [
      | inl held ↦
          let e = rw (held, send_batch) at h in
          let same : s ≡ s' = λ k. (e k).1 in
          subst
            (λ (t : Session W).
              HoldsTexts Stored texts id start t.world × HoldsTexts Stored texts id (i + 1) t.world)
            same (hs, λ j x p. hs j x (omega (arith, p, ltb→lt i start held)))
      | inr new ↦
          let P = λ (j : ℕ) (x : Bytes) (t : Session W). Stored t.world id j x in
          let sending = on_world (post_batch api client id i text) in
          let (u, t, sent, saved) =
            bind-ok sending (λ _. ack disk i) s (rw (new, send_batch) at h) in
          let stored = λ (j : ℕ) (x : Bytes) (y : Stored t.world id j x).
            Keeps-after (P j x) (ack disk i)
              (ack-Keeps disk (λ w. Stored w id j x) (by_disk id j x) i) t (ok tt) s' saved y in
          let keep = λ (j : ℕ) (x : Bytes) (y : Stored s.world id j x). stored j x (
            Keeps-after (P j x) sending
              (Keeps-on_world (λ w. Stored w id j x) _
                (post_batch-Keeps api client (λ w. Stored w id j x) (by_network id j x) id i text))
              s (ok u) t sent y) in
          let mine : Stored s'.world id i text =
            stored i text
              (post_batch-Stored id i text s.world t.world (λ k. ((sent k).0, (sent k).1.world))) in
          (
            λ j x p e. keep j x (hs j x p e),
            λ j x p e. elim (dec_lt j i) [
              | yes before ↦ keep j x (hi j x before e)
              | no later ↦
                  let at : i ≡ j = omega arith in
                  let this : text ≡ x =
                    some-injective text x (sym here ∙ ap (get_elem? texts) at ∙ e) in
                  subst (λ (m : ℕ). Stored s'.world id m x) at
                    (subst (λ (y : Bytes). Stored s'.world id i y) this mine)
            ],
          )
    ]

    -- Every text of the walk is held, `bs` being what is left of it.
    pub delivered-HoldsTexts :
        (bs : List (List Bytes)) (i : ℕ) (s s' : Session W)
        → ((k : ℕ) → get_elem? texts (i + k) ≡ get_elem? (map body bs) k)
        → HoldsTexts Stored texts id start s.world
        → HoldsTexts Stored texts id i s.world
        → deliver (send_batch disk api client id start) i bs s ≡ (ok tt, s')
        → (j : ℕ) (text : Bytes) → get_elem? texts j ≡ some text
        → Stored s'.world id j text
    unfolding deliver
    delivered-HoldsTexts [] i s s' rest hs hi h = λ j x e. elim (dec_lt j i) [
      | yes before ↦
          subst (λ (t : Session W). Stored t.world id j x) (λ k. (h k).1) (hi j x before e)
      | no later ↦
          let at : i + (j - i) ≡ j = omega arith in
          absurd (cc (rest (j - i), ap (get_elem? texts) at, e))
    ]
    delivered-HoldsTexts (b ∷ bs) i s s' rest hs hi h =
        let (u, t, sent, more) =
          bind-ok (send_batch disk api client id start i (body b) (length b))
            (λ _. deliver (send_batch disk api client id start) (i + 1) bs) s h in
        let zero' : i ≡ i + 0 = omega arith in
        let here : get_elem? texts i ≡ some (body b) = ap (get_elem? texts) zero' ∙ rest 0 in
        let held = sent-HoldsTexts i (body b) (length b) s t here hs hi sent in
        delivered-HoldsTexts bs (i + 1) t s'
          (λ k.
            let at : (i + 1) + k ≡ i + suc k = omega arith in
            ap (get_elem? texts) at ∙ rest (suc k))
          held.0 held.1 more
