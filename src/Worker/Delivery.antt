-- ===== src/Worker/Delivery.antt =====
-- The live log as a sequence of events and rounds: it reaches the server whole and in order.
use macqueue.Base.{
  ◌≡◌, refl, sym, ap, ◌∙◌, subst, ℕ, ◌≤◌, suc, String, Bool, true, false, Option, none, some, List,
  [], ◌∷◌, ◌++◌, ◌+◌, map, ltb, arith, Bool-cases, inl, inr,
}
use macqueue.Base.Lists.{length, length-append, All, All-append}
use macqueue.Base.Text.{append, encoded_size}
use macqueue.Worker.{Log, line, preview, event, collect, join, pending_of, take_batch, send, round}
use macqueue.Worker.Batches.{
  IsLine, encoded_size-join, line-IsLine, collect-Splits, append_assoc, append_empty, join-append,
}

-- What a lease's log has been through: the lines that were queued, and the requests that the server
-- accepted, each with its number and its text.
pub record Feed : Type 0 where
  pub log : Log
  pub queued : List String
  pub sent : List (ℕ × String)

-- An event, with its encoding and the notice that would replace it, and a round of the loop, with
-- whether the job is cancelled and whether the server accepts a chunk.
pub data Happening : Type 0 where
  happens : (encoded large : String) → Happening
  turn : (cancelled accepts : Bool) → Happening

abbrev pub queue_line : Bool → String → List String → List String
queue_line true text queued = queued ++ text ∷ []
queue_line false text queued = queued

abbrev pub accept_request : Bool → Option (ℕ × String) → List (ℕ × String) → List (ℕ × String)
accept_request true (some request) sent = sent ++ request ∷ []
accept_request _ _ sent = sent

abbrev pub feed : Happening → Feed → Feed
feed (happens encoded large) f = record {
  log = event encoded large f.log;
  queued = queue_line (ltb (length f.log.events) 256) (line (preview encoded large)) f.queued;
  sent = f.sent;
}
feed (turn cancelled accepts) f =
    let turned = round accepts cancelled f.log in
    record { log = turned.0; queued = f.queued; sent = accept_request accepts turned.1 f.sent }

abbrev pub or_empty : Option String → String
or_empty none = ""
or_empty (some text) = text

abbrev pub Fits : String → Type 0
Fits text = encoded_size text ≤ 65536

-- The notices that replace large events are small.
abbrev pub Notices : List Happening → Type 0
Notices [] = Unit
Notices (happens encoded large ∷ hs) = (encoded_size large ≤ 60000) × Notices hs
Notices (turn _ _ ∷ hs) = Notices hs

abbrev pub feed_all : List Happening → Feed → Feed
feed_all [] f = f
feed_all (h ∷ hs) f = feed_all hs (feed h f)

abbrev pub texts : List (ℕ × String) → List String
texts sent = map (λ r. r.1) sent

-- The numbers from one on, in turn.
abbrev pub Numbered : ℕ → List (ℕ × String) → Type 0
Numbered n [] = Unit
Numbered n ((number, text) ∷ rest) = (number ≡ n) × Numbered (suc n) rest

-- The text of the accepted requests, of the pending chunk and of the queue is that of the queued
-- lines; the requests are numbered from 0, and the next number is that of the next chunk; and every
-- chunk is one that a request may carry.
pub record Ordered (queued : List String) (sent : List (ℕ × String)) (events : List String)
    (pending : Option String) (sequence : ℕ) : Type 0 where
  pub order : append (join (texts sent)) (append (or_empty pending) (join events)) ≡ join queued
  pub numbered : Numbered 0 sent
  pub next : length sent ≡ sequence
  pub lines : All IsLine events
  pub fits : Fits (or_empty pending)
  pub sent_fit : All (λ r. Fits r.1) sent

abbrev pub InOrder : Feed → Type 0
InOrder f = Ordered f.queued f.sent f.log.events f.log.pending f.log.sequence

map-append {ℓ κ} :
    {A : Type ℓ} {B : Type κ} (f : A → B) (xs ys : List A) → map f (xs ++ ys) ≡ map f xs ++ map f ys
map-append f [] ys = refl
map-append f (x ∷ xs) ys = ap (λ r. f x ∷ r) (map-append f xs ys)

Numbered-behind :
    (n k : ℕ) (text : String) (sent : List (ℕ × String))
    → n + length sent ≡ k
    → Numbered n sent
    → Numbered n (sent ++ (k, text) ∷ [])
Numbered-behind n k text [] e h = (omega (arith, e), tt)
Numbered-behind n k text (r ∷ rest) e h =
    (h.0, Numbered-behind (suc n) k text rest (omega (arith, e)) h.1)

module _ (queued : List String) (sent : List (ℕ × String)) (events : List String)
    (sequence : ℕ) where
  queue-Ordered :
      (pending : Option String) (item : String)
      → IsLine item
      → Ordered queued sent events pending sequence
      → Ordered (queued ++ item ∷ []) sent (events ++ item ∷ []) pending sequence
  queue-Ordered pending item h v = record {
    order =
        ap (λ r. append (join (texts sent)) (append (or_empty pending) r))
          (join-append events (item ∷ []))
        ∙ (ap (λ r. append (join (texts sent)) r)
              (sym (append_assoc (or_empty pending) (join events) (join (item ∷ []))))
            ∙ (sym (
                  append_assoc (join (texts sent)) (append (or_empty pending) (join events))
                    (join (item ∷ [])))
                ∙ (ap (λ r. append r (join (item ∷ []))) v.order
                    ∙ sym (join-append queued (item ∷ [])))));
    numbered = v.numbered;
    next = v.next;
    lines = All-append IsLine events (item ∷ []) v.lines (h, tt);
    fits = v.fits;
    sent_fit = v.sent_fit;
  }

  accept-Ordered :
      (text : String)
      → Ordered queued sent events (some text) sequence
      → Ordered queued (sent ++ (sequence, text) ∷ []) events none (suc sequence)
  accept-Ordered text v = record {
    order =
        ap (λ r. append r (join events))
          (ap join (map-append (λ (r : ℕ × String). r.1) sent ((sequence, text) ∷ []))
            ∙ (join-append (texts sent) (text ∷ [])
                ∙ ap (λ r. append (join (texts sent)) r) (append_empty text)))
        ∙ (append_assoc (join (texts sent)) text (join events) ∙ v.order);
    numbered = Numbered-behind 0 sequence text sent (omega (arith, v.next)) v.numbered;
    next = length-append sent ((sequence, text) ∷ []) ∙ omega (arith, v.next);
    lines = v.lines;
    fits = omega arith;
    sent_fit = All-append (λ r. Fits r.1) sent ((sequence, text) ∷ []) v.sent_fit (v.fits, tt);
  }

All-behind : (xs ys : List String) → All IsLine (xs ++ ys) → All IsLine ys
All-behind [] ys h = h
All-behind (x ∷ xs) ys h = All-behind xs ys h.1

pending-text : (chunks : List String) → or_empty (pending_of chunks) ≡ join chunks
pending-text [] = refl
pending-text (c ∷ cs) = refl

take-Ordered :
    (queued : List String) (sent : List (ℕ × String)) (events : List String) (sequence : ℕ)
    → Ordered queued sent events none sequence
    → Ordered queued sent (collect 0 events).rest (pending_of (collect 0 events).chunks) sequence
take-Ordered queued sent events sequence v =
    let b = collect 0 events in
    let (parts, bound) = collect-Splits 0 events v.lines (omega arith) in
    let text = pending-text b.chunks in
    record {
      order =
          ap (λ r. append (join (texts sent)) (append r (join b.rest))) text
          ∙ (ap (λ r. append (join (texts sent)) r)
                (sym (join-append b.chunks b.rest) ∙ ap join parts)
              ∙ v.order);
      numbered = v.numbered;
      next = v.next;
      lines = All-behind b.chunks b.rest (subst (All IsLine) (sym parts) v.lines);
      fits = rw (text, encoded_size-join b.chunks) (omega (arith, bound));
      sent_fit = v.sent_fit;
    }

module _ (queued : List String) (sent : List (ℕ × String)) where
  send-InOrder :
      (accepts cancelled : Bool) (pending : Option String) (events : List String) (sequence : ℕ)
      → Ordered queued sent events pending sequence
      → (log : Log) → log ≡ record { events = events; pending = pending; sequence = sequence }
      → InOrder (record {
        log = (send accepts cancelled pending log).0;
        queued = queued;
        sent = accept_request accepts (send accepts cancelled pending log).1 sent;
      })
  unfolding send
  send-InOrder accepts cancelled none events sequence v log e = rw e (settled accepts v)
    where
      settled :
          (b : Bool)
          → Ordered queued sent events none sequence
          → Ordered queued (accept_request b none sent) events none sequence
      settled true v = v
      settled false v = v
  send-InOrder true true (some text) events sequence v log e = rw e v
  send-InOrder false true (some text) events sequence v log e = rw e v
  send-InOrder true false (some text) events sequence v log e =
      rw e (accept-Ordered queued sent events sequence text v)
  send-InOrder false false (some text) events sequence v log e = rw e v

  turn-InOrder :
      (cancelled accepts : Bool) (events : List String) (sequence : ℕ) (pending : Option String)
      → Ordered queued sent events pending sequence
      → InOrder (
          feed (turn cancelled accepts) (record {
            log = record { events = events; pending = pending; sequence = sequence };
            queued = queued;
            sent = sent;
          }))
  unfolding round take_batch
  turn-InOrder cancelled accepts events sequence none v =
      let b = collect 0 events in
      send-InOrder accepts cancelled (pending_of b.chunks) b.rest sequence
        (take-Ordered queued sent events sequence v) _ refl
  turn-InOrder cancelled accepts events sequence (some text) v =
      send-InOrder accepts cancelled (some text) events sequence v _ refl

feed-InOrder : (h : Happening) (f : Feed) → Notices (h ∷ []) → InOrder f → InOrder (feed h f)
unfolding event
feed-InOrder (happens encoded large) f h v = elim (Bool-cases (ltb (length f.log.events) 256)) [
  | inl room ↦ rw room (
      queue-Ordered f.queued f.sent f.log.events f.log.sequence f.log.pending
        (line (preview encoded large)) (line-IsLine encoded large h.0) v)
  | inr full ↦ rw full v
]
feed-InOrder (turn cancelled accepts) f h v =
    turn-InOrder f.queued f.sent cancelled accepts f.log.events f.log.sequence f.log.pending v

feed_from : (hs : List Happening) (f : Feed) → Notices hs → InOrder f → InOrder (feed_all hs f)
feed_from [] f n v = v
feed_from (happens encoded large ∷ hs) f n v =
    feed_from hs (feed (happens encoded large) f) n.1
      (feed-InOrder (happens encoded large) f (n.0, tt) v)
feed_from (turn cancelled accepts ∷ hs) f n v =
    feed_from hs (feed (turn cancelled accepts) f) n (feed-InOrder (turn cancelled accepts) f tt v)

abbrev pub silent : Feed
silent = record {
  log = record { events = []; pending = none; sequence = 0 };
  queued = [];
  sent = [];
}

-- After any events and rounds of the loop, whatever requests fail, the text of the requests that the
-- server accepted, then of the pending chunk, then of the queue, is the text of the queued lines in
-- their order: none is lost, repeated or moved. The accepted requests carry the numbers from 0 on, in
-- that order, and none carries more than the 65536 bytes that the server accepts. The notice that
-- replaces a large event is taken to have at most 60000 bytes.
pub feed_all-InOrder : (hs : List Happening) → Notices hs → InOrder (feed_all hs silent)
feed_all-InOrder hs n = feed_from hs silent n (record {
  order = refl;
  numbered = tt;
  next = refl;
  lines = tt;
  fits = omega arith;
  sent_fit = tt;
})
