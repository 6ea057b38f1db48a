-- ===== src/BlobService/Tickets.antt =====
-- What a verified ticket guarantees, and what retention it is granted
-- (`verify_ticket` and `effective_expires` of crates/server/src/blobs.rs).
use n3ur0n.Storage.Nonces
use mathlib.Core.Path.{subst}
use n3ur0n.Prelude.{
  Option-cases, ok, err, Result-cases, ℕ, ◌+◌, ◌≤◌, String, ◌≡◌, refl, sym, ap, ◌∙◌, ◌⊎◌, inl, inr,
  Bool, true, false, Option, none, some, List, arith, eq_iff,
}
use n3ur0n.BlobService.{
  Wire, ShelfFaults, ShelfReadings, BlobResult, max_granted_ttl_secs, decode_ticket_wire, is_ticket,
  open_ticket, same_operation, names_other, check_ticket, with_ticket, verify_ticket, granted_ttl,
  effective_expires,
}
use n3ur0n.BlobTypes.{BlobOperation, BlobPurpose, BlobTicketPayload, default_ttl_secs}
use n3ur0n.Clock.{unix_timestamp}
use n3ur0n.Handler.Stages.{with_nonces}
use n3ur0n.Message.{ProtocolVerb, SignedMessage, verify_envelope}
use n3ur0n.Message.Window.{IsAuthentic, verify_envelope-ok_iff}
use n3ur0n.Node.{Node, Outside, node_id}
use n3ur0n.Storage.{StorageResult}
use n3ur0n.Storage.Conversations.{refused}
use n3ur0n.Storage.Nonces.{NonceRow}

-- A ticket that is accepted: a message of that verb from its sender to this node, new, for this
-- operation, not past its own expiry, and that names this blob or none at all.
pub record IsTicket (o : Outside) (w : Wire) (t : ShelfReadings) (node : Node)
    (want_op : BlobOperation) (path_hash : String) (m : SignedMessage) (ticket : BlobTicketPayload)
    : Type 0 where
  pub authentic :
      IsAuthentic o.crypto o.canonical m (node_id o node) t.verified_at node.config.verify
  pub verb : m.envelope.verb ≡ ProtocolVerb.blob_ticket
  pub payload : w.decode_ticket m.envelope.payload ≡ some ticket
  pub unseen : Nonces.seen node.nonces m.envelope.sender_id m.envelope.nonce ≡ none
  pub operation : ticket.operation ≡ want_op
  pub in_time : unix_timestamp t.ticket_at ≤ ticket.expires_at
  pub hash : (ticket.hash ≡ none) ⊎ (ticket.hash ≡ some path_hash)

pub is_ticket_sound : (v : ProtocolVerb) → is_ticket v ≡ true → v ≡ ProtocolVerb.blob_ticket
is_ticket_sound ProtocolVerb.blob_ticket h = refl
is_ticket_sound ProtocolVerb.ping h = absurd (cc h)
is_ticket_sound ProtocolVerb.describe_self h = absurd (cc h)
is_ticket_sound ProtocolVerb.get_known_peers h = absurd (cc h)
is_ticket_sound ProtocolVerb.invoke h = absurd (cc h)

same_operation_sound : (a b : BlobOperation) → same_operation a b ≡ true → a ≡ b
same_operation_sound BlobOperation.put BlobOperation.put h = refl
same_operation_sound BlobOperation.put BlobOperation.fetch h = absurd (cc h)
same_operation_sound BlobOperation.put BlobOperation.remove h = absurd (cc h)
same_operation_sound BlobOperation.fetch BlobOperation.fetch h = refl
same_operation_sound BlobOperation.fetch BlobOperation.put h = absurd (cc h)
same_operation_sound BlobOperation.fetch BlobOperation.remove h = absurd (cc h)
same_operation_sound BlobOperation.remove BlobOperation.remove h = refl
same_operation_sound BlobOperation.remove BlobOperation.put h = absurd (cc h)
same_operation_sound BlobOperation.remove BlobOperation.fetch h = absurd (cc h)

names_other_sound :
    (h : Option String) (path_hash : String)
    → names_other h path_hash ≡ false
    → (h ≡ none) ⊎ (h ≡ some path_hash)
names_other_sound none path_hash e = inl refl
names_other_sound (some h) path_hash e = inr (ap some (ground (arith, eq_iff h path_hash)))

pub open_ticket_sound :
    (o : Outside) (w : Wire) (t : ShelfReadings) (node : Node) (header : Option String)
    (m : SignedMessage)
    → open_ticket o w t node header ≡ ok m
    → IsAuthentic o.crypto o.canonical m (node_id o node) t.verified_at node.config.verify
      × (m.envelope.verb ≡ ProtocolVerb.blob_ticket)
unfolding open_ticket
open_ticket_sound o w t node none m h = absurd (ground arith)
open_ticket_sound o w t node (some raw) m h = elim (Result-cases (decode_ticket_wire w raw)) [
  | inl (problem, bad) ↦ absurd (ground (arith, bad))
  | inr (signed, decoded) ↦
      elim (Result-cases (
        verify_envelope o.crypto o.canonical signed (node_id o node) t.verified_at
          node.config.verify)) [
            | inl (problem, refused) ↦ absurd (ground (arith, decoded, refused))
            | inr (v, verified) ↦
                let same : v.message ≡ m = ground (arith, decoded, verified) in
                let marked : is_ticket m.envelope.verb ≡ true = ground (arith, decoded, verified) in
                let (authentic, kept) =
                  (verify_envelope-ok_iff o.crypto o.canonical signed (node_id o node) t.verified_at
                      node.config.verify v).0
                    verified in
                (
                  subst
                      (λ (x : SignedMessage).
                        IsAuthentic o.crypto o.canonical x (node_id o node) t.verified_at
                          node.config.verify)
                      (sym kept ∙ same) authentic,
                  is_ticket_sound m.envelope.verb marked,
                )
          ]
]

check_ticket_sound :
    (w : Wire) (t : ShelfReadings) (want_op : BlobOperation) (path_hash : String)
    (m : SignedMessage) (ticket : BlobTicketPayload)
    → check_ticket w t want_op path_hash m ≡ ok ticket
    → (w.decode_ticket m.envelope.payload ≡ some ticket)
      × (ticket.operation ≡ want_op)
      × (unix_timestamp t.ticket_at ≤ ticket.expires_at)
      × ((ticket.hash ≡ none) ⊎ (ticket.hash ≡ some path_hash))
unfolding check_ticket
check_ticket_sound w t want_op path_hash m ticket h =
    elim (Option-cases (w.decode_ticket m.envelope.payload)) [
      | inl bad ↦ absurd (ground (arith, bad))
      | inr (read, decoded) ↦
          let same : read ≡ ticket = ground (arith, decoded) in
          (
            decoded ∙ ap some same,
            same_operation_sound ticket.operation want_op (ground (arith, decoded, same)),
            ground (arith, decoded, same),
            names_other_sound ticket.hash path_hash (ground (arith, decoded, same)),
          )
    ]

abbrev pub ticket_rows :
    ShelfFaults → ShelfReadings → Node → SignedMessage → StorageResult Bool × List NonceRow
ticket_rows f t node m =
    Nonces.insert_if_absent f.nonce_insert node.nonces m.envelope.sender_id m.envelope.nonce
      (unix_timestamp t.ticket_at)

pub verify_ticket-new :
    (o : Outside) (w : Wire) (f : ShelfFaults) (t : ShelfReadings) (node : Node)
    (header : Option String) (want_op : BlobOperation) (path_hash : String) (m : SignedMessage)
    → open_ticket o w t node header ≡ ok m
    → (ticket_rows f t node m).0 ≡ ok true
    → verify_ticket o w f t node header want_op path_hash ≡ (
      with_ticket m (check_ticket w t want_op path_hash m),
      with_nonces node (ticket_rows f t node m).1,
    )
unfolding verify_ticket
verify_ticket-new o w f t node header want_op path_hash m valid new = ground (arith, valid, new)

pub with_ticket-ok :
    (a b : SignedMessage) (r : BlobResult BlobTicketPayload) (ticket : BlobTicketPayload)
    → with_ticket a r ≡ ok (b, ticket)
    → (a ≡ b) × (r ≡ ok ticket)
with_ticket-ok a b (err e) ticket h = absurd (cc h)
with_ticket-ok a b (ok x) ticket h = (ground arith, ground arith)

-- The parts of `verify_ticket-accepts`, at the message that was opened.
accepted-IsTicket :
    (o : Outside) (w : Wire) (f : ShelfFaults) (t : ShelfReadings) (node : Node)
    (header : Option String) (want_op : BlobOperation) (path_hash : String)
    (opened m : SignedMessage) (ticket : BlobTicketPayload)
    → open_ticket o w t node header ≡ ok opened
    → (ticket_rows f t node opened).0 ≡ ok true
    → verify_ticket o w f t node header want_op path_hash ≡ (
      with_ticket opened (check_ticket w t want_op path_hash opened),
      with_nonces node (ticket_rows f t node opened).1,
    )
    → opened ≡ m
    → check_ticket w t want_op path_hash opened ≡ ok ticket
    → IsTicket o w t node want_op path_hash m ticket
      × (Nonces.seen
            (verify_ticket o w f t node header want_op path_hash).1.nonces
            m.envelope.sender_id
            m.envelope.nonce
          ≡ some (unix_timestamp t.ticket_at))
accepted-IsTicket o w f t node header want_op path_hash opened m ticket valid new stages same
      checked =
    let (authentic, verb) = open_ticket_sound o w t node header opened valid in
    let (payload, operation, in_time, hash) =
      check_ticket_sound w t want_op path_hash opened ticket checked in
    let (unseen, remembered) =
      Nonces.inserted-new f.nonce_insert node.nonces opened.envelope.sender_id opened.envelope.nonce
        (unix_timestamp t.ticket_at) new in
    subst
      (λ (x : SignedMessage).
        IsTicket o w t node want_op path_hash x ticket
        × (Nonces.seen (verify_ticket o w f t node header want_op path_hash).1.nonces
              x.envelope.sender_id x.envelope.nonce
            ≡ some (unix_timestamp t.ticket_at)))
      same
      (
        record {
          authentic = authentic;
          verb = verb;
          payload = payload;
          unseen = unseen;
          operation = operation;
          in_time = in_time;
          hash = hash;
        },
        subst
            (λ (x : BlobResult (SignedMessage × BlobTicketPayload) × Node).
              Nonces.seen x.1.nonces opened.envelope.sender_id opened.envelope.nonce
              ≡ some (unix_timestamp t.ticket_at))
            (sym stages) remembered,
      )

-- `verify_ticket` accepts only tickets that are authentic, new, unexpired and for this operation, and
-- that name this blob or none; and once accepted, a ticket's nonce is in the table.
pub verify_ticket-accepts :
    (o : Outside) (w : Wire) (f : ShelfFaults) (t : ShelfReadings) (node : Node)
    (header : Option String) (want_op : BlobOperation) (path_hash : String) (m : SignedMessage)
    (ticket : BlobTicketPayload)
    → (verify_ticket o w f t node header want_op path_hash).0 ≡ ok (m, ticket)
    → IsTicket o w t node want_op path_hash m ticket
      × (Nonces.seen
            (verify_ticket o w f t node header want_op path_hash).1.nonces
            m.envelope.sender_id
            m.envelope.nonce
          ≡ some (unix_timestamp t.ticket_at))
unfolding verify_ticket
verify_ticket-accepts o w f t node header want_op path_hash m ticket h =
    elim (Result-cases (open_ticket o w t node header)) [
      | inl (problem, refused) ↦ absurd (ground (arith, refused))
      | inr (opened, valid) ↦
          let stored = ticket_rows f t node opened in
          elim (Result-cases stored.0) [
            | inl (problem, failed) ↦ absurd (ground (arith, valid, failed))
            | inr (false, old) ↦ absurd (ground (arith, valid, old))
            | inr (true, new) ↦
                let stages =
                  verify_ticket-new o w f t node header want_op path_hash opened valid new in
                let (same, checked) =
                  with_ticket-ok opened m (check_ticket w t want_op path_hash opened) ticket (
                    sym (
                      ap (λ (x : BlobResult (SignedMessage × BlobTicketPayload) × Node). x.0)
                        stages)
                    ∙ h) in
                accepted-IsTicket o w f t node header want_op path_hash opened m ticket valid new
                  stages same checked
          ]
    ]

-- A ticket writes nothing but the table of nonces.
pub verify_ticket-blobs :
    (o : Outside) (w : Wire) (f : ShelfFaults) (t : ShelfReadings) (node : Node)
    (header : Option String) (op : BlobOperation) (hash : String)
    → (verify_ticket o w f t node header op hash).1.blobs ≡ node.blobs
unfolding verify_ticket
verify_ticket-blobs o w f t node header op hash =
    elim (Result-cases (open_ticket o w t node header)) [
      | inl (problem, refused) ↦ ground (arith, refused)
      | inr (m, valid) ↦
          elim (Result-cases
            (Nonces.insert_if_absent f.nonce_insert node.nonces m.envelope.sender_id
              m.envelope.nonce (unix_timestamp t.ticket_at)).0) [
                | inl (problem, failed) ↦ ground (arith, valid, failed)
                | inr (new, done) ↦ ground (arith, valid, done)
              ]
    ]

default_ttl_secs-small : (p : BlobPurpose) → default_ttl_secs p ≤ max_granted_ttl_secs
unfolding default_ttl_secs
default_ttl_secs-small BlobPurpose.input = omega arith
default_ttl_secs-small BlobPurpose.output = omega arith
default_ttl_secs-small BlobPurpose.owned = omega arith

granted_ttl-bounded :
    (default : ℕ) (requested : Option ℕ)
    → default ≤ max_granted_ttl_secs
    → (default ≤ granted_ttl default requested)
      × (granted_ttl default requested ≤ max_granted_ttl_secs)
granted_ttl-bounded default none small = (omega arith, small)
granted_ttl-bounded default (some r) small = (omega arith, omega arith)

-- A blob is kept for at least the default time of its purpose, and for no more than a week.
pub effective_expires-bounded :
    (ticket : BlobTicketPayload) (now : ℕ)
    → (now + default_ttl_secs ticket.purpose ≤ effective_expires ticket now)
      × (effective_expires ticket now ≤ now + max_granted_ttl_secs)
      × (ticket.requested_ttl_secs ≡ none
          → effective_expires ticket now ≡ now + default_ttl_secs ticket.purpose)
unfolding effective_expires
effective_expires-bounded ticket now =
    let (least, most) =
      granted_ttl-bounded (default_ttl_secs ticket.purpose) ticket.requested_ttl_secs
        (default_ttl_secs-small ticket.purpose) in
    (omega (arith, least), omega (arith, most), λ unasked. ground (arith, unasked))
