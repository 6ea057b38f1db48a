-- ===== src/BlobService/Acceptance.antt =====
-- Exactly which tickets `verify_ticket` of crates/server/src/blobs.rs accepts.
use n3ur0n.Storage.Nonces
use n3ur0n.Prelude.{ok, String, ◌≡◌, Option, none, some}
use n3ur0n.BlobService.{Wire, ShelfFaults, ShelfReadings, decode_ticket_wire, verify_ticket}
use n3ur0n.BlobService.Tickets.{IsTicket}
use n3ur0n.BlobTypes.{BlobOperation, BlobTicketPayload}
use n3ur0n.Clock.{unix_timestamp}
use n3ur0n.Message.{SignedMessage}
use n3ur0n.Node.{Node, Outside}

-- The header holds the ticket, its nonce could be written and is in the table now, and the ticket is valid.
pub record IsAccepted (o : Outside) (w : Wire) (f : ShelfFaults) (t : ShelfReadings) (node : Node)
    (header : Option String) (want_op : BlobOperation) (path_hash : String) (m : SignedMessage)
    (ticket : BlobTicketPayload) : Type 0 where
  pub raw : String
  pub given : header ≡ some raw
  pub decoded : decode_ticket_wire w raw ≡ ok m
  pub written : f.nonce_insert ≡ none
  pub valid : IsTicket o w t node want_op path_hash m ticket
  pub remembered :
      Nonces.seen
        (verify_ticket o w f t node header want_op path_hash).1.nonces
        m.envelope.sender_id
        m.envelope.nonce
      ≡ some (unix_timestamp t.ticket_at)
