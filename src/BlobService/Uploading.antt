-- ===== src/BlobService/Uploading.antt =====
-- What `put_blob` of crates/server/src/blobs.rs accepts and stores.
use n3ur0n.Storage.Blobs
use n3ur0n.Storage.Table
use n3ur0n.Storage.Blobs.Classes
use mathlib.Core.Path.{subst}
use n3ur0n.Prelude.{
  Bool-cases, Option-cases, ok, Result-cases, ℕ, String, ◌≡◌, refl, sym, ap, ◌∙◌, ◌⊎◌, inl, inr,
  Option, some, List, arith, eq_iff,
}
use n3ur0n.BlobService.{Wire, Shelf, ShelfFaults, ShelfReadings, verify_ticket, effective_expires}
use n3ur0n.BlobService.Quota.{IsUpload, IsUpload-checked}
use n3ur0n.BlobService.Requests.{
  created, Response, file_key, written, path_of, uploaded, already_held, check_body, store_blob,
  upload_terms, accept_upload, with_node, put_blob,
}
use n3ur0n.BlobService.Tickets.{IsTicket, verify_ticket-accepts, verify_ticket-blobs}
use n3ur0n.BlobTypes.{BlobOperation, BlobTicketPayload, validate_hash}
use n3ur0n.Clock.{unix_timestamp}
use n3ur0n.Identity.{Bytes}
use n3ur0n.Message.{SignedMessage}
use n3ur0n.Node.{Outside}
use n3ur0n.Storage.Blobs.{BlobRecord, blob_key}
use n3ur0n.Storage.Conversations.{refused}

find-written :
    (files : List (String × Bytes)) (path : String) (body : Bytes)
    → Table.find file_key (written files path body) path ≡ some (path, body)
find-written files path body =
    let law =
      Table.find-upsert file_key (λ new old. (old.0, new.1)) files (path, body) path
        (λ new old. refl) in
    elim (Option-cases (Table.find file_key files path)) [
      | inl fresh ↦ ground (arith, fresh, law, eq_iff path path)
      | inr (old, there) ↦
          ground (arith, there, law, eq_iff path path, Table.key-find file_key files path old there)
    ]

-- What an upload leaves: the file with its content, and the row of the blob, which is kept until
-- `expires_at`. The row belongs to the uploader, but where there was a row already it stays its owner's.
pub record IsStored (o : Outside) (dir hash sender : String) (body : Bytes) (size expires_at : ℕ)
    (before : List BlobRecord) (after : Shelf) : Type 0 where
  pub file : Table.find file_key after.files (path_of o dir hash) ≡ some (path_of o dir hash, body)
  pub row : BlobRecord
  pub indexed : Table.find blob_key after.node.blobs hash ≡ some row
  pub sized : row.columns.size ≡ size
  pub kept_until : row.columns.expires_at ≡ expires_at
  pub placed : row.columns.storage_path ≡ path_of o dir hash
  pub owned :
      (row.columns.uploader_id ≡ some sender)
      ⊎ ((old : BlobRecord) × (Table.find blob_key before hash ≡ some old)
          × (row.columns.uploader_id ≡ old.columns.uploader_id))

store_blob_sound :
    (o : Outside) (w : Wire) (f : ShelfFaults) (t : ShelfReadings) (s : Shelf) (dir hash : String)
    (m : SignedMessage) (ticket : BlobTicketPayload) (size size' expires_at : ℕ) (mime : String)
    (body : Bytes)
    → (store_blob o w f t s dir hash m ticket size mime body).0 ≡ ok (created size' expires_at)
    → (size' ≡ size)
      × (expires_at ≡ effective_expires ticket (unix_timestamp t.stored_at))
      × IsStored o dir hash m.envelope.sender_id body size
          (effective_expires ticket (unix_timestamp t.stored_at))
          s.node.blobs
          (store_blob o w f t s dir hash m ticket size mime body).1
unfolding store_blob Blobs.upsert
store_blob_sound o w f t s dir hash m ticket size size' expires_at mime body h =
    elim (Bool-cases f.create_dir) [
      | inl undone ↦ absurd (ground (arith, undone))
      | inr made ↦ elim (Option-cases f.write) [
        | inr (left, unwritten) ↦ absurd (ground (arith, made, unwritten))
        | inl fine ↦ elim (Option-cases f.blob_upsert) [
          | inr (e, failed) ↦ absurd (ground (arith, made, fine, failed))
          | inl runs ↦
              let row =
                uploaded w hash size mime (effective_expires ticket (unix_timestamp t.stored_at))
                  (path_of o dir hash) ticket m.envelope.sender_id m.envelope.nonce in
              let (r, indexed, sized, kept, placed, owned) =
                Classes.upsert-stores t.database_at s.node.blobs row in
              (
                ground (arith, made, fine, runs),
                ground (arith, made, fine, runs),
                record {
                  file =
                      ground
                        (arith, made, fine, runs, find-written s.files (path_of o dir hash) body);
                  row = r;
                  indexed = ground (arith, made, fine, runs, indexed);
                  sized = sized;
                  kept_until = kept;
                  placed = placed;
                  owned = owned;
                },
              )
        ]
      ]
    ]

accept_upload_sound :
    (o : Outside) (w : Wire) (f : ShelfFaults) (t : ShelfReadings) (s : Shelf) (dir hash : String)
    (m : SignedMessage) (ticket : BlobTicketPayload) (body : Bytes) (size expires_at : ℕ)
    → (accept_upload o w f t s dir hash m ticket body).0 ≡ ok (created size expires_at)
    → IsUpload o f t s.node m.envelope.sender_id hash ticket size body
      × (expires_at ≡ effective_expires ticket (unix_timestamp t.stored_at))
      × IsStored o dir hash m.envelope.sender_id body size expires_at s.node.blobs
          (accept_upload o w f t s dir hash m ticket body).1
unfolding accept_upload
accept_upload_sound o w f t s dir hash m ticket body size expires_at h =
    elim (Result-cases (upload_terms s.node ticket)) [
      | inl (problem, refused) ↦ absurd (ground (arith, refused))
      | inr ((n, mime), terms) ↦ elim (Option-cases (already_held f t s.node hash)) [
        | inr (r, held_already) ↦ absurd (ground (arith, terms, held_already))
        | inl fresh ↦
            elim (Result-cases (check_body o f t s.node m.envelope.sender_id hash n body)) [
              | inl (problem, bad) ↦ absurd (ground (arith, terms, fresh, bad))
              | inr (u, good) ↦
                  let same : accept_upload o w f t s dir hash m ticket body
                      ≡ store_blob o w f t s dir hash m ticket n mime body =
                    ground (arith, terms, fresh, good) in
                  let (sized, kept, stored) =
                    store_blob_sound o w f t s dir hash m ticket n size expires_at mime body
                      (sym (ap (λ (x : Response × Shelf). x.0) same) ∙ h) in
                  (
                    subst (λ (k : ℕ). IsUpload o f t s.node m.envelope.sender_id hash ticket k body)
                        (sym sized)
                        (IsUpload-checked o f t s.node m.envelope.sender_id hash ticket n mime body
                          terms good),
                    kept,
                    rw same (rw sized (rw kept stored)),
                  )
            ]
      ]
    ]

-- An upload is answered with 201 only for a new ticket of its uploader, which names this blob or none,
-- with a body that has the hash of the blob and the size that the ticket names, for a capability that is
-- not private, and within the uploader's quota. The file is then in place, and the index has the blob
-- with its size, until the time that the answer gives and `effective_expires` grants; it is the
-- uploader's, but for a row that was there before, which stays its owner's.
pub put_blob-created :
    (o : Outside) (w : Wire) (f : ShelfFaults) (t : ShelfReadings) (s : Shelf) (hash : String)
    (header : Option String) (body : Bytes) (size expires_at : ℕ)
    → (put_blob o w f t s hash header body).0 ≡ ok (created size expires_at)
    → (m : SignedMessage) × (ticket : BlobTicketPayload) × (dir : String) × (s.config_dir
        ≡ some dir)
      × IsTicket o w t s.node BlobOperation.put hash m ticket
      × IsUpload o f t
          (verify_ticket o w f t s.node header BlobOperation.put hash).1
          m.envelope.sender_id
          hash
          ticket
          size
          body
      × (expires_at ≡ effective_expires ticket (unix_timestamp t.stored_at))
      × IsStored o dir hash m.envelope.sender_id body size expires_at s.node.blobs
          (put_blob o w f t s hash header body).1
unfolding put_blob
put_blob-created o w f t s hash header body size expires_at h = elim (Option-cases s.config_dir) [
  | inl unconfigured ↦ absurd (ground (arith, unconfigured))
  | inr (dir, configured) ↦ elim (Result-cases (validate_hash hash)) [
    | inl (problem, malformed) ↦ absurd (ground (arith, configured, malformed))
    | inr (u, well_formed) ↦
        elim (Result-cases (verify_ticket o w f t s.node header BlobOperation.put hash).0) [
          | inl (problem, refused) ↦ absurd (ground (arith, configured, well_formed, refused))
          | inr ((m, ticket), verified) ↦
              let after =
                with_node s (verify_ticket o w f t s.node header BlobOperation.put hash).1 in
              let same : put_blob o w f t s hash header body
                  ≡ accept_upload o w f t after dir hash m ticket body =
                ground (arith, configured, well_formed, verified) in
              let (upload, kept, stored) =
                accept_upload_sound o w f t after dir hash m ticket body size expires_at
                  (sym (ap (λ (x : Response × Shelf). x.0) same) ∙ h) in
              (
                m,
                ticket,
                dir,
                configured,
                (verify_ticket-accepts o w f t s.node header BlobOperation.put hash m ticket
                    verified).0,
                upload,
                kept,
                subst
                    (λ (rows : List BlobRecord).
                      IsStored o dir hash m.envelope.sender_id body size expires_at rows
                        (put_blob o w f t s hash header body).1)
                    (verify_ticket-blobs o w f t s.node header BlobOperation.put hash)
                    (rw same stored),
              )
        ]
  ]
]
