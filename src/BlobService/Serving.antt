-- ===== src/BlobService/Serving.antt =====
-- Who may read and erase blobs: `get_blob` and `delete_blob` of crates/server/src/blobs.rs.
use n3ur0n.Storage.Blobs
use n3ur0n.Storage.Table
use mathlib.Core.Path.{subst}
use n3ur0n.Prelude.{
  if◌then◌else◌, Bool-cases, Option-cases, ok, is_ok, Result-cases, ℕ, ◌<◌, String, ◌≡◌, sym, ap,
  ◌∙◌, ◌⊎◌, inl, inr, true, false, Option, none, some, List, arith, ◌==◌, eq_iff,
}
use n3ur0n.BlobService.{Wire, Shelf, ShelfFaults, ShelfReadings, verify_ticket}
use n3ur0n.BlobService.Requests.{content, deleted, Response, file_key, with_node}
use n3ur0n.BlobService.Retrieval.{
  is_listed, get_authorization, found_blob, read_blob, get_blob, erase_blob, delete_blob,
}
use n3ur0n.BlobService.Tickets.{IsTicket, verify_ticket-accepts, verify_ticket-blobs}
use n3ur0n.BlobTypes.{BlobOperation, BlobTicketPayload, validate_hash}
use n3ur0n.Clock.{unix_timestamp}
use n3ur0n.Identity.{Bytes}
use n3ur0n.Message.{SignedMessage}
use n3ur0n.Node.{Node, Outside}
use n3ur0n.Storage.{Fault}
use n3ur0n.Storage.Blobs.{BlobRecord, blob_key, same_text}
use n3ur0n.Storage.Conversations.{refused}

-- The row may be read by the sender: it uploaded the blob, or the whitelist names it.
abbrev pub IsReader : Wire → BlobRecord → String → Type 0
IsReader w r sender =
    (r.columns.uploader_id ≡ some sender)
    ⊎ (is_listed w r.columns.recipients_whitelist sender ≡ true)

same_text_sound : (a b : Option String) → same_text a b ≡ true → a ≡ b
same_text_sound none b h = absurd (cc h)
same_text_sound (some a) none h = absurd (cc h)
same_text_sound (some a) (some b) h = ap some ((eq_iff a b).0 h)

get_authorization_sound :
    (w : Wire) (r : BlobRecord) (sender : String)
    → get_authorization w r sender ≡ ok tt
    → IsReader w r sender
unfolding get_authorization
get_authorization_sound w r sender h =
    elim (Bool-cases (same_text r.columns.uploader_id (some sender))) [
      | inl own ↦ inl (same_text_sound r.columns.uploader_id (some sender) own)
      | inr foreign ↦ inr (ground (arith, foreign))
    ]

found_blob_sound :
    (fault : Fault) (rows : List BlobRecord) (hash : String) (r : BlobRecord)
    → found_blob (Blobs.get fault rows hash) ≡ ok r
    → Table.find blob_key rows hash ≡ some r
unfolding Blobs.get
found_blob_sound (some e) rows hash r h = absurd (cc h)
found_blob_sound none rows hash r h = elim (Option-cases (Table.find blob_key rows hash)) [
  | inl missing ↦ absurd (ground (arith, missing))
  | inr (x, found) ↦ ground (arith, found)
]

read_blob_sound :
    (w : Wire) (f : ShelfFaults) (t : ShelfReadings) (s : Shelf) (hash sender : String)
    (r : BlobRecord) (bytes : Bytes)
    → read_blob w f t s hash sender ≡ ok (r, bytes)
    → (Table.find blob_key s.node.blobs hash ≡ some r)
      × (unix_timestamp t.found_at < r.columns.expires_at)
      × IsReader w r sender
      × ((path : String) × (Table.find file_key s.files r.columns.storage_path
            ≡ some (path, bytes)))
unfolding read_blob
read_blob_sound w f t s hash sender r bytes h =
    elim (Result-cases (found_blob (Blobs.get f.blob_get s.node.blobs hash))) [
      | inl (problem, missing) ↦ absurd (ground (arith, missing))
      | inr (x, found) ↦ elim (Result-cases (get_authorization w x sender)) [
        | inl (problem, refused) ↦ absurd (ground (arith, found, refused))
        | inr (u, allowed) ↦
            elim (Option-cases (Table.find file_key s.files x.columns.storage_path)) [
              | inl gone ↦ absurd (ground (arith, found, allowed, gone))
              | inr (file, contents) ↦
                  let live : unix_timestamp t.found_at < x.columns.expires_at =
                    ground (arith, found, allowed, contents) in
                  let same : x ≡ r = ground (arith, found, allowed, contents) in
                  let read : file.1 ≡ bytes = ground (arith, found, allowed, contents) in
                  subst
                    (λ (y : BlobRecord).
                      (Table.find blob_key s.node.blobs hash ≡ some y)
                      × (unix_timestamp t.found_at < y.columns.expires_at)
                      × IsReader w y sender
                      × ((path : String) × (Table.find file_key s.files y.columns.storage_path
                            ≡ some (path, bytes))))
                    same
                    (
                      found_blob_sound f.blob_get s.node.blobs hash x found,
                      live,
                      get_authorization_sound w x sender allowed,
                      (file.0, contents ∙ ap (λ (b : Bytes). some (file.0, b)) read),
                    )
            ]
      ]
    ]

-- Who gets the bytes of a blob presented a new ticket for a download, in its own name, that names this
-- blob or none, and either uploaded the blob or is on its whitelist; the blob is in the index and not
-- expired.
pub get_blob-authorized :
    (o : Outside) (w : Wire) (f : ShelfFaults) (t : ShelfReadings) (s : Shelf) (hash : String)
    (header : Option String) (mime : String) (size : ℕ) (bytes : Bytes)
    → (get_blob o w f t s hash header).0 ≡ ok (content mime size bytes)
    → (m : SignedMessage) × (ticket : BlobTicketPayload) × (r : BlobRecord) × IsTicket o w t s.node
        BlobOperation.fetch hash m ticket
      × (Table.find blob_key s.node.blobs hash ≡ some r)
      × (unix_timestamp t.found_at < r.columns.expires_at)
      × IsReader w r m.envelope.sender_id
      × ((path : String) × (Table.find file_key s.files r.columns.storage_path
            ≡ some (path, bytes)))
unfolding get_blob
get_blob-authorized o w f t s hash header mime size bytes h =
    elim (Result-cases (validate_hash hash)) [
      | inl (problem, malformed) ↦ absurd (ground (arith, malformed))
      | inr (u, well_formed) ↦
          elim (Result-cases (verify_ticket o w f t s.node header BlobOperation.fetch hash).0) [
            | inl (problem, refused) ↦ absurd (ground (arith, well_formed, refused))
            | inr ((m, ticket), verified) ↦
                let after =
                  with_node s (verify_ticket o w f t s.node header BlobOperation.fetch hash).1 in
                let same_rows =
                  verify_ticket-blobs o w f t s.node header BlobOperation.fetch hash in
                elim (Result-cases (read_blob w f t after hash m.envelope.sender_id)) [
                  | inl (problem, unread) ↦ absurd (ground (arith, well_formed, verified, unread))
                  | inr ((r, b), read) ↦
                      let same : b ≡ bytes = ground (arith, well_formed, verified, read) in
                      let (found, live, reader, (path, contents)) =
                        read_blob_sound w f t after hash m.envelope.sender_id r b read in
                      (
                        m,
                        ticket,
                        r,
                        (verify_ticket-accepts o w f t s.node header BlobOperation.fetch hash m
                            ticket verified).0,
                        ap (λ (rows : List BlobRecord). Table.find blob_key rows hash)
                              (sym same_rows)
                            ∙ found,
                        live,
                        reader,
                        (path, contents ∙ ap (λ (x : Bytes). some (path, x)) same),
                      )
                ]
          ]
    ]

-- What an erasure leaves: the row is gone and no other, or the statement failed and all rows are
-- there; and no file but that of the blob is touched.
abbrev pub IsErased : BlobRecord → String → String → String → Shelf → Response × Shelf → Type 0
IsErased r hash other path s out =
    (((out.0 ≡ ok deleted)
        × (Blobs.get none out.1.node.blobs other
            ≡ ok (if hash == other then none else Table.find blob_key s.node.blobs other)))
      ⊎ ((is_ok out.0 ≡ false) × (out.1.node.blobs ≡ s.node.blobs)))
    × ((path ≡ r.columns.storage_path)
        ⊎ (Table.find file_key out.1.files path ≡ Table.find file_key s.files path))

erase_blob-IsErased :
    (f : ShelfFaults) (s : Shelf) (r : BlobRecord) (hash other path : String)
    → IsErased r hash other path s (erase_blob f s r hash)
unfolding erase_blob Blobs.get Blobs.delete
erase_blob-IsErased f s r hash other path = (
  elim (Option-cases f.blob_delete) [
    | inl runs ↦ inl (
      ground (arith, runs),
      ground (arith, runs, Table.find-remove blob_key s.node.blobs hash other),
    )
    | inr (e, fails) ↦ inr (ground (arith, fails), ground (arith, fails))
  ],
  elim (Bool-cases (r.columns.storage_path == path)) [
    | inl its_own ↦ inl (ground (arith, its_own, eq_iff r.columns.storage_path path))
    | inr distinct ↦
        inr
          (ground (arith, distinct, Table.find-remove file_key s.files r.columns.storage_path path))
  ],
)

-- The same with the rows of the node before its nonces changed.
IsErased-rows :
    (s : Shelf) (n : Node) (r : BlobRecord) (hash other path : String) (out out' : Response × Shelf)
    → out ≡ out'
    → n.blobs ≡ s.node.blobs
    → IsErased r hash other path (with_node s n) out'
    → IsErased r hash other path s out
IsErased-rows s n r hash other path out out' same rows (inl (gone, left), files) = rw same (
  inl (
    gone,
    left
        ∙ ap
            (λ (x : List BlobRecord).
              ok (if hash == other then none else Table.find blob_key x other))
            rows,
  ),
  files,
)
IsErased-rows s n r hash other path out out' same rows (inr (failed, kept), files) =
    rw same (inr (failed, kept ∙ rows), files)

-- A request to delete leaves all rows and files as they are and is answered with an error; or its
-- sender, with a new ticket for a deletion that names this blob or none, is the uploader of the blob.
-- Then the row of the blob is gone and no other, and the answer is 204, or the statement failed and all
-- rows are there; and no file but that of the blob is touched.
pub delete_blob-own :
    (o : Outside) (w : Wire) (f : ShelfFaults) (t : ShelfReadings) (s : Shelf)
    (hash other path : String) (header : Option String)
    → let out = delete_blob o w f t s hash header in
      ((is_ok out.0 ≡ false) × (out.1.node.blobs ≡ s.node.blobs) × (out.1.files ≡ s.files))
      ⊎ ((m : SignedMessage) × (ticket : BlobTicketPayload) × (r : BlobRecord) × IsTicket o w t
            s.node BlobOperation.remove hash m ticket
          × (Table.find blob_key s.node.blobs hash ≡ some r)
          × (r.columns.uploader_id ≡ some m.envelope.sender_id)
          × IsErased r hash other path s out)
unfolding delete_blob
delete_blob-own o w f t s hash other path header =
    let node = (verify_ticket o w f t s.node header BlobOperation.remove hash).1 in
    let same_rows = verify_ticket-blobs o w f t s.node header BlobOperation.remove hash in
    elim (Result-cases (validate_hash hash)) [
      | inl (problem, malformed) ↦
          inl (ground (arith, malformed), ground (arith, malformed), ground (arith, malformed))
      | inr (u, well_formed) ↦
          elim (Result-cases (verify_ticket o w f t s.node header BlobOperation.remove hash).0) [
            | inl (problem, refused) ↦ inl (
              ground (arith, well_formed, refused),
              ground (arith, well_formed, refused, same_rows),
              ground (arith, well_formed, refused),
            )
            | inr ((m, ticket), verified) ↦
                elim (Result-cases (found_blob (Blobs.get f.blob_get node.blobs hash))) [
                  | inl (problem, missing) ↦ inl (
                    ground (arith, well_formed, verified, missing),
                    ground (arith, well_formed, verified, missing, same_rows),
                    ground (arith, well_formed, verified, missing),
                  )
                  | inr (r, found) ↦
                      elim (Bool-cases
                        (same_text r.columns.uploader_id (some m.envelope.sender_id))) [
                          | inr foreign ↦ inl (
                            ground (arith, well_formed, verified, found, foreign),
                            ground (arith, well_formed, verified, found, foreign, same_rows),
                            ground (arith, well_formed, verified, found, foreign),
                          )
                          | inl own ↦
                              let done : delete_blob o w f t s hash header
                                  ≡ erase_blob f (with_node s node) r hash =
                                ground (arith, well_formed, verified, found, own) in
                              inr (
                                m,
                                ticket,
                                r,
                                (verify_ticket-accepts o w f t s.node header BlobOperation.remove
                                    hash m ticket verified).0,
                                ap (λ (rows : List BlobRecord). Table.find blob_key rows hash)
                                      (sym same_rows)
                                    ∙ found_blob_sound f.blob_get node.blobs hash r found,
                                same_text_sound r.columns.uploader_id (some m.envelope.sender_id)
                                    own,
                                IsErased-rows s node r hash other path
                                    (delete_blob o w f t s hash header)
                                    (erase_blob f (with_node s node) r hash) done same_rows
                                    (erase_blob-IsErased f (with_node s node) r hash other path),
                              )
                        ]
                ]
          ]
    ]
