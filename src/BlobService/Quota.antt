-- ===== src/BlobService/Quota.antt =====
-- The conditions of an upload in crates/server/src/blobs.rs: capability, size, hash and quota.
use n3ur0n.Registry
use n3ur0n.Prelude.{
  Option-cases, length, ok, Result-cases, ℕ, ◌+◌, ◌≤◌, ◌<◌, String, ◌≡◌, ◌≢◌, inl, inr, some, arith,
  eq_iff,
}
use n3ur0n.BlobService.{
  ShelfFaults, ShelfReadings, default_per_peer_bytes, default_per_peer_blobs, cap_allows_upload,
  check_peer_quota,
}
use n3ur0n.BlobService.Requests.{check_body, upload_terms}
use n3ur0n.BlobTypes.{BlobTicketPayload, hash_bytes}
use n3ur0n.Capability.{private, CapabilityDecl}
use n3ur0n.Clock.{unix_timestamp}
use n3ur0n.Identity.{Bytes}
use n3ur0n.Node.{Node, Outside}
use n3ur0n.Storage.Blobs.{sum_bytes_for_uploader, count_for_uploader}

-- An upload that may be stored: a capability takes it, it is what its hash and size say, and it
-- fits the quota of its uploader.
pub record IsUpload (o : Outside) (f : ShelfFaults) (t : ShelfReadings) (node : Node)
    (uploader hash : String) (ticket : BlobTicketPayload) (size : ℕ) (body : Bytes) : Type 0 where
  pub capability : String
  pub decl : CapabilityDecl
  pub named_capability : ticket.capability ≡ some capability
  pub registered : Registry.get node.registry capability ≡ some decl
  pub visible : decl.mode ≢ private
  pub named_size : ticket.size ≡ some size
  pub full : length body ≡ size
  pub hashed : hash_bytes o.crypto body ≡ hash
  pub used : ℕ
  pub summed :
      sum_bytes_for_uploader f.blob_sum node.blobs uploader (unix_timestamp t.quota_at) ≡ ok used
  pub bytes_fit : used + size ≤ default_per_peer_bytes
  pub count : ℕ
  pub counted :
      count_for_uploader f.blob_count node.blobs uploader (unix_timestamp t.quota_at) ≡ ok count
  pub blobs_fit : count < default_per_peer_blobs

cap_allows_upload_sound :
    (node : Node) (capability : String)
    → cap_allows_upload node capability ≡ ok tt
    → (d : CapabilityDecl) × (Registry.get node.registry capability ≡ some d) × (d.mode ≢ private)
unfolding cap_allows_upload
cap_allows_upload_sound node capability h =
    elim (Option-cases (Registry.get node.registry capability)) [
      | inl missing ↦ absurd (ground (arith, missing))
      | inr (d, found) ↦ (d, found, λ hidden. ground (arith, found, hidden))
    ]

upload_terms_sound :
    (node : Node) (ticket : BlobTicketPayload) (size : ℕ) (mime : String)
    → upload_terms node ticket ≡ ok (size, mime)
    → (capability : String) × (ticket.capability ≡ some capability)
      × (cap_allows_upload node capability ≡ ok tt)
      × (ticket.size ≡ some size)
unfolding upload_terms
upload_terms_sound node ticket size mime h = elim (Option-cases ticket.capability) [
  | inl unnamed ↦ absurd (ground (arith, unnamed))
  | inr (capability, named) ↦ elim (Option-cases ticket.size) [
    | inl unsized ↦ absurd (ground (arith, named, unsized))
    | inr (n, sized) ↦ elim (Option-cases ticket.mime) [
      | inl untyped ↦ absurd (ground (arith, named, sized, untyped))
      | inr (kind, typed) ↦ elim (Result-cases (cap_allows_upload node capability)) [
        | inl (problem, refused) ↦ absurd (ground (arith, named, sized, typed, refused))
        | inr (u, allowed) ↦
            (capability, named, allowed, ground (arith, named, sized, typed, allowed))
      ]
    ]
  ]
]

check_peer_quota_sound :
    (f : ShelfFaults) (t : ShelfReadings) (node : Node) (uploader : String) (size : ℕ)
    → check_peer_quota f t node uploader size ≡ ok tt
    → (used : ℕ) × (count : ℕ) × (sum_bytes_for_uploader f.blob_sum node.blobs uploader
          (unix_timestamp t.quota_at)
        ≡ ok used)
      × (used + size ≤ default_per_peer_bytes)
      × (count_for_uploader f.blob_count node.blobs uploader (unix_timestamp t.quota_at) ≡ ok count)
      × (count < default_per_peer_blobs)
unfolding check_peer_quota
check_peer_quota_sound f t node uploader size h =
    elim (Result-cases
      (sum_bytes_for_uploader f.blob_sum node.blobs uploader (unix_timestamp t.quota_at))) [
        | inl (problem, failed) ↦ absurd (ground (arith, failed))
        | inr (used, summed) ↦
            elim (Result-cases
              (count_for_uploader f.blob_count node.blobs uploader (unix_timestamp t.quota_at))) [
                | inl (problem, failed) ↦ absurd (ground (arith, summed, failed))
                | inr (count, counted) ↦ (
                  used,
                  count,
                  summed,
                  ground (arith, summed, counted),
                  counted,
                  ground (arith, summed, counted),
                )
              ]
      ]

check_body_sound :
    (o : Outside) (f : ShelfFaults) (t : ShelfReadings) (node : Node) (uploader hash : String)
    (size : ℕ) (body : Bytes)
    → check_body o f t node uploader hash size body ≡ ok tt
    → (length body ≡ size)
      × (hash_bytes o.crypto body ≡ hash)
      × (check_peer_quota f t node uploader size ≡ ok tt)
unfolding check_body
check_body_sound o f t node uploader hash size body h =
    (ground arith, ground (arith, eq_iff (hash_bytes o.crypto body) hash), ground arith)

pub IsUpload-checked :
    (o : Outside) (f : ShelfFaults) (t : ShelfReadings) (node : Node) (uploader hash : String)
    (ticket : BlobTicketPayload) (size : ℕ) (mime : String) (body : Bytes)
    → upload_terms node ticket ≡ ok (size, mime)
    → check_body o f t node uploader hash size body ≡ ok tt
    → IsUpload o f t node uploader hash ticket size body
IsUpload-checked o f t node uploader hash ticket size mime body terms good =
    let (capability, named, allowed, sized) = upload_terms_sound node ticket size mime terms in
    let (d, found, visible) = cap_allows_upload_sound node capability allowed in
    let (full, hashed, fits) = check_body_sound o f t node uploader hash size body good in
    let (used, count, summed, bytes_fit, counted, blobs_fit) =
      check_peer_quota_sound f t node uploader size fits in
    record {
      capability = capability;
      decl = d;
      named_capability = named;
      registered = found;
      visible = visible;
      named_size = sized;
      full = full;
      hashed = hashed;
      used = used;
      summed = summed;
      bytes_fit = bytes_fit;
      count = count;
      counted = counted;
      blobs_fit = blobs_fit;
    }
